-- ===== src/Counters.antt =====
-- The counters of src/compiler-rt-files/hextype_report.h and hextype_report.cc. A counter is an
-- `unsigned long` of 64 bits.
pub mod Report
pub mod Events
use hex_type.Prelude.{ℕ, ◌+◌, ◌%◌, ◌^◌, ◌==◌, if◌then◌else◌}

abbrev pub num_update : ℕ
num_update = 1

abbrev pub num_update_hit : ℕ
num_update_hit = 2

abbrev pub num_update_miss : ℕ
num_update_miss = 3

abbrev pub num_glo_up : ℕ
num_glo_up = 4

abbrev pub num_stack_up : ℕ
num_stack_up = 5

abbrev pub num_stack_rm : ℕ
num_stack_rm = 6

abbrev pub num_heap_up : ℕ
num_heap_up = 7

abbrev pub num_heap_rm : ℕ
num_heap_rm = 8

abbrev pub num_remove_hit : ℕ
num_remove_hit = 9

abbrev pub num_remove_miss : ℕ
num_remove_miss = 10

abbrev pub num_casting : ℕ
num_casting = 11

abbrev pub num_verified_casting : ℕ
num_verified_casting = 12

abbrev pub num_casting_null : ℕ
num_casting_null = 13

abbrev pub num_hash_map_null : ℕ
num_hash_map_null = 14

abbrev pub num_look_hit : ℕ
num_look_hit = 15

abbrev pub num_look_miss : ℕ
num_look_miss = 16

abbrev pub num_look_fail : ℕ
num_look_fail = 17

abbrev pub num_cast_same : ℕ
num_cast_same = 18

abbrev pub num_cast_hit : ℕ
num_cast_hit = 19

abbrev pub num_cast_miss : ℕ
num_cast_miss = 20

abbrev pub num_cast_no_cache_use : ℕ
num_cast_no_cache_use = 21

abbrev pub num_cast_bad_cast : ℕ
num_cast_bad_cast = 22

abbrev pub num_cast_non_bad_cast : ℕ
num_cast_non_bad_cast = 23

abbrev pub num_miss_find_obj : ℕ
num_miss_find_obj = 24

abbrev pub num_cast_bad_cast_minus : ℕ
num_cast_bad_cast_minus = 25

abbrev pub num_realloc : ℕ
num_realloc = 26

abbrev pub num_dynamic_cast : ℕ
num_dynamic_cast = 27

abbrev pub num_static_cast : ℕ
num_static_cast = 28

abbrev pub num_reinterpret_cast : ℕ
num_reinterpret_cast = 29

abbrev pub num_placement_new : ℕ
num_placement_new = 30

abbrev pub num_rules_null : ℕ
num_rules_null = 31

abbrev pub num_bad_cast_type1 : ℕ
num_bad_cast_type1 = 32

abbrev pub num_bad_cast_type2 : ℕ
num_bad_cast_type2 = 33

abbrev pub num_bad_cast_type3 : ℕ
num_bad_cast_type3 = 34

abbrev pub num_bad_cast_type4 : ℕ
num_bad_cast_type4 = 35

-- `count_index`
abbrev pub Counts : Type 0
Counts = ℕ → ℕ

-- `IncVal`; `fetch_add` wraps around.
abbrev pub inc_val : ℕ → ℕ → Counts → Counts
inc_val index count c i = if index == i then (c i + count) % 2 ^ 64 else c i

-- `getVal`
abbrev pub get_val : Counts → ℕ → ℕ
get_val c index = c index
