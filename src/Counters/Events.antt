-- ===== src/Counters/Events.antt =====
-- `__obj_update_count` and `__obj_remove_count` of src/compiler-rt-files/hextype.cc, which the emitted
-- code calls.
use hex_type.Prelude.{ℕ, ◌+◌, ◌-◌, ◌%◌, ◌^◌, ltb, ◌==◌, ◌||◌, if◌then◌else◌}
use hex_type.Counters.{
  Counts, inc_val, num_stack_up, num_glo_up, num_heap_up, num_placement_new, num_reinterpret_cast,
  num_stack_rm,
}
use hex_type.Runtime.{stackalloc, heapalloc, globalalloc, realloc, placementnew, reinterpret}

-- The argument of `IncVal` is an `int`, which is sign-extended.
abbrev pub as_count : ℕ → ℕ
as_count vla = if ltb (vla % 2 ^ 32) (2 ^ 31) then vla % 2 ^ 32 else vla % 2 ^ 32 + 2 ^ 64 - 2 ^ 32

unfoldable pub obj_update_count : ℕ → ℕ → Counts → Counts
obj_update_count obj_update_type vla c =
    if obj_update_type == stackalloc
    then inc_val num_stack_up (as_count vla) c
    else if obj_update_type == globalalloc
    then inc_val num_glo_up (as_count vla) c
    else if obj_update_type == heapalloc || obj_update_type == realloc
    then inc_val num_heap_up (as_count vla) c
    else if obj_update_type == placementnew
    then inc_val num_placement_new (as_count vla) c
    else if obj_update_type == reinterpret
    then inc_val num_reinterpret_cast (as_count vla) c
    else c

unfoldable pub obj_remove_count : ℕ → ℕ → Counts → Counts
obj_remove_count obj_update_type vla c =
    if obj_update_type == stackalloc then inc_val num_stack_rm (as_count vla) c else c
