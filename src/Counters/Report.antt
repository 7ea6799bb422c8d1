-- ===== src/Counters/Report.antt =====
-- `PrintStatResult` of src/compiler-rt-files/hextype_report.cc. `write_log` appends a line to a file
-- under HEXTYPE_LOG_PATH; a line stands here as its format and its numbers.
use Prim.Native.String.{String}
use hex_type.Prelude.{ℕ, ◌+◌, ◌-◌, ◌%◌, ◌^◌, List, [], ◌∷◌}
use hex_type.Counters.{
  Counts, get_val, num_update_miss, num_glo_up, num_stack_up, num_stack_rm, num_heap_up,
  num_heap_rm, num_remove_miss, num_casting, num_verified_casting, num_look_hit, num_look_miss,
  num_look_fail, num_cast_same, num_cast_hit, num_cast_miss, num_cast_no_cache_use,
  num_cast_bad_cast, num_cast_non_bad_cast, num_miss_find_obj, num_cast_bad_cast_minus,
  num_dynamic_cast, num_static_cast, num_reinterpret_cast, num_placement_new, num_bad_cast_type1,
  num_bad_cast_type2, num_bad_cast_type3, num_bad_cast_type4,
}

pub record Line : Type 0 where
  pub format : String
  pub numbers : List ℕ

abbrev line : String → List ℕ → Line
line f n = record { format = f; numbers = n }

-- Sums and differences of `unsigned long`.
abbrev pub add_long : ℕ → ℕ → ℕ
add_long a b = (a + b) % 2 ^ 64

abbrev pub sub_long : ℕ → ℕ → ℕ
sub_long a b = (a + 2 ^ 64 - b % 2 ^ 64) % 2 ^ 64

-- The heading of the summary is composed and not printed.
unfoldable pub print_stat_result : Counts → List Line
print_stat_result c =
    line "== Object Update status ==\n" ([])
    ∷ line "%lu: Object update\n" (
        (add_long (add_long (get_val c num_glo_up) (get_val c num_heap_up))
          (get_val c num_stack_up))
        ∷ [])
    ∷ line "\t%lu: Object update hit\n" (
        (sub_long
          (add_long (add_long (get_val c num_glo_up) (get_val c num_heap_up))
            (get_val c num_stack_up))
          (get_val c num_update_miss))
        ∷ [])
    ∷ line "\t%lu: Object update miss\n" ((get_val c num_update_miss) ∷ [])
    ∷ line "\t%lu: Global Object Update\n" ((get_val c num_glo_up) ∷ [])
    ∷ line "\t%lu: Heap Object Update\n" ((get_val c num_heap_up) ∷ [])
    ∷ line "\t%lu: Stack Object Update\n" ((get_val c num_stack_up) ∷ [])
    ∷ line "%lu: Object remove\n" ((add_long (get_val c num_heap_rm) (get_val c num_stack_rm)) ∷ [])
    ∷ line "\t%lu: Object remove hit\n" (
        (sub_long (add_long (get_val c num_heap_rm) (get_val c num_stack_rm))
          (get_val c num_remove_miss))
        ∷ [])
    ∷ line "\t%lu: Object remove miss\n" ((get_val c num_remove_miss) ∷ [])
    ∷ line "\t%lu: Heap object Remove\n" ((get_val c num_heap_rm) ∷ [])
    ∷ line "\t%lu: Stack object Remove\n" ((get_val c num_stack_rm) ∷ [])
    ∷ line "== Casting verification status ==\n" ([])
    ∷ line "%lu (verified %lu): Casting operation\n"
        ((get_val c num_casting) ∷ (get_val c num_verified_casting) ∷ [])
    ∷ line "\t%lu: Object lookup success\n" ((get_val c num_look_hit) ∷ [])
    ∷ line "\t%lu: Object lookup success (find in the RB-tree)\n" ((get_val c num_look_miss) ∷ [])
    ∷ line "\t%lu: Object lookup fail (fail to find object)\n" ((get_val c num_look_fail) ∷ [])
    ∷ line "%lu %lu: Verified type casting\n" (
        (get_val c num_verified_casting)
        ∷ (add_long
            (add_long (add_long (get_val c num_cast_non_bad_cast) (get_val c num_cast_same))
              (get_val c num_cast_bad_cast))
            (get_val c num_miss_find_obj))
        ∷ [])
    ∷ line "\t\t%lu: Safe casting (src and dst are same type)\n" ((get_val c num_cast_same) ∷ [])
    ∷ line "\t\t%lu: Safe casting (up casting)\n" ((get_val c num_cast_non_bad_cast) ∷ [])
    ∷ line "\t\t%lu: Type confusion cases\n" ((get_val c num_cast_bad_cast) ∷ [])
    ∷ line "\t\t%lu: Type confusion type %lu %lu %lu %lu\n" (
        (get_val c num_bad_cast_type1)
        ∷ (get_val c num_bad_cast_type2)
        ∷ (get_val c num_bad_cast_type3)
        ∷ (get_val c num_bad_cast_type4)
        ∷ [])
    ∷ line "\t\t\t%lu: Type confusion cases(minus offset)\n"
        ((get_val c num_cast_bad_cast_minus) ∷ [])
    ∷ line "\t\t%lu: No type relation info\n" ((get_val c num_miss_find_obj) ∷ [])
    ∷ line "\t%lu :Casting cache use status\n" (
        (add_long (add_long (get_val c num_cast_hit) (get_val c num_cast_miss))
          (get_val c num_cast_no_cache_use))
        ∷ [])
    ∷ line "\t\t%lu: Casting operation cache hit\n" ((get_val c num_cast_hit) ∷ [])
    ∷ line "\t\t%lu: Casting operation cache Miss\n" ((get_val c num_cast_miss) ∷ [])
    ∷ line "\t\t%lu: Casting operation no cache use\n" ((get_val c num_cast_no_cache_use) ∷ [])
    ∷ line "== Count dynamic and static cast number ==\n" ([])
    ∷ line "%lu: Check dynamic_cast number\n" ((get_val c num_dynamic_cast) ∷ [])
    ∷ line "%lu: Check static_cast number\n" ((get_val c num_static_cast) ∷ [])
    ∷ line "%lu: Check reinterpret_cast number\n" ((get_val c num_reinterpret_cast) ∷ [])
    ∷ line "%lu: reinterpret_cast objects\n" ((get_val c num_reinterpret_cast) ∷ [])
    ∷ line "%lu: placement new objects\n" ((get_val c num_placement_new) ∷ [])
    ∷ line "Objects: %lu %lu %lu\n" (
        (add_long (add_long (get_val c num_glo_up) (get_val c num_heap_up))
          (get_val c num_stack_up))
        ∷ (add_long (get_val c num_heap_rm) (get_val c num_stack_rm))
        ∷ (add_long
            (add_long
              (add_long (add_long (get_val c num_glo_up) (get_val c num_heap_up))
                (get_val c num_stack_up))
              (get_val c num_reinterpret_cast))
            (get_val c num_placement_new))
        ∷ [])
    ∷ line "Casting: %lu %lu %lu\n" (
        (get_val c num_casting)
        ∷ (get_val c num_verified_casting)
        ∷ (get_val c num_cast_bad_cast)
        ∷ [])
    ∷ []
