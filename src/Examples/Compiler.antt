-- ===== src/Examples/Compiler.antt =====
-- The theorems on the compiler's tables, on two types.
use hex_type.Prelude.{
  get_elem?_bound, Bool, ℕ, ◌+◌, ◌*◌, ◌/◌, ◌%◌, ◌^◌, ◌<◌, ◌≡◌, refl, subst, ap, ◌∙◌, none, some,
  List, [], ◌∷◌, Returns, arith,
}
use hex_type.Casts.{rule_contains}
use hex_type.Phantoms.Laws.{contains}
use hex_type.Types.{
  hashes, sorted_hashes, get_sorted_all_parent_set, rule_position, sort_set, sort, sort_into,
}
use hex_type.Phantoms.{insert_all, insert}
use hex_type.Types.Rules.{Loaded, rules-contains}
use hex_type.Names.{starts_with, find, remove_target_str}
use hex_type.Names.Removal.{remove_target_str-find}
use hex_type.Layout.{
  Element, Ty, array_type, struct_type, field, no_fields, tracked_type, get_array_offsets,
}
use hex_type.Layout.Casting.{
  is_casting_related, filter, remove_non_casting_related_obj, remove_non_casting_related_obj-filter,
}
use hex_type.Layout.Distinct.{Distinct, get_array_offsets-Distinct}
use hex_type.Prelude.{length, false}
use hex_type.Examples.{parent, child, words}

abbrev table : List ℕ
table = get_sorted_all_parent_set (parent ∷ child ∷ [])

abbrev table_memory : ℕ → ℕ
table_memory a = words table (a / 8)

table_lem : table ≡ (2 ∷ 7 ∷ 1 ∷ 7 ∷ 5 ∷ 2 ∷ 5 ∷ 7 ∷ [])
unfolding get_sorted_all_parent_set sorted_hashes sort_set sort sort_into insert_all insert
table_lem = refl

table-Loaded : Loaded table_memory 0 table
table-Loaded i w e =
    let bound : i < 8 = subst (λ t. i < length t) table_lem (get_elem?_bound table i w e) in
    let place : (0 + 8 * i) % 2 ^ 64 / 8 ≡ i = omega arith in
    ap (words table) place ∙ ap (λ o. elim o [ none ↦ 0 | some x ↦ x ]) e

small_lem : length (sorted_hashes child.all_parents) < 2 ^ 63
unfolding sorted_hashes sort_set sort sort_into insert_all insert
small_lem = omega arith

rules-contains_example :
    (p : ℕ) × (rule_position table 5 ≡ some p)
    × Returns
        (rule_contains table_memory ((0 + 8 * p) % 2 ^ 64) 7)
        λ b. b ≡ contains 7 (hashes child.all_parents)
rules-contains_example =
    rules-contains (parent ∷ []) child [] table_memory 0 7 (refl, tt) table-Loaded small_lem

-- "std::x::y", without its scopes
remove_target_str-find_example :
    Returns
      (remove_target_str (115 ∷ 58 ∷ 58 ∷ 120 ∷ 58 ∷ 58 ∷ 121 ∷ []) (58 ∷ 58 ∷ []))
      λ r. find (58 ∷ 58 ∷ []) r ≡ none
remove_target_str-find_example =
    remove_target_str-find (115 ∷ 58 ∷ 58 ∷ 120 ∷ 58 ∷ 58 ∷ 121 ∷ []) 58 (58 ∷ [])

-- An array of two structures, whose first field is a structure.
abbrev pair : Ty
pair = array_type 2 16 (
    struct_type tracked_type false false (
      field 0 (struct_type tracked_type false false no_fields)
        (field 8 (struct_type tracked_type false false no_fields) no_fields)))

get_array_offsets-Distinct_example : Distinct (get_array_offsets pair 0 [])
get_array_offsets-Distinct_example = get_array_offsets-Distinct pair 0

-- A recorded structure and one of another name, of which the first takes part in casts.
abbrev elements : List Element
elements = record { offset = 0; name = 65 ∷ [] } ∷ record { offset = 8; name = 66 ∷ [] } ∷ []

abbrev casting_related : List ℕ → Bool
casting_related name = starts_with (65 ∷ []) name

remove_non_casting_related_obj-filter_example :
    remove_non_casting_related_obj casting_related elements
    ≡ some (filter (is_casting_related casting_related) elements)
remove_non_casting_related_obj-filter_example =
    remove_non_casting_related_obj-filter casting_related elements
