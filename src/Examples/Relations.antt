-- ===== src/Examples/Relations.antt =====
-- The theorems on the relations between types, on a class with its base class, which have the same
-- size.
use hex_type.Prelude.{
  ℕ, zero, suc, ◌+◌, ◌*◌, ◌/◌, ◌%◌, ◌^◌, ◌<◌, ◌≡◌, refl, ap, subst, ◌∙◌, none, some, true, List, [],
  ◌∷◌, ◌++◌, inl, inr, length, get_elem?_bound, some_inj, Returns, arith,
}
use hex_type.Casts.{rule_contains}
use hex_type.Types.{
  TypeInfo, sorted_hashes, sort_set, sort, sort_into, get_sorted_all_parent_set,
  get_sorted_all_phantom_set, rule_position,
}
use hex_type.Phantoms.{insert_all, insert}
use hex_type.Types.Rules.{Loaded}
use hex_type.Types.Relations.{extend_set, traverse, extend_type}
use hex_type.Types.Links.{relate, relate_type, extend_type_relation_info}
use hex_type.Types.Links.Fits.{Fits, AllFit}
use hex_type.Types.Links.Closure.{Closed, extend_type_relation_info-Closed}
use hex_type.Types.Links.Search.{LeadsTo, rules-LeadsTo}
use hex_type.Types.PhantomTable.{read, update_phantom_info-table}
use hex_type.Phantoms.Laws.{contains}
use hex_type.Phantoms.Rows.{IsFresh}
use hex_type.Phantoms.{update_phantom_info}
use hex_type.Casts.{phantoms}
use hex_type.Examples.{detail, words, one_object}

abbrev derived : TypeInfo
derived = record {
  alloc_size = 16;
  detail_info = detail 5 0;
  element_size = 1;
  direct_parents = detail 7 0 ∷ [];
  direct_phantom_types = [];
  all_parents = [];
  all_phantom_types = [];
}

abbrev base : TypeInfo
base = record {
  alloc_size = 16;
  detail_info = detail 7 1;
  element_size = 0;
  direct_parents = [];
  direct_phantom_types = [];
  all_parents = [];
  all_phantom_types = [];
}

abbrev classes : List TypeInfo
classes = derived ∷ base ∷ []

classes-AllFit : AllFit 2 classes
classes-AllFit zero t e =
    subst (λ x. Fits 2 0 x) (some_inj derived t e)
      (
        refl,
        λ j h. elim h [ inl q ↦ omega arith | inr z ↦ absurd z ],
        λ j h. absurd h,
        (refl, refl),
      )
classes-AllFit (suc zero) t e =
    subst (λ x. Fits 2 1 x) (some_inj base t e)
      (refl, λ j h. absurd h, λ j h. absurd h, (refl, refl))
classes-AllFit (suc (suc u)) t e = cc

extend_type_relation_info-Closed_example :
    Returns (extend_type_relation_info classes) λ types. (length types ≡ 2) × Closed types
extend_type_relation_info-Closed_example =
    extend_type_relation_info-Closed classes (omega arith) classes-AllFit

abbrev derived_closed : TypeInfo
derived_closed = record derived {
  direct_parents = detail 7 1 ∷ [];
  direct_phantom_types = detail 7 1 ∷ [];
  all_parents = detail 5 0 ∷ detail 7 1 ∷ [];
  all_phantom_types = detail 5 0 ∷ detail 7 1 ∷ [];
}

abbrev base_closed : TypeInfo
base_closed = record base {
  direct_phantom_types = detail 5 0 ∷ [];
  all_parents = detail 7 1 ∷ detail 5 0 ∷ [];
  all_phantom_types = detail 7 1 ∷ detail 5 0 ∷ [];
}

classes-closed : extend_type_relation_info classes ≡ some ([] ++ derived_closed ∷ base_closed ∷ [])
unfolding extend_type_relation_info relate_type relate extend_type traverse extend_set
classes-closed = refl

abbrev table : List ℕ
table = get_sorted_all_parent_set (derived_closed ∷ base_closed ∷ [])

table_lem : table ≡ (2 ∷ 5 ∷ 2 ∷ 5 ∷ 7 ∷ 7 ∷ 2 ∷ 5 ∷ 7 ∷ [])
unfolding get_sorted_all_parent_set sorted_hashes sort_set sort sort_into insert_all insert
table_lem = refl

abbrev table_memory : ℕ → ℕ
table_memory a = words table (a / 8)

table-Loaded : Loaded table_memory 0 table
table-Loaded i w e =
    let bound : i < 9 = subst (λ t. i < length t) table_lem (get_elem?_bound table i w e) in
    let place : (0 + 8 * i) % 2 ^ 64 / 8 ≡ i = omega arith in
    ap (words table) place ∙ ap (λ o. elim o [ none ↦ 0 | some x ↦ x ]) e

small_lem : length (sorted_hashes derived_closed.all_parents) < 2 ^ 63
unfolding sorted_hashes sort_set sort sort_into insert_all insert
small_lem = omega arith

rules-LeadsTo_example :
    (p : ℕ) × (rule_position table 5 ≡ some p)
    × Returns (rule_contains table_memory ((0 + 8 * p) % 2 ^ 64) 7) λ b.
      (b ≡ true → LeadsTo (derived_closed ∷ base_closed ∷ []) 0 7)
      × (LeadsTo (derived_closed ∷ base_closed ∷ []) 0 7 → b ≡ true)
rules-LeadsTo_example =
    rules-LeadsTo classes [] derived_closed (base_closed ∷ []) table_memory 0 7 classes-AllFit
      classes-closed tt table-Loaded small_lem

no_sets-IsFresh : IsFresh one_object
no_sets-IsFresh = record { below = λ h q e. ground arith }

update_phantom_info-table_example :
    contains 5 (
      phantoms
        (update_phantom_info
          (read (get_sorted_all_phantom_set (derived_closed ∷ base_closed ∷ [])))
          one_object)
        7)
    ≡ true
update_phantom_info-table_example =
    update_phantom_info-table (derived_closed ∷ []) base_closed [] 5 one_object refl no_sets-IsFresh
      refl
