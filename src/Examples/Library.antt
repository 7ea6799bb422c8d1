-- ===== src/Examples/Library.antt =====
-- The theorems on the run-time library, in a state with one object.
use hex_type.Prelude.{
  ◌<◌, ℕ, ◌+◌, ◌^◌, ◌≡◌, refl, sym, ◌∙◌, none, some, Bool, true, false, [], ◌∷◌, ◌==◌,
  if◌then◌else◌, ◌>>=◌, inl, inr, Bool-cases, Holds, Returns, arith, ◌||◌,
}
use hex_type.Counters.{get_val, num_verified_casting}
use hex_type.RbTree.{as_int, compare, leaf, node, black, lookup_node, rbtree_lookup}
use hex_type.RbTree.Laws.{IsRbTree, is_some}
use hex_type.Runtime.{nummap, numcache, ObjInfo, Runtime, Entry, get_hash}
use hex_type.Objects.{tree_lookup, entry_find, register, remove_direct_oinfo}
use hex_type.Objects.Find.{IsObjectMap, find, new_info, register-find}
use hex_type.Objects.Remove.{remove_direct_oinfo-find}
use hex_type.Objects.Faults.{register-find_alias, remove-stale}
use hex_type.Casts.{
  cache_index, word, rule_search, rule_contains, any_rule, is_related, check_cast,
  verify_type_casting, phantoms,
}
use hex_type.Casts.Rules.{IsAscending, Decides, Related, is_related-Decides}
use hex_type.Casts.Cache.{reference, IsCoherent, check_cast-IsCoherent}
use hex_type.Casts.Bounds.{indices_bound}
use hex_type.Casts.Missing.{check_cast_twice}
use hex_type.Casts.Counts.{
  outcomes, HasVerdicts, IsSearchable, AllSearchable, verify_type_casting-balanced,
}
use hex_type.Phantoms.{
  update_phantom_info, add_rows, add_row, add_members, add_member, insert, insert_all,
}
use hex_type.Phantoms.Laws.{contains}
use hex_type.Phantoms.Rows.{IsFresh, update_phantom_info_keeps}
use hex_type.Examples.{vacant, busy, memory, one_object, words}

one_object-IsObjectMap : IsObjectMap one_object
one_object-IsObjectMap = record {
  trees = λ i. elim (Bool-cases (i == 8)) [ inl e ↦ rw e tt | inr e ↦ rw e tt ];
}

-- An address that shares the entry of address 64.
abbrev neighbour : ℕ
neighbour = 64 + 2 ^ 31

register-find_example : Returns (register neighbour 9 0 1 0 one_object) λ s'.
    IsObjectMap s'
    × (find neighbour s' ≡ some (new_info neighbour 9 0 1 0))
    × (find 64 s' ≡ find 64 one_object)
unfolding get_hash
register-find_example =
    register-find neighbour 9 0 1 0 one_object 64 one_object-IsObjectMap (omega arith) (omega arith)
      (λ e. refl)

remove_direct_oinfo-find_example :
    Returns
      (remove_direct_oinfo 64 one_object)
      λ s'. IsObjectMap s' × (find 64 s' ≡ none) × (find 128 s' ≡ find 128 one_object)
unfolding get_hash tree_lookup as_int
remove_direct_oinfo-find_example =
    remove_direct_oinfo-find 64 128 one_object one_object-IsObjectMap (omega arith) (λ e. refl)
      (omega arith) (omega arith) (λ e. omega arith)

-- 64 + 2 ^ 32 and the displaced object's address, 64, agree in the low 32 bits.
register-find_alias_example :
    Returns
      (register neighbour 9 0 1 0 one_object)
      λ s'. find (64 + 2 ^ 32) s' ≡ some (one_object.obj_type_map (get_hash neighbour)).info
unfolding get_hash as_int
register-find_alias_example =
    register-find_alias neighbour 9 0 1 0 (64 + 2 ^ 32) one_object one_object-IsObjectMap
      (omega arith) (omega arith) refl (omega arith) refl

memory-IsAscending : IsAscending memory 4096
unfolding word
memory-IsAscending i j p l q = absurd (omega arith)

is_related-Decides_example :
    Returns (is_related memory (9 ∷ []) 4096 7) (Decides (Related memory 4096 7 (9 ∷ [])))
unfolding word
is_related-Decides_example =
    is_related-Decides memory (9 ∷ []) 4096 7 memory-IsAscending (omega arith)

related_lem : is_related memory [] 4096 7 ≡ some true
unfolding is_related any_rule rule_contains rule_search word
related_lem = refl

-- Objects of each type have the rules at address 4096.
abbrev rules : ℕ → ℕ
rules type_hash = 4096

one_object-IsCoherent : IsCoherent (reference rules one_object) one_object.verify_result_cache
one_object-IsCoherent = record { right = λ x y n e f. absurd (n (sym e ∙ f)) }

check_cast-IsCoherent_example : Returns (check_cast busy.info 7 64 one_object) λ r.
    (r.0 ≡ (if busy.info.type_hash_value == 7 || true then 64 else 0))
    × IsCoherent (reference rules r.1) r.1.verify_result_cache
check_cast-IsCoherent_example =
    check_cast-IsCoherent rules busy.info 7 64 true one_object refl (omega arith) related_lem
      one_object-IsCoherent

one_object-HasVerdicts : HasVerdicts one_object
one_object-HasVerdicts i = omega arith

busy-IsSearchable : IsSearchable one_object 7 busy.info
busy-IsSearchable given e = ground (arith, sym related_lem ∙ e)

entry-IsSearchable :
    (b : Bool) (p : ℕ)
    → Holds (entry_find (if b then busy else vacant) p) (IsSearchable one_object 7)
unfolding tree_lookup
entry-IsSearchable true p = elim (Bool-cases (64 == p)) [
  | inl front ↦ rw front busy-IsSearchable
  | inr behind ↦ rw behind tt
]
entry-IsSearchable false p = elim (Bool-cases (0 == p)) [
  | inl front ↦ rw front (λ given. absurd (given refl))
  | inr behind ↦ rw behind tt
]

one_object-AllSearchable : AllSearchable one_object 7
one_object-AllSearchable p = entry-IsSearchable (get_hash p == 8) p

verify_type_casting-balanced_example :
    Returns
      (verify_type_casting 64 64 7 one_object)
      λ r. outcomes r.1 ≡ get_val r.1.counts num_verified_casting
verify_type_casting-balanced_example =
    verify_type_casting-balanced 64 64 7 one_object one_object-HasVerdicts one_object-AllSearchable
      (ground arith)

-- A table of one row: type 5 has the phantoms 5 and 6.
abbrev phantom_table : ℕ → ℕ
phantom_table = words (1 ∷ 5 ∷ 2 ∷ 5 ∷ 6 ∷ [])

one_object-IsFresh : IsFresh one_object
one_object-IsFresh = record { below = λ h q e. ground arith }

indices_bound_example : (get_hash 18446744073709551615 < nummap) × (cache_index 5 7 < numcache)
indices_bound_example = indices_bound 18446744073709551615 5 7

-- The state after this table, in which a second one redirects type 5 to the set of type 6.
abbrev phantom_state : Runtime
phantom_state = update_phantom_info phantom_table one_object

phantom_state-IsFresh : IsFresh phantom_state
unfolding update_phantom_info add_rows add_row add_members add_member
phantom_state-IsFresh = record { below = λ h q e. ground arith }

phantom_lem : contains 6 (phantoms phantom_state 5) ≡ true
unfolding update_phantom_info add_rows add_row add_members add_member insert insert_all
phantom_lem = refl

abbrev second_table : ℕ → ℕ
second_table = words (1 ∷ 6 ∷ 2 ∷ 5 ∷ 8 ∷ [])

update_phantom_info_keeps_example :
    contains 6 (phantoms (update_phantom_info second_table phantom_state) 5) ≡ true
update_phantom_info_keeps_example =
    update_phantom_info_keeps second_table 5 6 phantom_state phantom_state-IsFresh phantom_lem

-- The tree of the entry holds an object that stood at address 64 before.
abbrev layered : Entry
layered = record busy { hex_tree = some (node black leaf 64 busy.info leaf) }

abbrev two_objects : Runtime
two_objects = record one_object { obj_type_map = λ i. if i == 8 then layered else vacant }

layered-IsRbTree : IsRbTree (node black leaf 64 busy.info leaf)
layered-IsRbTree = record { balanced = ground arith; sorted = (tt, tt) }

two_objects-IsObjectMap : IsObjectMap two_objects
two_objects-IsObjectMap = record {
  trees = λ i. elim (Bool-cases (i == 8)) [ inl e ↦ rw e layered-IsRbTree | inr e ↦ rw e tt ];
}

remove-stale_example :
    Returns
      (register 64 9 0 1 0 two_objects >>= remove_direct_oinfo 64)
      λ s'. is_some (find 64 s') ≡ true
unfolding get_hash tree_lookup rbtree_lookup lookup_node compare as_int
remove-stale_example =
    remove-stale 64 9 0 1 0 busy.info two_objects two_objects-IsObjectMap (omega arith) refl

-- An object of type 5, without rules.
abbrev bare : ObjInfo
bare = record (busy.info) { rule_addr = 0 }

check_cast_twice_example :
    Returns
      (check_cast bare 7 64 one_object)
      λ r. (r.0 ≡ 0) × Returns (check_cast bare 7 64 r.1) λ q. q.0 ≡ 64
check_cast_twice_example = check_cast_twice bare 7 64 one_object refl refl refl
