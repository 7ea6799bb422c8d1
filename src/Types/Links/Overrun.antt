-- ===== src/Types/Links/Overrun.antt =====
-- What `extendTypeRelationInfo` does with more types than the array `VisitCheck` has elements.
use hex_type.Prelude.{
  ℕ, ◌<◌, ◌≤◌, ◌≡◌, refl, sym, ◌∙◌, none, some, true, List, [], ◌∷◌, ltb, length, get_elem?, inl,
  inr, Bool-cases, Option-cases, ◌>>=◌, arith,
}
use hex_type.Types.{TypeInfo, TypeDetailInfo}
use hex_type.Types.Relations.{maxnode, parent_edges, traverse, extend_type}
use hex_type.Types.Links.{extend_type_relation_info}
use hex_type.Types.Links.Fits.{AllFit, counts, relate_types-Table}

traverse_overrun :
    (edges : TypeInfo → List ℕ) (types : List TypeInfo) (i : ℕ) (found : List TypeDetailInfo)
    → maxnode < length types
    → traverse edges types i found ≡ none
unfolding traverse
traverse_overrun edges types i found over =
    let full : ltb maxnode (length types) ≡ true = ground (arith, over) in rw full refl

extend_type_overrun :
    (i : ℕ) (types : List TypeInfo) → maxnode < length types → extend_type i types ≡ none
unfolding extend_type
extend_type_overrun i types over = elim (Option-cases (get_elem? types i)) [
  | inl e ↦ rw (e, ◌>>=◌) refl
  | inr (t, e) ↦
      rw (e, ◌>>=◌) (rw (traverse_overrun parent_edges types i t.all_parents over, ◌>>=◌) refl)
]

-- From more than 1000000 types that have their own indices, relations inside the vector and nothing
-- that a traversal found, the first `fill_n` writes behind `VisitCheck`.
pub extend_type_relation_info-overrun :
    (types : List TypeInfo)
    → maxnode < length types
    → AllFit (length types) types
    → extend_type_relation_info types ≡ none
unfolding extend_type_relation_info
extend_type_relation_info-overrun [] over fits = absurd (omega arith)
extend_type_relation_info-overrun (t ∷ ts) over fits =
    let types = t ∷ ts in
    let (linked, run, (size, _, _)) =
      relate_types-Table (length types) (counts types) types (refl, fits, refl) in
    rw (run, ◌>>=◌) (rw (extend_type_overrun 0 linked (omega arith), ◌>>=◌) refl)

-- A run that returns had no more types than the array has elements.
pub extend_type_relation_info-bound :
    (types types' : List TypeInfo)
    → AllFit (length types) types
    → extend_type_relation_info types ≡ some types'
    → length types ≤ maxnode
extend_type_relation_info-bound types types' fits e =
    elim (Bool-cases (ltb maxnode (length types))) [
      | inl over ↦
          let stuck = extend_type_relation_info-overrun types (ground arith) fits in
          let q = sym stuck ∙ e in cc
      | inr room ↦ ground arith
    ]
