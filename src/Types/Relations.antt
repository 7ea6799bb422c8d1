-- ===== src/Types/Relations.antt =====
-- The relations between types, src/llvm-files/HexTypeUtil.cpp: `extendTypeRelationInfo`, the two
-- traversals that it starts and the relations that `getTypeInfoFromClang` reads. The vector
-- `AllTypeInfo` is a list, whose length is `AllTypeNum`.
pub mod Reach
pub mod Spans
pub mod Steps
pub mod Traversal
use hex_type.Prelude.{
  ℕ, zero, suc, ◌+◌, Option, none, some, Bool, true, false, List, [], ◌∷◌, ◌++◌, ◌&&◌, not, ltb,
  ◌==◌, if◌then◌else◌, ◌>>=◌, length, get_elem?, modify, each,
}
use hex_type.Types.{TypeDetailInfo, TypeInfo}

-- The vector of types, and the indices of the direct relations of one of them.
abbrev pub indices : List TypeDetailInfo → List ℕ
indices [] = []
indices (d ∷ ds) = d.type_index ∷ indices ds

abbrev pub parent_edges : TypeInfo → List ℕ
parent_edges t = indices t.direct_parents ++ indices t.direct_phantom_types

abbrev pub phantom_edges : TypeInfo → List ℕ
phantom_edges t = indices t.direct_phantom_types

-- The first `AllTypeNum` elements of `VisitCheck`, and the vector of the target that a traversal fills.
pub record Visit : Type 0 where
  pub visit_check : List Bool
  pub found : List TypeDetailInfo

abbrev pub marked : List Bool → ℕ → Bool
marked [] i = false
marked (b ∷ bs) zero = b
marked (b ∷ bs) (suc i) = marked bs i

-- What happens at a type that has not been visited, before its relations are followed.
abbrev pub enter : ℕ → TypeInfo → Visit → Visit
enter current t v = record {
  visit_check = modify v.visit_check current (λ b. true);
  found = v.found ++ t.detail_info ∷ [];
}

-- `extendParentSet` and `extendPhantomSet`, which differ in the relations that they follow. `none`
-- is an index out of range, or no more fuel.
unfoldable pub extend_set : (TypeInfo → List ℕ) → List TypeInfo → ℕ → ℕ → Visit → Option Visit
extend_set edges types zero current v = none
extend_set edges types (suc fuel) current v = elim (marked v.visit_check current) [
  | true ↦ some v
  | false ↦ elim (get_elem? types current) [
    | none ↦ none
    | some t ↦ each (extend_set edges types fuel) (edges t) (enter current t v)
  ]
]

-- `MAXNODE`, the size of the array `VisitCheck`
abbrev pub maxnode : ℕ
maxnode = 1000000

abbrev pub all_false : List TypeInfo → List Bool
all_false [] = []
all_false (t ∷ ts) = false ∷ all_false ts

-- `std::fill_n(VisitCheck, AllTypeNum, false)`; `none` is a write behind the array.
abbrev pub blank : List TypeInfo → Option (List Bool)
blank types = if ltb maxnode (length types) then none else some (all_false types)

-- A traversal from a type, into a vector.
unfoldable pub traverse :
    (TypeInfo → List ℕ) → List TypeInfo → ℕ → List TypeDetailInfo → Option (List TypeDetailInfo)
traverse edges types i found = do
  visit_check ← blank types
  v ←
      extend_set edges types (suc (length types)) i
        (record { visit_check = visit_check; found = found })
  some v.found

-- A round of the second loop of `extendTypeRelationInfo`.
unfoldable pub extend_type : ℕ → List TypeInfo → Option (List TypeInfo)
extend_type i types = do
  t ← get_elem? types i
  parents ← traverse parent_edges types i t.all_parents
  let types₁ = modify types i (λ (a : TypeInfo). record a { all_parents = parents })
  phantoms ← traverse phantom_edges types₁ i t.all_phantom_types
  some (modify types₁ i (λ (a : TypeInfo). record a { all_phantom_types = phantoms }))
