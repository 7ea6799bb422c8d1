-- ===== src/Types/Links/Hashes.antt =====
-- The indices that `extendTypeRelationInfo` gives to direct parents lead to types with their hashes.
use hex_type.Prelude.{
  ℕ, zero, suc, ◌≡◌, ◌≢◌, refl, sym, ap, ◌∙◌, ◌⊎◌, some, List, [], ◌∷◌, inl, inr, Bool-cases,
  get_elem?, get_elem?-modify_cases, modify, map, map-modify, ◌==◌,
}
use hex_type.Types.{TypeInfo, TypeDetailInfo, hashes}
use hex_type.Types.Links.{set_index, index_parent, push_phantom, link}

-- The hashes of the types, and those of their direct parents.
abbrev pub keys : List TypeInfo → List ℕ
keys = map (λ (t : TypeInfo). t.detail_info.type_hash_value)

abbrev pub parent_keys : List TypeInfo → List (List ℕ)
parent_keys = map (λ (t : TypeInfo). hashes t.direct_parents)

-- What no step changes.
abbrev pub SameKeys : List TypeInfo → List TypeInfo → Type 0
SameKeys ts ts' = (keys ts' ≡ keys ts) × (parent_keys ts' ≡ parent_keys ts)

hashes-modify :
    (ds : List TypeDetailInfo) (j t : ℕ) → hashes (modify ds j (set_index t)) ≡ hashes ds
hashes-modify [] j t = refl
hashes-modify (d ∷ ds) zero t = refl
hashes-modify (d ∷ ds) (suc j) t = ap (λ hs. d.type_hash_value ∷ hs) (hashes-modify ds j t)

modify-SameKeys :
    (ts : List TypeInfo) (i : ℕ) (f : TypeInfo → TypeInfo)
    → ((x : TypeInfo) → (f x).detail_info ≡ x.detail_info)
    → ((x : TypeInfo) → hashes (f x).direct_parents ≡ hashes x.direct_parents)
    → SameKeys ts (modify ts i f)
modify-SameKeys ts i f d p = (
  map-modify (λ t. t.detail_info.type_hash_value) ts i f
      (λ x. ap (λ (y : TypeDetailInfo). y.type_hash_value) (d x)),
  map-modify (λ t. hashes t.direct_parents) ts i f p,
)

pub SameKeys-trans : (r s t : List TypeInfo) → SameKeys r s → SameKeys s t → SameKeys r t
SameKeys-trans r s t (a, b) (c, d) = (c ∙ a, d ∙ b)

pub link-SameKeys :
    (i j t : ℕ) (a b : TypeInfo) (ts : List TypeInfo) → SameKeys ts (link i j t a b ts)
link-SameKeys i j t a b ts =
    let ts₁ = modify ts i (index_parent j t) in
    let ts₂ = modify ts₁ i (push_phantom b.detail_info) in
    let first =
      modify-SameKeys ts i (index_parent j t) (λ x. refl)
        (λ x. hashes-modify x.direct_parents j t) in
    elim (Bool-cases (a.alloc_size == b.alloc_size)) [
      | inr e ↦ rw e first
      | inl e ↦ rw e (
          SameKeys-trans ts ts₁ (modify ts₂ t (push_phantom a.detail_info)) first (
            SameKeys-trans ts₁ ts₂ (modify ts₂ t (push_phantom a.detail_info))
              (modify-SameKeys ts₁ i (push_phantom b.detail_info) (λ x. refl) (λ x. refl))
              (modify-SameKeys ts₂ t (push_phantom a.detail_info) (λ x. refl) (λ x. refl))))
    ]

-- The direct parents of a type, after a step that leaves them alone.
push_parents :
    (ts : List TypeInfo) (i u : ℕ) (d : TypeDetailInfo) (x : TypeInfo)
    → get_elem? (modify ts i (push_phantom d)) u ≡ some x
    → (y : TypeInfo) × (get_elem? ts u ≡ some y) × (x.direct_parents ≡ y.direct_parents)
push_parents ts i u d x e = elim (get_elem?-modify_cases ts i u (push_phantom d) x e) [
  | inl (_, q) ↦ (x, q, refl)
  | inr (q, y, f, r) ↦ (y, ap (get_elem? ts) q ∙ f, ap (λ (z : TypeInfo). z.direct_parents) (sym r))
]

-- And after the linking.
pub link_parents :
    (i j t u : ℕ) (a b : TypeInfo) (ts : List TypeInfo) (x : TypeInfo)
    → get_elem? (link i j t a b ts) u ≡ some x
    → (y : TypeInfo) × (get_elem? ts u ≡ some y)
      × (((u ≢ i) × (x.direct_parents ≡ y.direct_parents))
          ⊎ ((u ≡ i) × (x.direct_parents ≡ modify y.direct_parents j (set_index t))))
link_parents i j t u a b ts x e =
    let ts₁ = modify ts i (index_parent j t) in
    let ts₂ = modify ts₁ i (push_phantom b.detail_info) in
    elim (Bool-cases (a.alloc_size == b.alloc_size)) [
      | inr f ↦ indexed x (rw f at e)
      | inl f ↦
          let (y, g, q) = push_parents ts₂ t u a.detail_info x (rw f at e) in
          let (z, h, r) = push_parents ts₁ i u b.detail_info y g in
          let (v, k, c) = indexed z h in
          (v, k, elim c [ inl (n, s) ↦ inl (n, q ∙ r ∙ s) | inr (n, s) ↦ inr (n, q ∙ r ∙ s) ])
    ]
  where
    indexed :
        (z : TypeInfo)
        → get_elem? (modify ts i (index_parent j t)) u ≡ some z
        → (y : TypeInfo) × (get_elem? ts u ≡ some y)
          × (((u ≢ i) × (z.direct_parents ≡ y.direct_parents))
              ⊎ ((u ≡ i) × (z.direct_parents ≡ modify y.direct_parents j (set_index t))))
    indexed z h = elim (get_elem?-modify_cases ts i u (index_parent j t) z h) [
      | inl (n, q) ↦ (z, q, inl (n, refl))
      | inr (n, y, q, r) ↦
          (y, ap (get_elem? ts) n ∙ q, inr (n, ap (λ (v : TypeInfo). v.direct_parents) (sym r)))
    ]
