-- ===== src/Types/Links/Linked.antt =====
-- What `extendTypeRelationInfo` makes of the direct parents.
use hex_type.Prelude.{
  ℕ, ◌≡◌, ◌≤◌, ◌≢◌, refl, sym, ap, ◌∙◌, some, List, [], ◌∷◌, length, get_elem?, get_elem?_bound,
  get_elem?-map, get_elem?-map_cases, arith, Returns,
}
use hex_type.Types.{TypeInfo, TypeDetailInfo, hashes}
use hex_type.Types.Relations.{maxnode}
use hex_type.Types.Links.{extend_type_relation_info}
use hex_type.Types.Links.Fits.{AllFit}
use hex_type.Types.Links.Hashes.{keys, parent_keys, SameKeys, SameKeys-trans}
use hex_type.Types.Links.Resolved.{relate_types-Resolves}
use hex_type.Types.Links.Rounds.{bare, bares}
use hex_type.Types.Links.Closure.{extend_type_relation_info-linked}

-- Every direct parent whose hash another type of the vector has, has the index of a type with that hash.
abbrev pub IsLinked : List TypeInfo → Type 0
IsLinked types =
    (u : ℕ) (a : TypeInfo) (j : ℕ) (p : TypeDetailInfo) (w : ℕ) (b : TypeInfo)
    → get_elem? types u ≡ some a
    → get_elem? a.direct_parents j ≡ some p
    → get_elem? types w ≡ some b
    → w ≢ u
    → b.detail_info.type_hash_value ≡ p.type_hash_value
    → (c : TypeInfo) × (get_elem? types p.type_index ≡ some c)
      × (c.detail_info.type_hash_value ≡ p.type_hash_value)

-- A type of one vector in another that differs in what the traversals found.
bares_at :
    (ts ts' : List TypeInfo) (u : ℕ) (a : TypeInfo)
    → bares ts ≡ bares ts'
    → get_elem? ts u ≡ some a
    → (b : TypeInfo) × (get_elem? ts' u ≡ some b) × (bare b ≡ bare a)
bares_at ts ts' u a same e =
    get_elem?-map_cases bare ts' u (bare a)
      (ap (λ l. get_elem? l u) (sym same) ∙ get_elem?-map bare ts u a e)

key_at :
    (ts : List TypeInfo) (i h : ℕ)
    → get_elem? (keys ts) i ≡ some h
    → (c : TypeInfo) × (get_elem? ts i ≡ some c) × (c.detail_info.type_hash_value ≡ h)
key_at ts i h e = get_elem?-map_cases (λ t. t.detail_info.type_hash_value) ts i h e

-- From no more types than `VisitCheck` has elements, that have their own indices, relations inside the
-- vector and nothing that a traversal found, `extendTypeRelationInfo` returns, and afterwards every direct
-- parent whose hash another type of the vector has, has the index of a type with that hash.
pub extend_type_relation_info-IsLinked :
    (types : List TypeInfo)
    → length types ≤ maxnode
    → AllFit (length types) types
    → Returns (extend_type_relation_info types) IsLinked
extend_type_relation_info-IsLinked types room fits =
    let (types', run, (linked, loop, size, same, _)) =
      extend_type_relation_info-linked types room fits in
    let (keys_same, resolved) = relate_types-Resolves (keys types) types linked loop refl in
    (
      types',
      run,
      λ u a j p w b e f g n q.
          let (a₀, e₀, r) = bares_at types' linked u a same e in
          let (b₀, g₀, s) = bares_at types' linked w b same g in
          let hash : b₀.detail_info.type_hash_value ≡ p.type_hash_value =
            ap (λ (t : TypeInfo). t.detail_info.type_hash_value) s ∙ q in
          let parents = ap (λ (t : TypeInfo). t.direct_parents) r in
          let at_key : get_elem? (keys types) w ≡ some p.type_hash_value =
            ap (λ l. get_elem? l w) (sym keys_same.0)
            ∙ get_elem?-map (λ t. t.detail_info.type_hash_value) linked w b₀ g₀
            ∙ ap some hash in
          let found =
            resolved u a₀ j p w e₀ (ap (λ ds. get_elem? ds j) parents ∙ f)
              (omega (arith, get_elem?_bound types' u a e)) n at_key in
          let (c₀, h₀, k₀) =
            key_at linked p.type_index p.type_hash_value
              (ap (λ l. get_elem? l p.type_index) keys_same.0 ∙ found) in
          let (c, h, t) = bares_at linked types' p.type_index c₀ (sym same) h₀ in
          (c, h, ap (λ (x : TypeInfo). x.detail_info.type_hash_value) t ∙ k₀),
    )

bares-SameKeys : (ts ts' : List TypeInfo) → bares ts' ≡ bares ts → SameKeys ts ts'
bares-SameKeys ts ts' e = (
  keys-bares ts' ∙ ap keys e ∙ sym (keys-bares ts),
  parent_keys-bares ts' ∙ ap parent_keys e ∙ sym (parent_keys-bares ts),
)
  where
    keys-bares : (ts : List TypeInfo) → keys ts ≡ keys (bares ts)
    keys-bares [] = refl
    keys-bares (t ∷ ts) = ap (λ ks. t.detail_info.type_hash_value ∷ ks) (keys-bares ts)

    parent_keys-bares : (ts : List TypeInfo) → parent_keys ts ≡ parent_keys (bares ts)
    parent_keys-bares [] = refl
    parent_keys-bares (t ∷ ts) = ap (λ ks. hashes t.direct_parents ∷ ks) (parent_keys-bares ts)

-- The hashes of the types and of their direct parents stay what they were.
pub extend_type_relation_info-SameKeys :
    (types : List TypeInfo)
    → length types ≤ maxnode
    → AllFit (length types) types
    → Returns (extend_type_relation_info types) (SameKeys types)
extend_type_relation_info-SameKeys types room fits =
    let (types', run, (linked, loop, size, same, _)) =
      extend_type_relation_info-linked types room fits in
    let (keys_same, _) = relate_types-Resolves (keys types) types linked loop refl in
    (types', run, SameKeys-trans types linked types' keys_same (bares-SameKeys linked types' same))
