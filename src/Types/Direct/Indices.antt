-- ===== src/Types/Direct/Indices.antt =====
-- The collection of a module's types returns, and each type gets its own index.
use hex_type.Prelude.{
  ℕ, zero, suc, ◌+◌, ◌≡◌, ◌≢◌, refl, subst, ◌∙◌, Option, none, some, List, [], ◌∷◌, inl, inr,
  Bool-cases, Option-cases, Has, ap, length, get_elem?, arith, Returns, ◌>>=◌, some_inj,
}
use hex_type.Names.{sync_type_name, get_hash_value_from_sty}
use hex_type.Names.Removal.{sync_ends, get_hash_value_from_sty_ends}
use hex_type.Layout.{
  array_type, struct_type, other_type, Fields, no_fields, field, is_interesting_struct_type,
}
use hex_type.Types.{TypeDetailInfo, TypeInfo}
use hex_type.Types.Direct.{
  StructTy, set_type_detail_info, element_parents, parsing_type_info, is_collected, collected,
  direct_types, elements_size,
}
use hex_type.Types.Relations.{indices}

-- A run that ends.
Returns_of : {A : Type 0} (r : Option A) → r ≢ none → (a : A) × (r ≡ some a)
Returns_of r n = elim (Option-cases r) [ inl e ↦ absurd (n e) | inr s ↦ s ]

set_type_detail_info-Returns :
    (name : List ℕ) (i : ℕ) → Returns (set_type_detail_info name i) λ d. d.type_index ≡ i
unfolding set_type_detail_info
set_type_detail_info-Returns name i =
    let (str, e) = Returns_of (sync_type_name name) (sync_ends name) in
    let (hash, h) = Returns_of (get_hash_value_from_sty name) (get_hash_value_from_sty_ends name) in
    (
      record { type_hash_value = hash; type_index = i; type_name = str },
      rw (e, ◌>>=◌) (rw (h, ◌>>=◌) refl),
      refl,
    )

-- The parents have the index 0.
abbrev pub AtZero : List TypeDetailInfo → Type 0
AtZero ds = (j : ℕ) → Has j (indices ds) → j ≡ 0

AtZero-cons :
    (d : TypeDetailInfo) (ds : List TypeDetailInfo) → d.type_index ≡ 0 → AtZero ds → AtZero (d ∷ ds)
AtZero-cons d ds e z j (inl q) = q ∙ e
AtZero-cons d ds e z j (inr h) = z j h

element_parents-Returns : (parts : Fields) → Returns (element_parents parts) AtZero
unfolding element_parents
element_parents-Returns no_fields = ([], refl, λ j h. absurd h)
element_parents-Returns (field o (struct_type name literal opaque parts) rest) =
    let (ds, e, z) = element_parents-Returns rest in
    elim (Bool-cases (is_interesting_struct_type name literal opaque)) [
      | inl y ↦
          let (d, f, i) = set_type_detail_info-Returns name 0 in
          (d ∷ ds, rw (e, ◌>>=◌) (rw (y, f) refl), AtZero-cons d ds i z)
      | inr y ↦ (ds, rw (e, ◌>>=◌) (rw y refl), z)
    ]
element_parents-Returns (field o (array_type n size ty) rest) = element_parents-Returns rest
element_parents-Returns (field o other_type rest) = element_parents-Returns rest

-- A type that the module's structures give fits at its index.
abbrev pub Direct : ℕ → TypeInfo → Type 0
Direct i t =
    (t.detail_info.type_index ≡ i)
    × AtZero t.direct_parents
    × (t.direct_phantom_types ≡ [])
    × ((t.all_parents ≡ []) × (t.all_phantom_types ≡ []))

parsing_type_info-Returns : (st : StructTy) (i : ℕ) → Returns (parsing_type_info st i) (Direct i)
unfolding parsing_type_info
parsing_type_info-Returns st i =
    let (d, e, z) = set_type_detail_info-Returns st.name i in
    let (ps, f, y) = element_parents-Returns st.parts in
    (
      record {
        alloc_size = st.alloc_size;
        detail_info = d;
        element_size = elements_size st.parts;
        direct_parents = ps;
        direct_phantom_types = [];
        all_parents = [];
        all_phantom_types = [];
      },
      rw (e, ◌>>=◌) (rw (f, ◌>>=◌) refl),
      (z, y, refl, (refl, refl)),
    )

abbrev pub AllDirect : ℕ → List TypeInfo → Type 0
AllDirect i ts = (u : ℕ) (t : TypeInfo) → get_elem? ts u ≡ some t → Direct (i + u) t

pub direct_types-Returns :
    (sts : List StructTy) (i : ℕ)
    → Returns (direct_types sts i) λ ts. (length ts ≡ collected sts) × AllDirect i ts
unfolding direct_types collected
direct_types-Returns [] i = ([], refl, (refl, λ u t e. cc))
direct_types-Returns (st ∷ sts) i = elim (Bool-cases (is_collected st)) [
  | inl y ↦
      let (t, e, d) = parsing_type_info-Returns st i in
      let (ts, f, (size, ds)) = direct_types-Returns sts (suc i) in
      (
        t ∷ ts,
        rw (direct_types, y) (rw (e, ◌>>=◌) (rw (f, ◌>>=◌) refl)),
        (rw (collected, y) (ap suc size), at i t ts d ds),
      )
  | inr y ↦
      let (ts, f, (size, ds)) = direct_types-Returns sts i in
      (ts, rw (direct_types, y) f, (rw (collected, y) size, ds))
]
  where
    at :
        (i : ℕ) (t : TypeInfo) (ts : List TypeInfo)
        → Direct i t
        → AllDirect (suc i) ts
        → AllDirect i (t ∷ ts)
    at i t ts d ds zero x e =
        subst (λ j. Direct j x) (omega arith) (subst (Direct i) (some_inj t x e) d)
    at i t ts d ds (suc u) x e = subst (λ j. Direct j x) (omega arith) (ds u x e)
