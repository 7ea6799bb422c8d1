-- ===== src/Types/Links/Comparisons.antt =====
-- The comparisons of the first loop of `extendTypeRelationInfo`, of a direct parent with a type.
use hex_type.Prelude.{
  ℕ, ◌≡◌, ◌≢◌, refl, sym, ap, subst, ◌∙◌, ◌⊎◌, some, true, false, List, inl, inr, Option-cases,
  get_elem?, get_elem?-modify_cases, get_elem?-map, some_inj, arith, ◌>>=◌, if◌then◌else◌,
}
use hex_type.Types.{TypeInfo, TypeDetailInfo}
use hex_type.Types.Links.{set_index, is_parent, link, relate}
use hex_type.Types.Links.Fits.{relate_lem}
use hex_type.Types.Links.Hashes.{keys, SameKeys, link-SameKeys, link_parents}

-- What a step was that returned.
relate_cases :
    (i j t : ℕ) (ts ts' : List TypeInfo)
    → relate i j t ts ≡ some ts'
    → (a : TypeInfo) × (b : TypeInfo) × (p : TypeDetailInfo) × (get_elem? ts i ≡ some a)
      × (get_elem? a.direct_parents j ≡ some p)
      × (get_elem? ts t ≡ some b)
      × ((if is_parent i t p b then link i j t a b ts else ts) ≡ ts')
unfolding relate
relate_cases i j t ts ts' e = elim (Option-cases (get_elem? ts i)) [
  | inl f ↦ let q = rw (f, ◌>>=◌) at e in cc
  | inr (a, f) ↦ elim (Option-cases (get_elem? a.direct_parents j)) [
    | inl g ↦ let q = rw (g, ◌>>=◌) at (rw (f, ◌>>=◌) at e) in cc
    | inr (p, g) ↦ elim (Option-cases (get_elem? ts t)) [
      | inl h ↦ let q = rw (h, ◌>>=◌) at (rw (g, ◌>>=◌) at (rw (f, ◌>>=◌) at e)) in cc
      | inr (b, h) ↦ (
        a,
        b,
        p,
        f,
        g,
        h,
        some_inj (if is_parent i t p b then link i j t a b ts else ts) ts'
            (sym (relate_lem i j t ts a b p f g h) ∙ e),
      )
    ]
  ]
]

is_parent_cases :
    (i t : ℕ) (p : TypeDetailInfo) (b : TypeInfo)
    → ((is_parent i t p b ≡ true) × (p.type_hash_value ≡ b.detail_info.type_hash_value))
      ⊎ ((is_parent i t p b ≡ false) × (t ≢ i → p.type_hash_value ≢ b.detail_info.type_hash_value))
is_parent_cases i t p b = ground arith

abbrev pub With : (ℕ → ℕ → ℕ → Type 0) → (ℕ → ℕ → ℕ → Type 0) → ℕ → ℕ → ℕ → Type 0
With D E u j w = D u j w ⊎ E u j w

abbrev pub Only : ℕ → ℕ → ℕ → ℕ → ℕ → ℕ → Type 0
Only i j t u k w = (u ≡ i) × (k ≡ j) × (w ≡ t)

module _ (hs : List ℕ) where
  -- The comparisons with the types `w` of `D` have been made for parent `j` of type `u`.
  abbrev pub Resolves : (ℕ → ℕ → ℕ → Type 0) → List TypeInfo → Type 0
  Resolves D ts =
      (u : ℕ) (a : TypeInfo) (j : ℕ) (p : TypeDetailInfo) (w : ℕ)
      → get_elem? ts u ≡ some a
      → get_elem? a.direct_parents j ≡ some p
      → D u j w
      → w ≢ u
      → get_elem? hs w ≡ some p.type_hash_value
      → get_elem? hs p.type_index ≡ some p.type_hash_value

  link-Resolves :
      (D : ℕ → ℕ → ℕ → Type 0) (i j t : ℕ) (ts : List TypeInfo) (a b : TypeInfo)
      (p : TypeDetailInfo)
      → get_elem? ts i ≡ some a
      → get_elem? a.direct_parents j ≡ some p
      → get_elem? hs t ≡ some b.detail_info.type_hash_value
      → p.type_hash_value ≡ b.detail_info.type_hash_value
      → Resolves D ts
      → Resolves (With D (Only i j t)) (link i j t a b ts)
  link-Resolves D i j t ts a b p ea ep eb same old u x k q w ex eq d n m =
      let (y, g, c) = link_parents i j t u a b ts x ex in
      elim c [
        | inl (away, r) ↦ elim d [
          | inl d' ↦ old u y k q w g (ap (λ ds. get_elem? ds k) (sym r) ∙ eq) d' n m
          | inr (f, _, _) ↦ absurd (away f)
        ]
        | inr (f, r) ↦
            elim (get_elem?-modify_cases y.direct_parents j k (set_index t) q
              (ap (λ ds. get_elem? ds k) (sym r) ∙ eq)) [
                | inl (away, e) ↦ elim d [
                  | inl d' ↦ old u y k q w g e d' n m
                  | inr (_, h, _) ↦ absurd (away h)
                ]
                | inr (_, p', e, z) ↦
                    let same_type : y ≡ a = some_inj y a (sym g ∙ ap (get_elem? ts) f ∙ ea) in
                    let here : p' ≡ p = some_inj p' p (
                      sym e ∙ ap (λ (v : TypeInfo). get_elem? v.direct_parents j) same_type ∙ ep) in
                    subst
                      (λ (v : TypeDetailInfo). get_elem? hs v.type_index ≡ some v.type_hash_value)
                      (ap (set_index t) (sym here) ∙ z) (eb ∙ ap some (sym same))
              ]
      ]

  skip-Resolves :
      (D : ℕ → ℕ → ℕ → Type 0) (i j t : ℕ) (ts : List TypeInfo) (a b : TypeInfo)
      (p : TypeDetailInfo)
      → get_elem? ts i ≡ some a
      → get_elem? a.direct_parents j ≡ some p
      → get_elem? hs t ≡ some b.detail_info.type_hash_value
      → (t ≢ i → p.type_hash_value ≢ b.detail_info.type_hash_value)
      → Resolves D ts
      → Resolves (With D (Only i j t)) ts
  skip-Resolves D i j t ts a b p ea ep eb apart old u x k q w ex eq (inl d) n m =
      old u x k q w ex eq d n m
  skip-Resolves D i j t ts a b p ea ep eb apart old u x k q w ex eq (inr (f, g, h)) n m =
      let same_type : x ≡ a = some_inj x a (sym ex ∙ ap (get_elem? ts) f ∙ ea) in
      let same : q ≡ p = some_inj q p (
        sym eq
        ∙ ap (λ (y : TypeInfo). get_elem? y.direct_parents k) same_type
        ∙ ap (get_elem? a.direct_parents) g
        ∙ ep) in
      let key : q.type_hash_value ≡ b.detail_info.type_hash_value =
        some_inj q.type_hash_value b.detail_info.type_hash_value
          (sym m ∙ ap (get_elem? hs) h ∙ eb) in
      absurd (
        apart (λ e. n (h ∙ e ∙ sym f))
          (ap (λ (y : TypeDetailInfo). y.type_hash_value) (sym same) ∙ key))

  -- One step.
  pub relate-Resolves :
      (D : ℕ → ℕ → ℕ → Type 0) (i j t : ℕ) (ts ts' : List TypeInfo)
      → relate i j t ts ≡ some ts'
      → keys ts ≡ hs
      → Resolves D ts
      → SameKeys ts ts' × Resolves (With D (Only i j t)) ts'
  relate-Resolves D i j t ts ts' e k old =
      let (a, b, p, ea, ep, eb, r) = relate_cases i j t ts ts' e in
      let key : get_elem? hs t ≡ some b.detail_info.type_hash_value =
        ap (λ l. get_elem? l t) (sym k)
        ∙ get_elem?-map (λ t. t.detail_info.type_hash_value) ts t b eb in
      subst (λ s. SameKeys ts s × Resolves (With D (Only i j t)) s) r
        (elim (is_parent_cases i t p b) [
          | inl (f, same) ↦
              rw f (link-SameKeys i j t a b ts, link-Resolves D i j t ts a b p ea ep key same old)
          | inr (f, apart) ↦ rw f ((refl, refl), skip-Resolves D i j t ts a b p ea ep key apart old)
        ])
