-- ===== src/Types/Links/Resolved.antt =====
-- The first loop of `extendTypeRelationInfo` gives every direct parent whose type is in the vector the
-- index of a type with its hash.
use hex_type.Prelude.{
  ℕ, zero, suc, ◌+◌, ◌<◌, ◌≤◌, ◌≡◌, refl, sym, ap, subst, ◌∙◌, Option, none, some, List, [], ◌∷◌,
  inl, inr, Bool-cases, Option-cases, Has, length, get_elem?, get_elem?_bound, length-map,
  get_elem?-map, some_inj, each, upto, arith, ◌>>=◌, ◌==◌, eq_of_==, ne_of_==,
}
use hex_type.Types.{TypeInfo, TypeDetailInfo, hashes}
use hex_type.Types.Links.{relate, relate_type}
use hex_type.Types.Links.Fits.{relate_type_lem}
use hex_type.Types.Links.Comparisons.{Resolves, With, Only, relate-Resolves}
use hex_type.Types.Links.Hashes.{keys, SameKeys, SameKeys-trans}

relate_type_miss : (i : ℕ) (ts : List TypeInfo) → get_elem? ts i ≡ none → relate_type i ts ≡ none
unfolding relate_type
relate_type_miss i ts f = rw (f, ◌>>=◌) refl

module _ (hs : List ℕ) where
  -- What the elements of a list have in common.
  abbrev pub AnyOf : List ℕ → (ℕ → ℕ → ℕ → ℕ → Type 0) → ℕ → ℕ → ℕ → Type 0
  AnyOf xs E u j w = (x : ℕ) × Has x xs × E x u j w

  Resolves-weaken :
      (D D' : ℕ → ℕ → ℕ → Type 0) (ts : List TypeInfo)
      → ((u j w : ℕ) → D' u j w → D u j w)
      → Resolves hs D ts
      → Resolves hs D' ts
  Resolves-weaken D D' ts f r u a j p w e g d = r u a j p w e g (f u j w d)

  -- A step that makes the comparisons of `E`.
  abbrev Makes : (ℕ → List TypeInfo → Option (List TypeInfo)) → (ℕ → ℕ → ℕ → ℕ → Type 0) → Type 1
  Makes call E =
      (D : ℕ → ℕ → ℕ → Type 0) (x : ℕ) (ts ts' : List TypeInfo)
      → call x ts ≡ some ts'
      → keys ts ≡ hs
      → Resolves hs D ts
      → SameKeys ts ts' × Resolves hs (With D (E x)) ts'

  -- A loop.
  each-Resolves :
      (call : ℕ → List TypeInfo → Option (List TypeInfo)) (E : ℕ → ℕ → ℕ → ℕ → Type 0)
      → Makes call E
      → (D : ℕ → ℕ → ℕ → Type 0) (xs : List ℕ) (ts ts' : List TypeInfo) → each call xs ts ≡ some ts'
      → keys ts ≡ hs
      → Resolves hs D ts
      → SameKeys ts ts' × Resolves hs (With D (AnyOf xs E)) ts'
  each-Resolves call E makes D [] ts ts' e k old =
      subst (λ s. SameKeys ts s × Resolves hs (With D (AnyOf [] E)) s) (some_inj ts ts' e)
        (
          (refl, refl),
          Resolves-weaken D (With D (AnyOf [] E)) ts
              (λ u j w d. elim d [ inl l ↦ l | inr (_, h, _) ↦ absurd h ]) old,
        )
  each-Resolves call E makes D (x ∷ xs) ts ts' e k old = elim (Option-cases (call x ts)) [
    | inl f ↦ let q = rw (f, ◌>>=◌) at e in cc
    | inr (ts₁, f) ↦
        let (same₁, r₁) = makes D x ts ts₁ f k old in
        let (same₂, r₂) =
          each-Resolves call E makes (With D (E x)) xs ts₁ ts' (rw (f, ◌>>=◌) at e) (same₁.0 ∙ k)
            r₁ in
        (
          SameKeys-trans ts ts₁ ts' same₁ same₂,
          Resolves-weaken (With (With D (E x)) (AnyOf xs E)) (With D (AnyOf (x ∷ xs) E)) ts'
              (λ u j w d. elim d [
                | inl l ↦ inl (inl l)
                | inr (y, h, m) ↦ elim h [
                  | inl q ↦ inl (inr (subst (λ z. E z u j w) q m))
                  | inr g ↦ inr (y, g, m)
                ]
              ])
              r₂,
        )
  ]

  length-hashes : (ds : List TypeDetailInfo) → length (hashes ds) ≡ length ds
  length-hashes [] = refl
  length-hashes (d ∷ ds) = ap suc (length-hashes ds)

  upto_has : (n start k : ℕ) → start ≤ k → k < start + n → Has k (upto n start)
  upto_has zero start k lo hi = absurd (omega arith)
  upto_has (suc n) start k lo hi = elim (Bool-cases (k == start)) [
    | inl e ↦ inl (eq_of_== k start e)
    | inr e ↦
        let m = ne_of_== k start e in inr (upto_has n (suc start) k (omega arith) (omega arith))
  ]

  -- The place of a direct parent is one that the loop visits.
  parent_below :
      (ts ts' : List TypeInfo) (u : ℕ) (a a' : TypeInfo) (j : ℕ) (p : TypeDetailInfo)
      → SameKeys ts ts'
      → get_elem? ts u ≡ some a
      → get_elem? ts' u ≡ some a'
      → get_elem? a'.direct_parents j ≡ some p
      → j < length a.direct_parents
  parent_below ts ts' u a a' j p same e e' f =
      let kept : hashes a'.direct_parents ≡ hashes a.direct_parents =
        some_inj (hashes a'.direct_parents) (hashes a.direct_parents) (
          sym (get_elem?-map (λ t. hashes t.direct_parents) ts' u a' e')
          ∙ ap (λ l. get_elem? l u) same.1
          ∙ get_elem?-map (λ t. hashes t.direct_parents) ts u a e) in
      omega (
        arith,
        get_elem?_bound a'.direct_parents j p f,
        length-hashes a'.direct_parents,
        length-hashes a.direct_parents,
        ap (λ (l : List ℕ). length l) kept,
      )

  relate_type-Resolves : Makes relate_type (λ i u j w. u ≡ i)
  relate_type-Resolves D i ts ts' e k old = elim (Option-cases (get_elem? ts i)) [
    | inl f ↦ let q = sym (relate_type_miss i ts f) ∙ e in cc
    | inr (a, f) ↦
        let n = length ts in
        let m = length a.direct_parents in
        let run = sym (relate_type_lem i ts a f) ∙ e in
        let (same, r) =
          each-Resolves (λ j. each (relate i j) (upto n 0)) (λ j. AnyOf (upto n 0) (Only i j))
            (λ D' j s s' e' k' old'.
              each-Resolves (relate i j) (Only i j)
                (λ D₁ t s₁ s₂ e₁ k₁ old₁. relate-Resolves hs D₁ i j t s₁ s₂ e₁ k₁ old₁) D'
                (upto n 0) s s' e' k' old')
            D (upto m 0) ts ts' run k old in
        (
          same,
          λ u x j p w g h d away q.
              r u x j p w g h
                (elim d [
                  | inl l ↦ inl l
                  | inr l ↦ inr (
                    j,
                    upto_has m 0 j (omega arith) (
                        omega (
                          arith,
                          parent_below ts ts' u a x j p same (ap (get_elem? ts) l ∙ f) g h,
                        )),
                    (
                      w,
                      upto_has n 0 w (omega arith) (
                          omega (
                            arith,
                            get_elem?_bound hs w p.type_hash_value q,
                            length-map (λ (t : TypeInfo). t.detail_info.type_hash_value) ts,
                            ap (λ (l : List ℕ). length l) k,
                          )),
                      (l, refl, refl),
                    ),
                  )
                ])
                away q,
        )
  ]

  -- The whole loop.
  pub relate_types-Resolves :
      (ts ts' : List TypeInfo)
      → each relate_type (upto (length ts) 0) ts ≡ some ts'
      → keys ts ≡ hs
      → SameKeys ts ts' × Resolves hs (λ u j w. u < length ts) ts'
  relate_types-Resolves ts ts' e k =
      let (same, r) =
        each-Resolves relate_type (λ i u j w. u ≡ i) relate_type-Resolves (λ u j w. ⊥)
          (upto (length ts) 0) ts ts' e k (λ u a j p w g h d. absurd d) in
      (
        same,
        Resolves-weaken (With (λ u j w. ⊥) (AnyOf (upto (length ts) 0) (λ i u j w. u ≡ i)))
            (λ u j w. u < length ts) ts'
            (λ u j w d. inr (u, upto_has (length ts) 0 u (omega arith) (omega arith), refl)) r,
      )
