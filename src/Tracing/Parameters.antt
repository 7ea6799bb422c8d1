-- ===== src/Tracing/Parameters.antt =====
-- The parameters that `handleFnPrameter` of src/llvm-files/HexTypePass.cpp copies to the stack.
use hex_type.Prelude.{
  ℕ, zero, suc, ◌+◌, ◌≤◌, ◌≡◌, refl, sym, ap, ◌∙◌, subst, some, true, false, List, [], ◌∷◌, inl,
  inr, Bool-cases, Has, get_elem?, some_inj, arith,
}
use hex_type.Layout.{is_interesting_type}
use hex_type.Tracing.{Parameter, copied_parameters, handle_fn_prameter}

-- Parameter `k` points to an object, and it and all before it are passed by value.
abbrev pub IsCopied : List Parameter → ℕ → Type 0
IsCopied ps k =
    ((p : Parameter) × (get_elem? ps k ≡ some p) × (is_interesting_type p.pointed_ty ≡ true))
    × ((j : ℕ) (q : Parameter) → j ≤ k → get_elem? ps j ≡ some q → q.by_val ≡ true)

module _ (p : Parameter) (ps : List Parameter) where
  IsCopied-cons : (m : ℕ) → p.by_val ≡ true → IsCopied ps m → IsCopied (p ∷ ps) (suc m)
  IsCopied-cons m v ((q, e, t), all) = ((q, e, t), before)
    where
      before : (j : ℕ) (r : Parameter) → j ≤ suc m → get_elem? (p ∷ ps) j ≡ some r → r.by_val ≡ true
      before zero r l f = ap (λ (x : Parameter). x.by_val) (sym (some_inj p r f)) ∙ v
      before (suc j) r l f = all j r (omega arith) f

  IsCopied-here : p.by_val ≡ true → is_interesting_type p.pointed_ty ≡ true → IsCopied (p ∷ ps) 0
  IsCopied-here v t = ((p, refl, t), before)
    where
      before : (j : ℕ) (r : Parameter) → j ≤ 0 → get_elem? (p ∷ ps) j ≡ some r → r.by_val ≡ true
      before zero r l f = ap (λ (x : Parameter). x.by_val) (sym (some_inj p r f)) ∙ v
      before (suc j) r l f = absurd (omega arith)

  IsCopied-first : (m : ℕ) → IsCopied (p ∷ ps) m → p.by_val ≡ true
  IsCopied-first m (_, all) = all 0 p (omega arith) refl

  IsCopied-tail : (m : ℕ) → IsCopied (p ∷ ps) (suc m) → IsCopied ps m
  IsCopied-tail m (q, all) = (q, λ j r l f. all (suc j) r (omega arith) f)

later-IsCopied :
    (p : Parameter) (ps : List Parameter) (i k : ℕ)
    → p.by_val ≡ true
    → (m : ℕ) × (k ≡ i + 1 + m) × IsCopied ps m
    → (m : ℕ) × (k ≡ i + m) × IsCopied (p ∷ ps) m
later-IsCopied p ps i k v (m, e, c) = (suc m, omega arith, IsCopied-cons p ps m v c)

copied_parameters_sound :
    (ps : List Parameter) (i k : ℕ)
    → Has k (copied_parameters i ps)
    → (m : ℕ) × (k ≡ i + m) × IsCopied ps m
unfolding copied_parameters
copied_parameters_sound [] i k h = absurd h
copied_parameters_sound (p ∷ ps) i k h = elim (Bool-cases p.by_val) [
  | inr v ↦ absurd (rw v at h)
  | inl v ↦ elim (Bool-cases (is_interesting_type p.pointed_ty)) [
    | inl t ↦ elim (rw t at (rw v at h)) [
      | inl e ↦ (0, e ∙ omega arith, IsCopied-here p ps v t)
      | inr l ↦ later-IsCopied p ps i k v (copied_parameters_sound ps (i + 1) k l)
    ]
    | inr t ↦ later-IsCopied p ps i k v (copied_parameters_sound ps (i + 1) k (rw t at (rw v at h)))
  ]
]

copied_parameters_complete :
    (ps : List Parameter) (i m : ℕ) → IsCopied ps m → Has (i + m) (copied_parameters i ps)
unfolding copied_parameters
copied_parameters_complete [] i m ((p, e, t), all) = cc
copied_parameters_complete (p ∷ ps) i zero c =
    let v = IsCopied-first p ps 0 c in
    let ((q, e, t), _) = c in
    let here = ap (λ (x : Parameter). is_interesting_type x.pointed_ty) (some_inj p q e) ∙ t in
    rw (v, here) (inl (omega arith))
copied_parameters_complete (p ∷ ps) i (suc m) c =
    let v = IsCopied-first p ps (suc m) c in
    let e : i + 1 + m ≡ i + suc m = omega arith in
    let rest =
      subst (λ k. Has k (copied_parameters (i + 1) ps)) e
        (copied_parameters_complete ps (i + 1) m (IsCopied-tail p ps m c)) in
    elim (Bool-cases (is_interesting_type p.pointed_ty)) [
      | inl t ↦ rw (v, t) (inr rest)
      | inr t ↦ rw (v, t) rest
    ]

-- `handleFnPrameter` copies to the stack, of a function that it does not skip, exactly the parameters
-- that point to objects and are passed by value, with no other kind of parameter before them.
pub handle_fn_prameter-IsCopied :
    (ps : List Parameter) (k : ℕ)
    → (Has k (handle_fn_prameter false ps) → IsCopied ps k)
      × (IsCopied ps k → Has k (handle_fn_prameter false ps))
unfolding handle_fn_prameter
handle_fn_prameter-IsCopied ps k = (
  λ h. let (m, e, c) = copied_parameters_sound ps 0 k h in subst (IsCopied ps) (omega arith) c,
  λ c.
      subst (λ j. Has j (copied_parameters 0 ps)) (omega arith)
        (copied_parameters_complete ps 0 k c),
)
