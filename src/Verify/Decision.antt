-- ===== src/Verify/Decision.antt =====
-- What the verdict of `isSafeSrcValue` means.
use hex_type.Prelude.{
  ℕ, zero, suc, ◌≡◌, refl, sym, subst, ◌∙◌, Option, none, some, Bool, true, false, List, [], ◌∷◌,
  inl, inr, ◌⊎◌, ◌≢◌, ◌>>=◌, Has, get_elem?, if◌then◌else◌, some_inj,
}
use hex_type.Verify.{
  Value, global_variable, instruction, other_value, Instruction, alloca, call, gep, load, store,
  bit_cast, other_instruction, AllocatedTy, pointer_ty, value_ty, is_struct_object,
  is_local_pointer, stored, all_safe, is_safe_pointer, is_safe_instruction, is_safe_src_value,
}

first_cases :
    (o rest : Option Bool) (b : Bool)
    → (o >>= λ c. elim c [ true ↦ rest | false ↦ some false ]) ≡ some b
    → ((o ≡ some true) × (rest ≡ some b)) ⊎ ((o ≡ some false) × (b ≡ false))
first_cases none rest b e = cc
first_cases (some true) rest b e = inl (refl, e)
first_cases (some false) rest b e = inr (refl, sym (some_inj false b e))

module _ (body : List Instruction) where
  abbrev pub At : ℕ → Instruction → Type 0
  At i x = get_elem? body i ≡ some x

  -- The values that are safe as the source of a cast: objects, and pointers to nothing but them.
  pub data Safe : Value → Type 0 where
    global : {g : ℕ} → Safe (global_variable g)
    object :
        {i : ℕ} {ty : AllocatedTy}
        → At i (alloca ty)
        → is_struct_object ty ≡ true
        → Safe (instruction i)
    heap : {i : ℕ} → At i (call true) → Safe (instruction i)
    part : {i : ℕ} → At i (gep true) → Safe (instruction i)
    pointer :
        {i : ℕ}
        → At i (alloca pointer_ty)
        → ((v : Value) → Has v (stored i body) → Safe v)
        → Safe (instruction i)
    loaded :
        {i a : ℕ} {ty : AllocatedTy}
        → At i (load (instruction a))
        → At a (alloca ty)
        → ((v : Value) → Has v (stored a body) → Safe v)
        → Safe (instruction i)
    through_store : {i : ℕ} {v p : Value} → At i (store v p) → Safe v → Safe (instruction i)
    through_cast : {i : ℕ} {v : Value} → At i (bit_cast v) → Safe v → Safe (instruction i)

  -- A pointer to nothing but safe values.
  abbrev pub SafePointer : Value → Type 0
  SafePointer (instruction a) =
      (ty : AllocatedTy) × At a (alloca ty) × ((v : Value) → Has v (stored a body) → Safe v)
  SafePointer v = ⊥

  -- What makes an instruction safe.
  abbrev Needs : ℕ → Instruction → Type 0
  Needs i (alloca pointer_ty) = (v : Value) → Has v (stored i body) → Safe v
  Needs i (alloca (value_ty ty)) = is_struct_object (value_ty ty) ≡ true
  Needs i (call h) = h ≡ true
  Needs i (gep s) = s ≡ true
  Needs i (load p) = SafePointer p
  Needs i (store v p) = Safe v
  Needs i (bit_cast v) = Safe v
  Needs i other_instruction = ⊥

  Needs-object : (i : ℕ) (ty : AllocatedTy) → is_struct_object ty ≡ true → Needs i (alloca ty)
  Needs-object i pointer_ty e = cc
  Needs-object i (value_ty ty) e = e

  Safe-Needs : (i : ℕ) (x : Instruction) → At i x → Safe (instruction i) → Needs i x
  Safe-Needs i x e (object {ty = ty} f o) =
      subst (Needs i) (some_inj (alloca ty) x (sym f ∙ e)) (Needs-object i ty o)
  Safe-Needs i x e (heap f) = subst (Needs i) (some_inj (call true) x (sym f ∙ e)) refl
  Safe-Needs i x e (part f) = subst (Needs i) (some_inj (gep true) x (sym f ∙ e)) refl
  Safe-Needs i x e (pointer f h) = subst (Needs i) (some_inj (alloca pointer_ty) x (sym f ∙ e)) h
  Safe-Needs i x e (loaded {a = a} {ty = ty} f g h) =
      subst (Needs i) (some_inj (load (instruction a)) x (sym f ∙ e)) (ty, g, h)
  Safe-Needs i x e (through_store {v = v} {p = p} f s) =
      subst (Needs i) (some_inj (store v p) x (sym f ∙ e)) s
  Safe-Needs i x e (through_cast {v = v} f s) =
      subst (Needs i) (some_inj (bit_cast v) x (sym f ∙ e)) s

  Safe-At : (i : ℕ) → Safe (instruction i) → (x : Instruction) × At i x
  Safe-At i (object {ty = ty} f o) = (alloca ty, f)
  Safe-At i (heap f) = (call true, f)
  Safe-At i (part f) = (gep true, f)
  Safe-At i (pointer f h) = (alloca pointer_ty, f)
  Safe-At i (loaded {a = a} f g h) = (load (instruction a), f)
  Safe-At i (through_store {v = v} {p = p} f s) = (store v p, f)
  Safe-At i (through_cast {v = v} f s) = (bit_cast v, f)

  Needs-Safe : (i : ℕ) (x : Instruction) → At i x → Needs i x → Safe (instruction i)
  Needs-Safe i (alloca pointer_ty) e n = pointer e n
  Needs-Safe i (alloca (value_ty ty)) e n = object e n
  Needs-Safe i (call h) e n = heap (subst (λ b. At i (call b)) n e)
  Needs-Safe i (gep s) e n = part (subst (λ b. At i (gep b)) n e)
  Needs-Safe i (load (instruction a)) e (ty, f, h) = loaded e f h
  Needs-Safe i (load (global_variable g)) e n = absurd n
  Needs-Safe i (load other_value) e n = absurd n
  Needs-Safe i (store v p) e n = through_store e n
  Needs-Safe i (bit_cast v) e n = through_cast e n
  Needs-Safe i other_instruction e n = absurd n

  -- A verdict on a proposition.
  abbrev pub Means : Bool → Type 0 → Type 0
  Means true P = P
  Means false P = P → ⊥

  Means-iff : {P Q : Type 0} (b : Bool) → (P → Q) → (Q → P) → Means b P → Means b Q
  Means-iff true f g m = f m
  Means-iff false f g m = λ q. m (g q)

  Means-Bool : (b : Bool) → Means b (b ≡ true)
  Means-Bool true = refl
  Means-Bool false = λ e. cc

  module _ (safe : Value → Option Bool)
      (right : (v : Value) (b : Bool) → safe v ≡ some b → Means b (Safe v)) where
    all_safe-Means :
        (vs : List Value) (b : Bool)
        → all_safe safe vs ≡ some b
        → Means b ((v : Value) → Has v vs → Safe v)
    all_safe-Means [] b e =
        subst (λ c. Means c ((v : Value) → ⊥ → Safe v)) (some_inj true b e) (λ v h. absurd h)
    all_safe-Means (v ∷ vs) b e = elim (first_cases (safe v) (all_safe safe vs) b e) [
      | inl (yes_, rest) ↦
          let here = right v true yes_ in
          Means-iff b (λ h u k. elim k [ inl q ↦ subst Safe (sym q) here | inr l ↦ h u l ])
            (λ h u k. h u (inr k)) (all_safe-Means vs b rest)
      | inr (no_, q) ↦
          subst (λ c. Means c ((u : Value) → Has u (v ∷ vs) → Safe u)) (sym q)
            (λ h. right v false no_ (h v (inl refl)))
    ]

    is_safe_pointer-Means :
        (p : Value) (b : Bool) → is_safe_pointer safe body p ≡ some b → Means b (SafePointer p)
    unfolding is_safe_pointer is_local_pointer
    is_safe_pointer-Means (global_variable g) b e =
        subst (λ c. Means c ⊥) (some_inj false b e) (λ z. z)
    is_safe_pointer-Means other_value b e = subst (λ c. Means c ⊥) (some_inj false b e) (λ z. z)
    is_safe_pointer-Means (instruction i) b e = at_place (get_elem? body i) refl e
      where
        no_pointer :
            (x : Instruction)
            → At i x
            → ((ty : AllocatedTy) → x ≢ alloca ty)
            → some false ≡ some b
            → Means b (SafePointer (instruction i))
        no_pointer x f n q =
            subst (λ c. Means c (SafePointer (instruction i))) (some_inj false b q)
              (λ (ty, g, h). n ty (some_inj x (alloca ty) (sym f ∙ g)))

        at_place :
            (o : Option Instruction)
            → get_elem? body i ≡ o
            → (if (elim o [ some (alloca ty) ↦ true | _ ↦ false ])
                then all_safe safe (stored i body)
                else some false)
              ≡ some b
            → Means b (SafePointer (instruction i))
        at_place none f q =
            subst (λ c. Means c (SafePointer (instruction i))) (some_inj false b q)
              (λ (ty, g, h). cc)
        at_place (some (alloca ty)) f q =
            Means-iff b (λ h. (ty, f, h)) (λ (ty', g, h). h) (all_safe-Means (stored i body) b q)
        at_place (some (call h)) f q = no_pointer (call h) f (λ ty r. cc) q
        at_place (some (gep h)) f q = no_pointer (gep h) f (λ ty r. cc) q
        at_place (some (load h)) f q = no_pointer (load h) f (λ ty r. cc) q
        at_place (some (store v h)) f q = no_pointer (store v h) f (λ ty r. cc) q
        at_place (some (bit_cast h)) f q = no_pointer (bit_cast h) f (λ ty r. cc) q
        at_place (some other_instruction) f q = no_pointer other_instruction f (λ ty r. cc) q

    is_safe_instruction-Means :
        (i : ℕ) (x : Instruction) (b : Bool)
        → At i x
        → is_safe_instruction safe body i x ≡ some b
        → Means b (Needs i x)
    is_safe_instruction-Means i (alloca pointer_ty) b f e =
        Means-iff b (λ (ty, g, h). h) (λ h. (pointer_ty, f, h))
          (is_safe_pointer-Means (instruction i) b e)
    is_safe_instruction-Means i (alloca (value_ty ty)) b f e =
        subst (λ c. Means c (is_struct_object (value_ty ty) ≡ true))
          (some_inj (is_struct_object (value_ty ty)) b e)
          (Means-Bool (is_struct_object (value_ty ty)))
    is_safe_instruction-Means i (call h) b f e =
        subst (λ c. Means c (h ≡ true)) (some_inj h b e) (Means-Bool h)
    is_safe_instruction-Means i (gep h) b f e =
        subst (λ c. Means c (h ≡ true)) (some_inj h b e) (Means-Bool h)
    is_safe_instruction-Means i (load p) b f e = is_safe_pointer-Means p b e
    is_safe_instruction-Means i (store v p) b f e = right v b e
    is_safe_instruction-Means i (bit_cast v) b f e = right v b e
    is_safe_instruction-Means i other_instruction b f e =
        subst (λ c. Means c ⊥) (some_inj false b e) (λ z. z)

  -- If `isSafeSrcValue` returns, then its verdict is whether the value is an object, or a pointer to
  -- nothing but objects.
  pub is_safe_src_value-Means :
      (fuel : ℕ) (v : Value) (b : Bool) → is_safe_src_value fuel body v ≡ some b → Means b (Safe v)
  unfolding is_safe_src_value
  is_safe_src_value-Means zero v b e = cc
  is_safe_src_value-Means (suc fuel) (global_variable g) b e =
      subst (λ c. Means c (Safe (global_variable g))) (some_inj true b e) global
  is_safe_src_value-Means (suc fuel) other_value b e =
      subst (λ c. Means c (Safe other_value)) (some_inj false b e) no_other
    where
      no_other : Safe other_value → ⊥
      no_other h = elim h [ ]
  is_safe_src_value-Means (suc fuel) (instruction i) b e =
      at_place (is_safe_src_value-Means fuel) (get_elem? body i) refl e
    where
      at_place :
          ((u : Value) (c : Bool) → is_safe_src_value fuel body u ≡ some c → Means c (Safe u))
          → (o : Option Instruction) → get_elem? body i ≡ o
          → elim o [
            | none ↦ some false
            | some x ↦ is_safe_instruction (is_safe_src_value fuel body) body i x
          ]
            ≡ some b
          → Means b (Safe (instruction i))
      at_place right none f q =
          subst (λ c. Means c (Safe (instruction i))) (some_inj false b q)
            (λ h. let (x, g) = Safe-At i h in cc)
      at_place right (some x) f q =
          Means-iff b (Needs-Safe i x f) (Safe-Needs i x f)
            (is_safe_instruction-Means (is_safe_src_value fuel body) right i x b f q)
