-- ===== src/Verify/Ranked.antt =====
-- Where the recursion of `isSafeSrcValue` ends.
use hex_type.Prelude.{
  ℕ, zero, suc, ◌<◌, ◌≡◌, ◌≢◌, refl, Option, none, some, Bool, true, false, List, [], ◌∷◌, inl, inr,
  ◌>>=◌, Option-cases, Has, get_elem?, arith, Returns, Bool-cases,
}
use hex_type.Verify.{
  Value, global_variable, instruction, other_value, Instruction, alloca, call, gep, load, store,
  bit_cast, other_instruction, pointer_ty, value_ty, is_local_pointer, stored, all_safe,
  is_safe_pointer, is_safe_instruction, is_safe_src_value,
}
use hex_type.Verify.Decision.{At, Safe, Means, is_safe_src_value-Means}

module _ (body : List Instruction) where
  -- The values of which the decision on an instruction asks.
  abbrev pub Operand : ℕ → Instruction → Value → Type 0
  Operand i (alloca ty) v = Has v (stored i body)
  Operand i (load (instruction a)) v = Has v (stored a body)
  Operand i (store u p) v = v ≡ u
  Operand i (bit_cast u) v = v ≡ u
  Operand i x v = ⊥

  -- Every value of which the decision on another asks has a lower rank.
  abbrev pub IsRanked : (Value → ℕ) → Type 0
  IsRanked rank =
      (i : ℕ) (x : Instruction) (v : Value)
      → At body i x
      → Operand i x v
      → rank v < rank (instruction i)

  module _ (safe : Value → Option Bool) where
    all_safe_ends :
        (vs : List Value) → ((v : Value) → Has v vs → safe v ≢ none) → all_safe safe vs ≢ none
    all_safe_ends [] h e = cc
    all_safe_ends (v ∷ vs) h e =
        first_ends (all_safe_ends vs (λ u k. h u (inr k))) (safe v) (h v (inl refl)) e
      where
        first_ends :
            all_safe safe vs ≢ none
            → (o : Option Bool) → o ≢ none
            → (o >>= λ b. elim b [ true ↦ all_safe safe vs | false ↦ some false ]) ≢ none
        first_ends more none n q = n refl
        first_ends more (some true) n q = more q
        first_ends more (some false) n q = cc

    is_safe_pointer_ends :
        (a : ℕ)
        → ((v : Value) → Has v (stored a body) → safe v ≢ none)
        → is_safe_pointer safe body (instruction a) ≢ none
    unfolding is_safe_pointer
    is_safe_pointer_ends a h = elim (Bool-cases (is_local_pointer body (instruction a))) [
      | inl e ↦ rw e (all_safe_ends (stored a body) h)
      | inr e ↦ rw e (λ q. cc)
    ]

    is_safe_instruction_ends :
        (i : ℕ) (x : Instruction)
        → ((v : Value) → Operand i x v → safe v ≢ none)
        → is_safe_instruction safe body i x ≢ none
    unfolding is_safe_pointer
    is_safe_instruction_ends i (alloca pointer_ty) h = is_safe_pointer_ends i h
    is_safe_instruction_ends i (alloca (value_ty ty)) h = λ e. cc
    is_safe_instruction_ends i (call b) h = λ e. cc
    is_safe_instruction_ends i (gep b) h = λ e. cc
    is_safe_instruction_ends i (load (instruction a)) h = is_safe_pointer_ends a h
    is_safe_instruction_ends i (load (global_variable g)) h = λ e. cc
    is_safe_instruction_ends i (load other_value) h = λ e. cc
    is_safe_instruction_ends i (store v p) h = h v refl
    is_safe_instruction_ends i (bit_cast v) h = h v refl
    is_safe_instruction_ends i other_instruction h = λ e. cc

  is_safe_src_value_ends :
      (rank : Value → ℕ)
      → IsRanked rank
      → (fuel : ℕ) (v : Value) → rank v < fuel
      → is_safe_src_value fuel body v ≢ none
  unfolding is_safe_src_value
  is_safe_src_value_ends rank ranked zero v l = absurd (omega arith)
  is_safe_src_value_ends rank ranked (suc fuel) (global_variable g) l = λ e. cc
  is_safe_src_value_ends rank ranked (suc fuel) other_value l = λ e. cc
  is_safe_src_value_ends rank ranked (suc fuel) (instruction i) l =
      at_place (is_safe_src_value_ends rank ranked fuel) (get_elem? body i) refl
    where
      at_place :
          ((u : Value) → rank u < fuel → is_safe_src_value fuel body u ≢ none)
          → (o : Option Instruction) → get_elem? body i ≡ o
          → elim o [
            | none ↦ some false
            | some x ↦ is_safe_instruction (is_safe_src_value fuel body) body i x
          ]
            ≢ none
      at_place more none f = λ e. cc
      at_place more (some x) f =
          is_safe_instruction_ends (is_safe_src_value fuel body) i x
            (λ v o. more v (omega (arith, ranked i x v f o)))

  -- In a function whose pointers are not stored in a circle, `isSafeSrcValue` returns, with the verdict
  -- whether the value is an object, or a pointer to nothing but objects.
  pub is_safe_src_value-decides :
      (rank : Value → ℕ)
      → IsRanked rank
      → (v : Value)
      → Returns (is_safe_src_value (suc (rank v)) body v) λ b. Means body b (Safe body v)
  is_safe_src_value-decides rank ranked v =
      elim (Option-cases (is_safe_src_value (suc (rank v)) body v)) [
        | inl stuck ↦
            absurd (is_safe_src_value_ends rank ranked (suc (rank v)) v (omega arith) stuck)
        | inr (b, run) ↦ (b, run, is_safe_src_value-Means body (suc (rank v)) v b run)
      ]
