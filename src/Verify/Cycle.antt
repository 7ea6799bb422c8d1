-- ===== src/Verify/Cycle.antt =====
-- Where the recursion of `isSafeSrcValue` never ends.
use hex_type.Prelude.{
  ℕ, zero, suc, ◌≡◌, refl, sym, ap, subst, ◌∙◌, Option, none, some, Bool, true, false, List, ◌∷◌,
  ◌>>=◌,
}
use hex_type.Verify.{
  Value, instruction, Instruction, alloca, load, AllocatedTy, is_local_pointer, stored, all_safe,
  is_safe_pointer, is_safe_instruction, is_safe_src_value,
}
use hex_type.Verify.Decision.{At}

-- Each of the values is read from a local pointer into which one of them is stored first.
abbrev pub Circular : List Instruction → (Value → Type 0) → Type 0
Circular body S =
    (v : Value)
    → S v
    → (i a : ℕ) × (ty : AllocatedTy) × (w : Value) × (vs : List Value) × (v ≡ instruction i)
      × At body i (load (instruction a))
      × At body a (alloca ty)
      × (stored a body ≡ w ∷ vs)
      × S w

local_lem :
    (body : List Instruction) (a : ℕ) (ty : AllocatedTy)
    → At body a (alloca ty)
    → is_local_pointer body (instruction a) ≡ true
unfolding is_local_pointer
local_lem body a ty f = ap (λ o. elim o [ some (alloca t) ↦ true | _ ↦ false ]) f

pointer_lem :
    (body : List Instruction) (safe : Value → Option Bool) (a : ℕ) (ty : AllocatedTy) (w : Value)
    (vs : List Value)
    → At body a (alloca ty)
    → stored a body ≡ w ∷ vs
    → safe w ≡ none
    → is_safe_pointer safe body (instruction a) ≡ none
unfolding is_safe_pointer
pointer_lem body safe a ty w vs f s stuck =
    rw (local_lem body a ty f)
      (rw s (ap (λ o. o >>= λ b. elim b [ true ↦ all_safe safe vs | false ↦ some false ]) stuck))

load_lem :
    (body : List Instruction) (fuel i a : ℕ) (ty : AllocatedTy) (w : Value) (vs : List Value)
    → At body i (load (instruction a))
    → At body a (alloca ty)
    → stored a body ≡ w ∷ vs
    → is_safe_src_value fuel body w ≡ none
    → is_safe_src_value (suc fuel) body (instruction i) ≡ none
unfolding is_safe_src_value
load_lem body fuel i a ty w vs e f s stuck =
    ap
      (λ o. elim o [
        | none ↦ some false
        | some x ↦ is_safe_instruction (is_safe_src_value fuel body) body i x
      ])
      e
    ∙ pointer_lem body (is_safe_src_value fuel body) a ty w vs f s stuck

-- For values that are read from local pointers into which they are first stored, in a circle, the
-- recursion of `isSafeSrcValue` never ends, however deep it may go.
pub is_safe_src_value-Circular :
    (body : List Instruction) (S : Value → Type 0)
    → Circular body S
    → (v : Value) → S v
    → (fuel : ℕ) → is_safe_src_value fuel body v ≡ none
unfolding is_safe_src_value
is_safe_src_value-Circular body S circular v h zero = refl
is_safe_src_value-Circular body S circular v h (suc fuel) =
    let (i, a, ty, w, vs, e, f, g, s, k) = circular v h in
    subst (λ x. is_safe_src_value (suc fuel) body x ≡ none) (sym e)
      (load_lem body fuel i a ty w vs f g s (is_safe_src_value-Circular body S circular w k fuel))
