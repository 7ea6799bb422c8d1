-- ===== src/SafeStack.antt =====
-- The safe stack analysis of src/llvm-files/HexTypeUtil.cpp (`isSafeStackAlloca`), which looks through
-- the uses of an object on the stack. The values of a function are numbers.
pub mod Uses
pub mod Decision
use hex_type.Prelude.{
  ℕ, zero, suc, Option, none, some, Bool, true, false, List, [], ◌∷◌, ◌==◌, ◌&&◌, not, contains,
  if◌then◌else◌,
}

-- What an instruction does with its operands, as far as the analysis tells them apart: the value that
-- is stored and the pointer; whether a call is a lifetime intrinsic, and its arguments.
pub data Opcode : Type 0 where
  load va_arg get_element_ptr bit_cast int_to_ptr phi ptr_to_int select other_opcode : Opcode
  store : ℕ → ℕ → Opcode
  call : Bool → List ℕ → Opcode

-- An instruction, the users in its list of uses, and whether its type is a pointer.
pub record Def : Type 0 where
  pub opcode : Opcode
  pub users : List ℕ
  pub is_pointer_ty : Bool

-- The object: its instruction, whether the size of the array is a constant, and whether its type is a
-- pointer.
pub record StackObject : Type 0 where
  pub value : ℕ
  pub has_constant_size : Bool
  pub holds_pointer : Bool

-- What a use makes of the object.
pub data Verdict : Type 0 where
  harmless unsafe passed_on : Verdict

-- The `switch` of `isSafeStackAlloca`, for a use of `v`.
unfoldable pub judge : StackObject → ℕ → Bool → Opcode → Verdict
judge o v is_pointer load = harmless
judge o v is_pointer va_arg = harmless
judge o v is_pointer (store x p) =
    if v == x then (if p == o.value && not o.holds_pointer then harmless else unsafe) else harmless
judge o v is_pointer get_element_ptr = if o.has_constant_size then passed_on else unsafe
judge o v is_pointer bit_cast = passed_on
judge o v is_pointer int_to_ptr = passed_on
judge o v is_pointer phi = passed_on
judge o v is_pointer ptr_to_int = passed_on
judge o v is_pointer select = passed_on
judge o v is_pointer (call is_lifetime args) =
    if is_lifetime then harmless else if contains v args && is_pointer then unsafe else harmless
judge o v is_pointer other_opcode = unsafe

-- `WorkList`, with its back first, and `Visited`.
pub record Search : Type 0 where
  pub work_list : List ℕ
  pub visited : List ℕ

-- `Visited.insert` and `push_back`
abbrev pub visit : ℕ → Search → Search
visit u s =
    if contains u s.visited
    then s
    else record { work_list = u ∷ s.work_list; visited = u ∷ s.visited }

module _ (defs : ℕ → Def) (o : StackObject) where
  abbrev pub verdict : ℕ → ℕ → Verdict
  verdict v u = judge o v (defs v).is_pointer_ty (defs u).opcode

  -- The loop over the uses of `v`; `none` is that the object is unsafe.
  unfoldable pub scan_uses : ℕ → List ℕ → Search → Option Search
  scan_uses v [] s = some s
  scan_uses v (u ∷ us) s = elim (verdict v u) [
    | harmless ↦ scan_uses v us s
    | unsafe ↦ none
    | passed_on ↦ scan_uses v us (visit u s)
  ]

  -- The loop of `isSafeStackAlloca`, by the rounds left; `none` is that they are too few.
  unfoldable pub explore : ℕ → List ℕ → List ℕ → Option Bool
  explore zero [] visited = some true
  explore zero (v ∷ vs) visited = none
  explore (suc fuel) [] visited = some true
  explore (suc fuel) (v ∷ vs) visited =
      elim (scan_uses v (defs v).users (record { work_list = vs; visited = visited })) [
        | none ↦ some false
        | some s ↦ explore fuel s.work_list s.visited
      ]

  -- `isSafeStackAlloca`, in a function with as many instructions.
  unfoldable pub is_safe_stack_alloca : ℕ → Option Bool
  is_safe_stack_alloca n = explore (suc n) (o.value ∷ []) []
