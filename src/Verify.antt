-- ===== src/Verify.antt =====
-- The compile-time verification of src/llvm-files/HexTypeTreePass.cpp: which sources of casts need no
-- check at run time (`isLocalPointer`, `isSafePointer`, `isSafeSrcValue`). A function is the list of its
-- instructions in order; an instruction is a value by its place in it.
pub mod Decision
pub mod Ranked
pub mod Cycle
use hex_type.Prelude.{
  ℕ, zero, suc, Option, none, some, Bool, true, false, List, [], ◌∷◌, ◌==◌, ◌&&◌, if◌then◌else◌,
  ◌>>=◌, get_elem?,
}
use hex_type.Layout.{Ty, struct_type, is_interesting_type}

-- A global variable of the module, an instruction of the function, or any other value: an argument, a
-- constant, an instruction of another function.
pub data Value : Type 0 where
  global_variable : ℕ → Value
  instruction : ℕ → Value
  other_value : Value

-- The type of what an `alloca` makes.
pub data AllocatedTy : Type 0 where
  pointer_ty : AllocatedTy
  value_ty : Ty → AllocatedTy

-- A call, with whether `isHeapObj` holds, which LLVM's library decides; a GEP with whether its result is
-- a structure.
pub data Instruction : Type 0 where
  alloca : AllocatedTy → Instruction
  call : Bool → Instruction
  gep : Bool → Instruction
  load : Value → Instruction
  store : Value → Value → Instruction
  bit_cast : Value → Instruction
  other_instruction : Instruction

-- `isInterestingType` and `isa<StructType>`
abbrev pub is_struct_object : AllocatedTy → Bool
is_struct_object pointer_ty = false
is_struct_object (value_ty (struct_type name literal opaque parts)) =
    is_interesting_type (struct_type name literal opaque parts)
is_struct_object (value_ty ty) = false

-- `target == value`, for an instruction
abbrev pub is_instruction : ℕ → Value → Bool
is_instruction i (instruction j) = i == j
is_instruction i v = false

-- `isLocalPointer`
unfoldable pub is_local_pointer : List Instruction → Value → Bool
is_local_pointer body (instruction i) = elim (get_elem? body i) [
  | some (alloca ty) ↦ true
  | _ ↦ false
]
is_local_pointer body v = false

-- The values that the instructions store through a pointer, in order.
abbrev pub stored : ℕ → List Instruction → List Value
stored i [] = []
stored i (store v p ∷ rest) =
    let more = stored i rest in if is_instruction i p then v ∷ more else more
stored i (x ∷ rest) = stored i rest

-- The loop of `isSafePointer` over the stores.
abbrev pub all_safe : (Value → Option Bool) → List Value → Option Bool
all_safe safe [] = some true
all_safe safe (v ∷ vs) = do
  b ← safe v
  let rest = all_safe safe vs in elim b [ true ↦ rest | false ↦ some false ]

-- `isSafePointer`, with what decides about a stored value
unfoldable pub is_safe_pointer : (Value → Option Bool) → List Instruction → Value → Option Bool
is_safe_pointer safe body (instruction i) =
    if is_local_pointer body (instruction i) then all_safe safe (stored i body) else some false
is_safe_pointer safe body v = some false

-- What `isSafeSrcValue` says of an instruction.
abbrev pub is_safe_instruction :
    (Value → Option Bool) → List Instruction → ℕ → Instruction → Option Bool
is_safe_instruction safe body i (alloca pointer_ty) = is_safe_pointer safe body (instruction i)
is_safe_instruction safe body i (alloca (value_ty ty)) = some (is_struct_object (value_ty ty))
is_safe_instruction safe body i (call heap_obj) = some heap_obj
is_safe_instruction safe body i (gep is_struct) = some is_struct
is_safe_instruction safe body i (load p) = is_safe_pointer safe body p
is_safe_instruction safe body i (store v p) = safe v
is_safe_instruction safe body i (bit_cast v) = safe v
is_safe_instruction safe body i other_instruction = some false

-- `isSafeSrcValue`, by the depth of its recursion that is left; `none` if that is not enough.
unfoldable pub is_safe_src_value : ℕ → List Instruction → Value → Option Bool
is_safe_src_value zero body v = none
is_safe_src_value (suc fuel) body v = elim v [
  | global_variable g ↦ some true
  | other_value ↦ some false
  | instruction i ↦ elim (get_elem? body i) [
    | none ↦ some false
    | some x ↦ is_safe_instruction (is_safe_src_value fuel body) body i x
  ]
]
