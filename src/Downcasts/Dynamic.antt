-- ===== src/Downcasts/Dynamic.antt =====
-- `dynamic_cast`: `computeOffsetHint` and `EmitDynamicCastCall` of src/clang-files/ItaniumCXXABI.cpp.
pub mod Untracked
use hex_type.Prelude.{
  ℕ, suc, ◌+◌, ◌-◌, ◌%◌, ◌^◌, Option, none, some, Bool, true, false, List, [], ◌∷◌, ◌==◌, ◌&&◌, ltb,
  ◌>>=◌, if◌then◌else◌,
}
use hex_type.Runtime.{Runtime}
use hex_type.Casts.{dynamic_casting_verification}
use hex_type.Names.{get_hash_value_from_str}
use hex_type.Classes.{is_usable}
use hex_type.Downcasts.{Layouts, ClassTy}

-- A step of a path: whether the base is virtual, and the class and the base.
pub record PathElement : Type 0 where
  pub is_virtual : Bool
  pub class : ℕ
  pub base : ℕ

-- `CXXBasePath`
pub record BasePath : Type 0 where
  pub is_public : Bool
  pub elements : List PathElement

abbrev pub any_virtual : List PathElement → Bool
any_virtual [] = false
any_virtual (e ∷ es) = if e.is_virtual then true else any_virtual es

abbrev pub path_offset : Layouts → List PathElement → ℕ → ℕ
path_offset layout [] offset = offset
path_offset layout (e ∷ es) offset =
    path_offset layout es ((offset + layout e.class e.base) % 2 ^ 64)

-- The loop over the paths, and what follows it.
unfoldable pub hint_of_paths : Layouts → List BasePath → ℕ → ℕ → ℕ
hint_of_paths layout [] num_public_paths offset =
    if num_public_paths == 0
    then 2 ^ 64 - 2
    else if ltb 1 num_public_paths
    then 2 ^ 64 - 3
    else offset
hint_of_paths layout (p ∷ ps) num_public_paths offset =
    let skipped = hint_of_paths layout ps num_public_paths offset in
    let walked =
      hint_of_paths layout ps (suc num_public_paths)
        (if ltb 1 (suc num_public_paths) then offset else path_offset layout p.elements offset) in
    if p.is_public then (if any_virtual p.elements then 2 ^ 64 - 1 else walked) else skipped

-- `computeOffsetHint`, as a 64-bit pattern, of whether the destination is derived from the source, and
-- the paths.
unfoldable pub compute_offset_hint : Layouts → Bool → List BasePath → ℕ
compute_offset_hint layout is_derived_from paths =
    if is_derived_from then hint_of_paths layout paths 0 0 else 2 ^ 64 - 2

-- What the code of a `dynamic_cast` comes to: a pointer, or a call of `__cxa_bad_cast`.
pub data CastResult : Type 0 where
  pointer : ℕ → CastResult
  bad_cast_call : CastResult

abbrev pub null_to_bad_cast : Bool → ℕ → CastResult
null_to_bad_cast is_reference value =
    if is_reference && value == 0 then bad_cast_call else pointer value

-- The call of the check of HexType.
abbrev pub check_dynamic_cast : List ℕ → Bool → ℕ → ℕ → Runtime → Option (CastResult × Runtime)
check_dynamic_cast llvm_name is_reference hint this s = do
  hash ← get_hash_value_from_str llvm_name
  r ← dynamic_casting_verification this hash hint s
  some (null_to_bad_cast is_reference r.0, r.1)

-- `EmitDynamicCastCall`, of whether the check of HexType takes the place of `__dynamic_cast`, what that
-- would return, whether the cast is to a reference, the class that it is to, the hint and the object.
unfoldable pub emit_dynamic_cast_call :
    Bool → ℕ → Bool → Option ClassTy → ℕ → ℕ → Runtime → Option (CastResult × Runtime)
emit_dynamic_cast_call false dynamic_cast is_reference ty hint this s =
    some (null_to_bad_cast is_reference dynamic_cast, s)
emit_dynamic_cast_call true dynamic_cast is_reference none hint this s = some (pointer this, s)
emit_dynamic_cast_call true dynamic_cast is_reference (some t) hint this s =
    let checked = check_dynamic_cast t.llvm_name is_reference hint this s in
    if is_usable t.decl then checked else some (pointer this, s)
