-- ===== src/Layout.antt =====
-- The objects that a type lays out: `getArrayOffsets` and `getStructOffsets` of
-- src/llvm-files/HexTypeUtil.cpp. The sizes and the offsets of LLVM's `DataLayout` stand in the types.
pub mod Distinct
pub mod Casting
use hex_type.Prelude.{
  ℕ, zero, suc, ◌+◌, ◌*◌, ◌%◌, ◌^◌, Bool, true, false, List, [], ◌∷◌, ◌++◌, ◌&&◌, ◌||◌, not, ◌==◌,
  if◌then◌else◌,
}
use hex_type.Names.{starts_with}

-- An LLVM type: an array has the number of its elements, their allocation size and their type; a
-- structure its name, empty if it has none, whether it is literal, whether it is opaque, and fields.
mutual
  pub data Ty : Type 0 where
    array_type : ℕ → ℕ → Ty → Ty
    struct_type : List ℕ → Bool → Bool → Fields → Ty
    other_type : Ty

  pub data Fields : Type 0 where
    no_fields : Fields
    field : ℕ → Ty → Fields → Fields

abbrev pub has_name : List ℕ → Bool
has_name [] = false
has_name (x ∷ xs) = true

-- `isInterestingStructType`
abbrev pub is_interesting_struct_type : List ℕ → Bool → Bool → Bool
is_interesting_struct_type name literal opaque = has_name name && not literal && not opaque

-- `isInterestingArrayType` and `isInterestingType`, which differ in what they are called on.
unfoldable pub is_interesting_type : Ty → Bool
is_interesting_type (array_type n size ty) = is_interesting_type ty
is_interesting_type (struct_type name literal opaque parts) =
    is_interesting_struct_type name literal opaque
is_interesting_type other_type = false

-- "trackedtype."
abbrev pub tracked_type : List ℕ
tracked_type = 116 ∷ 114 ∷ 97 ∷ 99 ∷ 107 ∷ 101 ∷ 100 ∷ 116 ∷ 121 ∷ 112 ∷ 101 ∷ 46 ∷ []

-- An element of `StructElementInfoTy`: the offset and the structure's name.
pub record Element : Type 0 where
  pub offset : ℕ
  pub name : List ℕ

-- Whether an object is recorded at an offset.
abbrev pub has_offset : ℕ → List Element → Bool
has_offset offset [] = false
has_offset offset (e ∷ es) = offset == e.offset || has_offset offset es

-- The object itself, unless there is one at its offset or it is not tracked.
abbrev pub push_struct : List ℕ → ℕ → List Element → List Element
push_struct name offset elements =
    if has_offset offset elements
    then elements
    else if starts_with tracked_type name
    then elements ++ record { offset = offset; name = name } ∷ []
    else elements

-- A loop with a counter, by the rounds left.
abbrev pub rounds {ℓ} : {A : Type ℓ} → ℕ → ℕ → (ℕ → A → A) → A → A
rounds zero i step a = a
rounds (suc n) i step a = rounds n (i + 1) step (step i a)

unfoldable mutual
  -- `getArrayOffsets`, with `getStructOffsets` for a structure
  pub get_array_offsets : Ty → ℕ → List Element → List Element
  get_array_offsets (array_type n size ty) offset elements =
      rounds (n % 2 ^ 32) 0 (λ i es. get_array_offsets ty ((offset + i * size) % 2 ^ 32) es)
        elements
  get_array_offsets (struct_type name literal opaque parts) offset elements =
      if is_interesting_struct_type name literal opaque
      then get_field_offsets parts offset (push_struct name offset elements)
      else elements
  get_array_offsets other_type offset elements = elements

  -- The loop of `getStructOffsets` over the fields.
  pub get_field_offsets : Fields → ℕ → List Element → List Element
  get_field_offsets no_fields offset elements = elements
  get_field_offsets (field o ty rest) offset elements =
      get_field_offsets rest offset (get_array_offsets ty ((o + offset) % 2 ^ 32) elements)
