-- ===== src/Types/Direct.antt =====
-- The types of a module as src/llvm-files/HexTypeUtil.cpp collects them: `getDirectTypeInfo`,
-- `parsingTypeInfo` and `setTypeDetailInfo`. There are fewer than 2 ^ 32 types, so that the counter
-- `AllTypeNum` does not wrap around.
pub mod Indices
use hex_type.Prelude.{
  ℕ, zero, suc, Option, none, some, Bool, true, false, List, [], ◌∷◌, ◌&&◌, ◌||◌, not,
  if◌then◌else◌, ◌>>=◌, length,
}
use hex_type.Names.{starts_with, drop, sync_type_name, get_hash_value_from_sty}
use hex_type.Layout.{
  Ty, array_type, struct_type, other_type, Fields, no_fields, field, is_interesting_struct_type,
  tracked_type,
}
use hex_type.Types.{TypeDetailInfo, TypeInfo}

-- An identified structure of the module, with the allocation size that `DataLayout` gives it.
pub record StructTy : Type 0 where
  pub name : List ℕ
  pub literal : Bool
  pub opaque : Bool
  pub parts : Fields
  pub alloc_size : ℕ

-- `setTypeDetailInfo`; the name is in its common form.
unfoldable pub set_type_detail_info : List ℕ → ℕ → Option TypeDetailInfo
set_type_detail_info name all_type_num = do
  str ← sync_type_name name
  hash ← get_hash_value_from_sty name
  some (record { type_hash_value = hash; type_index = all_type_num; type_name = str })

abbrev pub elements_size : Fields → ℕ
elements_size no_fields = 0
elements_size (field o ty rest) = suc (elements_size rest)

-- The loop of `parsingTypeInfo` over the elements: those that are structures are taken for parents.
unfoldable pub element_parents : Fields → Option (List TypeDetailInfo)
element_parents no_fields = some []
element_parents (field o (struct_type name literal opaque parts) rest) = do
  parents ← element_parents rest
  elim (is_interesting_struct_type name literal opaque) [
    | true ↦ do parent_tmp ← set_type_detail_info name 0; some (parent_tmp ∷ parents)
    | false ↦ some parents
  ]
element_parents (field o (array_type n size ty) rest) = element_parents rest
element_parents (field o other_type rest) = element_parents rest

-- `parsingTypeInfo`
unfoldable pub parsing_type_info : StructTy → ℕ → Option TypeInfo
parsing_type_info st all_type_num = do
  detail_info ← set_type_detail_info st.name all_type_num
  direct_parents ← element_parents st.parts
  some (record {
    alloc_size = st.alloc_size;
    detail_info = detail_info;
    element_size = elements_size st.parts;
    direct_parents = direct_parents;
    direct_phantom_types = [];
    all_parents = [];
    all_phantom_types = [];
  })

abbrev pub ends_with : List ℕ → List ℕ → Bool
ends_with suffix [] = starts_with suffix [] && starts_with [] suffix
ends_with suffix (x ∷ xs) =
    starts_with suffix (x ∷ xs) && starts_with (x ∷ xs) suffix || ends_with suffix xs

-- ".base"
abbrev pub base_suffix : List ℕ
base_suffix = 46 ∷ 98 ∷ 97 ∷ 115 ∷ 101 ∷ []

-- "struct.VerifyResultCache"
abbrev pub verify_result_cache_name : List ℕ
verify_result_cache_name =
    115 ∷ 116 ∷ 114 ∷ 117 ∷ 99 ∷ 116 ∷ 46 ∷ 86 ∷ 101 ∷ 114 ∷ 105 ∷ 102 ∷ 121 ∷ 82 ∷ 101 ∷ 115 ∷ 117
    ∷ 108 ∷ 116 ∷ 67 ∷ 97 ∷ 99 ∷ 104 ∷ 101 ∷ []

-- "struct.ObjTypeMap"
abbrev pub obj_type_map_name : List ℕ
obj_type_map_name =
    115 ∷ 116 ∷ 114 ∷ 117 ∷ 99 ∷ 116 ∷ 46 ∷ 79 ∷ 98 ∷ 106 ∷ 84 ∷ 121 ∷ 112 ∷ 101 ∷ 77 ∷ 97 ∷ 112
    ∷ []

-- The `continue`s of `getDirectTypeInfo`.
abbrev pub is_collected : StructTy → Bool
is_collected st =
    is_interesting_struct_type st.name st.literal st.opaque
    && (not (not (starts_with tracked_type st.name) || ends_with base_suffix st.name)
        && not
            (starts_with verify_result_cache_name st.name || starts_with obj_type_map_name st.name))

-- How many structures the loop collects, which is `AllTypeNum` in the end.
unfoldable pub collected : List StructTy → ℕ
collected [] = 0
collected (st ∷ types) = if is_collected st then suc (collected types) else collected types

-- The loop of `getDirectTypeInfo`, from `AllTypeNum`.
unfoldable pub direct_types : List StructTy → ℕ → Option (List TypeInfo)
direct_types [] all_type_num = some []
direct_types (st ∷ types) all_type_num = elim (is_collected st) [
  | false ↦ direct_types types all_type_num
  | true ↦ do
    new_type ← parsing_type_info st all_type_num
    rest ← direct_types types (suc all_type_num)
    some (new_type ∷ rest)
]
