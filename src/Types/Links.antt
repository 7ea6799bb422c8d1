-- ===== src/Types/Links.antt =====
-- `extendTypeRelationInfo` of src/llvm-files/HexTypeUtil.cpp as a whole: it gives the direct parents
-- their indices, makes phantoms of types of the same size and starts the traversals. Also the
-- relations that `getTypeInfoFromClang` adds from the log of the compiler's front end.
pub mod Fits
pub mod Rounds
pub mod Closure
pub mod Overrun
pub mod Search
pub mod Hashes
pub mod Comparisons
pub mod Resolved
pub mod Linked
pub mod Created
pub mod Logged
use hex_type.Prelude.{
  ℕ, zero, suc, ◌+◌, Option, none, some, Bool, true, false, List, [], ◌∷◌, ◌++◌, ◌&&◌, not, ◌==◌,
  if◌then◌else◌, ◌>>=◌, length, get_elem?, modify, each, upto,
}
use hex_type.Types.{TypeDetailInfo, TypeInfo, get_sorted_all_parent_set, get_sorted_all_phantom_set}
use hex_type.Types.Relations.{extend_type}
use hex_type.Types.Direct.{StructTy, direct_types}

abbrev pub set_index : ℕ → TypeDetailInfo → TypeDetailInfo
set_index t d = record d { type_index = t }

abbrev pub index_parent : ℕ → ℕ → TypeInfo → TypeInfo
index_parent j t a = record a { direct_parents = modify a.direct_parents j (set_index t) }

abbrev pub push_phantom : TypeDetailInfo → TypeInfo → TypeInfo
push_phantom d a = record a { direct_phantom_types = a.direct_phantom_types ++ d ∷ [] }

-- Whether parent `j` of type `i` is the type `t`.
abbrev pub is_parent : ℕ → ℕ → TypeDetailInfo → TypeInfo → Bool
is_parent i t p b = not (i == t) && (p.type_hash_value == b.detail_info.type_hash_value)

-- What the loop does to the types `a`, at `i`, and `b`, at `t`.
abbrev pub link : ℕ → ℕ → ℕ → TypeInfo → TypeInfo → List TypeInfo → List TypeInfo
link i j t a b types =
    let linked = modify types i (index_parent j t) in
    if a.alloc_size == b.alloc_size
    then modify (modify linked i (push_phantom b.detail_info)) t (push_phantom a.detail_info)
    else linked

-- The innermost body of the first loop; `none` is an index out of range.
unfoldable pub relate : ℕ → ℕ → ℕ → List TypeInfo → Option (List TypeInfo)
relate i j t types = do
  a ← get_elem? types i
  p ← get_elem? a.direct_parents j
  b ← get_elem? types t
  some (if is_parent i t p b then link i j t a b types else types)

-- A round of the first loop; no round changes a number of direct parents.
unfoldable pub relate_type : ℕ → List TypeInfo → Option (List TypeInfo)
relate_type i types = do
  a ← get_elem? types i
  each (λ j. each (relate i j) (upto (length types) 0)) (upto (length a.direct_parents) 0) types

-- `extendTypeRelationInfo`
unfoldable pub extend_type_relation_info : List TypeInfo → Option (List TypeInfo)
extend_type_relation_info types = do
  linked ← each relate_type (upto (length types) 0) types
  each extend_type (upto (length types) 0) linked

-- A line of typeinfo.txt.
pub record LogLine : Type 0 where
  pub relation : ℕ
  pub from_ty : ℕ
  pub to_ty : ℕ

-- The relation that a line adds; its index is 0.
abbrev pub logged : LogLine → TypeDetailInfo
logged l = record { type_hash_value = l.to_ty; type_index = 0; type_name = [] }

abbrev pub push_parent : TypeDetailInfo → TypeInfo → TypeInfo
push_parent d a = record a { direct_parents = a.direct_parents ++ d ∷ [] }

abbrev pub add_relation : LogLine → TypeInfo → TypeInfo
add_relation l a =
    let a₁ = if l.relation == 1 then push_parent (logged l) a else a in
    if l.relation == 2 then push_phantom (logged l) a₁ else a₁

unfoldable pub add_line : LogLine → List TypeInfo → List TypeInfo
add_line l [] = []
add_line l (t ∷ ts) =
    (if t.detail_info.type_hash_value == l.from_ty then add_relation l t else t) ∷ add_line l ts

-- `getTypeInfoFromClang`, of the lines of the file
unfoldable pub get_type_info_from_clang : List LogLine → List TypeInfo → List TypeInfo
get_type_info_from_clang [] types = types
get_type_info_from_clang (l ∷ ls) types = get_type_info_from_clang ls (add_line l types)

-- `getDirectTypeInfo`
unfoldable pub get_direct_type_info : List LogLine → List StructTy → Option (List TypeInfo)
get_direct_type_info lines types = do
  all_type_info ← direct_types types 0
  some (get_type_info_from_clang lines all_type_info)

-- The rest of `createObjRelationInfo`, with its early return.
abbrev pub relation_tables : List TypeInfo → Option (List TypeInfo × List ℕ × List ℕ)
relation_tables [] = some ([], [], [])
relation_tables (t ∷ ts) = do
  types ← extend_type_relation_info (t ∷ ts)
  some (types, get_sorted_all_parent_set types, get_sorted_all_phantom_set types)

-- `createObjRelationInfo`, of the log and of the structures of the module: the types, and the tables of
-- their parents and phantoms.
unfoldable pub create_obj_relation_info :
    List LogLine → List StructTy → Option (List TypeInfo × List ℕ × List ℕ)
create_obj_relation_info lines module_types = do
  all_type_info ← get_direct_type_info lines module_types
  relation_tables all_type_info
