-- ===== src/Types.antt =====
-- The tables of src/llvm-files/HexTypeUtil.cpp that the compiler emits for the run-time library: the
-- hashes of each type's parents, in ascending order, and its search for a type's rules.
pub mod Direct
pub mod Sets
pub mod Scan
pub mod Missing
pub mod PhantomTable
pub mod Rules
pub mod Relations
pub mod Links
use Prim.Native.Nat.Ordering.{lt, eq, gt}
use Prim.Native.Nat.{compare}
use hex_type.Prelude.{
  ℕ, zero, suc, ◌+◌, Option, none, some, Bool, true, false, List, [], ◌∷◌, ◌++◌, ltb, ◌==◌,
  if◌then◌else◌, ◌>>=◌, length, get_elem?,
}
use hex_type.Phantoms.{insert_all}

-- `TypeDetailInfo`; the name is its bytes.
pub record TypeDetailInfo : Type 0 where
  pub type_hash_value : ℕ
  pub type_index : ℕ
  pub type_name : List ℕ

-- `TypeInfo`; of `StructTy` the allocation size.
pub record TypeInfo : Type 0 where
  pub alloc_size : ℕ
  pub detail_info : TypeDetailInfo
  pub element_size : ℕ
  pub direct_parents : List TypeDetailInfo
  pub direct_phantom_types : List TypeDetailInfo
  pub all_parents : List TypeDetailInfo
  pub all_phantom_types : List TypeDetailInfo

-- The hashes of a vector of types.
abbrev pub hashes : List TypeDetailInfo → List ℕ
hashes [] = []
hashes (d ∷ ds) = d.type_hash_value ∷ hashes ds

-- `std::sort` of a vector of hashes.
unfoldable pub sort_into : ℕ → List ℕ → List ℕ
sort_into y [] = y ∷ []
sort_into y (x ∷ xs) =
    let rest = sort_into y xs in elim (compare y x) [ gt ↦ x ∷ rest | _ ↦ y ∷ x ∷ xs ]

unfoldable pub sort : List ℕ → List ℕ
sort [] = []
sort (x ∷ xs) = sort_into x (sort xs)

-- `sortSet`
unfoldable pub sort_set : List ℕ → List ℕ
sort_set target_set = insert_all (sort target_set) []

-- `TmpSet` of a vector of types, after `sortSet`.
unfoldable pub sorted_hashes : List TypeDetailInfo → List ℕ
sorted_hashes ds = sort_set (insert_all (hashes ds) [])

-- What a round of `getSortedAllParentSet` appends.
abbrev pub parent_row : TypeInfo → List ℕ
parent_row t =
    let set = sorted_hashes t.all_parents in t.detail_info.type_hash_value ∷ length set ∷ set

abbrev pub parent_rows : List TypeInfo → List ℕ
parent_rows [] = []
parent_rows (t ∷ ts) = parent_row t ++ parent_rows ts

-- `getSortedAllParentSet`; `typeInfoArray` and `typeInfoArrayInt` get the same words.
unfoldable pub get_sorted_all_parent_set : List TypeInfo → List ℕ
get_sorted_all_parent_set all_type_info = length all_type_info ∷ parent_rows all_type_info

-- The types with phantoms other than themselves.
abbrev pub has_phantoms : TypeInfo → Bool
has_phantoms t = ltb 1 (length t.all_phantom_types)

unfoldable pub phantom_type_cnt : List TypeInfo → ℕ
phantom_type_cnt [] = 0
phantom_type_cnt (t ∷ ts) =
    let rest = phantom_type_cnt ts in if has_phantoms t then suc rest else rest

unfoldable pub phantom_rows : List TypeInfo → List ℕ
phantom_rows [] = []
phantom_rows (t ∷ ts) =
    let rest = phantom_rows ts in
    let set = sorted_hashes t.all_phantom_types in
    if has_phantoms t then t.detail_info.type_hash_value ∷ length set ∷ set ++ rest else rest

-- `getSortedAllPhantomSet`
unfoldable pub get_sorted_all_phantom_set : List TypeInfo → List ℕ
get_sorted_all_phantom_set all_type_info =
    phantom_type_cnt all_type_info ∷ phantom_rows all_type_info

-- The loop of `emitInstForObjTrace` that looks for a type's rules, by the rounds left.
unfoldable pub rule_scan : ℕ → List ℕ → ℕ → ℕ → Option ℕ
rule_scan zero array hash pos = some pos
rule_scan (suc n) array hash pos = do
  w ← get_elem? array pos
  elim (w == hash) [
    | true ↦ some (pos + 1)
    | false ↦ do
      inter_size ← get_elem? array (pos + 1)
      rule_scan n array hash (pos + 1 + (inter_size + 1))
  ]

unfoldable pub rule_position : List ℕ → ℕ → Option ℕ
rule_position array hash = do n ← get_elem? array 0; rule_scan n array hash 1
