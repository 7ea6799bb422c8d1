-- ===== src/Classes.antt =====
-- The relations between classes that the compiler's front end logs:
-- `insertTypeRelationInfo` and `getTypeRelationInfo` of src/clang-files/CGExprCXX.cpp, and the
-- destructor of `CodeGenFunction` in src/clang-files/CodeGenFunction.cpp, which writes them.
pub mod Spans
pub mod Ancestors
pub mod Tables
pub mod Checks
use Prim.Native.Nat.Ordering.{lt, eq, gt}
use Prim.Native.Nat.{compare}
use hex_type.Prelude.{
  ℕ, Option, none, some, Bool, true, false, List, [], ◌∷◌, ◌++◌, ◌==◌, ◌&&◌, not, if◌then◌else◌,
  ◌>>=◌,
}
use hex_type.Names.{get_hash_value_from_str}
use hex_type.Phantoms.{insert}
use hex_type.Types.Links.{LogLine}

-- What the code asks of a declaration: which one it is, its name, whether it is a complete definition,
-- has one and is anonymous, and the data size of its layout.
pub record ClassInfo : Type 0 where
  pub id : ℕ
  pub name : List ℕ
  pub is_complete_definition : Bool
  pub has_definition : Bool
  pub is_anonymous : Bool
  pub data_size : ℕ

-- `CXXRecordDecl` with its bases; a base that is no class has no declaration.
mutual
  pub data ClassDecl : Type 0 where
    class_decl : ClassInfo → Bases → ClassDecl

  pub data Bases : Type 0 where
    no_bases : Bases
    base : ClassDecl → Bases → Bases
    no_decl : Bases → Bases

abbrev pub class_info : ClassDecl → ClassInfo
class_info (class_decl i bases) = i

abbrev pub is_usable : ClassDecl → Bool
is_usable c =
    (class_info c).is_complete_definition
    && ((class_info c).has_definition && not (class_info c).is_anonymous)

-- `std::map<uint64_t, HashSet*>`, in ascending order.
abbrev pub Storage : Type 0
Storage = List (ℕ × List ℕ)

-- `insertTypeRelationInfo`
unfoldable pub insert_type_relation_info : ℕ → ℕ → Storage → Storage
insert_type_relation_info target parent [] = (target, parent ∷ []) ∷ []
insert_type_relation_info target parent ((k, set) ∷ rest) =
    let later = insert_type_relation_info target parent rest in
    elim (compare target k) [
      | lt ↦ (target, parent ∷ []) ∷ (k, set) ∷ rest
      | eq ↦ (k, insert parent set) ∷ rest
      | gt ↦ (k, set) ∷ later
    ]

-- `TypeParentInfo` and `TypePhantomInfo`.
pub record RelationInfo : Type 0 where
  pub type_parent_info : Storage
  pub type_phantom_info : Storage

abbrev pub insert_phantoms : Bool → ℕ → ℕ → Storage → Storage
insert_phantoms same_size target parent s =
    if same_size
    then insert_type_relation_info parent target (insert_type_relation_info target parent s)
    else s

-- What `getTypeRelationInfo` records for a class and another.
abbrev pub insert_relation : ℕ → ℕ → Bool → RelationInfo → RelationInfo
insert_relation target parent same_size s = record {
  type_parent_info = insert_type_relation_info target parent s.type_parent_info;
  type_phantom_info = insert_phantoms same_size target parent s.type_phantom_info;
}

abbrev pub is_recorded : ClassDecl → ClassDecl → ℕ → ℕ → Bool
is_recorded target parent x y =
    not ((class_info target).id == (class_info parent).id) && (not (x == 0) && not (y == 0))

unfoldable pub record_relation : ClassDecl → ClassDecl → RelationInfo → Option RelationInfo
record_relation target parent s = do
  x ← get_hash_value_from_str (class_info target).name
  y ← get_hash_value_from_str (class_info parent).name
  some (
      if is_recorded target parent x y
      then insert_relation x y ((class_info target).data_size == (class_info parent).data_size) s
      else s)

unfoldable mutual
  -- `getTypeRelationInfo`
  pub get_type_relation_info : ClassDecl → ClassDecl → RelationInfo → Option RelationInfo
  get_type_relation_info target (class_decl i bases) s =
      let recorded =
        record_relation target (class_decl i bases) s
        >>= relate_bases target (class_decl i bases) bases in
      if is_usable target then recorded else some s

  -- Its loop over the bases.
  pub relate_bases : ClassDecl → ClassDecl → Bases → RelationInfo → Option RelationInfo
  relate_bases target parent no_bases s = some s
  relate_bases target parent (no_decl rest) s = relate_bases target parent rest s
  relate_bases target parent (base b rest) s =
      let related =
        get_type_relation_info target b s
        >>= get_type_relation_info parent b
        >>= relate_bases target parent rest in
      let skipped = relate_bases target parent rest s in if is_usable b then related else skipped

-- The lines that the destructor writes.
abbrev pub key_lines : ℕ → ℕ → List ℕ → List LogLine
key_lines relation key [] = []
key_lines relation key (parent ∷ parents) =
    record { relation = relation; from_ty = key; to_ty = parent } ∷ key_lines relation key parents

abbrev pub storage_lines : ℕ → Storage → List LogLine
storage_lines relation [] = []
storage_lines relation ((key, parents) ∷ rest) =
    key_lines relation key parents ++ storage_lines relation rest

unfoldable pub relation_lines : RelationInfo → List LogLine
relation_lines s = storage_lines 1 s.type_parent_info ++ storage_lines 2 s.type_phantom_info
