-- ===== src/Names/Records.antt =====
-- The names of struct types: `CodeGenTypes::addRecordTypeName` of src/clang-files/CodeGenTypes.cpp.
use hex_type.Prelude.{ℕ, Option, none, some, Bool, List, [], ◌∷◌, ◌++◌, if◌then◌else◌}

-- What the code asks of a `RecordDecl`: whether it has an identifier, a declaration context, is a
-- `CXXRecordDecl` and is on the list of types to leave out; the name of its kind, what `printName` and
-- `printQualifiedName` print, and what the typedef of an unnamed record prints.
pub record RecordDecl : Type 0 where
  pub has_identifier : Bool
  pub has_decl_context : Bool
  pub is_cxx_record : Bool
  pub is_blacklisted : Bool
  pub kind_name : List ℕ
  pub name : List ℕ
  pub qualified_name : List ℕ
  pub typedef_name : Option (List ℕ)

-- "trackedtype" and "blacklistedtype"
abbrev pub tracked_prefix : List ℕ
tracked_prefix = 116 ∷ 114 ∷ 97 ∷ 99 ∷ 107 ∷ 101 ∷ 100 ∷ 116 ∷ 121 ∷ 112 ∷ 101 ∷ []

abbrev pub blacklisted_prefix : List ℕ
blacklisted_prefix =
    98 ∷ 108 ∷ 97 ∷ 99 ∷ 107 ∷ 108 ∷ 105 ∷ 115 ∷ 116 ∷ 101 ∷ 100 ∷ 116 ∷ 121 ∷ 112 ∷ 101 ∷ []

-- `addRecordTypeName`, up to `setName`
unfoldable pub add_record_type_name : RecordDecl → List ℕ → List ℕ
add_record_type_name rd suffix =
    (if rd.has_identifier
      then (if rd.has_decl_context
          then (if rd.is_cxx_record
              then (if rd.is_blacklisted then blacklisted_prefix else tracked_prefix)
                ++ 46 ∷ rd.qualified_name
              else rd.kind_name ++ 46 ∷ rd.qualified_name)
          else rd.kind_name ++ 46 ∷ rd.name)
      else elim rd.typedef_name [
        | some typedef_name ↦ rd.kind_name ++ 46 ∷ typedef_name
        | none ↦ rd.kind_name ++ 46 ∷ 97 ∷ 110 ∷ 111 ∷ 110 ∷ []
      ])
    ++ suffix
