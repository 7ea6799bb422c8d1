-- ===== src/Downcasts.antt =====
-- The checks that the front end puts at casts, and what the code for a cast does when it is run:
-- `GetNonVirtualBaseClassOffset`, `GetAddressOfDerivedClass`, `getHashValueFromQualType` and the
-- `EmitHexTypeCheckFor...` of src/clang-files/CGClass.cpp, `HexEmitCheck` and the case
-- `CK_BaseToDerived` for references of CGExpr.cpp, and that for pointers of CGExprScalar.cpp.
pub mod Dynamic
pub mod Checked
pub mod Reports
pub mod Ancestors
use hex_type.Prelude.{
  ℕ, ◌+◌, ◌-◌, ◌%◌, ◌^◌, Option, none, some, Bool, true, false, List, [], ◌∷◌, ◌==◌, ◌&&◌, not,
  ◌>>=◌, if◌then◌else◌,
}
use hex_type.Names.{get_hash_value_from_str}
use hex_type.Runtime.{Runtime}
use hex_type.Casts.{type_casting_verification, type_casting_verification_changing}
use hex_type.Classes.{ClassDecl, class_info, is_usable, RelationInfo, get_type_relation_info}

-- The offset of a base in a class, from `ASTRecordLayout`, by their declarations.
abbrev pub Layouts : Type 0
Layouts = ℕ → ℕ → ℕ

-- The loop of `computeNonVirtualBaseClassOffset` over the bases on a path.
abbrev pub add_offsets : Layouts → ℕ → List ℕ → ℕ → ℕ
add_offsets layout rd [] offset = offset
add_offsets layout rd (base ∷ path) offset =
    add_offsets layout base path ((offset + layout rd base) % 2 ^ 64)

abbrev pub compute_non_virtual_base_class_offset : Layouts → ℕ → List ℕ → ℕ
compute_non_virtual_base_class_offset layout derived path = add_offsets layout derived path 0

-- `GetNonVirtualBaseClassOffset`; `none` is the null pointer for an offset of zero.
unfoldable pub get_non_virtual_base_class_offset : Layouts → ℕ → List ℕ → Option ℕ
get_non_virtual_base_class_offset layout derived path =
    let offset = compute_non_virtual_base_class_offset layout derived path in
    if offset == 0 then none else some offset

-- The value of the code of `GetAddressOfDerivedClass`.
unfoldable pub get_address_of_derived_class : Option ℕ → Bool → ℕ → ℕ
get_address_of_derived_class none null_check base_addr = base_addr
get_address_of_derived_class (some offset) null_check base_addr =
    if null_check && base_addr == 0 then 0 else (base_addr + 2 ^ 64 - offset) % 2 ^ 64

-- A `RecordType`: its declaration, and the name of its struct type.
pub record ClassTy : Type 0 where
  pub decl : ClassDecl
  pub llvm_name : List ℕ

-- `getHashValueFromQualType`, for a type that may be no `RecordType`; the inner `none` is its null
-- pointer.
unfoldable pub get_hash_value_from_qual_type : Option ClassTy → Option (Option ℕ)
get_hash_value_from_qual_type none = some none
get_hash_value_from_qual_type (some t) =
    let hash = get_hash_value_from_str t.llvm_name >>= λ h. some (some h) in
    if is_usable t.decl then hash else some none

-- A call of a check, with the values of its arguments.
pub data Check : Type 0 where
  verification : ℕ → ℕ → Check
  verification_changing : ℕ → ℕ → ℕ → Check

-- `HexEmitCheck`
abbrev pub hex_emit_check : Bool → Check → List Check
hex_emit_check blacklisted check = if blacklisted then [] else check ∷ []

abbrev pub emit_hash_check : Bool → (ℕ → Check) → Option ℕ → List Check
emit_hash_check blacklisted check none = []
emit_hash_check blacklisted check (some hash) = hex_emit_check blacklisted (check hash)

-- `EmitHexTypeCheckForCast`
unfoldable pub emit_hex_type_check_for_cast : Bool → Option ClassTy → ℕ → Option (List Check)
emit_hex_type_check_for_cast blacklisted ty derived = do
  hash ← get_hash_value_from_qual_type ty
  some (emit_hash_check blacklisted (verification derived) hash)

-- `EmitHexTypeCheckForchangingCast`
unfoldable pub emit_hex_type_check_for_changing_cast :
    Bool → Option ClassTy → ℕ → ℕ → Option (List Check)
emit_hex_type_check_for_changing_cast blacklisted ty base derived = do
  hash ← get_hash_value_from_qual_type ty
  some (emit_hash_check blacklisted (verification_changing base derived) hash)

-- A cast to a derived class: whether HexType is on, whether the function is on the list of those to leave
-- out, the class and the path to the base.
pub record Downcast : Type 0 where
  pub hex_type : Bool
  pub blacklisted : Bool
  pub target : ClassTy
  pub path : List ℕ

abbrev pub downcast_offset : Layouts → Downcast → Option ℕ
downcast_offset layout c =
    get_non_virtual_base_class_offset layout (class_info c.target.decl).id c.path

-- The choice of the check.
unfoldable pub emit_downcast_check : Option ℕ → Downcast → ℕ → ℕ → Option (List Check)
emit_downcast_check non_virtual_offset c base derived =
    if c.hex_type
    then elim non_virtual_offset [
      | none ↦ emit_hex_type_check_for_cast c.blacklisted (some c.target) base
      | some offset ↦
          emit_hex_type_check_for_changing_cast c.blacklisted (some c.target) base derived
    ]
    else some []

-- A call of the run-time library.
unfoldable pub run_check : Check → Runtime → Option Runtime
run_check (verification src hash) s = type_casting_verification src hash s
run_check (verification_changing src dst hash) s = type_casting_verification_changing src dst hash s

abbrev pub run_checks : List Check → Runtime → Option Runtime
run_checks [] s = some s
run_checks (c ∷ cs) s = do s' ← run_check c s; run_checks cs s'

-- The code of a cast, run on an address: the derived address and the state after the checks.
unfoldable pub run_downcast : Option ℕ → Downcast → Bool → ℕ → Runtime → Option (ℕ × Runtime)
run_downcast non_virtual_offset c null_check base s =
    let derived = get_address_of_derived_class non_virtual_offset null_check base in
    do
      checks ← emit_downcast_check non_virtual_offset c base derived
      s' ← run_checks checks s
      some (derived, s')

-- `CK_BaseToDerived` of a reference, which has no test for null.
unfoldable pub reference_downcast : Layouts → Downcast → ℕ → Runtime → Option (ℕ × Runtime)
reference_downcast layout c base s = run_downcast (downcast_offset layout c) c false base s

-- `CK_BaseToDerived` of a pointer; `null_check` is `ShouldNullCheckClassCastValue`.
unfoldable pub pointer_downcast : Layouts → Downcast → Bool → ℕ → Runtime → Option (ℕ × Runtime)
pointer_downcast layout c null_check base s =
    run_downcast (downcast_offset layout c) c null_check base s

-- What the front end records for the cast of a pointer.
unfoldable pub pointer_downcast_relations : Downcast → RelationInfo → Option RelationInfo
pointer_downcast_relations c info =
    let recorded = get_type_relation_info c.target.decl c.target.decl info in
    if c.hex_type then recorded else some info
