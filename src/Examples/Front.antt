-- ===== src/Examples/Front.antt =====
-- The theorems on the relations that the front end logs and on the tables made of them, on a class with a
-- base, and on the safe stack analysis, on an object that is passed round a loop.
use hex_type.Prelude.{
  ℕ, ◌≡◌, refl, some, true, false, List, [], ◌∷◌, ◌++◌, ◌==◌, if◌then◌else◌, Returns, arith,
}
use hex_type.Layout.{no_fields, field, struct_type}
use hex_type.Types.Direct.{StructTy, collected}
use hex_type.Types.Links.{LogLine, create_obj_relation_info}
use hex_type.Types.Links.Closure.{Closed}
use hex_type.Types.Links.Linked.{IsLinked}
use hex_type.Types.Links.Created.{create_obj_relation_info-Closed}
use hex_type.Classes.{
  ClassInfo, ClassDecl, class_decl, no_bases, base, RelationInfo, get_type_relation_info,
  relation_lines,
}
use hex_type.Classes.Ancestors.{Lineage, Ancestor}
use hex_type.Classes.Tables.{IsPair, Lists, get_type_relation_info-Lists}
use hex_type.SafeStack.{
  Def, StackObject, load, bit_cast, phi, other_opcode, judge, scan_uses, explore,
  is_safe_stack_alloca,
}
use hex_type.SafeStack.Decision.{UsersBelow, Decides, is_safe_stack_alloca-Decides}

-- "trackedtype.A" and "trackedtype.B", the second with the first as its first element.
abbrev pub tracked : ℕ → List ℕ
tracked c = 116 ∷ 114 ∷ 97 ∷ 99 ∷ 107 ∷ 101 ∷ 100 ∷ 116 ∷ 121 ∷ 112 ∷ 101 ∷ 46 ∷ c ∷ []

abbrev pub module_types : List StructTy
module_types =
    record { name = tracked 65; literal = false; opaque = false; parts = no_fields; alloc_size = 8 }
    ∷ record {
      name = tracked 66;
      literal = false;
      opaque = false;
      parts = field 0 (struct_type (tracked 65) false false no_fields) no_fields;
      alloc_size = 16;
    }
    ∷ []

abbrev lines : List LogLine
lines = record { relation = 1; from_ty = 5; to_ty = 7 } ∷ []

collected_lem : collected module_types ≡ 2
unfolding collected
collected_lem = refl

create_obj_relation_info-Closed_example :
    Returns (create_obj_relation_info lines module_types) λ r. Closed r.0 × IsLinked r.0
create_obj_relation_info-Closed_example =
    create_obj_relation_info-Closed lines module_types (omega (arith, collected_lem))

abbrev pub some_info : ℕ → ℕ → ℕ → ClassInfo
some_info id letter size = record {
  id = id;
  name = letter ∷ [];
  is_complete_definition = true;
  has_definition = true;
  is_anonymous = false;
  data_size = size;
}

abbrev pub class_a : ClassDecl
class_a = class_decl (some_info 1 65 8) no_bases

abbrev pub class_b : ClassDecl
class_b = class_decl (some_info 2 66 16) (base class_a no_bases)

abbrev pub nothing : RelationInfo
nothing = record { type_parent_info = []; type_phantom_info = [] }

get_type_relation_info-Lists_example :
    Returns (get_type_relation_info class_b class_b nothing) λ s'.
      Returns (create_obj_relation_info (lines ++ (relation_lines s' ++ [])) module_types) λ r.
        (x z : ClassDecl) (hx hz : ℕ)
        → Lineage class_b x
        → Ancestor x z
        → IsPair x z hx hz
        → Lists hx hz r.0
get_type_relation_info-Lists_example =
    get_type_relation_info-Lists class_b nothing lines [] module_types refl
      (omega (arith, collected_lem))

-- Value 0 is the object, 1 a `phi` that takes it and the cast 2 of itself, and 3 a load.
abbrev loop_defs : ℕ → Def
loop_defs v =
    if v == 0
    then record { opcode = other_opcode; users = 1 ∷ []; is_pointer_ty = true }
    else if v == 1
    then record { opcode = phi; users = 2 ∷ 3 ∷ []; is_pointer_ty = true }
    else if v == 2
    then record { opcode = bit_cast; users = 1 ∷ []; is_pointer_ty = true }
    else record { opcode = load; users = []; is_pointer_ty = false }

abbrev object : StackObject
object = record { value = 0; has_constant_size = true; holds_pointer = false }

loop_below : UsersBelow loop_defs object 4
loop_below v u h = ground arith

is_safe_stack_alloca-Decides_example :
    Returns (is_safe_stack_alloca loop_defs object 4) (Decides loop_defs object 4 loop_below)
is_safe_stack_alloca-Decides_example = is_safe_stack_alloca-Decides loop_defs object 4 loop_below

is_safe_stack_alloca_lem : is_safe_stack_alloca loop_defs object 4 ≡ some true
unfolding is_safe_stack_alloca explore scan_uses judge
is_safe_stack_alloca_lem = refl
