-- ===== src/Examples/Casts.antt =====
-- The theorems on the names of classes and on the checks at casts, on two classes and a function with
-- a cast.
use hex_type.Prelude.{
  ℕ, ◌+◌, ◌%◌, ◌^◌, ◌-◌, ◌≡◌, ◌≢◌, refl, sym, ◌∙◌, none, some, true, false, [], ◌∷◌, ◌++◌, ◌==◌,
  ◌||◌, if◌then◌else◌, Returns,
}
use hex_type.Names.{
  get_hash_value_from_str, get_hash_value_from_sty, sync_type_name, remove_all, remove_target_str,
  remove_target_num, crc64c, crc_bytes,
}
use hex_type.Names.Plain.{IsPlain-of}
use hex_type.Names.Prefixes.{base}
use hex_type.Names.Records.{RecordDecl, tracked_prefix, add_record_type_name}
use hex_type.Names.Agreement.{IsClass, add_record_type_name-hash, add_record_type_name-base}
use hex_type.Runtime.{get_hash}
use hex_type.Objects.{entry_find, tree_lookup}
use hex_type.Casts.{is_related, rule_contains, rule_search, any_rule, word}
use hex_type.Downcasts.{
  Layouts, ClassTy, Downcast, downcast_offset, get_non_virtual_base_class_offset, pointer_downcast,
  reference_downcast,
}
use hex_type.Downcasts.Checked.{verified, downcast-verified}
use hex_type.Downcasts.Reports.{reported, pointer_downcast-reports}
use hex_type.Downcasts.Dynamic.{pointer, compute_offset_hint, emit_dynamic_cast_call}
use hex_type.Downcasts.Dynamic.Untracked.{emit_dynamic_cast_call-untracked}
use hex_type.Examples.{busy, one_object}
use hex_type.Examples.Front.{class_b}
use hex_type.Examples.Hierarchy.{hash_b}

-- `n::A`
abbrev scoped : RecordDecl
scoped = record {
  has_identifier = true;
  has_decl_context = true;
  is_cxx_record = true;
  is_blacklisted = false;
  kind_name = 99 ∷ [];
  name = 65 ∷ [];
  qualified_name = 110 ∷ 58 ∷ 58 ∷ 65 ∷ [];
  typedef_name = none;
}

scoped-IsClass : IsClass scoped ((110 ∷ []) ∷ [])
scoped-IsClass = record {
  named = refl;
  placed = refl;
  cxx = refl;
  shape = refl;
  plain = IsPlain-of (65 ∷ []) refl refl refl refl refl;
  plain_scopes = ((IsPlain-of (110 ∷ []) refl refl refl refl refl).no_colon, tt);
}

add_record_type_name-hash_example :
    (get_hash_value_from_str (add_record_type_name scoped []) ≡ get_hash_value_from_str (65 ∷ []))
    × (get_hash_value_from_sty (add_record_type_name scoped []) ≡ get_hash_value_from_str (65 ∷ []))
add_record_type_name-hash_example =
    add_record_type_name-hash scoped ((110 ∷ []) ∷ []) scoped-IsClass (λ e. cc)

-- `base2`
abbrev base2 : RecordDecl
base2 = record scoped { name = base ++ 50 ∷ []; qualified_name = base ++ 50 ∷ [] }

base2-IsClass : IsClass base2 []
base2-IsClass = record {
  named = refl;
  placed = refl;
  cxx = refl;
  shape = refl;
  plain = IsPlain-of (base ++ 50 ∷ []) refl refl refl refl refl;
  plain_scopes = tt;
}

add_record_type_name-base_example :
    (sync_type_name (add_record_type_name base2 []) ≡ some (tracked_prefix ++ 50 ∷ []))
    × (sync_type_name base2.name ≡ some (base ++ 50 ∷ []))
    × (tracked_prefix ++ 50 ∷ [] ≢ base ++ 50 ∷ [])
add_record_type_name-base_example =
    add_record_type_name-base base2 (50 ∷ []) base2-IsClass refl refl
      (IsPlain-of (50 ∷ []) refl refl refl refl refl)

-- The base of `B` is 8 bytes behind its start in this layout, and at its start in the other.
abbrev layout : ℕ → Layouts
layout offset derived b = offset

abbrev type_b : ClassTy
type_b = record { decl = class_b; llvm_name = tracked_prefix ++ 46 ∷ 66 ∷ [] }

abbrev cast_to_b : Downcast
cast_to_b = record { hex_type = true; blacklisted = false; target = type_b; path = 1 ∷ [] }

hash_lem : get_hash_value_from_str (tracked_prefix ++ 46 ∷ 66 ∷ []) ≡ some hash_b
unfolding get_hash_value_from_str sync_type_name remove_all remove_target_str remove_target_num
    crc64c crc_bytes
hash_lem = refl

downcast-verified_example :
    (pointer_downcast (layout 8) cast_to_b true 64 one_object
      ≡ verified (downcast_offset (layout 8) cast_to_b) true 64 hash_b one_object)
    × (reference_downcast (layout 8) cast_to_b 64 one_object
        ≡ verified (downcast_offset (layout 8) cast_to_b) false 64 hash_b one_object)
downcast-verified_example =
    downcast-verified (layout 8) cast_to_b true 64 hash_b one_object refl refl refl hash_lem

flat : downcast_offset (layout 0) cast_to_b ≡ none
unfolding get_non_virtual_base_class_offset
flat = refl

abbrev rules : ℕ → ℕ
rules h = 4096

related_lem : is_related one_object.memory [] 4096 hash_b ≡ some false
unfolding is_related any_rule rule_contains rule_search word
related_lem = refl

object_lem : entry_find (one_object.obj_type_map (get_hash 64)) 64 ≡ some busy.info
unfolding get_hash tree_lookup
object_lem = refl

pointer_downcast-reports_example :
    Returns (pointer_downcast (layout 0) cast_to_b true 64 one_object) λ r.
      (r.0 ≡ 64)
      × (r.1.reports
          ≡ (if 5 == hash_b || false then one_object.reports else reported 5 hash_b one_object))
pointer_downcast-reports_example =
    pointer_downcast-reports (layout 0) cast_to_b true rules busy.info 64 hash_b false one_object
      refl refl refl hash_lem flat (λ e. cc) object_lem refl (λ e. cc) related_lem
      (record { right = λ x y n e f. absurd (n (sym e ∙ f)) })

found_lem : entry_find (one_object.obj_type_map (get_hash 128)) 128 ≡ none
unfolding get_hash tree_lookup
found_lem = refl

emit_dynamic_cast_call-untracked_example :
    Returns
      (emit_dynamic_cast_call true 0 false
        (some type_b)
        (compute_offset_hint (layout 0) false [])
        128
        one_object)
      λ r.
        (r.0 ≡ pointer ((128 + 2 ^ 64 - compute_offset_hint (layout 0) false []) % 2 ^ 64))
        × (false ≡ false → r.0 ≡ pointer ((128 + 2) % 2 ^ 64))
emit_dynamic_cast_call-untracked_example =
    emit_dynamic_cast_call-untracked (layout 0) false [] 0 type_b hash_b 128 one_object refl
      hash_lem (λ e. cc) found_lem
