-- ===== src/Examples/Hierarchy.antt =====
-- The theorem on casts to ancestors, on a class with a base: from their declarations to the check.
use hex_type.Prelude.{
  ℕ, ◌*◌, ◌+◌, ◌/◌, ◌%◌, ◌^◌, ◌<◌, ◌≡◌, refl, sym, ap, subst, ◌∙◌, none, some, List, [], ◌∷◌, ◌++◌,
  length, get_elem?_bound, true, false, ◌==◌, if◌then◌else◌, inl, Returns, arith,
}
use hex_type.Names.{
  get_hash_value_from_str, get_hash_value_from_sty, sync_type_name, remove_all, remove_target_str,
  remove_target_num, crc64c, crc_bytes,
}
use hex_type.Phantoms.{insert, insert_all}
use hex_type.Runtime.{Runtime, get_hash, ObjInfo}
use hex_type.Casts.Cache.{IsCoherent, reference}
use hex_type.Types.{
  TypeInfo, TypeDetailInfo, sorted_hashes, sort_set, sort, sort_into, get_sorted_all_parent_set,
  get_sorted_all_phantom_set, rule_position, rule_scan,
}
use hex_type.Types.Direct.{direct_types, parsing_type_info, set_type_detail_info, element_parents}
use hex_type.Types.Relations.{extend_type, traverse, extend_set}
use hex_type.Types.Rules.{Loaded}
use hex_type.Types.Links.{
  create_obj_relation_info, get_direct_type_info, get_type_info_from_clang, add_line,
  extend_type_relation_info, relate_type, relate,
}
use hex_type.Classes.{
  RelationInfo, get_type_relation_info, relate_bases, record_relation, insert_type_relation_info,
  relation_lines,
}
use hex_type.Classes.Ancestors.{parent}
use hex_type.Classes.Tables.{IsPair}
use hex_type.Names.Plain.{IsPlain-of}
use hex_type.Names.Records.{RecordDecl, tracked_prefix, add_record_type_name}
use hex_type.Names.Agreement.{IsClass}
use hex_type.Objects.{entry_find, tree_lookup}
use hex_type.Downcasts.{
  Layouts, Downcast, downcast_offset, get_non_virtual_base_class_offset, pointer_downcast,
}
use hex_type.Downcasts.Ancestors.{pointer_downcast-Ancestor}
use hex_type.Examples.{busy, vacant, one_object, words}
use hex_type.Examples.Front.{class_a, class_b, nothing, module_types}

abbrev pub hash_a : ℕ
hash_a = 14426654717067388823

abbrev pub hash_b : ℕ
hash_b = 10349198199778187427

abbrev recorded : RelationInfo
recorded = record { type_parent_info = (hash_b, hash_a ∷ []) ∷ []; type_phantom_info = [] }

recorded_lem : get_type_relation_info class_b class_b nothing ≡ some recorded
unfolding get_type_relation_info relate_bases record_relation insert_type_relation_info insert
    get_hash_value_from_str sync_type_name remove_all remove_target_str remove_target_num crc64c
    crc_bytes
recorded_lem = refl

pair_lem : IsPair class_b class_a hash_b hash_a
unfolding get_hash_value_from_str sync_type_name remove_all remove_target_str remove_target_num
    crc64c crc_bytes
pair_lem = (refl, refl, refl)

abbrev detail_a : TypeDetailInfo
detail_a = record { type_hash_value = hash_a; type_index = 0; type_name = 65 ∷ [] }

abbrev detail_b : TypeDetailInfo
detail_b = record { type_hash_value = hash_b; type_index = 1; type_name = 66 ∷ [] }

abbrev type_a : TypeInfo
type_a = record {
  alloc_size = 8;
  detail_info = detail_a;
  element_size = 0;
  direct_parents = [];
  direct_phantom_types = [];
  all_parents = detail_a ∷ [];
  all_phantom_types = detail_a ∷ [];
}

abbrev type_b : TypeInfo
type_b = record {
  alloc_size = 16;
  detail_info = detail_b;
  element_size = 1;
  direct_parents =
      detail_a ∷ record { type_hash_value = hash_a; type_index = 0; type_name = [] } ∷ [];
  direct_phantom_types = [];
  all_parents = detail_b ∷ detail_a ∷ [];
  all_phantom_types = detail_b ∷ [];
}

abbrev types : List TypeInfo
types = type_a ∷ type_b ∷ []

abbrev result : List TypeInfo × List ℕ × List ℕ
result = (types, get_sorted_all_parent_set types, get_sorted_all_phantom_set types)

result_lem :
    create_obj_relation_info ([] ++ (relation_lines recorded ++ [])) module_types ≡ some result
unfolding create_obj_relation_info get_direct_type_info direct_types parsing_type_info
    set_type_detail_info element_parents get_type_info_from_clang add_line relation_lines
    extend_type_relation_info relate_type relate extend_type traverse extend_set
    get_hash_value_from_sty get_hash_value_from_str sync_type_name remove_all remove_target_str
    remove_target_num crc64c crc_bytes
result_lem = refl

abbrev table : List ℕ
table = get_sorted_all_parent_set types

table_lem : table ≡ (2 ∷ hash_a ∷ 1 ∷ hash_a ∷ hash_b ∷ 2 ∷ hash_b ∷ hash_a ∷ [])
unfolding get_sorted_all_parent_set sorted_hashes sort_set sort sort_into insert_all insert
table_lem = refl

abbrev table_memory : ℕ → ℕ
table_memory a = words table (a / 8)

table-Loaded : Loaded table_memory 0 table
table-Loaded i w e =
    let bound : i < 8 = subst (λ t. i < length t) table_lem (get_elem?_bound table i w e) in
    let place : (0 + 8 * i) % 2 ^ 64 / 8 ≡ i = omega arith in
    ap (words table) place ∙ ap (λ o. elim o [ none ↦ 0 | some x ↦ x ]) e

small_lem : length (sorted_hashes type_b.all_parents) < 2 ^ 63
unfolding sorted_hashes sort_set sort sort_into insert_all insert
small_lem = omega arith

place_lem : rule_position table hash_b ≡ some 5
unfolding rule_position rule_scan get_sorted_all_parent_set sorted_hashes sort_set sort sort_into
    insert_all insert
place_lem = refl

-- An object of `B`, whose rules are at word 5 of the table.
abbrev object : ObjInfo
object = record (busy.info) { type_hash_value = hash_b; rule_addr = 40 }

abbrev running : Runtime
running = record one_object {
  memory = table_memory;
  obj_type_map = λ i. if i == 8 then record busy { info = object } else vacant;
}

abbrev rules : ℕ → ℕ
rules h = 40

empty-IsCoherent : IsCoherent (reference rules running) running.verify_result_cache
empty-IsCoherent = record { right = λ x y n e f. absurd (n (sym e ∙ f)) }

-- `A`
abbrev decl_a : RecordDecl
decl_a = record {
  has_identifier = true;
  has_decl_context = true;
  is_cxx_record = true;
  is_blacklisted = false;
  kind_name = 99 ∷ [];
  name = 65 ∷ [];
  qualified_name = 65 ∷ [];
  typedef_name = none;
}

decl_a-IsClass : IsClass decl_a []
decl_a-IsClass = record {
  named = refl;
  placed = refl;
  cxx = refl;
  shape = refl;
  plain = IsPlain-of (65 ∷ []) refl refl refl refl refl;
  plain_scopes = tt;
}

-- `static_cast<A *>`
abbrev cast_to_a : Downcast
cast_to_a = record {
  hex_type = true;
  blacklisted = false;
  target = record { decl = class_a; llvm_name = tracked_prefix ++ 46 ∷ 65 ∷ [] };
  path = 3 ∷ [];
}

abbrev layout : Layouts
layout derived b = 0

flat : downcast_offset layout cast_to_a ≡ none
unfolding get_non_virtual_base_class_offset
flat = refl

struct_lem : cast_to_a.target.llvm_name ≡ add_record_type_name decl_a []
unfolding add_record_type_name
struct_lem = refl

object_lem : entry_find (running.obj_type_map (get_hash 64)) 64 ≡ some object
unfolding get_hash tree_lookup
object_lem = refl

pointer_downcast-Ancestor_example :
    Returns
      (pointer_downcast layout cast_to_a true 64 running)
      λ q. (q.0 ≡ 64) × (q.1.reports ≡ running.reports)
pointer_downcast-Ancestor_example =
    pointer_downcast-Ancestor layout cast_to_a true decl_a [] 64 class_b class_b hash_b hash_a
      nothing recorded [] [] module_types result (type_a ∷ []) type_b [] 0 type_a 0 5 rules object
      running refl refl refl flat decl_a-IsClass (λ e. refl) refl struct_lem refl recorded_lem
      result_lem (inl refl) (parent (inl refl) refl) pair_lem refl refl (refl, tt) refl refl
      (λ e. cc) table-Loaded small_lem place_lem (λ e. cc) object_lem refl (omega arith) (λ e. cc)
      refl empty-IsCoherent
