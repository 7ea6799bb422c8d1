-- ===== src/Examples.antt =====
-- Small inputs on which the theorems apply: a state with one object of a type that has rules, the
-- tables of two types, and trees.
mod Trees
mod Library
mod Compiler
mod Relations
mod Scopes
mod Checks
mod Front
mod Hierarchy
mod Casts
use hex_type.Prelude.{
  get_elem?, ℕ, ◌*◌, ◌+◌, ◌/◌, ◌%◌, ◌^◌, Option, none, some, Bool, true, false, List, [], ◌∷◌, ◌==◌,
  if◌then◌else◌,
}
use hex_type.RbTree.{Tree, leaf, node, Color, red, black}
use hex_type.Runtime.{Runtime, Entry, ObjInfo, VerifyResultEntry}
use hex_type.Types.{TypeInfo, TypeDetailInfo}

abbrev pub vacant : Entry
vacant = record {
  info = record {
    obj_addr = 0;
    rule_addr = 0;
    type_hash_value = 0;
    heap_array_size = 0;
    offset = 0;
  };
  hex_tree = none;
}

-- An object of type 5 at address 64.
abbrev pub busy : Entry
busy = record {
  info = record {
    obj_addr = 64;
    rule_addr = 4096;
    type_hash_value = 5;
    heap_array_size = 1;
    offset = 0;
  };
  hex_tree = none;
}

-- The rules of type 5 are its parent 7.
abbrev pub memory : ℕ → ℕ
memory a = if a == 4096 then 1 else if a == 4104 then 7 else 0

abbrev pub one_object : Runtime
one_object = record {
  memory = memory;
  obj_type_map = λ i. if i == 8 then busy else vacant;
  verify_result_cache = λ i. record { src_h_value = 0; dst_h_value = 0; verify_result = 0 };
  obj_phantom_info = λ hash. none;
  phantom_sets = λ p. [];
  next_set = 0;
  counts = λ i. 0;
  reports = [];
}

abbrev pub detail : ℕ → ℕ → TypeDetailInfo
detail hash index = record { type_hash_value = hash; type_index = index; type_name = [] }

abbrev pub parent : TypeInfo
parent = record {
  alloc_size = 8;
  detail_info = detail 7 0;
  element_size = 0;
  direct_parents = [];
  direct_phantom_types = [];
  all_parents = detail 7 0 ∷ [];
  all_phantom_types = detail 7 0 ∷ [];
}

abbrev pub child : TypeInfo
child = record {
  alloc_size = 16;
  detail_info = detail 5 1;
  element_size = 1;
  direct_parents = detail 7 0 ∷ [];
  direct_phantom_types = [];
  all_parents = detail 5 1 ∷ detail 7 0 ∷ detail 7 0 ∷ [];
  all_phantom_types = detail 5 1 ∷ [];
}

-- The words of an array, and zeros after it.
abbrev pub words : List ℕ → ℕ → ℕ
words array i = elim (get_elem? array i) [ none ↦ 0 | some w ↦ w ]

abbrev pub small_tree : Tree ℕ
small_tree = node black (node red leaf 8 80 leaf) 16 160 (node red leaf 24 240 leaf)
