-- ===== src/Objects.antt =====
-- The object map of src/compiler-rt-files/hextype.cc: `findObjInfo`, the `__update_...` and the
-- `__remove_...` functions. An address has one entry of the table, where the last object that was
-- registered there stands; those that it displaced are in the entry's red-black tree.
pub mod Entries
pub mod Find
pub mod Remove
pub mod Faults
use hex_type.Prelude.{
  ℕ, zero, suc, ◌+◌, ◌-◌, ◌*◌, ◌%◌, ◌^◌, Option, none, some, Bool, true, false, ◌||◌, ltb, ◌==◌,
  if◌then◌else◌, ◌>>=◌,
}
use hex_type.Counters.{
  num_look_hit, num_look_miss, num_look_fail, num_update_miss, num_remove_miss, num_heap_rm,
}
use hex_type.RbTree.{Tree, leaf, node, rbtree_create, rbtree_lookup}
use hex_type.RbTree.Insert.{rbtree_insert}
use hex_type.RbTree.Delete.{rbtree_delete}
use hex_type.Runtime.{Runtime, Entry, ObjInfo, get_hash, count, set_entry, heapalloc, realloc}

-- `HexTree != nullptr && HexTree->root != nullptr`, then `rbtree_lookup`
unfoldable pub tree_lookup : Entry → ℕ → Option ObjInfo
tree_lookup e addr = elim e.hex_tree [ none ↦ none | some t ↦ rbtree_lookup t addr ]

unfoldable pub find_obj_info : ℕ → Runtime → Option ObjInfo × Runtime
unfolding tree_lookup
find_obj_info src_addr s =
    let e = s.obj_type_map (get_hash src_addr) in
    if e.info.obj_addr == src_addr
    then (some e.info, count num_look_hit s)
    else elim (tree_lookup e src_addr) [
      | some v ↦ (some v, count num_look_miss s)
      | none ↦ (none, count num_look_fail s)
    ]

-- What an entry holds of an object at an address.
abbrev pub entry_find : Entry → ℕ → Option ObjInfo
entry_find e addr = if e.info.obj_addr == addr then some e.info else tree_lookup e addr

-- The five writes to the fields of an entry.
abbrev pub write_entry : ℕ → ℕ → ℕ → ℕ → ℕ → Entry → Entry
write_entry addr type_hash offset array_size rule_addr e = record e {
  info = record {
    obj_addr = addr;
    rule_addr = rule_addr;
    type_hash_value = type_hash;
    heap_array_size = array_size % 2 ^ 32;
    offset = offset;
  };
}

-- Saves the entry's object in its tree, which is created if need be.
pub displace : Entry → Option Entry
displace e = do
  t ← rbtree_insert (elim e.hex_tree [ none ↦ rbtree_create | some t ↦ t ]) e.info.obj_addr e.info
  some (record e { hex_tree = some t })

-- `__update_direct_oinfo_inline`
unfoldable pub update_direct_oinfo_inline : ℕ → ℕ → ℕ → ℕ → ℕ → Runtime → Option Runtime
unfolding displace
update_direct_oinfo_inline addr type_hash offset rule_addr map_index s = do
  e ← displace (s.obj_type_map map_index)
  some (
      set_entry map_index (write_entry addr type_hash offset 1 rule_addr e)
        (count num_update_miss s))

-- One object of an array of `array_size`, as both `__update_direct_oinfo` (of one) and the loop of
-- `__update_oinfo` register it.
unfoldable pub register : ℕ → ℕ → ℕ → ℕ → ℕ → Runtime → Option Runtime
unfolding displace
register addr type_hash offset array_size rule_addr s =
    let i = get_hash addr in
    let e = s.obj_type_map i in
    if e.info.obj_addr == 0 || e.info.obj_addr == addr
    then some (set_entry i (write_entry addr type_hash offset array_size rule_addr e) s)
    else do
      e' ← displace e
      some (
          set_entry i (write_entry addr type_hash offset array_size rule_addr e')
            (count num_update_miss s))

-- `__update_direct_oinfo`
unfoldable pub update_direct_oinfo : ℕ → ℕ → ℕ → ℕ → Runtime → Option Runtime
unfolding register
update_direct_oinfo addr type_hash offset rule_addr s = register addr type_hash offset 1 rule_addr s

-- `__handle_reinterpret_cast`; -1 is the offset of an object that such a cast registered.
unfoldable pub handle_reinterpret_cast : ℕ → ℕ → ℕ → ℕ → Runtime → Option Runtime
unfolding find_obj_info update_direct_oinfo
handle_reinterpret_cast addr type_hash offset rule_addr s =
    let (found, s₁) = find_obj_info addr s in
    elim found [
      | none ↦ update_direct_oinfo addr type_hash (2 ^ 32 - 1) rule_addr s₁
      | some v ↦
          if v.offset == 2 ^ 32 - 1
          then update_direct_oinfo addr type_hash (2 ^ 32 - 1) rule_addr s₁
          else some s₁
    ]

-- `(char *)base + TypeSize * i`: the product is of `uint32_t`.
abbrev pub element : ℕ → ℕ → ℕ → ℕ
element base type_size i = (base + type_size * i % 2 ^ 32) % 2 ^ 64

-- The loop of `__update_oinfo`, by the rounds left.
update_elements : ℕ → ℕ → ℕ → ℕ → ℕ → ℕ → ℕ → ℕ → Runtime → Option Runtime
unfolding register
update_elements zero i base type_hash offset type_size array_size rule_addr s = some s
update_elements (suc n) i base type_hash offset type_size array_size rule_addr s = do
  s' ← register (element base type_size i) type_hash offset array_size rule_addr s
  update_elements n (i + 1) base type_hash offset type_size array_size rule_addr s'

-- `__update_oinfo`. The `uint32_t` counter never reaches an `array_size` of 2 ^ 32 or more: `none`.
unfoldable pub update_oinfo : ℕ → ℕ → ℕ → ℕ → ℕ → ℕ → Runtime → Option Runtime
unfolding update_elements
update_oinfo base type_hash offset type_size array_size rule_addr s =
    if ltb array_size (2 ^ 32)
    then update_elements array_size 0 base type_hash offset type_size array_size rule_addr s
    else none

-- Takes an address out of an entry's tree, if the tree holds it.
pub remove_from_tree : ℕ → Entry → Option Entry
unfolding tree_lookup
remove_from_tree addr e = elim e.hex_tree [
  | none ↦ some e
  | some t ↦ elim (rbtree_lookup t addr) [
    | none ↦ some e
    | some v ↦ do r ← rbtree_delete t addr; some (record e { hex_tree = some r.1 })
  ]
]

-- `__remove_direct_oinfo_inline`
unfoldable pub remove_direct_oinfo_inline : ℕ → ℕ → Runtime → Option Runtime
unfolding remove_from_tree
remove_direct_oinfo_inline addr map_index s = do
  e ← remove_from_tree addr (s.obj_type_map map_index)
  some (set_entry map_index e s)

-- `__remove_direct_oinfo`, which is also a round of the loop of `__remove_oinfo`
unfoldable pub remove_direct_oinfo : ℕ → Runtime → Option Runtime
unfolding remove_from_tree
remove_direct_oinfo addr s =
    let i = get_hash addr in
    let e = s.obj_type_map i in
    if e.info.obj_addr == addr
    then some (set_entry i (record e { info = record (e.info) { obj_addr = 0 } }) s)
    else do e' ← remove_from_tree addr e; some (set_entry i e' (count num_remove_miss s))

-- The rounds left, the index, `HEX_LOG`'s count of heap objects.
remove_elements : ℕ → ℕ → ℕ → ℕ → ℕ → Runtime → Option Runtime
unfolding remove_direct_oinfo
remove_elements zero i base type_size alloc_type s = some s
remove_elements (suc n) i base type_size alloc_type s = do
  s' ←
      remove_direct_oinfo (element base type_size i)
        (if alloc_type == heapalloc || alloc_type == realloc then count num_heap_rm s else s)
  remove_elements n (i + 1) base type_size alloc_type s'

-- The array size that `__remove_oinfo` goes by: of a heap object the recorded one.
unfoldable pub removal_size : ℕ → ℕ → ℕ → Runtime → ℕ
removal_size base array_size alloc_type s =
    let e = s.obj_type_map (get_hash base) in
    if alloc_type == heapalloc || alloc_type == realloc
    then (if e.info.obj_addr == base then e.info.heap_array_size else elim e.hex_tree [
      | none ↦ 1
      | some leaf ↦ 1
      | some (node c l k v r) ↦ elim (rbtree_lookup (node c l k v r) base) [
        | none ↦ array_size
        | some v' ↦ v'.heap_array_size
      ]
    ])
    else array_size

-- `__remove_oinfo`
unfoldable pub remove_oinfo : ℕ → ℕ → ℕ → ℕ → Runtime → Option Runtime
unfolding removal_size remove_elements
remove_oinfo base type_size array_size alloc_type s =
    let n = removal_size base array_size alloc_type s in
    if ltb n (2 ^ 32) then remove_elements n 0 base type_size alloc_type s else none
