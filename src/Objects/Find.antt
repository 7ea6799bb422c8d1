-- ===== src/Objects/Find.antt =====
-- `findObjInfo` after a registration and after a removal, and that neither follows a null pointer.
use hex_type.Prelude.{
  ℕ, ◌%◌, ◌^◌, ◌≡◌, ◌≢◌, ◌∙◌, refl, sym, Option, some, ◌||◌, ◌==◌, if◌then◌else◌, inl, inr,
  Bool-cases, Returns, arith, ==_refl, eq_of_==,
}
use hex_type.RbTree.{compare, as_int}
use hex_type.RbTree.Search.{override, compare_lem}
use hex_type.Counters.{num_update_miss}
use hex_type.Runtime.{count, Runtime, Entry, ObjInfo, get_hash, update, set_entry}
use hex_type.Objects.{tree_lookup, entry_find, write_entry, find_obj_info, register}
use hex_type.Objects.Entries.{TreeOk, displace-tree_lookup}

-- Every tree of the object map is a search tree and a red-black tree.
pub record IsObjectMap (s : Runtime) : Type 0 where
  pub trees : (i : ℕ) → TreeOk (s.obj_type_map i).hex_tree

-- What the library knows of an object at an address.
abbrev pub find : ℕ → Runtime → Option ObjInfo
find addr s = (find_obj_info addr s).0

pub find-entry_find :
    (addr : ℕ) (s : Runtime) → find addr s ≡ entry_find (s.obj_type_map (get_hash addr)) addr
unfolding find_obj_info
find-entry_find addr s = ground arith

-- An entry of the map, rewritten.
pub update-IsObjectMap :
    (s : Runtime) (i : ℕ) (e : Entry) (s' : Runtime)
    → IsObjectMap s
    → TreeOk e.hex_tree
    → s'.obj_type_map ≡ update s.obj_type_map i e
    → IsObjectMap s'
update-IsObjectMap s i e s' ok h eq = record {
  trees = λ j. rw eq (elim (Bool-cases (i == j)) [ inl t ↦ rw t h | inr t ↦ rw t (ok.trees j) ]);
}

-- What a registration makes of the entry at the address.
abbrev pub Registered : ℕ → ObjInfo → Entry → Entry → Type 0
Registered addr v e e' =
    TreeOk e'.hex_tree
    × (e'.info ≡ v)
    × ((p : ℕ)
        → tree_lookup e' p ≡ (
            if e.info.obj_addr == 0 || e.info.obj_addr == addr
            then tree_lookup e p
            else override (compare p e.info.obj_addr) (some e.info) (tree_lookup e p)))

pub find_after :
    (p : ℕ) (s s' : Runtime) (i : ℕ) (e' : Entry)
    → s'.obj_type_map ≡ update s.obj_type_map i e'
    → find p s' ≡ entry_find (if i == get_hash p then e' else s.obj_type_map (get_hash p)) p
find_after p s s' i e' table = rw (find-entry_find, table)

-- Off the address, an entry holds what it held, if the displaced object is told apart.
pub Registered-entry_find :
    (addr p : ℕ) (v : ObjInfo) (e e' : Entry)
    → Registered addr v e e'
    → v.obj_addr ≡ addr
    → p ≢ 0
    → p ≢ addr
    → (as_int p ≡ as_int e.info.obj_addr → p ≡ e.info.obj_addr)
    → entry_find e' p ≡ entry_find e p
Registered-entry_find addr p v e e' h a nonnull other apart =
    ground (arith, h.2 p, compare_lem p e.info.obj_addr)

-- The fields of a newly registered object.
abbrev pub new_info : ℕ → ℕ → ℕ → ℕ → ℕ → ObjInfo
new_info addr type_hash offset array_size rule_addr = record {
  obj_addr = addr;
  rule_addr = rule_addr;
  type_hash_value = type_hash;
  heap_array_size = array_size % 2 ^ 32;
  offset = offset;
}

module _ (addr type_hash offset array_size rule_addr : ℕ) (s : Runtime) where
  pub register-Registered :
      IsObjectMap s
      → Returns (register addr type_hash offset array_size rule_addr s) λ s'.
        (e' : Entry) × (s'.obj_type_map ≡ update s.obj_type_map (get_hash addr) e')
        × Registered addr
            (new_info addr type_hash offset array_size rule_addr)
            (s.obj_type_map (get_hash addr))
            e'
  unfolding register tree_lookup
  register-Registered ok =
      let e = s.obj_type_map (get_hash addr) in
      let v = new_info addr type_hash offset array_size rule_addr in
      elim (Bool-cases (e.info.obj_addr == 0 || e.info.obj_addr == addr)) [
        | inl direct ↦ (
          set_entry (get_hash addr) (write_entry addr type_hash offset array_size rule_addr e) s,
          rw (direct, register),
          (
            write_entry addr type_hash offset array_size rule_addr e,
            refl,
            (ok.trees (get_hash addr), refl, λ p. rw direct),
          ),
        )
        | inr busy ↦
            let (e', run, h) = displace-tree_lookup e (ok.trees (get_hash addr)) in
            (
              set_entry (get_hash addr) (write_entry addr type_hash offset array_size rule_addr e')
                  (count num_update_miss s),
              rw (busy, register, run),
              (
                write_entry addr type_hash offset array_size rule_addr e',
                refl,
                (h.0, refl, λ p. rw busy (h.1 p)),
              ),
            )
      ]

  -- A registration follows no null pointer and keeps the trees. Afterwards `findObjInfo` finds the
  -- new object at its address, and at any other address what it found before, provided that this is
  -- not null and does not agree in its low 32 bits with another address, that of the object displaced.
  pub register-find :
      (p : ℕ)
      → IsObjectMap s
      → p ≢ 0
      → p ≢ addr
      → (as_int p ≡ as_int (s.obj_type_map (get_hash addr)).info.obj_addr
          → p ≡ (s.obj_type_map (get_hash addr)).info.obj_addr)
      → Returns (register addr type_hash offset array_size rule_addr s) λ s'.
        IsObjectMap s'
        × (find addr s' ≡ some (new_info addr type_hash offset array_size rule_addr))
        × (find p s' ≡ find p s)
  register-find p ok nonnull other apart =
      let i = get_hash addr in
      let v = new_info addr type_hash offset array_size rule_addr in
      let (s', run, (e', table, h)) = register-Registered ok in
      (
        s',
        run,
        (
          update-IsObjectMap s i e' s' ok h.0 table,
          find_after addr s s' i e' table ∙ rw (==_refl i, h.1, ==_refl addr),
          find_after p s s' i e' table ∙ (elim (Bool-cases (i == get_hash p)) [
            | inr t ↦ rw t (sym (find-entry_find p s))
            | inl t ↦ rw t (
                Registered-entry_find addr p v (s.obj_type_map i) e' h refl nonnull other apart
                ∙ rw (eq_of_== i (get_hash p) t) (sym (find-entry_find p s)))
          ]),
        ),
      )
