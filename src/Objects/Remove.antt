-- ===== src/Objects/Remove.antt =====
-- `findObjInfo` after a removal.
use hex_type.Prelude.{
  ℕ, ◌≡◌, ◌≢◌, ◌∙◌, refl, sym, none, ◌==◌, ◌⊎◌, inl, inr, Bool-cases, Returns, arith, ==_refl,
  eq_of_==,
}
use hex_type.RbTree.{as_int, compare}
use hex_type.RbTree.Search.{override, compare_lem, compare_refl}
use hex_type.Counters.{num_remove_miss}
use hex_type.Runtime.{count, Runtime, Entry, get_hash, update, set_entry}
use hex_type.Objects.{tree_lookup, entry_find, remove_direct_oinfo}
use hex_type.Objects.Entries.{TreeOk, remove_from_tree-tree_lookup}
use hex_type.Objects.Find.{IsObjectMap, find, find-entry_find, find_after, update-IsObjectMap}

-- What a removal makes of the entry at the address: the entry's own object is cleared, or else the
-- tree at the address.
abbrev pub Removed : ℕ → Entry → Entry → Type 0
Removed addr e e' =
    TreeOk e'.hex_tree
    × ((e.info.obj_addr ≡ addr)
          × (e'.info.obj_addr ≡ 0)
          × ((p : ℕ) → tree_lookup e' p ≡ tree_lookup e p)
        ⊎ (e.info.obj_addr ≢ addr)
          × (e'.info ≡ e.info)
          × ((p : ℕ) → tree_lookup e' p ≡ override (compare p addr) none (tree_lookup e p)))

pub remove-Removed :
    (addr : ℕ) (s : Runtime)
    → IsObjectMap s
    → Returns (remove_direct_oinfo addr s) λ s'.
      (e' : Entry) × (s'.obj_type_map ≡ update s.obj_type_map (get_hash addr) e')
      × Removed addr (s.obj_type_map (get_hash addr)) e'
unfolding remove_direct_oinfo tree_lookup
remove-Removed addr s ok =
    let i = get_hash addr in
    let e = s.obj_type_map i in
    let cleared : Entry = record e { info = record (e.info) { obj_addr = 0 } } in
    elim (Bool-cases (e.info.obj_addr == addr)) [
      | inl own ↦ (
        set_entry i cleared s,
        rw (own, remove_direct_oinfo),
        (cleared, refl, (ok.trees i, inl (eq_of_== e.info.obj_addr addr own, refl, λ p. refl))),
      )
      | inr other ↦
          let (e', run, h) = remove_from_tree-tree_lookup addr e (ok.trees i) in
          (
            set_entry i e' (count num_remove_miss s),
            rw (other, remove_direct_oinfo, run),
            (e', refl, (h.0, inr (ground arith, h.1, h.2))),
          )
    ]

pub Removed-miss :
    (addr : ℕ) (e e' : Entry)
    → Removed addr e e'
    → addr ≢ 0
    → (e.info.obj_addr ≡ addr → tree_lookup e addr ≡ none)
    → entry_find e' addr ≡ none
Removed-miss addr e e' h nonnull once = elim h.1 [
  | inl own ↦ ground (arith, own.0, own.1, own.2 addr)
  | inr tree ↦ ground (arith, tree.0, tree.1, tree.2 addr, compare_refl addr)
]

pub Removed-entry_find :
    (addr p : ℕ) (e e' : Entry)
    → Removed addr e e'
    → p ≢ 0
    → p ≢ addr
    → (as_int p ≡ as_int addr → p ≡ addr)
    → entry_find e' p ≡ entry_find e p
Removed-entry_find addr p e e' h nonnull other apart = elim h.1 [
  | inl own ↦ ground (arith, own.0, own.1, own.2 p)
  | inr tree ↦ ground (arith, tree.0, tree.1, tree.2 p, compare_lem p addr)
]

-- A removal follows no null pointer and keeps the trees. Afterwards `findObjInfo` finds nothing at
-- the address, provided that it is not null and that its entry does not hold it in the tree as well
-- as at the front; and at any other address that is not null and whose low 32 bits do not agree
-- with it, what it found before.
pub remove_direct_oinfo-find :
    (addr p : ℕ) (s : Runtime)
    → IsObjectMap s
    → addr ≢ 0
    → ((s.obj_type_map (get_hash addr)).info.obj_addr ≡ addr
        → tree_lookup (s.obj_type_map (get_hash addr)) addr ≡ none)
    → p ≢ 0
    → p ≢ addr
    → (as_int p ≡ as_int addr → p ≡ addr)
    → Returns
        (remove_direct_oinfo addr s)
        λ s'. IsObjectMap s' × (find addr s' ≡ none) × (find p s' ≡ find p s)
remove_direct_oinfo-find addr p s ok addr_nonnull once nonnull other apart =
    let i = get_hash addr in
    let (s', run, (e', table, h)) = remove-Removed addr s ok in
    (
      s',
      run,
      (
        update-IsObjectMap s i e' s' ok h.0 table,
        find_after addr s s' i e' table
            ∙ rw (==_refl i) (Removed-miss addr (s.obj_type_map i) e' h addr_nonnull once),
        find_after p s s' i e' table ∙ (elim (Bool-cases (i == get_hash p)) [
          | inr t ↦ rw t (sym (find-entry_find p s))
          | inl t ↦ rw t (
              Removed-entry_find addr p (s.obj_type_map i) e' h nonnull other apart
              ∙ rw (eq_of_== i (get_hash p) t) (sym (find-entry_find p s)))
        ]),
      ),
    )
