-- ===== src/Objects/Entries.antt =====
-- One entry of the object map: its tree stays a red-black tree, and what it holds of each address.
use hex_type.Prelude.{ℕ, ◌≡◌, refl, Option, none, some, inl, inr, sym, Option-cases, Returns}
use hex_type.RbTree.{Tree, compare, rbtree_lookup, rbtree_create}
use hex_type.RbTree.Search.{override, override_same}
use hex_type.RbTree.Laws.{
  IsRbTree, rbtree_create-IsRbTree, rbtree_insert-lookup, rbtree_delete-lookup, rbtree_lookup_miss,
}
use hex_type.Runtime.{Entry, ObjInfo}
use hex_type.Objects.{tree_lookup, displace, remove_from_tree}

-- The tree, if there is one, is a search tree and a red-black tree.
abbrev pub TreeOk : Option (Tree ObjInfo) → Type 0
TreeOk none = Unit
TreeOk (some t) = IsRbTree t

-- Saving an object in its entry's tree follows no null pointer and overrides the tree at its address.
pub displace-tree_lookup :
    (e : Entry)
    → TreeOk e.hex_tree
    → Returns (displace e) λ e'.
      TreeOk e'.hex_tree
      × ((p : ℕ)
          → tree_lookup e' p ≡ override (compare p e.info.obj_addr) (some e.info) (tree_lookup e p))
unfolding displace tree_lookup rbtree_lookup
displace-tree_lookup e ok = saved e.hex_tree ok
  where
    saved :
        (h : Option (Tree ObjInfo))
        → TreeOk h
        → Returns (displace (record e { hex_tree = h })) λ e'.
          TreeOk e'.hex_tree
          × ((p : ℕ)
              → tree_lookup e' p
                ≡ override
                    (compare p e.info.obj_addr)
                    (some e.info)
                    (tree_lookup (record e { hex_tree = h }) p))
    saved none ok =
        let (t, run, h) =
          rbtree_insert-lookup rbtree_create e.info.obj_addr e.info rbtree_create-IsRbTree in
        (record e { hex_tree = some t }, rw run, (h.0, h.1))
    saved (some t) ok =
        let (t', run, h) = rbtree_insert-lookup t e.info.obj_addr e.info ok in
        (record e { hex_tree = some t' }, rw run, (h.0, h.1))

-- Taking an address out of an entry's tree follows no null pointer, leaves the entry's own object and
-- clears the tree at that address.
pub remove_from_tree-tree_lookup :
    (addr : ℕ) (e : Entry)
    → TreeOk e.hex_tree
    → Returns (remove_from_tree addr e) λ e'.
      TreeOk e'.hex_tree
      × (e'.info ≡ e.info)
      × ((p : ℕ) → tree_lookup e' p ≡ override (compare p addr) none (tree_lookup e p))
unfolding remove_from_tree tree_lookup
remove_from_tree-tree_lookup addr e ok = removed e.hex_tree ok
  where
    removed :
        (h : Option (Tree ObjInfo))
        → TreeOk h
        → let e₀ : Entry = record e { hex_tree = h } in
          Returns (remove_from_tree addr e₀) λ e'.
            TreeOk e'.hex_tree
            × (e'.info ≡ e.info)
            × ((p : ℕ) → tree_lookup e' p ≡ override (compare p addr) none (tree_lookup e₀ p))
    removed none ok = (
      record e { hex_tree = none },
      refl,
      (tt, refl, λ p. sym (override_same (compare p addr) none)),
    )
    removed (some t) ok = elim (Option-cases (rbtree_lookup t addr)) [
      | inl missing ↦ (
        record e { hex_tree = some t },
        rw (missing, remove_from_tree),
        (ok, refl, rbtree_lookup_miss t addr ok missing),
      )
      | inr (v, there) ↦
          let (r, run, h) = rbtree_delete-lookup t addr ok in
          (record e { hex_tree = some r.1 }, rw (there, remove_from_tree, run), (h.0, refl, h.2))
    ]
