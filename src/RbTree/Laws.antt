-- ===== src/RbTree/Laws.antt =====
-- What the red-black tree promises its clients.
use hex_type.Prelude.{
  ℕ, ◌≡◌, ◌∙◌, sym, Bool, true, false, Option, none, some, [], ◌++◌, inl, inr, Returns, arith,
}
use hex_type.RbTree.{Tree, compare, rbtree_create, rbtree_lookup}
use hex_type.RbTree.Entries.{entries, before, after}
use hex_type.RbTree.Balance.{IsBalanced}
use hex_type.RbTree.Search.{
  override, find, put, remove, IsSorted, put-IsSorted, remove-IsSorted, remove_middle,
  remove-Absent, find-put, find-remove, find-Absent, find_same_key, compare_lem,
}
use hex_type.RbTree.Lookup.{
  lookup_node-IsAt, rbtree_lookup-find, lookup_node-Fits, rbtree_lookup-some,
}
use hex_type.RbTree.Insert.{rbtree_insert}
use hex_type.RbTree.Insert.Balance.{rbtree_insert-IsBalanced}
use hex_type.RbTree.Insert.Entries.{rbtree_insert-entries}
use hex_type.RbTree.Delete.{rbtree_delete}
use hex_type.RbTree.Delete.Unlink.{unlink-Joins}

-- 1 for a hit
abbrev pub is_some {ℓ} : {A : Type ℓ} → Option A → Bool
is_some none = false
is_some (some a) = true

module _ {ℓ} {V : Type ℓ} where
  -- A search tree that is a red-black tree.
  pub record IsRbTree (t : Tree V) : Type 0 where
    pub balanced : IsBalanced t
    pub sorted : IsSorted (entries t)

  pub rbtree_create-IsRbTree : IsRbTree (rbtree_create {V = V})
  rbtree_create-IsRbTree = ground arith

  -- An insertion into a search tree that is a red-black tree follows no null pointer and ends in
  -- one, in which the key, and every key that compares equal to it, has the value, and every other
  -- key has what it had.
  pub rbtree_insert-lookup :
      (t : Tree V) (q : ℕ) (w : V)
      → IsRbTree t
      → Returns (rbtree_insert t q w) λ t'.
        IsRbTree t'
        × ((p : ℕ) → rbtree_lookup t' p ≡ override (compare p q) (some w) (rbtree_lookup t p))
  rbtree_insert-lookup t q w i =
      let (t', run, balanced) = rbtree_insert-IsBalanced t q w i.balanced in
      let listed : entries t' ≡ put q w (entries t) =
        rw run at (rbtree_insert-entries t q w i.sorted) in
      let sorted : IsSorted (entries t') = rw listed (put-IsSorted q w (entries t) i.sorted) in
      (
        t',
        run,
        (
          record { balanced = balanced; sorted = sorted },
          λ p.
              rw (rbtree_lookup-find t' p sorted, rbtree_lookup-find t p i.sorted, listed)
                (find-put p q w (entries t)),
        ),
      )

  -- A deletion from a search tree that is a red-black tree follows no null pointer and ends in one,
  -- in which no key that compares equal has a value and every other key has what it had; it
  -- returns 1 exactly when the key had a value.
  pub rbtree_delete-lookup :
      (t : Tree V) (q : ℕ)
      → IsRbTree t
      → Returns (rbtree_delete t q) λ r.
        IsRbTree r.1
        × (r.0 ≡ is_some (rbtree_lookup t q))
        × ((p : ℕ) → rbtree_lookup r.1 p ≡ override (compare p q) none (rbtree_lookup t p))
  unfolding rbtree_delete
  rbtree_delete-lookup t q i = elim (lookup_node-IsAt t q i.sorted) [
    | inl (e, absent) ↦
        let same = remove-Absent q (entries t) absent in
        (
          (false, t),
          rw (e, rbtree_delete),
          (
            i,
            rw (rbtree_lookup-find t q i.sorted, find-Absent q (entries t) absent),
            λ p.
                rw (rbtree_lookup-find t p i.sorted)
                  (rw same at (find-remove p q (entries t) i.sorted)),
          ),
        )
    | inr (n, e, at) ↦
        let (t', run, j) = unlink-Joins n (
          lookup_node-Fits t q [] n (i.balanced.even, i.balanced.proper, tt, i.balanced.rooted)
            e) in
        let listed : entries t' ≡ remove q (entries t) = rw (← at.split) (
          j.1
          ∙ sym (
              remove_middle q (before n.parents ++ entries n.left) n.key n.value
                (entries n.right ++ after n.parents) at.same_key at.smaller)) in
        let sorted : IsSorted (entries t') = rw listed (remove-IsSorted q (entries t) i.sorted) in
        (
          (true, t'),
          rw (e, rbtree_delete, run),
          (
            record { balanced = j.0; sorted = sorted },
            rw (rbtree_lookup-some t q n e),
            λ p.
                rw (rbtree_lookup-find t' p sorted, rbtree_lookup-find t p i.sorted, listed)
                  (find-remove p q (entries t) i.sorted),
          ),
        )
  ]

  -- Where the key has no value, no key that compares equal has one.
  pub rbtree_lookup_miss :
      (t : Tree V) (q : ℕ)
      → IsRbTree t
      → rbtree_lookup t q ≡ none
      → (p : ℕ) → rbtree_lookup t p ≡ override (compare p q) none (rbtree_lookup t p)
  rbtree_lookup_miss t q i e p =
      let missing : find q (entries t) ≡ none = sym (rbtree_lookup-find t q i.sorted) ∙ e in
      rw (rbtree_lookup-find t p i.sorted)
        (ground (arith, compare_lem p q, find_same_key p q (entries t)))
