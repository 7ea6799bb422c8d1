-- ===== src/RbTree/Insert/Entries.antt =====
-- `rbtree_insert` changes the entries of the tree as `put` changes a sorted list.
use hex_type.Prelude.{ℕ, ◌≡◌, ◌∙◌, Option, inl, inr, [], ◌∷◌, ◌++◌, append-nil, append_assoc, Holds}
use hex_type.RbTree.{
  red, black, Tree, leaf, node, Frame, in_left, in_right, Parents, compare, Ordering-cases,
  new_node,
}
use hex_type.RbTree.Search.{put, IsSorted, IsSorted-middle, put_before, put_middle, put_after}
use hex_type.RbTree.Entries.{entries, before, after, entries-replace_node, Holds_trans}
use hex_type.RbTree.Insert.{insert_case4, insert_case1, insert_below, rbtree_insert}

module _ {ℓ} {V : Type ℓ} where
  -- The result has the entries that the tree has with `n` in its place.
  abbrev Keeps : Tree V → Parents V → Option (Tree V) → Type ℓ
  Keeps n up r = Holds r (λ t. entries t ≡ before up ++ entries n ++ after up)

  insert_case4-entries :
      (n : Tree V) (p g : Frame V) (up : Parents V) → Keeps n (p ∷ g ∷ up) (insert_case4 n p g up)
  unfolding insert_case4
  insert_case4-entries n (in_left pc pk pv ps) (in_left gc gk gv gs) up =
      entries-replace_node (node black n pk pv (node red ps gk gv gs)) up ∙ simp append_assoc
  insert_case4-entries leaf (in_left pc pk pv ps) (in_right gc gs gk gv) up = tt
  insert_case4-entries (node c l k v r) (in_left pc pk pv ps) (in_right gc gs gk gv) up =
      entries-replace_node (node black (node red gs gk gv l) k v (node pc r pk pv ps)) up
      ∙ simp append_assoc
  insert_case4-entries leaf (in_right pc ps pk pv) (in_left gc gk gv gs) up = tt
  insert_case4-entries (node c l k v r) (in_right pc ps pk pv) (in_left gc gk gv gs) up =
      entries-replace_node (node black (node pc ps pk pv l) k v (node red r gk gv gs)) up
      ∙ simp append_assoc
  insert_case4-entries n (in_right pc ps pk pv) (in_right gc gs gk gv) up =
      entries-replace_node (node black (node red gs gk gv ps) pk pv n) up ∙ simp append_assoc

  insert_case1-entries : (n : Tree V) (up : Parents V) → Keeps n up (insert_case1 n up)
  unfolding insert_case1
  insert_case1-entries leaf [] = tt
  insert_case1-entries (node c l k v r) [] = simp append-nil
  insert_case1-entries n (in_left black pk pv ps ∷ []) =
      entries-replace_node n (in_left black pk pv ps ∷ [])
  insert_case1-entries n (in_right black ps pk pv ∷ []) =
      entries-replace_node n (in_right black ps pk pv ∷ [])
  insert_case1-entries n (p ∷ []) = tt
  insert_case1-entries n (in_left black pk pv ps ∷ g ∷ up) =
      entries-replace_node n (in_left black pk pv ps ∷ g ∷ up)
  insert_case1-entries n (in_right black ps pk pv ∷ g ∷ up) =
      entries-replace_node n (in_right black ps pk pv ∷ g ∷ up)
  insert_case1-entries n (in_left red pk pv ps ∷ in_left gc gk gv (node red ul uk uv ur) ∷ up) =
      let m : Tree V = (node red (node black n pk pv ps) gk gv (node black ul uk uv ur)) in
      Holds_trans (insert_case1 m up) (insert_case1-entries m up) (simp append_assoc)
  insert_case1-entries n (in_left red pk pv ps ∷ in_right gc (node red ul uk uv ur) gk gv ∷ up) =
      let m : Tree V = (node red (node black ul uk uv ur) gk gv (node black n pk pv ps)) in
      Holds_trans (insert_case1 m up) (insert_case1-entries m up) (simp append_assoc)
  insert_case1-entries n (in_right red ps pk pv ∷ in_left gc gk gv (node red ul uk uv ur) ∷ up) =
      let m : Tree V = (node red (node black ps pk pv n) gk gv (node black ul uk uv ur)) in
      Holds_trans (insert_case1 m up) (insert_case1-entries m up) (simp append_assoc)
  insert_case1-entries n (in_right red ps pk pv ∷ in_right gc (node red ul uk uv ur) gk gv ∷ up) =
      let m : Tree V = (node red (node black ul uk uv ur) gk gv (node black ps pk pv n)) in
      Holds_trans (insert_case1 m up) (insert_case1-entries m up) (simp append_assoc)
  insert_case1-entries n (p ∷ g ∷ up) = insert_case4-entries n p g up

  insert_below-entries :
      (t : Tree V) (q : ℕ) (w : V) (up : Parents V)
      → IsSorted (entries t)
      → Holds
          (insert_below t q w up)
          (λ t'. entries t' ≡ before up ++ put q w (entries t) ++ after up)
  unfolding insert_below
  insert_below-entries leaf q w up s = insert_case1-entries (new_node q w red leaf leaf) up
  insert_below-entries (node c l k v r) q w up s =
      let (low, high, sl, sr) = IsSorted-middle (entries l) k v (entries r) s in
      elim (Ordering-cases (compare q k)) [
        | inl e ↦
            rw (e, insert_below)
              (Holds_trans (insert_below l q w (in_left c k v r ∷ up))
                (insert_below-entries l q w (in_left c k v r ∷ up) sl)
                (rw (put_before q w (entries l) k v (entries r) e) (simp append_assoc)))
        | inr (inl e) ↦
            rw (e, insert_below)
              (entries-replace_node (node c l k w r) up
                ∙ rw (put_middle q w (entries l) k v (entries r) e low))
        | inr (inr e) ↦
            rw (e, insert_below)
              (Holds_trans (insert_below r q w (in_right c l k v ∷ up))
                (insert_below-entries r q w (in_right c l k v ∷ up) sr)
                (rw (put_after q w (entries l) k v (entries r) e low) (simp append_assoc)))
      ]

  pub rbtree_insert-entries :
      (t : Tree V) (q : ℕ) (w : V)
      → IsSorted (entries t)
      → Holds (rbtree_insert t q w) (λ t'. entries t' ≡ put q w (entries t))
  unfolding rbtree_insert
  rbtree_insert-entries t q w s =
      Holds_trans (insert_below t q w []) (insert_below-entries t q w [] s)
        (append-nil (put q w (entries t)))
