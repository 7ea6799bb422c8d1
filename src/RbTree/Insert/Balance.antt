-- ===== src/RbTree/Insert/Balance.antt =====
-- `rbtree_insert` keeps the red-black invariant, and follows no null pointer.
use hex_type.Prelude.{ℕ, ◌≡◌, refl, [], ◌∷◌, inl, inr, Returns, arith}
use hex_type.RbTree.{
  red, black, Tree, leaf, node, Frame, in_left, in_right, Parents, node_color, sibling, frame_color,
  compare, Ordering-cases,
}
use hex_type.RbTree.Balance.{
  black_height, IsEven, IsProper, IsBalanced, EvenAt, ProperAt, Fits, settled,
}
use hex_type.RbTree.Insert.{insert_case4, insert_case1, insert_below, rbtree_insert}

module _ {ℓ} {V : Type ℓ} where
  -- A place where a new red node is even, and proper but for the color of its parent.
  abbrev Awaits : Tree V → Parents V → Type 0
  Awaits n up = IsEven n × IsProper n × EvenAt up (black_height n) × ProperAt up black

  insert_case4-IsBalanced :
      (l : Tree V) (k : ℕ) (v : V) (r : Tree V) (p g : Frame V) (up : Parents V)
      → Awaits (node red l k v r) (p ∷ g ∷ up)
      → frame_color p ≡ red
      → node_color (sibling g) ≡ black
      → Returns (insert_case4 (node red l k v r) p g up) IsBalanced
  unfolding insert_case4
  insert_case4-IsBalanced l k v r (in_left red pk pv pr) (in_left black gk gv u) up a pr_red b =
      settled (node black (node red l k v r) pk pv (node red pr gk gv u)) up (ground arith)
  insert_case4-IsBalanced l k v r (in_right red pl pk pv) (in_left black gk gv u) up a pr_red b =
      settled (node black (node red pl pk pv l) k v (node red r gk gv u)) up (ground arith)
  insert_case4-IsBalanced l k v r (in_left red pk pv pr) (in_right black u gk gv) up a pr_red b =
      settled (node black (node red u gk gv l) k v (node red r pk pv pr)) up (ground arith)
  insert_case4-IsBalanced l k v r (in_right red pl pk pv) (in_right black u gk gv) up a pr_red b =
      settled (node black (node red u gk gv pl) pk pv (node red l k v r)) up (ground arith)
  insert_case4-IsBalanced l k v r p g up a pr_red b = ground arith

  -- A red parent has a parent, which is black; a red uncle sends the repair two steps up.
  insert_case1-IsBalanced :
      (l : Tree V) (k : ℕ) (v : V) (r : Tree V) (up : Parents V)
      → Awaits (node red l k v r) up
      → Returns (insert_case1 (node red l k v r) up) IsBalanced
  unfolding insert_case1
  insert_case1-IsBalanced l k v r [] a = settled (node black l k v r) [] (ground arith)
  insert_case1-IsBalanced l k v r (in_left black pk pv pr ∷ []) a =
      settled (node red l k v r) (in_left black pk pv pr ∷ []) (ground arith)
  insert_case1-IsBalanced l k v r (in_right black pl pk pv ∷ []) a =
      settled (node red l k v r) (in_right black pl pk pv ∷ []) (ground arith)
  insert_case1-IsBalanced l k v r (p ∷ []) a = ground arith
  insert_case1-IsBalanced l k v r (in_left black pk pv pr ∷ g ∷ up) a =
      settled (node red l k v r) (in_left black pk pv pr ∷ g ∷ up) (ground arith)
  insert_case1-IsBalanced l k v r (in_right black pl pk pv ∷ g ∷ up) a =
      settled (node red l k v r) (in_right black pl pk pv ∷ g ∷ up) (ground arith)
  insert_case1-IsBalanced l k v r (in_left red pk pv ps ∷ in_left red gk gv u ∷ up) a = ground arith
  insert_case1-IsBalanced l k v r (in_left red pk pv ps ∷ in_right red u gk gv ∷ up) a =
      ground arith
  insert_case1-IsBalanced l k v r (in_right red ps pk pv ∷ in_left red gk gv u ∷ up) a =
      ground arith
  insert_case1-IsBalanced l k v r (in_right red ps pk pv ∷ in_right red u gk gv ∷ up) a =
      ground arith
  insert_case1-IsBalanced l k v r
        (in_left red pk pv ps ∷ in_left black gk gv (node red ul uk uv ur) ∷ up) a =
      insert_case1-IsBalanced (node black (node red l k v r) pk pv ps) gk gv
        (node black ul uk uv ur) up (ground arith)
  insert_case1-IsBalanced l k v r
        (in_left red pk pv ps ∷ in_right black (node red ul uk uv ur) gk gv ∷ up) a =
      insert_case1-IsBalanced (node black ul uk uv ur) gk gv
        (node black (node red l k v r) pk pv ps) up (ground arith)
  insert_case1-IsBalanced l k v r
        (in_right red ps pk pv ∷ in_left black gk gv (node red ul uk uv ur) ∷ up) a =
      insert_case1-IsBalanced (node black ps pk pv (node red l k v r)) gk gv
        (node black ul uk uv ur) up (ground arith)
  insert_case1-IsBalanced l k v r
        (in_right red ps pk pv ∷ in_right black (node red ul uk uv ur) gk gv ∷ up) a =
      insert_case1-IsBalanced (node black ul uk uv ur) gk gv
        (node black ps pk pv (node red l k v r)) up (ground arith)
  insert_case1-IsBalanced l k v r (p ∷ g ∷ up) a =
      insert_case4-IsBalanced l k v r p g up a refl refl

  insert_below-IsBalanced :
      (t : Tree V) (q : ℕ) (w : V) (up : Parents V)
      → Fits t up
      → Returns (insert_below t q w up) IsBalanced
  unfolding insert_below
  insert_below-IsBalanced leaf q w up f = insert_case1-IsBalanced leaf q w leaf up (ground arith)
  insert_below-IsBalanced (node red l k v r) q w up f = elim (Ordering-cases (compare q k)) [
    | inl e ↦
        rw (e, insert_below) (insert_below-IsBalanced l q w (in_left red k v r ∷ up) (ground arith))
    | inr (inl e) ↦ rw (e, insert_below) (settled (node red l k w r) up f)
    | inr (inr e) ↦
        rw (e, insert_below)
          (insert_below-IsBalanced r q w (in_right red l k v ∷ up) (ground arith))
  ]
  insert_below-IsBalanced (node black l k v r) q w up f = elim (Ordering-cases (compare q k)) [
    | inl e ↦
        rw (e, insert_below)
          (insert_below-IsBalanced l q w (in_left black k v r ∷ up) (ground arith))
    | inr (inl e) ↦ rw (e, insert_below) (settled (node black l k w r) up f)
    | inr (inr e) ↦
        rw (e, insert_below)
          (insert_below-IsBalanced r q w (in_right black l k v ∷ up) (ground arith))
  ]

  -- Insertion into a red-black tree follows no null pointer and ends in a red-black tree.
  pub rbtree_insert-IsBalanced :
      (t : Tree V) (q : ℕ) (w : V) → IsBalanced t → Returns (rbtree_insert t q w) IsBalanced
  unfolding rbtree_insert
  rbtree_insert-IsBalanced t q w b =
      insert_below-IsBalanced t q w [] (b.even, b.proper, tt, b.rooted)
