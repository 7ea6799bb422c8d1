-- ===== src/RbTree/Insert.antt =====
-- `rbtree_insert` and `insert_case1` to `insert_case5` of src/compiler-rt-files/hextype_rbtree.cc.
pub mod Balance
pub mod Entries
use Prim.Native.Nat.Ordering.{lt, eq, gt}
use hex_type.Prelude.{ℕ, Option, none, some, [], ◌∷◌, ◌>>=◌}
use hex_type.RbTree.{
  red, black, Tree, leaf, node, Frame, in_left, in_right, Parents, compare, node_color, fill,
  replace_node, sibling, frame_color, paint, paint_frame, with_sibling, rotate_left, rotate_right,
  new_node,
}

module _ {ℓ} {V : Type ℓ} where
  -- `n`, its parent `p`, its grandparent `g` and the parents of that.
  insert_case5 : Tree V → Frame V → Frame V → Parents V → Option (Tree V)
  insert_case5 n (in_left c k v r) (in_left gc gk gv gr) up = do
    t ← rotate_right (fill (fill n (in_left black k v r)) (in_left red gk gv gr))
    some (replace_node t up)
  insert_case5 n p g up = do
    t ← rotate_left (fill (fill n (paint_frame black p)) (paint_frame red g))
    some (replace_node t up)

  -- After the rotation `n` is the old parent, and its new parent the old `n`.
  after_left : Tree V → Frame V → Parents V → Option (Tree V)
  unfolding insert_case5
  after_left leaf g up = none
  after_left (node c l k v r) g up = insert_case5 l (in_left c k v r) g up

  after_right : Tree V → Frame V → Parents V → Option (Tree V)
  unfolding insert_case5
  after_right leaf g up = none
  after_right (node c l k v r) g up = insert_case5 r (in_right c l k v) g up

  insert_case4 : Tree V → Frame V → Frame V → Parents V → Option (Tree V)
  unfolding insert_case5 after_left after_right
  insert_case4 n (in_right c l k v) (in_left gc gk gv gr) up = do
    t ← rotate_left (fill n (in_right c l k v))
    after_left t (in_left gc gk gv gr) up
  insert_case4 n (in_left c k v r) (in_right gc gl gk gv) up = do
    t ← rotate_right (fill n (in_left c k v r))
    after_right t (in_right gc gl gk gv) up
  insert_case4 n p g up = insert_case5 n p g up

  -- `again` is `insert_case1` at the grandparent.
  insert_case3 :
      (Tree V → Option (Tree V)) → Tree V → Frame V → Frame V → Parents V → Option (Tree V)
  unfolding insert_case4
  insert_case3 again n p g up = elim (node_color (sibling g)) [
    | red ↦ do
      u ← paint black (sibling g)
      again (fill (fill n (paint_frame black p)) (with_sibling u (paint_frame red g)))
    | black ↦ insert_case4 n p g up
  ]

  -- A red parent that is the root has no parent for `uncle` to follow.
  insert_case2 : (Tree V → Option (Tree V)) → Tree V → Frame V → Parents V → Option (Tree V)
  unfolding insert_case3
  insert_case2 again n p [] = elim (frame_color p) [
    | black ↦ some (replace_node n (p ∷ []))
    | red ↦ none
  ]
  insert_case2 again n p (g ∷ up) = elim (frame_color p) [
    | black ↦ some (replace_node n (p ∷ g ∷ up))
    | red ↦ insert_case3 again n p g up
  ]

  unfoldable pub insert_case1 : Tree V → Parents V → Option (Tree V)
  unfolding insert_case2
  insert_case1 n [] = paint black n
  insert_case1 n (p ∷ []) = insert_case2 some n p []
  insert_case1 n (p ∷ g ∷ up) = insert_case2 (λ m. insert_case1 m up) n p (g ∷ up)

  -- The `while` loop, from a node and its parents.
  insert_below : Tree V → ℕ → V → Parents V → Option (Tree V)
  insert_below leaf q w up = insert_case1 (new_node q w red leaf leaf) up
  insert_below (node c l k v r) q w up = elim (compare q k) [
    | eq ↦ some (replace_node (node c l k w r) up)
    | lt ↦ insert_below l q w (in_left c k v r ∷ up)
    | gt ↦ insert_below r q w (in_right c l k v ∷ up)
  ]

  unfoldable pub rbtree_insert : Tree V → ℕ → V → Option (Tree V)
  unfolding insert_below
  rbtree_insert t q w = insert_below t q w []
