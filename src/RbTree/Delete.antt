-- ===== src/RbTree/Delete.antt =====
-- `rbtree_delete` and `delete_case1` to `delete_case6` of src/compiler-rt-files/hextype_rbtree.cc.
-- The cases change the parents and the siblings of `n` and never `n` itself, so they are functions of
-- its parents. `again` is `delete_case1`, on the fuel that is left.
pub mod Balance
pub mod Entries
pub mod Unlink
use hex_type.Prelude.{
  ℕ, zero, suc, Option, none, some, Bool, true, false, [], ◌∷◌, ◌++◌, ◌&&◌, if◌then◌else◌, ◌>>=◌,
  length,
}
use hex_type.RbTree.{
  Color, red, black, Tree, leaf, node, Frame, in_left, in_right, Parents, node_color, replace_node,
  sibling, frame_color, paint, paint_frame, with_sibling, rotate_left, rotate_right, lookup_node,
  Found,
}

abbrev pub is_black : Color → Bool
is_black black = true
is_black red = false

-- A node with no right child, with its parents within the tree that was searched.
pub record Maximum {ℓ} (V : Type ℓ) : Type ℓ where
  pub color : Color
  pub left : Tree V
  pub key : ℕ
  pub value : V
  pub inner : Parents V

module _ {ℓ} {V : Type ℓ} where
  -- `rotate_left(t, n->parent)` or `rotate_right(t, n->parent)`, whichever lowers `n`: its new parent,
  -- which is the old one, and its new grandparent, which is its old sibling.
  abbrev pub rotate_parent : Frame V → Option (Frame V × Frame V)
  rotate_parent (in_left c k v (node sc sl sk sv sr)) = some (in_left c k v sl, in_left sc sk sv sr)
  rotate_parent (in_right c (node sc sl sk sv sr) k v) =
      some (in_right c sr k v, in_right sc sl sk sv)
  rotate_parent _ = none

  -- A child that is asserted to be red is painted black.
  abbrev pub blacken_red : Tree V → Option (Tree V)
  blacken_red (node red l k v r) = some (node black l k v r)
  blacken_red _ = none

  delete_case6 : Frame V → Parents V → Option (Parents V)
  delete_case6 (in_left c k v s) up = do
    s₁ ← paint c s
    (p, g) ← rotate_parent (in_left black k v s₁)
    r ← blacken_red (sibling g)
    some (p ∷ with_sibling r g ∷ up)
  delete_case6 (in_right c s k v) up = do
    s₁ ← paint c s
    (p, g) ← rotate_parent (in_right black s₁ k v)
    l ← blacken_red (sibling g)
    some (p ∷ with_sibling l g ∷ up)

  delete_case5 : Frame V → Parents V → Option (Parents V)
  unfolding delete_case6
  delete_case5 (in_left c k v (node black (node red ll lk lv lr) sk sv r)) up =
      elim (node_color r) [
        | black ↦ do
          s ← rotate_right (node red (node black ll lk lv lr) sk sv r)
          delete_case6 (in_left c k v s) up
        | red ↦ delete_case6 (in_left c k v (node black (node red ll lk lv lr) sk sv r)) up
      ]
  delete_case5 (in_right c (node black l sk sv (node red rl rk rv rr)) k v) up =
      elim (node_color l) [
        | black ↦ do
          s ← rotate_left (node red l sk sv (node black rl rk rv rr))
          delete_case6 (in_right c s k v) up
        | red ↦ delete_case6 (in_right c (node black l sk sv (node red rl rk rv rr)) k v) up
      ]
  delete_case5 p up = delete_case6 p up

  -- The sibling and both its children are black; a null sibling is followed.
  abbrev pub black_family : Tree V → Option Bool
  black_family leaf = none
  black_family (node red l k v r) = some false
  black_family (node black l k v r) = some (is_black (node_color l) && is_black (node_color r))

  delete_case4 : Frame V → Parents V → Option (Parents V)
  unfolding delete_case5
  delete_case4 p up = elim (frame_color p) [
    | black ↦ delete_case5 p up
    | red ↦ do
      b ← black_family (sibling p)
      s ← paint red (sibling p)
      if b then some (paint_frame black (with_sibling s p) ∷ up) else delete_case5 p up
  ]

  delete_case3 : (Parents V → Option (Parents V)) → Frame V → Parents V → Option (Parents V)
  unfolding delete_case4
  delete_case3 again p up = elim (frame_color p) [
    | red ↦ delete_case4 p up
    | black ↦ do
      b ← black_family (sibling p)
      s ← paint red (sibling p)
      elim b [ true ↦ do up' ← again up; some (with_sibling s p ∷ up') | false ↦ delete_case4 p up ]
  ]

  delete_case2 : (Parents V → Option (Parents V)) → Frame V → Parents V → Option (Parents V)
  unfolding delete_case3
  delete_case2 again p up = elim (node_color (sibling p)) [
    | black ↦ delete_case3 again p up
    | red ↦ do
      s ← paint black (sibling p)
      (p₁, g) ← rotate_parent (paint_frame red (with_sibling s p))
      delete_case3 again p₁ (g ∷ up)
  ]

  unfoldable pub delete_case1 : ℕ → Parents V → Option (Parents V)
  unfolding delete_case2
  delete_case1 zero up = none
  delete_case1 (suc fuel) [] = some []
  delete_case1 (suc fuel) (p ∷ up) = delete_case2 (delete_case1 fuel) p up

  -- `maximum_node`, of a node by its fields
  unfoldable pub maximum_node : Color → Tree V → ℕ → V → Tree V → Parents V → Maximum V
  maximum_node c l k v leaf up = record { color = c; left = l; key = k; value = v; inner = up }
  maximum_node c l k v (node rc rl rk rv rr) up =
      maximum_node rc rl rk rv rr (in_right c l k v ∷ up)

  -- `t->root = child` leaves it black.
  abbrev pub root_black : Tree V → Parents V → Tree V
  root_black (node c l k v r) [] = node black l k v r
  root_black child up = replace_node child up

  -- The part after the choice of a node `n` that has a null child, with its color, that child's
  -- sibling and its parents.
  delete_node : Color → Tree V → Parents V → Option (Tree V)
  unfolding delete_case1
  delete_node red child up = some (root_black child up)
  delete_node black child up = do
    up' ← delete_case1 (suc (length up)) up
    some (root_black child up')

  pub unlink : Found V → Option (Tree V)
  unfolding delete_node maximum_node
  unlink n = elim n.right [
    | leaf ↦ delete_node n.color n.left n.parents
    | node rc rl rk rv rr ↦ elim n.left [
      | leaf ↦ delete_node n.color (node rc rl rk rv rr) n.parents
      | node lc ll lk lv lr ↦
          let last = maximum_node lc ll lk lv lr [] in
          delete_node last.color last.left
            (last.inner ++ in_left n.color last.key last.value (node rc rl rk rv rr) ∷ n.parents)
    ]
  ]

  -- 0 and 1 are `false` and `true`.
  unfoldable pub rbtree_delete : Tree V → ℕ → Option (Bool × Tree V)
  unfolding unlink lookup_node
  rbtree_delete t q = elim (lookup_node t q []) [
    | none ↦ some (false, t)
    | some n ↦ do t' ← unlink n; some (true, t')
  ]
