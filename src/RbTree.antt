-- ===== src/RbTree.antt =====
-- The red-black tree of src/compiler-rt-files/hextype_rbtree.cc and hextype_rbtree.h.
-- A node with its `parent` pointers is a subtree and the path of frames from it to the root: a frame
-- is a parent without the child that it was reached from. `n == n->parent->left` is the test of the
-- nearest frame, and `replace_node` is the filling of that frame. `none` is a dereference of a null
-- pointer. Nodes are owned by one tree, so allocation and `free` leave no trace here.
pub mod Insert
pub mod Delete
pub mod Entries
pub mod Balance
pub mod Search
pub mod Lookup
pub mod Laws
use Prim.Native.Nat.Ordering.{lt, eq, gt}
use Prim.Native.Nat.{Ordering}
use hex_type.Prelude.{
  ℕ, ◌+◌, ◌%◌, ◌^◌, Option, none, some, List, [], ◌∷◌, ltb, if◌then◌else◌, ◌≡◌, refl, ◌⊎◌, inl, inr,
}
use mathlib.Core.Option

-- `enum rbtree_node_color`
pub data Color : Type 0 where
  red black : Color

-- `struct rbtree_node_t`, or null
pub data Tree {ℓ} (V : Type ℓ) : Type ℓ where
  leaf : Tree V
  node : Color → Tree V → ℕ → V → Tree V → Tree V

-- The parent of a left child, and the parent of a right child.
pub data Frame {ℓ} (V : Type ℓ) : Type ℓ where
  in_left : Color → ℕ → V → Tree V → Frame V
  in_right : Color → Tree V → ℕ → V → Frame V

-- The parents of a node, the nearest first.
abbrev pub Parents {ℓ} : Type ℓ → Type ℓ
Parents V = List (Frame V)

-- `(int)(size_t)p`, with 2 ^ 31 added so that the order of `int` is that of these numbers.
unfoldable pub as_int : ℕ → ℕ
as_int p = (p + 2 ^ 31) % 2 ^ 32

-- -1, 0 and 1 are `lt`, `eq` and `gt`.
unfoldable pub compare : ℕ → ℕ → Ordering
compare left right =
    if ltb (as_int left) (as_int right)
    then lt
    else if ltb (as_int right) (as_int left)
    then gt
    else eq

-- A node, as its fields and its parents.
pub record Found {ℓ} (V : Type ℓ) : Type ℓ where
  pub color : Color
  pub left : Tree V
  pub key : ℕ
  pub value : V
  pub right : Tree V
  pub parents : Parents V

pub Ordering-cases : (o : Ordering) → (o ≡ lt) ⊎ ((o ≡ eq) ⊎ (o ≡ gt))
Ordering-cases lt = inl refl
Ordering-cases eq = inr (inl refl)
Ordering-cases gt = inr (inr refl)

module _ {ℓ} {V : Type ℓ} where
  abbrev pub node_color : Tree V → Color
  node_color leaf = black
  node_color (node c l k v r) = c

  abbrev pub rbtree_create : Tree V
  rbtree_create = leaf

  abbrev pub new_node : ℕ → V → Color → Tree V → Tree V → Tree V
  new_node key value color left right = node color left key value right

  -- `child->parent` with `child` in its place
  abbrev pub fill : Tree V → Frame V → Tree V
  fill t (in_left c k v r) = node c t k v r
  fill t (in_right c l k v) = node c l k v t

  -- The whole tree, from a node and its parents: `replace_node` puts a node in another's place.
  abbrev pub replace_node : Tree V → Parents V → Tree V
  replace_node t [] = t
  replace_node t (f ∷ up) = replace_node (fill t f) up

  -- `sibling`, of the child that the frame was reached from
  abbrev pub sibling : Frame V → Tree V
  sibling (in_left c k v r) = r
  sibling (in_right c l k v) = l

  abbrev pub frame_color : Frame V → Color
  frame_color (in_left c k v r) = c
  frame_color (in_right c l k v) = c

  -- `n->color = c`
  abbrev pub paint : Color → Tree V → Option (Tree V)
  paint c leaf = none
  paint c (node _ l k v r) = some (node c l k v r)

  abbrev pub paint_frame : Color → Frame V → Frame V
  paint_frame c (in_left _ k v r) = in_left c k v r
  paint_frame c (in_right _ l k v) = in_right c l k v

  abbrev pub with_sibling : Tree V → Frame V → Frame V
  with_sibling s (in_left c k v _) = in_left c k v s
  with_sibling s (in_right c _ k v) = in_right c s k v

  abbrev pub rotate_left : Tree V → Option (Tree V)
  rotate_left (node c l k v (node rc rl rk rv rr)) = some (node rc (node c l k v rl) rk rv rr)
  rotate_left _ = none

  abbrev pub rotate_right : Tree V → Option (Tree V)
  rotate_right (node c (node lc ll lk lv lr) k v r) = some (node lc ll lk lv (node c lr k v r))
  rotate_right _ = none

  -- The `while` loop, from a node and its parents.
  unfoldable pub lookup_node : Tree V → ℕ → Parents V → Option (Found V)
  lookup_node leaf q up = none
  lookup_node (node c l k v r) q up = elim (compare q k) [
    | eq ↦ some (record { color = c; left = l; key = k; value = v; right = r; parents = up })
    | lt ↦ lookup_node l q (in_left c k v r ∷ up)
    | gt ↦ lookup_node r q (in_right c l k v ∷ up)
  ]

  unfoldable pub rbtree_lookup : Tree V → ℕ → Option V
  unfolding lookup_node
  rbtree_lookup t q = Option.map (λ (n : Found V). n.value) (lookup_node t q [])
