-- ===== src/RbTree/Balance.antt =====
-- The red-black invariant, as equations on a tree and on the parents of a place in it.
use hex_type.Prelude.{ℕ, ◌+◌, ◌≡◌, refl, some, [], ◌∷◌, Returns, arith}
use hex_type.RbTree.{
  Color, red, black, Tree, leaf, node, in_left, in_right, Parents, replace_node, node_color,
}

-- What a node adds to the number of black nodes on a path.
abbrev pub weight : Color → ℕ
weight red = 0
weight black = 1

module _ {ℓ} {V : Type ℓ} where
  -- The number of black nodes on the leftmost path.
  abbrev pub black_height : Tree V → ℕ
  black_height leaf = 0
  black_height (node c l k v r) = weight c + black_height l

  -- Every path has as many black nodes.
  abbrev pub IsEven : Tree V → Type 0
  IsEven leaf = Unit
  IsEven (node c l k v r) = (black_height l ≡ black_height r) × IsEven l × IsEven r

  -- No red node has a red child.
  abbrev pub IsProper : Tree V → Type 0
  IsProper leaf = Unit
  IsProper (node red l k v r) =
      (node_color l ≡ black) × (node_color r ≡ black) × IsProper l × IsProper r
  IsProper (node black l k v r) = IsProper l × IsProper r

  pub record IsBalanced (t : Tree V) : Type 0 where
    pub even : IsEven t
    pub proper : IsProper t
    pub rooted : node_color t ≡ black

  -- The tree is even around a place that holds a subtree of black height `h`.
  abbrev pub EvenAt : Parents V → ℕ → Type 0
  EvenAt [] h = Unit
  EvenAt (in_left c k v r ∷ up) h = IsEven r × (black_height r ≡ h) × EvenAt up (weight c + h)
  EvenAt (in_right c l k v ∷ up) h = IsEven l × (black_height l ≡ h) × EvenAt up (weight c + h)

  -- The tree is proper, with a black root, around a place that holds a node of color `c`.
  abbrev pub ProperAt : Parents V → Color → Type 0
  ProperAt [] c = c ≡ black
  ProperAt (in_left red k v r ∷ up) c =
      (c ≡ black) × (node_color r ≡ black) × IsProper r × ProperAt up red
  ProperAt (in_left black k v r ∷ up) c = IsProper r × ProperAt up black
  ProperAt (in_right red l k v ∷ up) c =
      (c ≡ black) × (node_color l ≡ black) × IsProper l × ProperAt up red
  ProperAt (in_right black l k v ∷ up) c = IsProper l × ProperAt up black

  abbrev pub Fits : Tree V → Parents V → Type 0
  Fits t up = IsEven t × IsProper t × EvenAt up (black_height t) × ProperAt up (node_color t)

  pub replace_node-IsBalanced :
      (t : Tree V) (up : Parents V) → Fits t up → IsBalanced (replace_node t up)
  replace_node-IsBalanced t [] f = record { even = f.0; proper = f.1; rooted = f.3 }
  replace_node-IsBalanced t (in_left red k v r ∷ up) f =
      replace_node-IsBalanced (node red t k v r) up (ground arith)
  replace_node-IsBalanced t (in_left black k v r ∷ up) f =
      replace_node-IsBalanced (node black t k v r) up (ground arith)
  replace_node-IsBalanced t (in_right red l k v ∷ up) f =
      replace_node-IsBalanced (node red l k v t) up
        ((f.2.1, f.2.0, f.0), (f.3.1, f.3.0, f.3.2, f.1), rw f.2.1 f.2.2, f.3.3)
  replace_node-IsBalanced t (in_right black l k v ∷ up) f =
      replace_node-IsBalanced (node black l k v t) up
        ((f.2.1, f.2.0, f.0), (f.3.0, f.1), rw f.2.1 f.2.2, f.3.1)

  pub settled :
      (t : Tree V) (up : Parents V) → Fits t up → Returns (some (replace_node t up)) IsBalanced
  settled t up f = (replace_node t up, refl, replace_node-IsBalanced t up f)

  -- The subtrees of a node fit under it, whatever its key and value.
  pub Fits-left :
      (c : Color) (l : Tree V) (k : ℕ) (v : V) (r : Tree V) (up : Parents V) (j : ℕ) (w : V)
      → Fits (node c l k v r) up
      → Fits l (in_left c j w r ∷ up)
  Fits-left red l k v r up j w f = ground arith
  Fits-left black l k v r up j w f = ground arith

  pub Fits-right :
      (c : Color) (l : Tree V) (k : ℕ) (v : V) (r : Tree V) (up : Parents V)
      → Fits (node c l k v r) up
      → Fits r (in_right c l k v ∷ up)
  Fits-right red l k v r up f = ground arith
  Fits-right black l k v r up f = ground arith
