-- ===== src/RbTree/Delete/Unlink.antt =====
-- Taking the chosen node out keeps the red-black invariant and drops its entry alone.
use hex_type.Prelude.{
  ℕ, suc, ◌≡◌, ◌∙◌, refl, [], ◌∷◌, ◌++◌, Returns, length, append_assoc, append-nil, arith,
}
use hex_type.RbTree.{
  Color, red, black, Tree, leaf, node, in_left, in_right, Parents, node_color, Found,
}
use hex_type.RbTree.Entries.{
  entries, before, after, before-append, after-append, entries-replace_node,
}
use hex_type.RbTree.Balance.{
  weight, black_height, IsEven, IsProper, IsBalanced, EvenAt, ProperAt, Fits, Fits-left, Fits-right,
  replace_node-IsBalanced,
}
use hex_type.RbTree.Delete.{maximum_node, root_black, delete_node, unlink}
use hex_type.RbTree.Delete.Balance.{TakesAny, ProperAt-black, delete_case1-Healed}
use hex_type.RbTree.Delete.Entries.{SameSides, delete_case1-SameSides}

module _ {ℓ} {V : Type ℓ} where
  -- A balanced tree with the child in place of the node.
  abbrev Unlinks : Tree V → Parents V → Tree V → Type ℓ
  Unlinks child up t = IsBalanced t × (entries t ≡ before up ++ entries child ++ after up)

  -- A child of a node whose other child is null, and the node's place.
  abbrev pub IsLone : Color → Tree V → Parents V → Type 0
  IsLone c child up =
      (black_height child ≡ 0)
      × IsEven child
      × IsProper child
      × EvenAt up (weight c)
      × ProperAt up c
      × (c ≡ red → node_color child ≡ black)

  -- The color of the root does not matter: it is painted black.
  abbrev Takes : Color → Parents V → Type 0
  Takes c [] = Unit
  Takes c (p ∷ up) = ProperAt (p ∷ up) c

  root_black-Unlinks :
      (child : Tree V) (up : Parents V)
      → black_height child ≡ 0
      → IsEven child
      → IsProper child
      → EvenAt up 0
      → Takes (node_color child) up
      → Unlinks child up (root_black child up)
  root_black-Unlinks leaf [] h e p a c = (ground arith, refl)
  root_black-Unlinks (node red l k v r) [] h e p a c = (ground arith, simp append-nil)
  root_black-Unlinks (node black l k v r) [] h e p a c = absurd (omega arith)
  root_black-Unlinks leaf (f ∷ up) h e p a c =
      (replace_node-IsBalanced leaf (f ∷ up) (e, p, a, c), entries-replace_node leaf (f ∷ up))
  root_black-Unlinks (node d l k v r) (f ∷ up) h e p a c = (
    replace_node-IsBalanced (node d l k v r) (f ∷ up) (e, p, rw h a, c),
    entries-replace_node (node d l k v r) (f ∷ up),
  )

  Takes-red : (c : Color) (up : Parents V) → ProperAt up red → c ≡ black → Takes c up
  Takes-red c [] a e = tt
  Takes-red c (p ∷ up) a e = rw e (ProperAt-black (p ∷ up) a)

  Takes-any : (c : Color) (up : Parents V) → ProperAt up black → TakesAny up → Takes c up
  Takes-any c [] a e = tt
  Takes-any c (in_left red k v r ∷ up) a e = ground arith
  Takes-any c (in_left black k v r ∷ up) a e = a
  Takes-any c (in_right red l k v ∷ up) a e = ground arith
  Takes-any c (in_right black l k v ∷ up) a e = a

  delete_node-Unlinks :
      (c : Color) (child : Tree V) (up : Parents V)
      → IsLone c child up
      → Returns (delete_node c child up) (Unlinks child up)
  unfolding delete_node
  delete_node-Unlinks red child up i = (
    root_black child up,
    refl,
    root_black-Unlinks child up i.0 i.1 i.2 i.3 (Takes-red (node_color child) up i.4 (i.5 refl)),
  )
  delete_node-Unlinks black child up i =
      let (up', run, healed) =
        delete_case1-Healed 0 (suc (length up)) up (omega arith) (i.3, i.4) in
      let sides : SameSides up up' = rw run at (delete_case1-SameSides (suc (length up)) up) in
      let (balanced, listed) =
        root_black-Unlinks child up' i.0 i.1 i.2 healed.0
          (Takes-any (node_color child) up' healed.1 healed.2) in
      (root_black child up', rw run, (balanced, listed ∙ rw (sides.0, sides.1)))

  maximum_node-Fits :
      (c : Color) (l : Tree V) (k : ℕ) (v : V) (r : Tree V) (up rest : Parents V)
      → Fits (node c l k v r) (up ++ rest)
      → let m = maximum_node c l k v r up in
        Fits (node m.color m.left m.key m.value leaf) (m.inner ++ rest)
  unfolding maximum_node
  maximum_node-Fits c l k v leaf up rest f = f
  maximum_node-Fits c l k v (node rc rl rk rv rr) up rest f =
      maximum_node-Fits rc rl rk rv rr (in_right c l k v ∷ up) rest
        (Fits-right c l k v (node rc rl rk rv rr) (up ++ rest) f)

  maximum_node-entries :
      (c : Color) (l : Tree V) (k : ℕ) (v : V) (r : Tree V) (up : Parents V)
      → let m = maximum_node c l k v r up in
        (before m.inner ++ entries m.left ++ (m.key, m.value) ∷ []
          ≡ before up ++ entries (node c l k v r))
        × (after m.inner ≡ after up)
  unfolding maximum_node
  maximum_node-entries c l k v leaf up = (simp append_assoc, refl)
  maximum_node-entries c l k v (node rc rl rk rv rr) up =
      let (e, a) = maximum_node-entries rc rl rk rv rr (in_right c l k v ∷ up) in
      (e ∙ simp append_assoc, a)

  left_IsLone :
      (c : Color) (l : Tree V) (k : ℕ) (v : V) (up : Parents V)
      → Fits (node c l k v leaf) up
      → IsLone c l up
  left_IsLone red l k v up f = ground arith
  left_IsLone black l k v up f = ground arith

  right_IsLone :
      (c : Color) (k : ℕ) (v : V) (r : Tree V) (up : Parents V)
      → Fits (node c leaf k v r) up
      → IsLone c r up
  right_IsLone red k v r up f = ground arith
  right_IsLone black k v r up f = ground arith

  -- What is left when a node is taken out from between its subtrees.
  abbrev pub Joins : Found V → Tree V → Type ℓ
  Joins n t =
      IsBalanced t
      × (entries t ≡ (before n.parents ++ entries n.left) ++ (entries n.right ++ after n.parents))

  unlink_fields :
      (c : Color) (l : Tree V) (k : ℕ) (v : V) (r : Tree V) (up : Parents V)
      → Fits (node c l k v r) up
      → let n : Found V = record {
        color = c;
        left = l;
        key = k;
        value = v;
        right = r;
        parents = up;
      } in
        Returns (unlink n) (Joins n)
  unfolding unlink
  unlink_fields c l k v leaf up f =
      let (t, run, j) = delete_node-Unlinks c l up (left_IsLone c l k v up f) in
      (t, run, (j.0, j.1 ∙ simp append_assoc))
  unlink_fields c leaf k v (node rc rl rk rv rr) up f =
      let (t, run, j) =
        delete_node-Unlinks c (node rc rl rk rv rr) up
          (right_IsLone c k v (node rc rl rk rv rr) up f) in
      (t, run, (j.0, j.1 ∙ simp (append-nil, append_assoc)))
  unlink_fields c (node lc ll lk lv lr) k v (node rc rl rk rv rr) up f =
      let m = maximum_node lc ll lk lv lr [] in
      let above : Parents V = in_left c m.key m.value (node rc rl rk rv rr) ∷ up in
      let g =
        maximum_node-Fits lc ll lk lv lr [] above
          (Fits-left c (node lc ll lk lv lr) k v (node rc rl rk rv rr) up m.key m.value f) in
      let (t, run, j) =
        delete_node-Unlinks m.color m.left (m.inner ++ above)
          (left_IsLone m.color m.left m.key m.value (m.inner ++ above) g) in
      let (e, none_after) = maximum_node-entries lc ll lk lv lr [] in
      (t, run, (j.0, j.1 ∙ rw (before-append, after-append, none_after, ← e) (simp append_assoc)))

  -- The chosen node is the one found, or the last one before it with its key and value moved up.
  pub unlink-Joins :
      (n : Found V)
      → Fits (node n.color n.left n.key n.value n.right) n.parents
      → Returns (unlink n) (Joins n)
  unlink-Joins n f = unlink_fields n.color n.left n.key n.value n.right n.parents f
