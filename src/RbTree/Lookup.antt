-- ===== src/RbTree/Lookup.antt =====
-- `lookup_node` finds the entry whose key compares equal, with its place in the tree.
use hex_type.Prelude.{
  ℕ, ◌≡◌, ◌⊎◌, ◌∙◌, refl, sym, Option, none, some, [], ◌∷◌, ◌++◌, inl, inr, append-nil,
  append_assoc, arith,
}
use hex_type.RbTree.{
  red, black, Tree, leaf, node, in_left, in_right, Parents, Found, as_int, compare, Ordering-cases,
  lookup_node, rbtree_lookup,
}
use hex_type.RbTree.Entries.{entries, before, after}
use hex_type.RbTree.Balance.{Fits, Fits-left, Fits-right}
use mathlib.Core.Option.{some-injective}
use mathlib.Core.Path.{subst}
use hex_type.RbTree.Search.{
  find, Below, IsSorted, IsSorted-middle, Absent, Absent-Above, Absent-Below, Absent-append,
  compare_lem, find-Absent, find_middle,
}

module _ {ℓ} {V : Type ℓ} where
  -- The node found has the key and stands where the entries say; a miss means that no entry has it.
  abbrev pub Locates : ℕ → Tree V → Parents V → Option (Found V) → Type ℓ
  Locates q t up none = Absent q (entries t) × Unit {ℓ}
  Locates q t up (some n) =
      (as_int q ≡ as_int n.key)
      × (before n.parents ++ entries n.left ++ (n.key, n.value) ∷ entries n.right ++ after n.parents
          ≡ before up ++ entries t ++ after up)

  Locates-trans :
      (q : ℕ) (t₁ t₂ : Tree V) (up₁ up₂ : Parents V) (o : Option (Found V))
      → (Absent q (entries t₁) → Absent q (entries t₂))
      → before up₁ ++ entries t₁ ++ after up₁ ≡ before up₂ ++ entries t₂ ++ after up₂
      → Locates q t₁ up₁ o
      → Locates q t₂ up₂ o
  Locates-trans q t₁ t₂ up₁ up₂ none f e h = (f h.0, tt)
  Locates-trans q t₁ t₂ up₁ up₂ (some n) f e h = (h.0, h.1 ∙ e)

  pub lookup_node-Locates :
      (t : Tree V) (q : ℕ) (up : Parents V)
      → IsSorted (entries t)
      → Locates q t up (lookup_node t q up)
  unfolding lookup_node
  lookup_node-Locates leaf q up s = (tt, tt)
  lookup_node-Locates (node c l k v r) q up s =
      let (low, high, sl, sr) = IsSorted-middle (entries l) k v (entries r) s in
      let h = compare_lem q k in
      elim (Ordering-cases (compare q k)) [
        | inl e ↦
            rw (e, lookup_node)
              (Locates-trans q l (node c l k v r) (in_left c k v r ∷ up) up
                (lookup_node l q (in_left c k v r ∷ up))
                (λ a.
                  Absent-append q (entries l) ((k, v) ∷ entries r) a
                    (ground arith, Absent-Above q k (entries r) (h.below e) high))
                (simp append_assoc) (lookup_node-Locates l q (in_left c k v r ∷ up) sl))
        | inr (inl e) ↦ rw (e, lookup_node) (h.same e, simp append_assoc)
        | inr (inr e) ↦
            rw (e, lookup_node)
              (Locates-trans q r (node c l k v r) (in_right c l k v ∷ up) up
                (lookup_node r q (in_right c l k v ∷ up))
                (λ a.
                  Absent-append q (entries l) ((k, v) ∷ entries r)
                    (Absent-Below q k (entries l) (h.above e) low) (ground arith, a))
                (simp append_assoc) (lookup_node-Locates r q (in_right c l k v ∷ up) sr))
      ]

  -- The entries of a tree, taken apart at the node that was found.
  pub record IsAt (q : ℕ) (t : Tree V) (n : Found V) : Type ℓ where
    pub same_key : as_int q ≡ as_int n.key
    pub split :
        (before n.parents ++ entries n.left)
          ++ (n.key, n.value) ∷ (entries n.right ++ after n.parents)
        ≡ entries t
    pub smaller : Below n.key (before n.parents ++ entries n.left)

  placed :
      (q : ℕ) (t : Tree V) (n : Found V)
      → IsSorted (entries t)
      → Locates q t [] (some n)
      → IsAt q t n
  placed q t n s h =
      let a = before n.parents ++ entries n.left in
      let b = entries n.right ++ after n.parents in
      let split : a ++ (n.key, n.value) ∷ b ≡ entries t =
        simp append_assoc (simp append_assoc at h.1 ∙ append-nil (entries t)) in
      record {
        same_key = h.0;
        split = split;
        smaller = (IsSorted-middle a n.key n.value b (rw split s)).0;
      }

  -- `lookup_node` of a sorted tree: a node with the key, or none if no entry has it.
  pub lookup_node-IsAt :
      (t : Tree V) (q : ℕ)
      → IsSorted (entries t)
      → ((lookup_node t q [] ≡ none) × Absent q (entries t))
        ⊎ ((n : Found V) × (lookup_node t q [] ≡ some n) × IsAt q t n)
  lookup_node-IsAt t q s = at (lookup_node t q []) refl (lookup_node-Locates t q [] s)
    where
      at :
          (o : Option (Found V))
          → lookup_node t q [] ≡ o
          → Locates q t [] o
          → ((lookup_node t q [] ≡ none) × Absent q (entries t))
            ⊎ ((n : Found V) × (lookup_node t q [] ≡ some n) × IsAt q t n)
      at none e h = inl (e, h.0)
      at (some n) e h = inr (n, e, placed q t n s h)

  -- In a tree whose entries are in ascending order, the value found is the one that the entries list
  -- under the first key that compares equal, and null if there is none.
  pub rbtree_lookup-find :
      (t : Tree V) (q : ℕ) → IsSorted (entries t) → rbtree_lookup t q ≡ find q (entries t)
  unfolding rbtree_lookup
  rbtree_lookup-find t q s = elim (lookup_node-IsAt t q s) [
    | inl (e, a) ↦ rw e (sym (find-Absent q (entries t) a))
    | inr (n, e, i) ↦
        rw (e, ← i.split)
          (sym (
            find_middle q (before n.parents ++ entries n.left) n.key n.value
              (entries n.right ++ after n.parents) i.same_key i.smaller))
  ]

  pub rbtree_lookup-some :
      (t : Tree V) (q : ℕ) (n : Found V)
      → lookup_node t q [] ≡ some n
      → rbtree_lookup t q ≡ some n.value
  unfolding rbtree_lookup
  rbtree_lookup-some t q n e = rw e

  -- A node that was found stands where the red-black invariant says.
  pub lookup_node-Fits :
      (t : Tree V) (q : ℕ) (up : Parents V) (n : Found V)
      → Fits t up
      → lookup_node t q up ≡ some n
      → Fits (node n.color n.left n.key n.value n.right) n.parents
  unfolding lookup_node
  lookup_node-Fits leaf q up n f e = cc
  lookup_node-Fits (node red l k v r) q up n f e = elim (Ordering-cases (compare q k)) [
    | inl o ↦
        lookup_node-Fits l q (in_left red k v r ∷ up) n (Fits-left red l k v r up k v f)
          (rw (o, lookup_node) at e)
    | inr (inl o) ↦
        subst (λ m. Fits (node m.color m.left m.key m.value m.right) m.parents)
          (some-injective _ _ (rw (o, lookup_node) at e)) f
    | inr (inr o) ↦
        lookup_node-Fits r q (in_right red l k v ∷ up) n (Fits-right red l k v r up f)
          (rw (o, lookup_node) at e)
  ]
  lookup_node-Fits (node black l k v r) q up n f e = elim (Ordering-cases (compare q k)) [
    | inl o ↦
        lookup_node-Fits l q (in_left black k v r ∷ up) n (Fits-left black l k v r up k v f)
          (rw (o, lookup_node) at e)
    | inr (inl o) ↦
        subst (λ m. Fits (node m.color m.left m.key m.value m.right) m.parents)
          (some-injective _ _ (rw (o, lookup_node) at e)) f
    | inr (inr o) ↦
        lookup_node-Fits r q (in_right black l k v ∷ up) n (Fits-right black l k v r up f)
          (rw (o, lookup_node) at e)
  ]
