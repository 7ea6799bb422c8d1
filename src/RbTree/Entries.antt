-- ===== src/RbTree/Entries.antt =====
-- The keys and values of a tree in order, and those on either side of a node's place.
use hex_type.Prelude.{
  ℕ, List, [], ◌∷◌, ◌++◌, ◌≡◌, ◌∙◌, refl, sym, append_assoc, append-nil, Option, none, some, Holds,
}
use hex_type.RbTree.{Tree, leaf, node, in_left, in_right, Parents, replace_node}

module _ {ℓ} {V : Type ℓ} where
  abbrev pub entries : Tree V → List (ℕ × V)
  entries leaf = []
  entries (node c l k v r) = entries l ++ (k, v) ∷ entries r

  abbrev pub before : Parents V → List (ℕ × V)
  before [] = []
  before (in_left c k v r ∷ up) = before up
  before (in_right c l k v ∷ up) = before up ++ entries l ++ (k, v) ∷ []

  abbrev pub after : Parents V → List (ℕ × V)
  after [] = []
  after (in_left c k v r ∷ up) = ((k, v) ∷ entries r) ++ after up
  after (in_right c l k v ∷ up) = after up

  pub before-append : (a b : Parents V) → before (a ++ b) ≡ before b ++ before a
  before-append [] b = sym (append-nil (before b))
  before-append (in_left c k v r ∷ a) b = before-append a b
  before-append (in_right c l k v ∷ a) b = rw (before-append a b) (simp append_assoc)

  pub after-append : (a b : Parents V) → after (a ++ b) ≡ after a ++ after b
  after-append [] b = refl
  after-append (in_left c k v r ∷ a) b = rw (after-append a b) (simp append_assoc)
  after-append (in_right c l k v ∷ a) b = after-append a b

  pub entries-replace_node :
      (t : Tree V) (up : Parents V)
      → entries (replace_node t up) ≡ before up ++ entries t ++ after up
  entries-replace_node t [] = simp append-nil
  entries-replace_node t (in_left c k v r ∷ up) =
      entries-replace_node (node c t k v r) up ∙ simp append_assoc
  entries-replace_node t (in_right c l k v ∷ up) =
      entries-replace_node (node c l k v t) up ∙ simp append_assoc

  pub Holds_trans :
      (r : Option (Tree V)) {xs ys : List (ℕ × V)}
      → Holds r (λ t. entries t ≡ xs)
      → xs ≡ ys
      → Holds r (λ t. entries t ≡ ys)
  Holds_trans none h e = tt
  Holds_trans (some t) h e = h ∙ e
