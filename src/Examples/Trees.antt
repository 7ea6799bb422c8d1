-- ===== src/Examples/Trees.antt =====
-- The theorems on red-black trees, on a tree of three nodes.
use hex_type.Prelude.{ℕ, ◌≡◌, none, some, [], ◌∷◌, Returns, arith}
use hex_type.RbTree.{leaf, node, black, in_left, Parents, compare, as_int, rbtree_lookup}
use hex_type.RbTree.Search.{override, IsSorted, find}
use hex_type.RbTree.Entries.{entries}
use hex_type.RbTree.Balance.{IsBalanced}
use hex_type.RbTree.Insert.{rbtree_insert}
use hex_type.RbTree.Insert.Balance.{rbtree_insert-IsBalanced}
use hex_type.RbTree.Delete.{rbtree_delete, delete_case1}
use hex_type.RbTree.Delete.Balance.{Healed, delete_case1-Healed}
use hex_type.RbTree.Lookup.{rbtree_lookup-find}
use hex_type.RbTree.Laws.{IsRbTree, is_some, rbtree_insert-lookup, rbtree_delete-lookup}
use hex_type.Examples.{small_tree}

small_tree-IsBalanced : IsBalanced small_tree
small_tree-IsBalanced = ground arith

small_tree-IsSorted : IsSorted (entries small_tree)
unfolding as_int
small_tree-IsSorted = ground arith

small_tree-IsRbTree : IsRbTree small_tree
small_tree-IsRbTree = record { balanced = small_tree-IsBalanced; sorted = small_tree-IsSorted }

rbtree_insert-lookup_example : Returns (rbtree_insert small_tree 4 40) λ t'.
    IsRbTree t'
    × ((p : ℕ) → rbtree_lookup t' p ≡ override (compare p 4) (some 40) (rbtree_lookup small_tree p))
rbtree_insert-lookup_example = rbtree_insert-lookup small_tree 4 40 small_tree-IsRbTree

rbtree_delete-lookup_example : Returns (rbtree_delete small_tree 16) λ r.
    IsRbTree r.1
    × (r.0 ≡ is_some (rbtree_lookup small_tree 16))
    × ((p : ℕ) → rbtree_lookup r.1 p ≡ override (compare p 16) none (rbtree_lookup small_tree p))
rbtree_delete-lookup_example = rbtree_delete-lookup small_tree 16 small_tree-IsRbTree

rbtree_insert-IsBalanced_example : Returns (rbtree_insert small_tree 4 40) IsBalanced
rbtree_insert-IsBalanced_example = rbtree_insert-IsBalanced small_tree 4 40 small_tree-IsBalanced

-- A place on the left of the root, with a black sibling.
abbrev place : Parents ℕ
place = in_left black 16 160 (node black leaf 24 240 leaf) ∷ []

delete_case1-Healed_example : Returns (delete_case1 2 place) (Healed 0)
delete_case1-Healed_example = delete_case1-Healed 0 2 place (omega arith) (ground arith)

rbtree_lookup-find_example : rbtree_lookup small_tree 24 ≡ find 24 (entries small_tree)
rbtree_lookup-find_example = rbtree_lookup-find small_tree 24 small_tree-IsSorted
