-- ===== src/Types/Sets.antt =====
-- The sets of hashes that the tables hold: their elements and their order.
use hex_type.Prelude.{
  get_elem?, ℕ, zero, suc, ◌≤◌, ◌<◌, ◌≡◌, refl, some, true, List, [], ◌∷◌, ◌==◌, ◌||◌, length,
  arith, inl, inr, Bool-cases, eq_of_==,
}
use hex_type.Phantoms.{insert, insert_all}
use hex_type.Phantoms.Laws.{contains, contains-insert_all}
use hex_type.Types.{TypeDetailInfo, hashes, sort_into, sort, sort_set, sorted_hashes}

contains-sort_into :
    (x y : ℕ) (ys : List ℕ) → contains x (sort_into y ys) ≡ (y == x || contains x ys)
unfolding sort_into
contains-sort_into x y [] = refl
contains-sort_into x y (z ∷ zs) = ground (arith, contains-sort_into x y zs)

contains-sort : (x : ℕ) (ys : List ℕ) → contains x (sort ys) ≡ contains x ys
unfolding sort
contains-sort x [] = refl
contains-sort x (y ∷ ys) = ground (arith, contains-sort_into x y (sort ys), contains-sort x ys)

-- The table of a type holds the hashes of the vector, and no others.
pub contains-sorted_hashes :
    (x : ℕ) (ds : List TypeDetailInfo) → contains x (sorted_hashes ds) ≡ contains x (hashes ds)
unfolding sorted_hashes sort_set
contains-sorted_hashes x ds =
    let set = insert_all (hashes ds) [] in
    ground (
      arith,
      contains-insert_all x (sort set) [],
      contains-sort x set,
      contains-insert_all x (hashes ds) [],
    )

-- The elements ascend from a bound.
abbrev pub Chain : ℕ → List ℕ → Type 0
Chain lo [] = Unit
Chain lo (x ∷ xs) = (lo ≤ x) × Chain (suc x) xs

insert-Chain : (lo y : ℕ) (xs : List ℕ) → lo ≤ y → Chain lo xs → Chain lo (insert y xs)
unfolding insert
insert-Chain lo y [] l h = (l, tt)
insert-Chain lo y (x ∷ xs) l h = ground (arith, insert-Chain (suc x) y xs)

insert_all-Chain : (ys xs : List ℕ) → Chain 0 xs → Chain 0 (insert_all ys xs)
unfolding insert_all
insert_all-Chain [] xs h = h
insert_all-Chain (y ∷ ys) xs h =
    insert_all-Chain ys (insert y xs) (insert-Chain 0 y xs (omega arith) h)

pub sorted_hashes-Chain : (ds : List TypeDetailInfo) → Chain 0 (sorted_hashes ds)
unfolding sorted_hashes sort_set
sorted_hashes-Chain ds = insert_all-Chain (sort (insert_all (hashes ds) [])) [] tt

-- An element of a chain is not below its bound.
get_elem?-Chain : (lo : ℕ) (xs : List ℕ) (i w : ℕ) → Chain lo xs → get_elem? xs i ≡ some w → lo ≤ w
get_elem?-Chain lo [] i w h e = ground arith
get_elem?-Chain lo (x ∷ xs) zero w h e = ground arith
get_elem?-Chain lo (x ∷ xs) (suc i) w h e = ground (arith, get_elem?-Chain (suc x) xs i w)

-- Elements of a chain are in the order of their indices.
pub get_elem?_ascending :
    (lo : ℕ) (xs : List ℕ) (i j v w : ℕ)
    → Chain lo xs
    → get_elem? xs i ≡ some v
    → get_elem? xs j ≡ some w
    → i < j
    → v < w
get_elem?_ascending lo [] i j v w h d e l = ground arith
get_elem?_ascending lo (x ∷ xs) i zero v w h d e l = absurd (omega arith)
get_elem?_ascending lo (x ∷ xs) zero (suc j) v w h d e l =
    ground (arith, get_elem?-Chain (suc x) xs j w)
get_elem?_ascending lo (x ∷ xs) (suc i) (suc j) v w h d e l =
    get_elem?_ascending (suc x) xs i j v w h.1 d e (omega arith)

-- Inside a list there is an element.
-- An element is contained, and one that is contained has an index.
pub contains_of_get_elem? : (xs : List ℕ) (i w : ℕ) → get_elem? xs i ≡ some w → contains w xs ≡ true
contains_of_get_elem? [] i w e = ground arith
contains_of_get_elem? (x ∷ xs) zero w e = ground arith
contains_of_get_elem? (x ∷ xs) (suc i) w e = ground (arith, contains_of_get_elem? xs i w)

pub index_of_contains :
    (xs : List ℕ) (w : ℕ)
    → contains w xs ≡ true
    → (i : ℕ) × (i < length xs) × (get_elem? xs i ≡ some w)
index_of_contains [] w h = ground arith
index_of_contains (x ∷ xs) w h = elim (Bool-cases (x == w)) [
  | inl same ↦ (0, omega arith, ground (arith, eq_of_== x w same))
  | inr other ↦ let (i, l, e) = index_of_contains xs w (ground arith) in (suc i, omega arith, e)
]
