-- ===== src/Names/Removal.antt =====
-- The removal of a string from a name ends, and leaves no occurrence.
use hex_type.Prelude.{
  ℕ, zero, suc, ◌+◌, ◌-◌, ◌≤◌, ◌<◌, ◌≡◌, ◌≢◌, refl, none, some, List, [], ◌∷◌, inl, inr, Bool-cases,
  Option-cases, Returns, length, length-append, arith,
}
use hex_type.Names.{
  find, take, drop, is_scope, erase, remove_rounds, remove_target_str, remove_all, remove_strs,
  sync_type_name, get_hash_value_from_str, get_hash_value_from_sty,
}

find_bound : (x : ℕ) (xs str : List ℕ) (i : ℕ) → find (x ∷ xs) str ≡ some i → i < length str
find_bound x xs [] i e = ground arith
find_bound x xs (y ∷ ys) i e = elim (Option-cases (find (x ∷ xs) ys)) [
  | inl none_ ↦ ground arith
  | inr (j, there) ↦ ground (arith, find_bound x xs ys j there)
]

length-take : (n : ℕ) (str : List ℕ) → length (take n str) ≤ n
length-take n [] = omega arith
length-take zero (x ∷ xs) = omega arith
length-take (suc n) (x ∷ xs) = omega (arith, length-take n xs)

length-drop : (n : ℕ) (str : List ℕ) → length (drop n str) ≡ length str - n
length-drop n [] = omega arith
length-drop zero (x ∷ xs) = omega arith
length-drop (suc n) (x ∷ xs) = omega (arith, length-drop n xs)

-- A round makes the string shorter.
length-erase :
    (x : ℕ) (xs str : List ℕ) (i : ℕ) → i < length str → length (erase (x ∷ xs) i str) < length str
length-erase x xs str i l = elim (Bool-cases (is_scope (x ∷ xs))) [
  | inl scope ↦ rw scope (omega (arith, length-drop (i + 2) str))
  | inr other ↦
      let n = suc (length xs) in
      rw other (
        omega (
          arith,
          length-append (take i str) (drop (i + n) str),
          length-take i str,
          length-drop (i + n) str,
        ))
]

remove_rounds_lem :
    (fuel x : ℕ) (xs str : List ℕ)
    → length str < fuel
    → Returns (remove_rounds fuel (x ∷ xs) str) λ r. find (x ∷ xs) r ≡ none
unfolding remove_rounds
remove_rounds_lem zero x xs str l = absurd (omega arith)
remove_rounds_lem (suc fuel) x xs str l = elim (Option-cases (find (x ∷ xs) str)) [
  | inl none_ ↦ rw (none_, remove_rounds) (str, refl, none_)
  | inr (i, there) ↦
      let shorter = length-erase x xs str i (find_bound x xs str i there) in
      rw (there, remove_rounds) (remove_rounds_lem fuel x xs (erase (x ∷ xs) i str) (omega arith))
]

-- The removal of a string that is not empty returns, and the string does not occur in the result.
pub remove_target_str-find :
    (full_str : List ℕ) (x : ℕ) (xs : List ℕ)
    → Returns (remove_target_str full_str (x ∷ xs)) λ r. find (x ∷ xs) r ≡ none
unfolding remove_target_str
remove_target_str-find full_str x xs =
    remove_rounds_lem (suc (length full_str)) x xs full_str (omega arith)

-- None of the strings is empty.
abbrev NonEmpty : List (List ℕ) → Type 0
NonEmpty [] = Unit
NonEmpty ([] ∷ rs) = ⊥
NonEmpty ((x ∷ xs) ∷ rs) = NonEmpty rs

remove_all_ends : (rs : List (List ℕ)) (str : List ℕ) → NonEmpty rs → remove_all rs str ≢ none
unfolding remove_all
remove_all_ends [] str h = ground arith
remove_all_ends ([] ∷ rs) str h = absurd h
remove_all_ends ((x ∷ xs) ∷ rs) str h =
    let (r, run, free) = remove_target_str-find str x xs in rw run (remove_all_ends rs r h)

pub sync_ends : (str : List ℕ) → sync_type_name str ≢ none
unfolding sync_type_name
sync_ends str = elim (Option-cases (remove_all remove_strs str)) [
  | inl none_ ↦ absurd (remove_all_ends remove_strs str tt none_)
  | inr (s, run) ↦ rw run (ground arith)
]

-- Every type has a hash: the loops that bring its name to a common form end.
pub get_hash_value_from_sty_ends : (name : List ℕ) → get_hash_value_from_sty name ≢ none
unfolding get_hash_value_from_sty get_hash_value_from_str
get_hash_value_from_sty_ends name = elim (Option-cases (sync_type_name name)) [
  | inl none_ ↦ absurd (sync_ends name none_)
  | inr (s, run) ↦ rw run (elim (Option-cases (sync_type_name s)) [
    | inl none_ ↦ absurd (sync_ends s none_)
    | inr (t, again) ↦ rw again (ground arith)
  ])
]
