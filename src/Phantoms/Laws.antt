-- ===== src/Phantoms/Laws.antt =====
-- What a table adds to the phantom sets stays there.
use hex_type.Prelude.{
  ℕ, zero, suc, ◌+◌, ◌<◌, ◌≡◌, refl, some, true, List, [], ◌∷◌, ◌==◌, ◌||◌, inl, inr, Bool-cases,
  Option-cases, arith,
}
pub use hex_type.Prelude.{contains}
use hex_type.Runtime.{Runtime}
use hex_type.Casts.{phantoms}
use hex_type.Phantoms.{insert, insert_all, set_phantoms, set_info, merge, add_member, add_members}

pub contains-insert : (x y : ℕ) (ys : List ℕ) → contains x (insert y ys) ≡ (y == x || contains x ys)
unfolding insert
contains-insert x y [] = refl
contains-insert x y (z ∷ zs) = ground (arith, contains-insert x y zs)

pub contains-insert_all :
    (x : ℕ) (xs ys : List ℕ) → contains x (insert_all xs ys) ≡ (contains x xs || contains x ys)
unfolding insert_all
contains-insert_all x [] ys = refl
contains-insert_all x (z ∷ zs) ys =
    ground (arith, contains-insert_all x zs (insert z ys), contains-insert x z ys)

-- The phantoms of a hash are still its phantoms.
abbrev pub Grows : Runtime → Runtime → Type 0
Grows s s' = (h x : ℕ) → contains x (phantoms s h) ≡ true → contains x (phantoms s' h) ≡ true

set_phantoms-Grows :
    (p : ℕ) (hashes : List ℕ) (s : Runtime)
    → ((x : ℕ) → contains x (s.phantom_sets p) ≡ true → contains x hashes ≡ true)
    → Grows s (set_phantoms p hashes s)
set_phantoms-Grows p hashes s more h x there = ground (arith, more x)

merge-Grows : (q p : ℕ) (s : Runtime) → Grows s (merge q p s)
merge-Grows q p s h x there =
    ground (arith, contains-insert_all x (s.phantom_sets q) (s.phantom_sets p))

-- The set that is merged is part of the one that it is merged into.
merge_lem :
    (q p x : ℕ) (s : Runtime)
    → contains x (s.phantom_sets q) ≡ true
    → contains x ((merge q p s).phantom_sets p) ≡ true
merge_lem q p x s there =
    ground (arith, contains-insert_all x (s.phantom_sets q) (s.phantom_sets p))

redirect-Grows :
    (inner_hash q p : ℕ) (s : Runtime)
    → s.obj_phantom_info inner_hash ≡ some q
    → Grows s (set_info inner_hash p (merge q p s))
redirect-Grows inner_hash q p s e h x there = elim (Bool-cases (inner_hash == h)) [
  | inl same ↦ ground (arith, merge_lem q p x s)
  | inr other ↦ ground (arith, merge-Grows q p s h x)
]

pub Grows-trans : (s t u : Runtime) → Grows s t → Grows t u → Grows s u
Grows-trans s t u a b h x there = b h x (a h x there)

insert-Grows :
    (inner_hash p : ℕ) (s : Runtime)
    → Grows s (set_phantoms p (insert inner_hash (s.phantom_sets p)) s)
insert-Grows inner_hash p s =
    set_phantoms-Grows p (insert inner_hash (s.phantom_sets p)) s
      (λ x there. ground (arith, contains-insert x inner_hash (s.phantom_sets p)))

pub add_member-Grows : (inner_hash p : ℕ) (s : Runtime) → Grows s (add_member inner_hash p s)
unfolding add_member
add_member-Grows inner_hash p s = elim (Option-cases (s.obj_phantom_info inner_hash)) [
  | inl none_ ↦ rw none_ (insert-Grows inner_hash p s)
  | inr (q, some_) ↦
      let s₁ = set_info inner_hash p (merge q p s) in
      rw some_ (
        Grows-trans s s₁ (set_phantoms p (insert inner_hash (s₁.phantom_sets p)) s₁)
          (redirect-Grows inner_hash q p s some_) (insert-Grows inner_hash p s₁))
]

pub add_members-Grows :
    (n : ℕ) (info : ℕ → ℕ) (pos p : ℕ) (s : Runtime) → Grows s (add_members n info pos p s)
unfolding add_members
add_members-Grows zero info pos p s = λ h x there. there
add_members-Grows (suc n) info pos p s =
    let s₁ = add_member (info pos) p s in
    Grows-trans s s₁ (add_members n info (pos + 1) p s₁) (add_member-Grows (info pos) p s)
      (add_members-Grows n info (pos + 1) p s₁)

-- The element is in its set.
add_member-contains :
    (inner_hash p : ℕ) (s : Runtime)
    → contains inner_hash ((add_member inner_hash p s).phantom_sets p) ≡ true
unfolding add_member
add_member-contains inner_hash p s = elim (Option-cases (s.obj_phantom_info inner_hash)) [
  | inl none_ ↦ rw none_ (ground (arith, contains-insert inner_hash inner_hash (s.phantom_sets p)))
  | inr (q, some_) ↦
      rw some_
        (ground (arith, contains-insert inner_hash inner_hash ((merge q p s).phantom_sets p)))
]

-- The set that is added to loses nothing.
add_member_keeps :
    (inner_hash p x : ℕ) (s : Runtime)
    → contains x (s.phantom_sets p) ≡ true
    → contains x ((add_member inner_hash p s).phantom_sets p) ≡ true
unfolding add_member
add_member_keeps inner_hash p x s there = elim (Option-cases (s.obj_phantom_info inner_hash)) [
  | inl none_ ↦ rw none_ (ground (arith, contains-insert x inner_hash (s.phantom_sets p)))
  | inr (q, some_) ↦ rw some_ (
      ground (
        arith,
        contains-insert x inner_hash ((merge q p s).phantom_sets p),
        contains-insert_all x (s.phantom_sets q) (s.phantom_sets p),
      ))
]

add_members_keeps :
    (n : ℕ) (info : ℕ → ℕ) (pos p x : ℕ) (s : Runtime)
    → contains x (s.phantom_sets p) ≡ true
    → contains x ((add_members n info pos p s).phantom_sets p) ≡ true
unfolding add_members
add_members_keeps zero info pos p x s there = there
add_members_keeps (suc n) info pos p x s there =
    add_members_keeps n info (pos + 1) p x (add_member (info pos) p s)
      (add_member_keeps (info pos) p x s there)

-- All the elements of a row are in the set.
pub add_members-contains :
    (n : ℕ) (info : ℕ → ℕ) (pos p j : ℕ) (s : Runtime)
    → j < n
    → contains (info (pos + j)) ((add_members n info pos p s).phantom_sets p) ≡ true
unfolding add_members
add_members-contains zero info pos p j s l = absurd (omega arith)
add_members-contains (suc n) info pos p zero s l =
    let e : pos + 0 ≡ pos = omega arith in
    rw e (
      add_members_keeps n info (pos + 1) p (info pos) (add_member (info pos) p s)
        (add_member-contains (info pos) p s))
add_members-contains (suc n) info pos p (suc j) s l =
    let e : pos + suc j ≡ pos + 1 + j = omega arith in
    rw e (add_members-contains n info (pos + 1) p j (add_member (info pos) p s) (omega arith))
