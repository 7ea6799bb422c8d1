-- ===== src/Phantoms.antt =====
-- `__update_phantom_info` of src/compiler-rt-files/hextype.cc: the phantom sets of a module's table are
-- merged into those of the modules before it. A table is read by the index of its words.
pub mod Laws
pub mod Rows
use Prim.Native.Nat.Ordering.{lt, eq, gt}
use Prim.Native.Nat.{compare}
use hex_type.Prelude.{ℕ, zero, suc, ◌+◌, Option, none, some, List, [], ◌∷◌, ◌==◌, if◌then◌else◌}
use hex_type.Runtime.{Runtime, update}

-- `insert` of a `std::set`, whose elements are in ascending order.
unfoldable pub insert : ℕ → List ℕ → List ℕ
insert y [] = y ∷ []
insert y (x ∷ xs) =
    let rest = insert y xs in elim (compare y x) [ lt ↦ y ∷ x ∷ xs | eq ↦ x ∷ xs | gt ↦ x ∷ rest ]

-- `insert` of a range.
unfoldable pub insert_all : List ℕ → List ℕ → List ℕ
insert_all [] s = s
insert_all (x ∷ xs) s = insert_all xs (insert x s)

abbrev pub set_phantoms : ℕ → List ℕ → Runtime → Runtime
set_phantoms p hashes s = record s { phantom_sets = update s.phantom_sets p hashes }

abbrev pub set_info : ℕ → ℕ → Runtime → Runtime
set_info hash p s = record s { obj_phantom_info = update s.obj_phantom_info hash (some p) }

-- `PhantomSet->insert(it2->second->begin(), it2->second->end())`, unless it is the same set.
abbrev pub merge : ℕ → ℕ → Runtime → Runtime
merge q p s =
    if q == p then s else set_phantoms p (insert_all (s.phantom_sets q) (s.phantom_sets p)) s

-- A round of the inner loop: `inner_hash` into the set `p`.
unfoldable pub add_member : ℕ → ℕ → Runtime → Runtime
add_member inner_hash p s =
    let s₁ : Runtime = elim (s.obj_phantom_info inner_hash) [
      | none ↦ s
      | some q ↦ set_info inner_hash p (merge q p s)
    ] in
    set_phantoms p (insert inner_hash (s₁.phantom_sets p)) s₁

-- The inner loop, by the rounds left, from a position of the table.
unfoldable pub add_members : ℕ → (ℕ → ℕ) → ℕ → ℕ → Runtime → Runtime
add_members zero info pos p s = s
add_members (suc n) info pos p s = add_members n info (pos + 1) p (add_member (info pos) p s)

-- A round of the outer loop: a row is a hash, the number of its phantoms and the phantoms.
unfoldable pub add_row : (ℕ → ℕ) → ℕ → Runtime → Runtime
add_row info pos s =
    let type_hash = info pos in
    let phantom_num = info (pos + 1) in
    elim (s.obj_phantom_info type_hash) [
      | some p ↦ add_members phantom_num info (pos + 2) p s
      | none ↦
          let p = s.next_set in
          let s₁ =
            add_members phantom_num info (pos + 2) p
              (set_phantoms p [] (record s { next_set = p + 1 })) in
          -- `insert` of an `unordered_map` leaves a key that is there as it is.
          elim (s₁.obj_phantom_info type_hash) [ none ↦ set_info type_hash p s₁ | some q ↦ s₁ ]
    ]

-- The outer loop, by the rounds left.
unfoldable pub add_rows : ℕ → (ℕ → ℕ) → ℕ → Runtime → Runtime
add_rows zero info pos s = s
add_rows (suc n) info pos s = add_rows n info (pos + 2 + info (pos + 1)) (add_row info pos s)

-- `__update_phantom_info`
unfoldable pub update_phantom_info : (ℕ → ℕ) → Runtime → Runtime
update_phantom_info info s = add_rows (info 0) info 1 s
