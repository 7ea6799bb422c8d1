-- ===== src/Phantoms/Rows.antt =====
-- Every row of a table is in the phantom sets afterwards.
use hex_type.Prelude.{
  ℕ, zero, suc, ◌+◌, ◌<◌, ◌≡◌, none, some, true, [], inl, inr, Option-cases, arith,
}
use hex_type.Runtime.{Runtime}
use hex_type.Casts.{phantoms}
use hex_type.Phantoms.{
  set_phantoms, set_info, add_member, add_members, add_row, add_rows, update_phantom_info,
}
use hex_type.Phantoms.Laws.{contains, Grows, Grows-trans, add_members-Grows, add_members-contains}

-- Each hash leads to a set that has been created.
pub record IsFresh (s : Runtime) : Type 0 where
  pub below : (h q : ℕ) → s.obj_phantom_info h ≡ some q → q < s.next_set

add_member-IsFresh :
    (inner_hash p : ℕ) (s : Runtime)
    → p < s.next_set
    → IsFresh s
    → (p < (add_member inner_hash p s).next_set) × IsFresh (add_member inner_hash p s)
unfolding add_member
add_member-IsFresh inner_hash p s small ok = elim (Option-cases (s.obj_phantom_info inner_hash)) [
  | inl none_ ↦ rw none_ (small, record { below = ok.below })
  | inr (q, some_) ↦
      rw some_ (ground arith, record { below = λ h r e. ground (arith, ok.below h r) })
]

add_members-IsFresh :
    (n : ℕ) (info : ℕ → ℕ) (pos p : ℕ) (s : Runtime)
    → p < s.next_set
    → IsFresh s
    → (p < (add_members n info pos p s).next_set) × IsFresh (add_members n info pos p s)
unfolding add_members
add_members-IsFresh zero info pos p s small ok = (small, ok)
add_members-IsFresh (suc n) info pos p s small ok =
    let s₁ = add_member (info pos) p s in
    let (small₁, ok₁) = add_member-IsFresh (info pos) p s small ok in
    add_members-IsFresh n info (pos + 1) p s₁ small₁ ok₁

-- What the hash of a row leads to does not change, be it nothing or the set that is added to.
add_member_info :
    (inner_hash p h : ℕ) (s : Runtime)
    → (s.obj_phantom_info h ≡ none → (add_member inner_hash p s).obj_phantom_info h ≡ none)
      × (s.obj_phantom_info h ≡ some p → (add_member inner_hash p s).obj_phantom_info h ≡ some p)
unfolding add_member
add_member_info inner_hash p h s = elim (Option-cases (s.obj_phantom_info inner_hash)) [
  | inl none_ ↦ rw none_ (λ e. e, λ e. e)
  | inr (q, some_) ↦ rw some_ (ground arith, ground arith)
]

add_members_info :
    (n : ℕ) (info : ℕ → ℕ) (pos p h : ℕ) (s : Runtime)
    → (s.obj_phantom_info h ≡ none → (add_members n info pos p s).obj_phantom_info h ≡ none)
      × (s.obj_phantom_info h ≡ some p → (add_members n info pos p s).obj_phantom_info h ≡ some p)
unfolding add_members
add_members_info zero info pos p h s = (λ e. e, λ e. e)
add_members_info (suc n) info pos p h s =
    let s₁ = add_member (info pos) p s in
    let step = add_member_info (info pos) p h s in
    let rest = add_members_info n info (pos + 1) p h s₁ in
    (λ e. rest.0 (step.0 e), λ e. rest.1 (step.1 e))

-- The state in which a row is added for a hash that leads to nothing.
abbrev created : Runtime → Runtime
created s = set_phantoms s.next_set [] (record s { next_set = s.next_set + 1 })

created-Grows : (s : Runtime) → IsFresh s → Grows s (created s)
created-Grows s ok h x there = elim (Option-cases (s.obj_phantom_info h)) [
  | inl none_ ↦ ground (arith, there, none_)
  | inr (q, some_) ↦ ground (arith, there, some_, ok.below h q some_)
]

lead-Grows : (h p : ℕ) (s : Runtime) → s.obj_phantom_info h ≡ none → Grows s (set_info h p s)
lead-Grows h p s none_ g x there = ground (arith, there, none_)

-- What a row adds.
pub record Adds (info : ℕ → ℕ) (pos : ℕ) (s s' : Runtime) : Type 0 where
  fresh : IsFresh s'
  grows : Grows s s'
  holds :
      (j : ℕ) → j < info (pos + 1) → contains (info (pos + 2 + j)) (phantoms s' (info pos)) ≡ true

add_row-Adds :
    (info : ℕ → ℕ) (pos : ℕ) (s : Runtime) → IsFresh s → Adds info pos s (add_row info pos s)
unfolding add_row
add_row-Adds info pos s ok =
    let h = info pos in
    let n = info (pos + 1) in
    elim (Option-cases (s.obj_phantom_info h)) [
      | inl none_ ↦
          let p = s.next_set in
          let s₁ = add_members n info (pos + 2) p (created s) in
          let still = (add_members_info n info (pos + 2) p h (created s)).0 none_ in
          let ok₀ : IsFresh (created s) = record {
            below = λ g q e. ground (arith, ok.below g q e);
          } in
          let (small₁, ok₁) =
            add_members-IsFresh n info (pos + 2) p (created s) (omega arith) ok₀ in
          rw (none_, add_row, still)
            (record {
              fresh = record { below = λ g q e. ground (arith, small₁, ok₁.below g q) };
              grows =
                  Grows-trans s s₁ (set_info h p s₁)
                    (Grows-trans s (created s) s₁ (created-Grows s ok)
                      (add_members-Grows n info (pos + 2) p (created s)))
                    (lead-Grows h p s₁ still);
              holds =
                  λ j l. ground (arith, add_members-contains n info (pos + 2) p j (created s) l);
            })
      | inr (p, some_) ↦
          let s₁ = add_members n info (pos + 2) p s in
          let still = (add_members_info n info (pos + 2) p h s).1 some_ in
          rw (some_, add_row)
            (record {
              fresh = (add_members-IsFresh n info (pos + 2) p s (ok.below h p some_) ok).1;
              grows = add_members-Grows n info (pos + 2) p s;
              holds = λ j l. ground (arith, still, add_members-contains n info (pos + 2) p j s l);
            })
    ]

-- The positions of the rows from a position on.
abbrev pub row_start : (ℕ → ℕ) → ℕ → ℕ → ℕ
row_start info zero pos = pos
row_start info (suc k) pos = row_start info k (pos + 2 + info (pos + 1))

add_rows-Grows :
    (n : ℕ) (info : ℕ → ℕ) (pos : ℕ) (s : Runtime) → IsFresh s → Grows s (add_rows n info pos s)
unfolding add_rows
add_rows-Grows zero info pos s ok = λ h x there. there
add_rows-Grows (suc n) info pos s ok =
    let s₁ = add_row info pos s in
    let row = add_row-Adds info pos s ok in
    let next = pos + 2 + info (pos + 1) in
    Grows-trans s s₁ (add_rows n info next s₁) row.grows (add_rows-Grows n info next s₁ row.fresh)

add_rows-contains :
    (n k j : ℕ) (info : ℕ → ℕ) (pos : ℕ) (s : Runtime)
    → IsFresh s
    → k < n
    → j < info (row_start info k pos + 1)
    → contains
        (info (row_start info k pos + 2 + j))
        (phantoms (add_rows n info pos s) (info (row_start info k pos)))
      ≡ true
unfolding add_rows
add_rows-contains zero k j info pos s ok l m = absurd (omega arith)
add_rows-contains (suc n) zero j info pos s ok l m =
    let row = add_row-Adds info pos s ok in
    add_rows-Grows n info (pos + 2 + info (pos + 1)) (add_row info pos s) row.fresh (info pos)
      (info (pos + 2 + j)) (row.holds j m)
add_rows-contains (suc n) (suc k) j info pos s ok l m =
    add_rows-contains n k j info (pos + 2 + info (pos + 1)) (add_row info pos s)
      (add_row-Adds info pos s ok).fresh (omega arith) m

-- If each hash of the map leads to a set that has been created, then after a table has been read
-- each phantom of each row is a phantom of the row's hash, also where rows share or merge their sets.
pub update_phantom_info-contains :
    (info : ℕ → ℕ) (k j : ℕ) (s : Runtime)
    → IsFresh s
    → k < info 0
    → j < info (row_start info k 1 + 1)
    → contains
        (info (row_start info k 1 + 2 + j))
        (phantoms (update_phantom_info info s) (info (row_start info k 1)))
      ≡ true
unfolding update_phantom_info
update_phantom_info-contains info k j s ok l m = add_rows-contains (info 0) k j info 1 s ok l m

-- If each hash of the map leads to a set that has been created, then what was a phantom of a hash is
-- one after a further table has been read, although hashes are redirected to other sets.
pub update_phantom_info_keeps :
    (info : ℕ → ℕ) (h x : ℕ) (s : Runtime)
    → IsFresh s
    → contains x (phantoms s h) ≡ true
    → contains x (phantoms (update_phantom_info info s) h) ≡ true
unfolding update_phantom_info
update_phantom_info_keeps info h x s ok there = add_rows-Grows (info 0) info 1 s ok h x there
