-- ===== src/SafeStack/Uses.antt =====
-- What a scan of the uses of a value adds to the work list and to the visited values.
use hex_type.Prelude.{
  ℕ, zero, suc, ◌+◌, ◌≤◌, ◌<◌, ◌≡◌, ◌≢◌, refl, none, some, Bool, true, false, List, [], ◌∷◌, ◌==◌,
  ◌&&◌, ◌||◌, not, contains, inl, inr, ◌⊎◌, Bool-cases, eq_of_==, ==_refl, length, if◌then◌else◌,
  arith,
}
use hex_type.SafeStack.{
  Def, StackObject, Verdict, harmless, unsafe, passed_on, Search, visit, verdict, scan_uses,
}

-- The values that have not been visited.
abbrev pub unvisited : ℕ → List ℕ → ℕ
unvisited zero visited = 0
unvisited (suc n) visited =
    if contains n visited then unvisited n visited else suc (unvisited n visited)

unvisited-cons_above :
    (n u : ℕ) (visited : List ℕ) → n ≤ u → unvisited n (u ∷ visited) ≡ unvisited n visited
unvisited-cons_above zero u visited l = refl
unvisited-cons_above (suc n) u visited l = ground (arith, unvisited-cons_above n u visited)

unvisited-cons :
    (n u : ℕ) (visited : List ℕ)
    → u < n
    → contains u visited ≡ false
    → suc (unvisited n (u ∷ visited)) ≡ unvisited n visited
unvisited-cons zero u visited l e = absurd (omega arith)
unvisited-cons (suc n) u visited l e =
    ground (arith, unvisited-cons n u visited, unvisited-cons_above n u visited)

module _ (defs : ℕ → Def) (o : StackObject) (n : ℕ) where
  abbrev is_passed_on : Verdict → Bool
  is_passed_on harmless = false
  is_passed_on unsafe = false
  is_passed_on passed_on = true

  abbrev is_unsafe : Verdict → Bool
  is_unsafe harmless = false
  is_unsafe unsafe = true
  is_unsafe passed_on = false

  -- Some use of `v` among these is in `w`, and passes the object on; some is unsafe.
  abbrev pub passes : ℕ → ℕ → List ℕ → Bool
  passes v w [] = false
  passes v w (u ∷ us) = u == w && is_passed_on (verdict defs o v u) || passes v w us

  abbrev pub any_unsafe : ℕ → List ℕ → Bool
  any_unsafe v [] = false
  any_unsafe v (u ∷ us) = is_unsafe (verdict defs o v u) || any_unsafe v us

  abbrev pub InRange : List ℕ → Type 0
  InRange us = (u : ℕ) → contains u us ≡ true → u < n

  -- What a scan adds.
  pub record Scanned (v : ℕ) (us : List ℕ) (s s' : Search) : Type 0 where
    pub seen : (w : ℕ) → contains w s'.visited ≡ (contains w s.visited || passes v w us)
    pub queued :
        (w : ℕ)
        → contains w s'.work_list
          ≡ (contains w s.work_list || (passes v w us && not (contains w s.visited)))
    pub work :
        unvisited n s'.visited + length s'.work_list ≤ unvisited n s.visited + length s.work_list

  is_passed_on_lem : (r : Verdict) → is_passed_on r ≡ true → r ≡ passed_on
  is_passed_on_lem harmless e = cc
  is_passed_on_lem unsafe e = cc
  is_passed_on_lem passed_on e = refl

  is_unsafe_lem : (r : Verdict) → is_unsafe r ≡ true → r ≡ unsafe
  is_unsafe_lem harmless e = cc
  is_unsafe_lem unsafe e = refl
  is_unsafe_lem passed_on e = cc

  pub passes_lem :
      (v w : ℕ) (us : List ℕ)
      → passes v w us ≡ true
      → (contains w us ≡ true) × (verdict defs o v w ≡ passed_on)
  passes_lem v w [] h = cc
  passes_lem v w (u ∷ us) h =
      ground (arith, eq_of_== u w, is_passed_on_lem (verdict defs o v u), passes_lem v w us)

  pub passes_of :
      (v w : ℕ) (us : List ℕ)
      → contains w us ≡ true
      → verdict defs o v w ≡ passed_on
      → passes v w us ≡ true
  passes_of v w [] h e = cc
  passes_of v w (u ∷ us) h e = ground (arith, eq_of_== u w, passes_of v w us)

  pub any_unsafe_lem :
      (v : ℕ) (us : List ℕ)
      → any_unsafe v us ≡ true
      → (u : ℕ) × (contains u us ≡ true) × (verdict defs o v u ≡ unsafe)
  any_unsafe_lem v [] h = cc
  any_unsafe_lem v (u ∷ us) h = elim (Bool-cases (is_unsafe (verdict defs o v u))) [
    | inl e ↦ (u, ground (arith, ==_refl u), is_unsafe_lem (verdict defs o v u) e)
    | inr e ↦ let (x, there, bad) = any_unsafe_lem v us (rw e at h) in (x, ground arith, bad)
  ]

  pub any_unsafe_of :
      (v u : ℕ) (us : List ℕ)
      → any_unsafe v us ≡ false
      → contains u us ≡ true
      → verdict defs o v u ≢ unsafe
  any_unsafe_of v u [] h there e = cc
  any_unsafe_of v u (x ∷ us) h there e = ground (arith, eq_of_== x u, any_unsafe_of v u us)

  -- Every use, by what the analysis makes of it.
  verdict-cases : (r : Verdict) → (r ≡ unsafe) ⊎ ((r ≡ harmless) ⊎ (r ≡ passed_on))
  verdict-cases harmless = inr (inl refl)
  verdict-cases unsafe = inl refl
  verdict-cases passed_on = inr (inr refl)

  Scanned-harmless :
      (v u : ℕ) (us : List ℕ) (s s' : Search)
      → verdict defs o v u ≡ harmless
      → Scanned v us s s'
      → Scanned v (u ∷ us) s s'
  Scanned-harmless v u us s s' e a = record {
    seen = λ w. ground (arith, e, a.seen w);
    queued = λ w. ground (arith, e, a.queued w);
    work = a.work;
  }

  visit-work :
      (u : ℕ) (s : Search)
      → u < n
      → unvisited n (visit u s).visited + length (visit u s).work_list
        ≤ unvisited n s.visited + length s.work_list
  visit-work u s l = elim (Bool-cases (contains u s.visited)) [
    | inl e ↦ rw e (omega arith)
    | inr e ↦ rw e (omega (arith, unvisited-cons n u s.visited l e))
  ]

  Scanned-passed_on :
      (v u : ℕ) (us : List ℕ) (s s' : Search)
      → verdict defs o v u ≡ passed_on
      → u < n
      → Scanned v us (visit u s) s'
      → Scanned v (u ∷ us) s s'
  Scanned-passed_on v u us s s' e l a = record {
    seen = λ w. ground (arith, e, a.seen w, eq_of_== u w);
    queued = λ w. ground (arith, e, a.queued w, eq_of_== u w);
    work = omega (arith, a.work, visit-work u s l);
  }

  -- A scan of the uses ends at one that is unsafe, or goes through them.
  pub scan_uses-cases :
      (v : ℕ) (us : List ℕ) (s : Search)
      → InRange us
      → ((scan_uses defs o v us s ≡ none) × (any_unsafe v us ≡ true))
        ⊎ ((s' : Search) × (scan_uses defs o v us s ≡ some s')
            × (any_unsafe v us ≡ false)
            × Scanned v us s s')
  unfolding scan_uses
  scan_uses-cases v [] s ok = inr (
    s,
    refl,
    refl,
    record { seen = λ w. ground arith; queued = λ w. ground arith; work = omega arith },
  )
  scan_uses-cases v (u ∷ us) s ok =
      let rest : InRange us = λ w h. ok w (ground (arith, h)) in
      elim (verdict-cases (verdict defs o v u)) [
        | inl e ↦ inl (rw (scan_uses, e) refl, rw e refl)
        | inr (inl e) ↦ elim (scan_uses-cases v us s rest) [
          | inl (r, b) ↦ inl (rw (scan_uses, e) r, rw e b)
          | inr (s', r, b, a) ↦
              inr (s', rw (scan_uses, e) r, rw e b, Scanned-harmless v u us s s' e a)
        ]
        | inr (inr e) ↦ elim (scan_uses-cases v us (visit u s) rest) [
          | inl (r, b) ↦ inl (rw (scan_uses, e) r, rw e b)
          | inr (s', r, b, a) ↦ inr (
            s',
            rw (scan_uses, e) r,
            rw e b,
            Scanned-passed_on v u us s s' e (ok u (ground arith)) a,
          )
        ]
      ]
