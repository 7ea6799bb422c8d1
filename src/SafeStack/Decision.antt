-- ===== src/SafeStack/Decision.antt =====
-- `isSafeStackAlloca` returns, and what it returns is whether the object is used safely.
use hex_type.Prelude.{
  ℕ, zero, suc, ◌+◌, ◌≤◌, ◌≡◌, ◌≢◌, refl, sym, subst, ap, Bool, true, false, List, [], ◌∷◌, ◌==◌,
  contains, inl, inr, ◌⊎◌, Bool-cases, eq_of_==, ==_refl, length, Returns, arith,
}
use hex_type.SafeStack.{
  Def, StackObject, unsafe, passed_on, Search, verdict, explore, is_safe_stack_alloca,
}
use hex_type.SafeStack.Uses.{
  unvisited, passes, any_unsafe, InRange, Scanned, scan_uses-cases, passes_lem, passes_of,
  any_unsafe_lem, any_unsafe_of,
}

module _ (defs : ℕ → Def) (o : StackObject) where
  -- The values that the object is passed on to.
  pub data Leads : ℕ → Type 0 where
    start : {v : ℕ} → v ≡ o.value → Leads v
    follow :
        {v u : ℕ}
        → Leads v
        → contains u (defs v).users ≡ true
        → verdict defs o v u ≡ passed_on
        → Leads u

  -- No use of such a value is unsafe.
  abbrev pub Safe : Type 0
  Safe = (v u : ℕ) → Leads v → contains u (defs v).users ≡ true → verdict defs o v u ≢ unsafe

  -- One of them has an unsafe use.
  abbrev pub Unsafe : Type 0
  Unsafe =
      (v : ℕ) × (u : ℕ) × Leads v
      × (contains u (defs v).users ≡ true)
      × (verdict defs o v u ≡ unsafe)

  -- Every user is an instruction of the function.
  abbrev pub UsersBelow : ℕ → Type 0
  UsersBelow n = (v : ℕ) → InRange defs o n (defs v).users

  module _ (n : ℕ) (below : UsersBelow n) where
    -- The uses of `w` have been looked at.
    abbrev Processed : ℕ → List ℕ → Type 0
    Processed w visited =
        (any_unsafe defs o n w (defs w).users ≡ false)
        × ((u : ℕ) → passes defs o n w u (defs w).users ≡ true → contains u visited ≡ true)

    record Inv (work visited : List ℕ) : Type 0 where
      sound : (w : ℕ) → contains w work ≡ true → Leads w
      root : (contains o.value work ≡ true) ⊎ Processed o.value visited
      done : (w : ℕ) → contains w visited ≡ true → (contains w work ≡ true) ⊎ Processed w visited

    -- What has been looked at before a scan, or is looked at by it, is looked at after it.
    Processed-scan :
        (v w : ℕ) (vs visited : List ℕ) (s' : Search)
        → any_unsafe defs o n v (defs v).users ≡ false
        → Scanned defs o n v (defs v).users (record { work_list = vs; visited = visited }) s'
        → (contains w (v ∷ vs) ≡ true) ⊎ Processed w visited
        → (contains w s'.work_list ≡ true) ⊎ Processed w s'.visited
    Processed-scan v w vs visited s' fine a (inl h) = elim (Bool-cases (v == w)) [
      | inl e ↦ inr (
          subst (λ x. Processed x s'.visited) (eq_of_== v w e)
            (fine, λ u p. ground (arith, a.seen u)))
      | inr e ↦ inl (ground (arith, a.queued w))
    ]
    Processed-scan v w vs visited s' fine a (inr (f, p)) =
        inr (f, λ u h. let k = p u h in ground (arith, a.seen u))

    Inv-scan :
        (v : ℕ) (vs visited : List ℕ) (s' : Search)
        → any_unsafe defs o n v (defs v).users ≡ false
        → Scanned defs o n v (defs v).users (record { work_list = vs; visited = visited }) s'
        → Inv (v ∷ vs) visited
        → Inv s'.work_list s'.visited
    Inv-scan v vs visited s' fine a h = record {
      sound = λ w there. elim (Bool-cases (contains w vs)) [
        | inl e ↦ h.sound w (ground arith)
        | inr e ↦
            let p = passes_lem defs o n v w (defs v).users (ground (arith, a.queued w)) in
            follow (h.sound v (ground (arith, ==_refl v))) p.0 p.1
      ];
      root = Processed-scan v o.value vs visited s' fine a h.root;
      done = λ w there. elim (Bool-cases (contains w visited)) [
        | inl e ↦ Processed-scan v w vs visited s' fine a (h.done w e)
        | inr e ↦ inl (ground (arith, a.seen w, a.queued w))
      ];
    }

    -- What is returned is whether the object is used safely.
    abbrev pub Decides : Bool → Type 0
    Decides b = (b ≡ true → Safe) × (b ≡ false → Unsafe)

    Leads-Processed : (visited : List ℕ) → Inv [] visited → (v : ℕ) → Leads v → Processed v visited
    Leads-Processed visited h v (start e) = elim h.root [
      | inl z ↦ cc
      | inr p ↦ subst (λ x. Processed x visited) (sym e) p
    ]
    Leads-Processed visited h v (follow {v = x} l there e) =
        let p = Leads-Processed visited h x l in
        elim (h.done v (p.1 v (passes_of defs o n x v (defs x).users there e))) [
          | inl z ↦ cc
          | inr q ↦ q
        ]

    finished : (visited : List ℕ) → Inv [] visited → true ≡ true → Safe
    finished visited h e v u l there =
        any_unsafe_of defs o n v u (defs v).users (Leads-Processed visited h v l).0 there

    explore-Decides :
        (fuel : ℕ) (work visited : List ℕ)
        → Inv work visited
        → unvisited n visited + length work ≤ fuel
        → Returns (explore defs o fuel work visited) Decides
    unfolding explore
    explore-Decides zero [] visited h l = (true, refl, (finished visited h, λ e. cc))
    explore-Decides zero (v ∷ vs) visited h l = absurd (omega arith)
    explore-Decides (suc fuel) [] visited h l = (true, refl, (finished visited h, λ e. cc))
    explore-Decides (suc fuel) (v ∷ vs) visited h l =
        let s : Search = record { work_list = vs; visited = visited } in
        elim (scan_uses-cases defs o n v (defs v).users s (below v)) [
          | inl (e, bad) ↦
              let (u, there, worst) = any_unsafe_lem defs o n v (defs v).users bad in
              (
                false,
                rw (explore, e) refl,
                (λ z. cc, λ z. (v, u, h.sound v (ground (arith, ==_refl v)), there, worst)),
              )
          | inr (s', e, fine, a) ↦
              let (b, r, d) =
                explore-Decides fuel s'.work_list s'.visited (Inv-scan v vs visited s' fine a h)
                  (omega (arith, a.work)) in
              (b, rw (explore, e) r, d)
        ]

    unvisited-nil : (m : ℕ) → unvisited m [] ≡ m
    unvisited-nil zero = refl
    unvisited-nil (suc m) = ap suc (unvisited-nil m)

    -- In a function whose instructions are all the users of its values, the analysis of an object on
    -- the stack returns. It answers yes exactly when no value that the object is passed on to, be it in
    -- a circle, has an unsafe use.
    pub is_safe_stack_alloca-Decides : Returns (is_safe_stack_alloca defs o n) Decides
    unfolding is_safe_stack_alloca
    is_safe_stack_alloca-Decides =
        explore-Decides (suc n) (o.value ∷ []) []
          (record {
            sound = λ w h. start (sym (eq_of_== o.value w (ground arith)));
            root = inl (ground (arith, ==_refl o.value));
            done = λ w h. cc;
          })
          (omega (arith, unvisited-nil n))
