-- ===== src/Casts/Rules.antt =====
-- The binary search of a rule table finds a hash exactly when the table holds it.
use Prim.Native.Nat.{compare}
use hex_type.Prelude.{
  ℕ, zero, suc, ◌+◌, ◌-◌, ◌%◌, ◌^◌, ◌≤◌, ◌<◌, ◌≡◌, refl, Option, some, Bool, true, false, List, [],
  ◌∷◌, ltb, inl, inr, Bool-cases, ◌⊎◌, Returns, ◌>>=◌, arith,
}
use hex_type.RbTree.{Ordering-cases}
use hex_type.Casts.{word, middle, rule_search, rule_contains, any_rule, is_related}

-- The answer decides the proposition.
abbrev pub Decides : Type 0 → Bool → Type 0
Decides P true = P
Decides P false = ¬ P

-- A second search, if the first one fails.
either-Decides :
    (P Q : Type 0) (r r' : Option Bool)
    → Returns r (Decides P)
    → Returns r' (Decides Q)
    → Returns (r >>= λ b. elim b [ true ↦ some true | false ↦ r' ]) (Decides (P ⊎ Q))
either-Decides P Q r r' (true, run, h) h' = (true, rw run, inl h)
either-Decides P Q r r' (false, run, h) (true, run', h') = (true, rw (run, run'), inr h')
either-Decides P Q r r' (false, run, h) (false, run', h') =
    (false, rw (run, run'), elim [ inl a ↦ h a | inr a ↦ h' a ])

module _ (memory : ℕ → ℕ) (rule_addr : ℕ) where
  -- The table is in ascending order.
  abbrev pub IsAscending : Type 0
  IsAscending =
      (i j : ℕ)
      → 1 ≤ i
      → i < j
      → j ≤ word memory rule_addr 0
      → word memory rule_addr i < word memory rule_addr j

  -- The table holds a hash.
  abbrev pub Lists : ℕ → Type 0
  Lists hash = (i : ℕ) × (1 ≤ i) × (i ≤ word memory rule_addr 0) × (word memory rule_addr i ≡ hash)

  module _ (ascending : IsAscending) (small : word memory rule_addr 0 < 2 ^ 63) (hash : ℕ) where
    -- What is left of the table lies between `start` and `end`.
    rule_search-Decides :
        (fuel start end : ℕ)
        → 1 ≤ start
        → end ≤ word memory rule_addr 0
        → end + 1 < start + fuel
        → start ≤ end + 1
        → ((i : ℕ) → 1 ≤ i → i < start → word memory rule_addr i < hash)
        → ((i : ℕ) → end < i → i ≤ word memory rule_addr 0 → hash < word memory rule_addr i)
        → Returns (rule_search memory rule_addr hash fuel start end) (Decides (Lists hash))
    unfolding rule_search
    rule_search-Decides zero start end lo hi fuel near below above = absurd (omega arith)
    rule_search-Decides (suc fuel) start end lo hi enough near below above =
        elim (Bool-cases (ltb end start)) [
          | inl empty ↦
              let over : end < start = ground arith in
              rw (empty, rule_search)
                (false, refl, λ l. ground (arith, below l.0 l.1, above l.0, l.1, l.2, l.3, over))
          | inr more ↦
              let open_range : start ≤ end = ground arith in
              let m = middle start end in
              let low : start ≤ m = omega arith in
              let high : m ≤ end = omega arith in
              elim (Ordering-cases (compare (word memory rule_addr m) hash)) [
                | inl e ↦
                    let smaller : word memory rule_addr m < hash = ground arith in
                    let step : (m + 1) % 2 ^ 64 ≡ m + 1 = omega arith in
                    rw (more, rule_search, e, step)
                      (rule_search-Decides fuel (m + 1) end (omega arith) hi (omega arith)
                        (omega arith) (λ i p q. ground (arith, ascending i m p, smaller, high, hi))
                        above)
                | inr (inl e) ↦
                    rw (more, rule_search, e)
                      (true, refl, (m, omega arith, omega arith, ground arith))
                | inr (inr e) ↦
                    let larger : hash < word memory rule_addr m = ground arith in
                    let step : (m + 2 ^ 64 - 1) % 2 ^ 64 ≡ m - 1 = omega arith in
                    rw (more, rule_search, e, step)
                      (rule_search-Decides fuel start (m - 1) lo (omega arith) (omega arith)
                        (omega arith) below
                        (λ i p q. ground (arith, ascending m i, larger, low, lo)))
              ]
        ]

    -- The search of an ascending table of less than 2 ^ 63 entries ends, with the answer whether the
    -- table holds the hash.
    pub rule_contains-Decides : Returns (rule_contains memory rule_addr hash) (Decides (Lists hash))
    unfolding rule_contains
    rule_contains-Decides =
        let size = word memory rule_addr 0 in
        rule_search-Decides (suc size) 1 size (omega arith) (omega arith) (omega arith)
          (omega arith) (λ i p q. absurd (omega arith)) (λ i p q. absurd (omega arith))

  -- The table holds one of the hashes.
  abbrev pub ListsAny : List ℕ → Type 0
  ListsAny [] = ⊥
  ListsAny (p ∷ ps) = Lists p ⊎ ListsAny ps

  -- The table holds the target type or one of its phantoms.
  abbrev pub Related : ℕ → List ℕ → Type 0
  Related dst ps = Lists dst ⊎ ListsAny ps

  module _ (ascending : IsAscending) (small : word memory rule_addr 0 < 2 ^ 63) where
    any_rule-Decides :
        (ps : List ℕ) → Returns (any_rule memory rule_addr ps) (Decides (ListsAny ps))
    unfolding any_rule
    any_rule-Decides [] = (false, refl, λ n. n)
    any_rule-Decides (p ∷ ps) =
        either-Decides (Lists p) (ListsAny ps) (rule_contains memory rule_addr p)
          (any_rule memory rule_addr ps) (rule_contains-Decides ascending small p)
          (any_rule-Decides ps)

-- The check of a cast against an ascending table of less than 2 ^ 63 entries ends, and accepts
-- exactly when the table holds the target type or one of its phantom types.
pub is_related-Decides :
    (memory : ℕ → ℕ) (phantom_set : List ℕ) (rule_addr dst : ℕ)
    → IsAscending memory rule_addr
    → word memory rule_addr 0 < 2 ^ 63
    → Returns
        (is_related memory phantom_set rule_addr dst)
        (Decides (Related memory rule_addr dst phantom_set))
unfolding is_related
is_related-Decides memory phantom_set rule_addr dst ascending small =
    either-Decides (Lists memory rule_addr dst) (ListsAny memory rule_addr phantom_set)
      (rule_contains memory rule_addr dst) (any_rule memory rule_addr phantom_set)
      (rule_contains-Decides memory rule_addr ascending small dst)
      (any_rule-Decides memory rule_addr ascending small phantom_set)
