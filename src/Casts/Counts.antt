-- ===== src/Casts/Counts.antt =====
-- The two numbers that the report gives of the verified casts agree.
use hex_type.Prelude.{
  ℕ, ◌+◌, ◌%◌, ◌^◌, ◌≤◌, ◌≡◌, ◌≢◌, refl, sym, Option, none, some, Bool, true, false, ltb, ◌==◌,
  if◌then◌else◌, inl, inr, subst, Bool-cases, Option-cases, Holds, Yields, Returns, Yields-Returns,
  arith,
}
use hex_type.Counters.{
  num_casting, num_verified_casting, num_cast_same, num_cast_non_bad_cast, num_cast_bad_cast,
  num_miss_find_obj, num_bad_cast_type1, num_bad_cast_type2, get_val,
}
use hex_type.Counters.Report.{add_long}
use hex_type.Runtime.{Runtime, ObjInfo, count, get_hash}
use hex_type.Objects.{find_obj_info, entry_find, tree_lookup}
use hex_type.Casts.{
  cache_index, phantoms, is_related, check_rules, check_cast, cast_offset, check_moved,
  verify_type_casting, bad_cast, count_hit, bad_address,
}

-- The second number of the line on verified casts.
abbrev pub outcomes : Runtime → ℕ
outcomes s =
    add_long
      (add_long (add_long (get_val s.counts num_cast_non_bad_cast) (get_val s.counts num_cast_same))
        (get_val s.counts num_cast_bad_cast))
      (get_val s.counts num_miss_find_obj)

-- One more outcome, and no more verified casts.
abbrev pub Gains : Runtime → Runtime → Type 0
Gains s s' =
    (outcomes s' ≡ (outcomes s + 1) % 2 ^ 64)
    × (get_val s'.counts num_verified_casting ≡ get_val s.counts num_verified_casting)

hit-Gains :
    (result src dst dst_addr : ℕ) (s : Runtime)
    → result ≤ 3
    → Yields {A = ℕ × Runtime}
        (if result == 0 then some (0, bad_cast src dst s) else some (dst_addr, count_hit result s))
        λ r. Gains s r.1
hit-Gains result src dst dst_addr s known = ground arith

rules-Gains :
    (src rule_addr dst dst_addr : ℕ) (s : Runtime)
    → (rule_addr ≢ 0 → is_related s.memory (phantoms s dst) rule_addr dst ≢ none)
    → Yields (check_rules src rule_addr dst dst_addr s) λ r. Gains s r.1
unfolding check_rules cache_index
rules-Gains src rule_addr dst dst_addr s ends = ground arith

-- The verdicts in the cache are among the four.
abbrev pub HasVerdicts : Runtime → Type 0
HasVerdicts s = (i : ℕ) → (s.verify_result_cache i).verify_result ≤ 3

-- The searches of an object's rules for a type end.
abbrev pub IsSearchable : Runtime → ℕ → ObjInfo → Type 0
IsSearchable s dst v = v.rule_addr ≢ 0 → is_related s.memory (phantoms s dst) v.rule_addr dst ≢ none

-- The searches of the rules of the objects in the map end.
abbrev pub AllSearchable : Runtime → ℕ → Type 0
AllSearchable s dst =
    (p : ℕ) → Holds (entry_find (s.obj_type_map (get_hash p)) p) (IsSearchable s dst)

cast-Gains :
    (v : ObjInfo) (dst dst_addr : ℕ) (s : Runtime)
    → HasVerdicts s
    → IsSearchable s dst v
    → Yields (check_cast v dst dst_addr s) λ r. Gains s r.1
unfolding check_cast
cast-Gains v dst dst_addr s known ends =
    let i = cache_index v.type_hash_value dst in
    ground (
      arith,
      known i,
      hit-Gains (s.verify_result_cache i).verify_result v.type_hash_value dst dst_addr (count 19 s),
      rules-Gains v.type_hash_value v.rule_addr dst dst_addr (count 20 s) ends,
    )

-- A lookup counts one of its three results and changes nothing else.
pub find-counts :
    (p : ℕ) (s : Runtime)
    → (i : ℕ) × (find_obj_info p s ≡ (entry_find (s.obj_type_map (get_hash p)) p, count i s))
      × (15 ≤ i)
      × (i ≤ 17)
unfolding find_obj_info
find-counts p s =
    let e = s.obj_type_map (get_hash p) in
    elim (Bool-cases (e.info.obj_addr == p)) [
      | inl front ↦ (15, rw front refl, omega arith, omega arith)
      | inr behind ↦ elim (Option-cases (tree_lookup e p)) [
        | inl none_ ↦ (17, rw (behind, none_, tree_lookup) refl, omega arith, omega arith)
        | inr (v, there) ↦ (16, rw (behind, there, tree_lookup) refl, omega arith, omega arith)
      ]
    ]

-- The part of `check_moved` after the lookup.
abbrev after_lookup : Bool → ℕ → ℕ → Option ObjInfo × Runtime → Option (ℕ × Runtime)
after_lookup b dst_addr dst l =
    if b
    then elim l.0 [
      | none ↦ some (0, bad_address 2 num_bad_cast_type2 dst l.1)
      | some w ↦ check_cast w dst dst_addr l.1
    ]
    else elim l.0 [
      | none ↦ some (0, bad_address 1 num_bad_cast_type1 dst l.1)
      | some w ↦
          if w.type_hash_value == dst
          then some (dst_addr, count num_cast_same l.1)
          else some (0, bad_address 1 num_bad_cast_type1 dst l.1)
    ]

lookup-Gains :
    (b : Bool) (found : Option ObjInfo) (dst_addr dst i : ℕ) (s : Runtime)
    → 15 ≤ i
    → i ≤ 17
    → HasVerdicts s
    → Holds found (IsSearchable s dst)
    → Yields (after_lookup b dst_addr dst (found, count i s)) λ r. Gains s r.1
lookup-Gains true none dst_addr dst i s lo hi known ends = ground arith
lookup-Gains true (some w) dst_addr dst i s lo hi known ends =
    ground (arith, cast-Gains w dst dst_addr (count i s) known ends)
lookup-Gains false none dst_addr dst i s lo hi known ends = ground arith
lookup-Gains false (some w) dst_addr dst i s lo hi known ends = ground arith

moved-Gains :
    (v : ObjInfo) (src_addr dst_addr dst : ℕ) (s : Runtime)
    → HasVerdicts s
    → AllSearchable s dst
    → Yields (check_moved v src_addr dst_addr dst s) λ r. Gains s r.1
unfolding check_moved
moved-Gains v src_addr dst_addr dst s known ends =
    let b = ltb (cast_offset src_addr dst_addr v.offset) (2 ^ 63) in
    let (i, found, lo, hi) = find-counts dst_addr s in
    subst (λ l. Yields (after_lookup b dst_addr dst l) λ r. Gains s r.1) (sym found)
      (lookup-Gains b (entry_find (s.obj_type_map (get_hash dst_addr)) dst_addr) dst_addr dst i s lo
        hi known (ends dst_addr))

-- The part of `verify_type_casting` after the lookup.
abbrev pub after_source : ℕ → ℕ → ℕ → Option ObjInfo × Runtime → Option (ℕ × Runtime)
after_source src_addr dst_addr dst l = elim l.0 [
  | none ↦ some (dst_addr, l.1)
  | some v ↦
      if dst_addr == src_addr
      then check_cast v dst dst_addr (count num_verified_casting l.1)
      else check_moved v src_addr dst_addr dst (count num_verified_casting l.1)
]

balanced_after :
    (r : Option (ℕ × Runtime)) (i : ℕ) (s : Runtime)
    → 15 ≤ i
    → i ≤ 17
    → outcomes s ≡ get_val s.counts num_verified_casting
    → Yields r (λ x. Gains (count num_verified_casting (count i s)) x.1)
    → Yields r λ x. outcomes x.1 ≡ get_val x.1.counts num_verified_casting
balanced_after none i s lo hi balanced h = h
balanced_after (some x) i s lo hi balanced h = ground arith

source-balanced :
    (found : Option ObjInfo) (src_addr dst_addr dst i : ℕ) (s : Runtime)
    → 15 ≤ i
    → i ≤ 17
    → HasVerdicts s
    → AllSearchable s dst
    → Holds found (IsSearchable s dst)
    → outcomes s ≡ get_val s.counts num_verified_casting
    → Yields
        (after_source src_addr dst_addr dst (found, count i s))
        λ r. outcomes r.1 ≡ get_val r.1.counts num_verified_casting
source-balanced none src_addr dst_addr dst i s lo hi known all ends balanced = ground arith
source-balanced (some v) src_addr dst_addr dst i s lo hi known all ends balanced =
    let s₁ = count num_verified_casting (count i s) in
    elim (Bool-cases (dst_addr == src_addr)) [
      | inl same ↦ rw same (
          balanced_after (check_cast v dst dst_addr s₁) i s lo hi balanced
            (cast-Gains v dst dst_addr s₁ known ends))
      | inr moved ↦ rw moved (
          balanced_after (check_moved v src_addr dst_addr dst s₁) i s lo hi balanced
            (moved-Gains v src_addr dst_addr dst s₁ known all))
    ]

verify-Yields :
    (src_addr dst_addr dst : ℕ) (s : Runtime)
    → HasVerdicts s
    → AllSearchable s dst
    → outcomes s ≡ get_val s.counts num_verified_casting
    → Yields
        (verify_type_casting src_addr dst_addr dst s)
        λ r. outcomes r.1 ≡ get_val r.1.counts num_verified_casting
unfolding verify_type_casting
verify-Yields src_addr dst_addr dst s known all balanced = elim (Bool-cases (src_addr == 0)) [
  | inl null ↦ rw null balanced
  | inr nonnull ↦
      let (i, found, lo, hi) = find-counts src_addr (count num_casting s) in
      rw nonnull (
        subst
          (λ l.
            Yields (after_source src_addr dst_addr dst l)
              λ r. outcomes r.1 ≡ get_val r.1.counts num_verified_casting)
          (sym found)
          (source-balanced (entry_find (s.obj_type_map (get_hash src_addr)) src_addr) src_addr
            dst_addr dst i (count num_casting s) lo hi known all (all src_addr) balanced))
]

-- If the cache holds known verdicts only and the searches of the objects' rules end, then
-- `verifyTypeCasting` returns, and the two numbers that the report prints of the verified casts stay
-- equal: that of the casts counted as verified, and that of their outcomes.
pub verify_type_casting-balanced :
    (src_addr dst_addr dst : ℕ) (s : Runtime)
    → HasVerdicts s
    → AllSearchable s dst
    → outcomes s ≡ get_val s.counts num_verified_casting
    → Returns
        (verify_type_casting src_addr dst_addr dst s)
        λ r. outcomes r.1 ≡ get_val r.1.counts num_verified_casting
verify_type_casting-balanced src_addr dst_addr dst s known all balanced =
    Yields-Returns (verify_type_casting src_addr dst_addr dst s)
      (λ r. outcomes r.1 ≡ get_val r.1.counts num_verified_casting)
      (verify-Yields src_addr dst_addr dst s known all balanced)
