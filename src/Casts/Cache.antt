-- ===== src/Casts/Cache.antt =====
-- The cache of verdicts does not change a verdict, where the object's type has rules.
use hex_type.Prelude.{
  ℕ, ◌≡◌, ◌≢◌, ◌∙◌, refl, sym, ap, Option, none, some, Bool, true, false, ◌&&◌, ◌||◌, ◌==◌,
  if◌then◌else◌, ◌>>=◌, inl, inr, Bool-cases, Returns, arith, eq_of_==, ne_of_==,
}
use hex_type.Counters.{
  num_cast_hit, num_cast_miss, num_cast_same, num_cast_no_cache_use, num_cast_non_bad_cast,
}
use hex_type.Runtime.{
  count, set_cache, Runtime, ObjInfo, VerifyResultEntry, update, badcast, failinfo, safecastsame,
  safecastupcast,
}
use hex_type.Casts.{cache_index, phantoms, is_related, bad_cast, count_hit, check_rules, check_cast}

-- The verdict on a source and a target type without the cache, for a table of rules by type.
unfoldable pub reference : (ℕ → ℕ) → Runtime → ℕ → ℕ → Option ℕ
reference rules s src dst =
    if rules src == 0
    then some failinfo
    else is_related s.memory (phantoms s dst) (rules src) dst >>= λ b.
        some (if b then safecastupcast else badcast)

-- A cached verdict is the right one, if it is for these two types.
abbrev pub IsRight : (ℕ → ℕ → Option ℕ) → ℕ → ℕ → VerifyResultEntry → Type 0
IsRight verdict src dst c =
    c.src_h_value ≡ src → c.dst_h_value ≡ dst → verdict src dst ≡ some c.verify_result

-- What the cache holds of two different types is the verdict without it.
pub record IsCoherent (verdict : ℕ → ℕ → Option ℕ) (cache : ℕ → VerifyResultEntry) : Type 0 where
  pub right : (src dst : ℕ) → src ≢ dst → IsRight verdict src dst (cache (cache_index src dst))

if-IsRight :
    (verdict : ℕ → ℕ → Option ℕ) (src dst : ℕ) (b : Bool) (c d : VerifyResultEntry)
    → IsRight verdict src dst c
    → IsRight verdict src dst d
    → IsRight verdict src dst (if b then c else d)
if-IsRight verdict src dst true c d h k = h
if-IsRight verdict src dst false c d h k = k

-- A write of a right verdict keeps the cache right.
update-IsCoherent :
    (verdict : ℕ → ℕ → Option ℕ) (cache : ℕ → VerifyResultEntry) (i src dst result : ℕ)
    → IsCoherent verdict cache
    → (src ≢ dst → verdict src dst ≡ some result)
    → IsCoherent verdict
        (update cache i (record { src_h_value = src; dst_h_value = dst; verify_result = result }))
update-IsCoherent verdict cache i src dst result ok new = record {
  right = λ x y n.
      if-IsRight verdict x y (i == cache_index x y)
        (record { src_h_value = src; dst_h_value = dst; verify_result = result })
        (cache (cache_index x y)) (λ e f. rw (← e, ← f) (new (λ g. n (sym e ∙ g ∙ f))))
        (ok.right x y n);
}

-- The check returns an address and leaves a coherent cache.
abbrev Answers : (ℕ → ℕ) → ObjInfo → ℕ → ℕ → Runtime → ℕ → Type 0
Answers rules v dst dst_addr s answer =
    Returns (check_cast v dst dst_addr s)
      λ r. (r.0 ≡ answer) × IsCoherent (reference rules r.1) r.1.verify_result_cache

same_lem :
    (rules : ℕ → ℕ) (v : ObjInfo) (dst dst_addr : ℕ) (s : Runtime)
    → (v.type_hash_value == dst) ≡ true
    → IsCoherent (reference rules s) s.verify_result_cache
    → Answers rules v dst dst_addr s dst_addr
unfolding check_cast reference cache_index
same_lem rules v dst dst_addr s same ok =
    let src = v.type_hash_value in
    let i = cache_index src dst in
    (
      (
        dst_addr,
        set_cache i src dst safecastsame (count num_cast_same (count num_cast_no_cache_use s)),
      ),
      rw (same, check_cast) refl,
      (
        refl,
        update-IsCoherent (reference rules s) s.verify_result_cache i src dst safecastsame ok
            (λ n. absurd (n (eq_of_== src dst same))),
      ),
    )

module _ (rules : ℕ → ℕ) (v : ObjInfo) (dst dst_addr : ℕ) (s : Runtime)
    (has : (v.rule_addr == 0) ≡ false) (differ : (v.type_hash_value == dst) ≡ false)
    (ok : IsCoherent (reference rules s) s.verify_result_cache) where
  -- A hit.
  hit_lem :
      (b : Bool)
      → ((s.verify_result_cache (cache_index v.type_hash_value dst)).src_h_value
            == v.type_hash_value
          && (s.verify_result_cache (cache_index v.type_hash_value dst)).dst_h_value == dst)
        ≡ true
      → (s.verify_result_cache (cache_index v.type_hash_value dst)).verify_result
        ≡ (if b then safecastupcast else badcast)
      → Returns (check_cast v dst dst_addr s) λ r.
        (r.0 ≡ (if b then dst_addr else 0))
        × IsCoherent (reference rules r.1) r.1.verify_result_cache
  unfolding check_cast reference cache_index
  hit_lem true hit e =
      let c = s.verify_result_cache (cache_index v.type_hash_value dst) in
      (
        (dst_addr, count_hit c.verify_result (count num_cast_hit s)),
        rw (differ, check_cast, hit, e) refl,
        (refl, rw e ok),
      )
  hit_lem false hit e = (
    (0, bad_cast v.type_hash_value dst (count num_cast_hit s)),
    rw (differ, check_cast, hit, e) refl,
    (refl, ok),
  )

  -- A miss.
  miss_lem :
      (b : Bool)
      → ((s.verify_result_cache (cache_index v.type_hash_value dst)).src_h_value
            == v.type_hash_value
          && (s.verify_result_cache (cache_index v.type_hash_value dst)).dst_h_value == dst)
        ≡ false
      → is_related s.memory (phantoms s dst) v.rule_addr dst ≡ some b
      → reference rules s v.type_hash_value dst ≡ some (if b then safecastupcast else badcast)
      → Returns (check_cast v dst dst_addr s) λ r.
        (r.0 ≡ (if b then dst_addr else 0))
        × IsCoherent (reference rules r.1) r.1.verify_result_cache
  unfolding check_cast check_rules reference cache_index
  miss_lem true miss related verdict =
      let src = v.type_hash_value in
      let i = cache_index src dst in
      (
        (
          dst_addr,
          count num_cast_non_bad_cast (set_cache i src dst safecastupcast (count num_cast_miss s)),
        ),
        rw (differ, check_cast, miss, check_rules, has, related) refl,
        (
          refl,
          update-IsCoherent (reference rules s) s.verify_result_cache i src dst safecastupcast ok
              (λ n. verdict),
        ),
      )
  miss_lem false miss related verdict =
      let src = v.type_hash_value in
      let i = cache_index src dst in
      (
        (0, bad_cast src dst (set_cache i src dst badcast (count num_cast_miss s))),
        rw (differ, check_cast, miss, check_rules, has, related) refl,
        (
          refl,
          update-IsCoherent (reference rules s) s.verify_result_cache i src dst badcast ok
              (λ n. verdict),
        ),
      )

some_inj {ℓ} : {A : Type ℓ} (a b : A) → some a ≡ some b → a ≡ b
some_inj a b e = ap (λ o. elim o [ none ↦ a | some x ↦ x ]) e

-- With a cache that holds right verdicts, the check of a cast from an object whose type has rules
-- returns the target address if the types are the same or related, and null if they are not,
-- whether the cache is hit or missed; and the cache holds right verdicts afterwards.
pub check_cast-IsCoherent :
    (rules : ℕ → ℕ) (v : ObjInfo) (dst dst_addr : ℕ) (b : Bool) (s : Runtime)
    → rules v.type_hash_value ≡ v.rule_addr
    → v.rule_addr ≢ 0
    → is_related s.memory (phantoms s dst) v.rule_addr dst ≡ some b
    → IsCoherent (reference rules s) s.verify_result_cache
    → Returns (check_cast v dst dst_addr s) λ r.
      (r.0 ≡ (if v.type_hash_value == dst || b then dst_addr else 0))
      × IsCoherent (reference rules r.1) r.1.verify_result_cache
unfolding reference
check_cast-IsCoherent rules v dst dst_addr b s table has related ok =
    let src = v.type_hash_value in
    let c = s.verify_result_cache (cache_index src dst) in
    let result : ℕ = if b then safecastupcast else badcast in
    let has_rules : (v.rule_addr == 0) ≡ false = ground arith in
    let verdict : reference rules s src dst ≡ some result = rw (table, has_rules, related) refl in
    elim (Bool-cases (src == dst)) [
      | inl same ↦
          let (r, run, (value, right)) = same_lem rules v dst dst_addr s same ok in
          (r, run, (value ∙ rw same refl, right))
      | inr differ ↦
          let answers : Answers rules v dst dst_addr s (if b then dst_addr else 0) =
            elim (Bool-cases (c.src_h_value == src && c.dst_h_value == dst)) [
              | inl hit ↦
                  let ends : (c.src_h_value ≡ src) × (c.dst_h_value ≡ dst) = ground arith in
                  let cached = ok.right src dst (ne_of_== src dst differ) ends.0 ends.1 in
                  hit_lem rules v dst dst_addr s has_rules differ ok b hit
                    (some_inj c.verify_result result (sym cached ∙ verdict))
              | inr miss ↦
                  miss_lem rules v dst dst_addr s has_rules differ ok b miss related verdict
            ] in
          let (r, run, (value, right)) = answers in (r, run, (value ∙ rw differ refl, right))
    ]
