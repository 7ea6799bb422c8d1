-- ===== src/Downcasts/Reports.antt =====
-- The reports of the checks at casts.
use hex_type.Prelude.{
  ℕ, ◌≡◌, ◌≢◌, refl, sym, ap, subst, ◌∙◌, Option, none, some, Bool, true, false, List, ◌∷◌, ◌==◌,
  ◌&&◌, ◌||◌, if◌then◌else◌, Bool-cases, ◌⊎◌, inl, inr, Returns, Yields-Returns, some_inj, ==_refl,
  arith,
}
use hex_type.Names.{get_hash_value_from_str}
use hex_type.Runtime.{
  Runtime, ObjInfo, Confusion, get_hash, count, badcast, failinfo, safecastsame, safecastupcast,
}
use hex_type.Counters.{num_casting, num_verified_casting, num_cast_hit}
use hex_type.Objects.{find_obj_info, entry_find}
use hex_type.Casts.{
  phantoms, is_related, cache_index, count_hit, check_rules, check_cast, verify_type_casting,
}
use hex_type.Casts.Cache.{IsCoherent, reference, check_cast-IsCoherent}
use hex_type.Casts.Counts.{find-counts}
use hex_type.Classes.{is_usable}
use hex_type.Downcasts.Checked.{downcast-verified}
use hex_type.Downcasts.{
  Layouts, Downcast, downcast_offset, get_address_of_derived_class, pointer_downcast,
}

abbrev derived_addr : Layouts → Downcast → Bool → ℕ → ℕ
derived_addr layout c null_check base =
    get_address_of_derived_class (downcast_offset layout c) null_check base

abbrev pub reported : ℕ → ℕ → Runtime → List Confusion
reported src dst s = record { error_type = 3; src_hash = src; dst_hash = dst } ∷ s.reports

count_hit-reports : (result : ℕ) (s : Runtime) → (count_hit result s).reports ≡ s.reports
count_hit-reports result s = elim (Bool-cases (result == safecastupcast)) [
  | inl a ↦ rw a refl
  | inr a ↦ elim (Bool-cases (result == safecastsame)) [
    | inl b ↦ rw (a, b) refl
    | inr b ↦ elim (Bool-cases (result == failinfo)) [
      | inl d ↦ rw (a, b, d) refl
      | inr d ↦ rw (a, b, d) refl
    ]
  ]
]

-- A check of an object with rules reports exactly when it returns null.
abbrev Reports : ℕ → ℕ → ℕ → Runtime → ℕ × Runtime → Type 0
Reports src dst dst_addr s r =
    ((r.0 ≡ dst_addr) × (r.1.reports ≡ s.reports))
    ⊎ ((r.0 ≡ 0) × (r.1.reports ≡ reported src dst s))

check_cast-Reports :
    (v : ObjInfo) (dst dst_addr : ℕ) (b : Bool) (s : Runtime)
    → v.rule_addr ≢ 0
    → is_related s.memory (phantoms s dst) v.rule_addr dst ≡ some b
    → Returns (check_cast v dst dst_addr s) (Reports v.type_hash_value dst dst_addr s)
unfolding check_cast check_rules
check_cast-Reports v dst dst_addr b s has related =
    let src = v.type_hash_value in
    let c = s.verify_result_cache (cache_index src dst) in
    let rules : (v.rule_addr == 0) ≡ false = ground arith in
    Yields-Returns (check_cast v dst dst_addr s) (Reports src dst dst_addr s)
      (elim (Bool-cases (src == dst)) [
        | inl same ↦ rw same (inl (refl, refl))
        | inr differ ↦ elim (Bool-cases (c.src_h_value == src && c.dst_h_value == dst)) [
          | inl hit ↦ elim (Bool-cases (c.verify_result == badcast)) [
            | inl bad ↦ rw (differ, hit, bad) (inr (refl, refl))
            | inr good ↦
                rw (differ, hit, good)
                  (inl (refl, count_hit-reports c.verify_result (count num_cast_hit s)))
          ]
          | inr miss ↦ elim (Bool-cases b) [
            | inl accepted ↦ rw (differ, miss, rules, related, accepted) (inl (refl, refl))
            | inr refused ↦ rw (differ, miss, rules, related, refused) (inr (refl, refl))
          ]
        ]
      ])

decided :
    (ok : Bool) (base src hash : ℕ) (s : Runtime) (r : ℕ × Runtime)
    → base ≢ 0
    → r.0 ≡ (if ok then base else 0)
    → Reports src hash base s r
    → r.1.reports ≡ (if ok then s.reports else reported src hash s)
decided true base src hash s r n e (inl (q, same)) = same
decided true base src hash s r n e (inr (q, new)) = absurd (n (sym e ∙ q))
decided false base src hash s r n e (inl (q, same)) = absurd (n (sym q ∙ e))
decided false base src hash s r n e (inr (q, new)) = new

pub verify_found :
    (v : ObjInfo) (base hash : ℕ) (s s₁ : Runtime)
    → base ≢ 0
    → find_obj_info base (count num_casting s) ≡ (some v, s₁)
    → verify_type_casting base base hash s ≡ check_cast v hash base (count num_verified_casting s₁)
unfolding verify_type_casting
verify_found v base hash s s₁ n lookup =
    let start : (base == 0) ≡ false = ground (arith, n) in
    rw (start, lookup, ==_refl base)
      (ap
        (λ (l : Option ObjInfo × Runtime). check_cast v hash base (count num_verified_casting l.1))
        lookup)

-- The check of an address whose object has rules reports a type confusion exactly when the object's type
-- is neither the target nor related to it.
verify-reports :
    (rules : ℕ → ℕ) (v : ObjInfo) (base hash : ℕ) (b : Bool) (s : Runtime)
    → base ≢ 0
    → entry_find (s.obj_type_map (get_hash base)) base ≡ some v
    → rules v.type_hash_value ≡ v.rule_addr
    → v.rule_addr ≢ 0
    → is_related s.memory (phantoms s hash) v.rule_addr hash ≡ some b
    → IsCoherent (reference rules s) s.verify_result_cache
    → Returns (verify_type_casting base base hash s) λ r.
      r.1.reports
      ≡ (if v.type_hash_value == hash || b then s.reports else reported v.type_hash_value hash s)
unfolding reference
verify-reports rules v base hash b s n found table has related ok =
    let (i, lookup, _, _) = find-counts base (count num_casting s) in
    let s₂ = count num_verified_casting (count i (count num_casting s)) in
    let s₁ = count i (count num_casting s) in
    let (r, run, (value, _)) = check_cast-IsCoherent rules v hash base b s₂ table has related ok in
    let (r', run', outcome) = check_cast-Reports v hash base b s₂ has related in
    let same : r' ≡ r = some_inj r' r (sym run' ∙ run) in
    (
      r,
      verify_found v base hash s s₁ n (lookup ∙ ap (λ o. (o, s₁)) found) ∙ run,
      decided (v.type_hash_value == hash || b) base v.type_hash_value hash s₂ r n value
          (subst (Reports v.type_hash_value hash base s₂) same outcome),
    )

-- A cast of a pointer to an object with rules, to a class that is defined and has its base at no offset,
-- returns the pointer; and it reports a type confusion if the object's type is neither the class nor
-- related to it, and nothing otherwise, where the cache of verdicts is right.
pub pointer_downcast-reports :
    (layout : Layouts) (c : Downcast) (null_check : Bool) (rules : ℕ → ℕ) (v : ObjInfo)
    (base hash : ℕ) (b : Bool) (s : Runtime)
    → c.hex_type ≡ true
    → c.blacklisted ≡ false
    → is_usable c.target.decl ≡ true
    → get_hash_value_from_str c.target.llvm_name ≡ some hash
    → downcast_offset layout c ≡ none
    → base ≢ 0
    → entry_find (s.obj_type_map (get_hash base)) base ≡ some v
    → rules v.type_hash_value ≡ v.rule_addr
    → v.rule_addr ≢ 0
    → is_related s.memory (phantoms s hash) v.rule_addr hash ≡ some b
    → IsCoherent (reference rules s) s.verify_result_cache
    → Returns (pointer_downcast layout c null_check base s) λ r.
      (r.0 ≡ base)
      × (r.1.reports ≡ (
          if v.type_hash_value == hash || b then s.reports else reported v.type_hash_value hash s))
unfolding get_address_of_derived_class
pointer_downcast-reports layout c null_check rules v base hash b s on off usable e flat n found
      table has related ok =
    let (r, run, reports) = verify-reports rules v base hash b s n found table has related ok in
    let shape = (downcast-verified layout c null_check base hash s on off usable e).0 in
    ((base, r.1), shape ∙ rw (flat, run) refl, (refl, reports))
