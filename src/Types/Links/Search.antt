-- ===== src/Types/Links/Search.antt =====
-- The run-time library's search of the rules, in the table that the compiler makes of the types after
-- `extendTypeRelationInfo`.
use hex_type.Prelude.{
  ℕ, ◌+◌, ◌*◌, ◌%◌, ◌^◌, ◌<◌, ◌≡◌, refl, sym, ap, subst, ◌∙◌, some, true, false, List, [], ◌∷◌,
  ◌++◌, ◌||◌, ◌==◌, inl, inr, Has, length, get_elem?, Returns, some_inj, eq_of_==, ==_refl,
  Bool-cases,
}
use hex_type.Casts.{rule_contains}
use hex_type.Phantoms.Laws.{contains}
use hex_type.Types.{
  TypeInfo, TypeDetailInfo, hashes, sorted_hashes, get_sorted_all_parent_set, rule_position,
}
use hex_type.Types.Scan.{Lacks}
use hex_type.Types.Rules.{Loaded, rules-contains}
use hex_type.Types.Relations.{parent_edges}
use hex_type.Types.Relations.Reach.{Reach}
use hex_type.Types.Links.{extend_type_relation_info}
use hex_type.Types.Links.Fits.{AllFit}
use hex_type.Types.Links.Overrun.{extend_type_relation_info-bound}
use hex_type.Types.Links.Closure.{Closed, extend_type_relation_info-Closed}

contains_of_Has :
    (h : ℕ) (d : TypeDetailInfo) (ds : List TypeDetailInfo)
    → Has d ds
    → d.type_hash_value ≡ h
    → contains h (hashes ds) ≡ true
contains_of_Has h d [] k e = absurd k
contains_of_Has h d (x ∷ ds) (inl k) e =
    let same : x.type_hash_value ≡ h = ap (λ (y : TypeDetailInfo). y.type_hash_value) (sym k) ∙ e in
    rw same (rw (==_refl h) refl)
contains_of_Has h d (x ∷ ds) (inr k) e = elim (Bool-cases (x.type_hash_value == h)) [
  | inl q ↦ rw q refl
  | inr q ↦ rw q (contains_of_Has h d ds k e)
]

Has_of_contains :
    (h : ℕ) (ds : List TypeDetailInfo)
    → contains h (hashes ds) ≡ true
    → (d : TypeDetailInfo) × Has d ds × (d.type_hash_value ≡ h)
Has_of_contains h [] e = cc
Has_of_contains h (x ∷ ds) e = elim (Bool-cases (x.type_hash_value == h)) [
  | inl q ↦ (x, inl refl, eq_of_== x.type_hash_value h q)
  | inr q ↦ let (d, k, r) = Has_of_contains h ds (rest q) in (d, inr k, r)
]
  where
    rest : (x.type_hash_value == h) ≡ false → contains h (hashes ds) ≡ true
    rest q = subst (λ b. (b || contains h (hashes ds)) ≡ true) q e

-- The relations lead from a type to one with the hash.
abbrev pub LeadsTo : List TypeInfo → ℕ → ℕ → Type 0
LeadsTo types u hash =
    (w : ℕ) × (t : TypeInfo) × Reach parent_edges types u w
    × (get_elem? types w ≡ some t)
    × (t.detail_info.type_hash_value ≡ hash)

pub at_length :
    (before : List TypeInfo) (t : TypeInfo) (after : List TypeInfo)
    → get_elem? (before ++ t ∷ after) (length before) ≡ some t
at_length [] t after = refl
at_length (b ∷ bs) t after = at_length bs t after

-- After the linking and the traversals have made `before ++ t ∷ after` of types that have their own
-- indices, relations inside the vector and nothing that a traversal found, the search of the table of
-- parents for the hash of `t`, which no type before it has, ends at a position; and if the program's
-- memory holds the table and `t` has less than 2 ^ 63 different parents, then the run-time library's
-- search of the rules at that position ends, and accepts exactly the hashes of the types to which
-- relations lead from `t`.
pub rules-LeadsTo :
    (types before : List TypeInfo) (t : TypeInfo) (after : List TypeInfo) (memory : ℕ → ℕ)
    (base dst : ℕ)
    → AllFit (length types) types
    → extend_type_relation_info types ≡ some (before ++ t ∷ after)
    → Lacks t.detail_info.type_hash_value before
    → Loaded memory base (get_sorted_all_parent_set (before ++ t ∷ after))
    → length (sorted_hashes t.all_parents) < 2 ^ 63
    → (p : ℕ) × (rule_position
          (get_sorted_all_parent_set (before ++ t ∷ after))
          t.detail_info.type_hash_value
        ≡ some p)
      × Returns (rule_contains memory ((base + 8 * p) % 2 ^ 64) dst) λ b.
        (b ≡ true → LeadsTo (before ++ t ∷ after) (length before) dst)
        × (LeadsTo (before ++ t ∷ after) (length before) dst → b ≡ true)
rules-LeadsTo types before t after memory base dst fits e lacks loaded small =
    let (p, f, (b, run, same)) = rules-contains before t after memory base dst lacks loaded small in
    (p, f, (b, run, (λ y. into (sym same ∙ y), λ l. same ∙ out l)))
  where
    all : List TypeInfo
    all = before ++ t ∷ after

    closed : Closed all
    closed =
        let room = extend_type_relation_info-bound types all fits e in
        let (ts, run, (_, c)) = extend_type_relation_info-Closed types room fits in
        subst Closed (some_inj ts all (sym run ∙ e)) c

    into : contains dst (hashes t.all_parents) ≡ true → LeadsTo all (length before) dst
    into y =
        let (d, k, q) = Has_of_contains dst t.all_parents y in
        let (w, x, r, g, s) = (closed (length before) t d (at_length before t after)).0.1 k in
        (w, x, r, g, ap (λ (z : TypeDetailInfo). z.type_hash_value) (sym s) ∙ q)

    out : LeadsTo all (length before) dst → contains dst (hashes t.all_parents) ≡ true
    out (w, x, r, g, q) =
        contains_of_Has dst x.detail_info t.all_parents
          ((closed (length before) t x.detail_info (at_length before t after)).0.0
            (w, x, r, g, refl))
          q
