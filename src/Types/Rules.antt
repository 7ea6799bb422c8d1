-- ===== src/Types/Rules.antt =====
-- The tables that the compiler emits are those that the run-time library can search.
use hex_type.Prelude.{
  get_elem?, get_elem?_below, get_elem?_bound, ℕ, zero, suc, ◌+◌, ◌*◌, ◌%◌, ◌^◌, ◌<◌, ◌≡◌, refl,
  sym, ◌∙◌, some, Bool, true, false, List, ◌∷◌, ◌++◌, length, arith, Returns, inl, inr, Bool-cases,
}
use hex_type.Casts.{word, rule_contains}
use hex_type.Casts.Rules.{IsAscending, Lists, Decides, rule_contains-Decides}
use hex_type.Phantoms.Laws.{contains}
use hex_type.Types.{TypeInfo, hashes, sorted_hashes, get_sorted_all_parent_set, rule_position}
use hex_type.Types.Sets.{
  Chain, sorted_hashes-Chain, contains-sorted_hashes, get_elem?_ascending, contains_of_get_elem?,
  index_of_contains,
}
use hex_type.Types.Scan.{Lacks, row_position, rule_position_lem, get_elem?-table}

-- The memory holds the words of an array from an address on.
abbrev pub Loaded : (ℕ → ℕ) → ℕ → List ℕ → Type 0
Loaded memory base array =
    (i w : ℕ) → get_elem? array i ≡ some w → memory ((base + 8 * i) % 2 ^ 64) ≡ w

word_lem :
    (before : List TypeInfo) (t : TypeInfo) (after : List TypeInfo) (memory : ℕ → ℕ) (base i w : ℕ)
    → Loaded memory base (get_sorted_all_parent_set (before ++ t ∷ after))
    → get_elem? (length (sorted_hashes t.all_parents) ∷ sorted_hashes t.all_parents) i ≡ some w
    → word memory ((base + 8 * row_position before) % 2 ^ 64) i ≡ w
unfolding word
word_lem before t after memory base i w loaded e =
    let set = sorted_hashes t.all_parents in
    let p = row_position before in
    let place : ((base + 8 * p) % 2 ^ 64 + 8 * i) % 2 ^ 64 ≡ (base + 8 * (p + i)) % 2 ^ 64 =
      omega arith in
    rw place (
      loaded (p + i) w
        (get_elem?-table before t after i (get_elem?_bound (length set ∷ set) i w e) ∙ e))

-- A table at an address, in memory: its number of elements and then they.
module _ (memory : ℕ → ℕ) (rule_addr : ℕ) (set : List ℕ)
    (table : (i w : ℕ) → get_elem? (length set ∷ set) i ≡ some w → word memory rule_addr i ≡ w)
    (chain : Chain 0 set) (small : length set < 2 ^ 63) where
  size_lem : word memory rule_addr 0 ≡ length set
  size_lem = table 0 (length set) refl

  table-IsAscending : IsAscending memory rule_addr
  table-IsAscending (suc i) (suc j) p l q =
      let (v, e) = get_elem?_below set i (omega (arith, size_lem)) in
      let (w, f) = get_elem?_below set j (omega (arith, size_lem)) in
      omega
        (arith, table (suc i) v e, table (suc j) w f, get_elem?_ascending 0 set i j v w chain e f)
  table-IsAscending zero j p l q = absurd (omega arith)
  table-IsAscending i zero p l q = absurd (omega arith)

  answer_lem : (dst : ℕ) (b : Bool) → Decides (Lists memory rule_addr dst) b → b ≡ contains dst set
  answer_lem dst true (zero, p, l, e) = absurd (omega arith)
  answer_lem dst true (suc i, p, l, e) =
      let (w, f) = get_elem?_below set i (omega (arith, size_lem)) in
      let same : w ≡ dst = sym (table (suc i) w f) ∙ e in
      rw (← same) (sym (contains_of_get_elem? set i w f))
  answer_lem dst false none_ = elim (Bool-cases (contains dst set)) [
    | inl there ↦
        let (i, l, e) = index_of_contains set dst there in
        absurd (none_ (suc i, omega arith, omega (arith, size_lem), table (suc i) dst e))
    | inr missing ↦ sym missing
  ]

  table-contains :
      (dst : ℕ) → Returns (rule_contains memory rule_addr dst) λ b. b ≡ contains dst set
  table-contains dst =
      let (b, run, d) =
        rule_contains-Decides memory rule_addr table-IsAscending (omega (arith, size_lem)) dst in
      (b, run, answer_lem dst b d)

-- In the table that the compiler makes of the types, the search for a type's hash, where no type
-- before it has the same, ends at a position; and if the program's memory holds the table and the type
-- has less than 2 ^ 63 different parents, then the run-time library's search of the rules at that
-- position ends, with the answer whether the hash that it looks for is one of the type's parents.
pub rules-contains :
    (before : List TypeInfo) (t : TypeInfo) (after : List TypeInfo) (memory : ℕ → ℕ) (base dst : ℕ)
    → Lacks t.detail_info.type_hash_value before
    → Loaded memory base (get_sorted_all_parent_set (before ++ t ∷ after))
    → length (sorted_hashes t.all_parents) < 2 ^ 63
    → (p : ℕ) × (rule_position
          (get_sorted_all_parent_set (before ++ t ∷ after))
          t.detail_info.type_hash_value
        ≡ some p)
      × Returns
          (rule_contains memory ((base + 8 * p) % 2 ^ 64) dst)
          λ b. b ≡ contains dst (hashes t.all_parents)
rules-contains before t after memory base dst lacks loaded small =
    let p = row_position before in
    let set = sorted_hashes t.all_parents in
    let (b, run, e) =
      table-contains memory ((base + 8 * p) % 2 ^ 64) set
        (λ i w e. word_lem before t after memory base i w loaded e)
        (sorted_hashes-Chain t.all_parents) small dst in
    (
      p,
      rule_position_lem before t after lacks,
      (b, run, e ∙ contains-sorted_hashes dst t.all_parents),
    )
