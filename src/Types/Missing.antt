-- ===== src/Types/Missing.antt =====
-- The search for the rules of a type that the table lacks.
use hex_type.Prelude.{
  ℕ, suc, ◌+◌, ◌≡◌, refl, sym, ap, subst, ◌∙◌, some, List, [], ◌∷◌, ◌++◌, ◌==◌, inl, inr,
  Bool-cases, append_assoc, append-nil, length, eq_of_==,
}
use hex_type.Types.{
  TypeInfo, parent_row, parent_rows, get_sorted_all_parent_set, sorted_hashes, rule_scan,
  rule_position,
}
use hex_type.Types.Scan.{Lacks, scan_hit, scan_row}

rule_scan_missing :
    (types : List TypeInfo) (pre : List ℕ) (h : ℕ)
    → Lacks h types
    → rule_scan (length types) (pre ++ parent_rows types) h (length pre)
      ≡ some (length (pre ++ parent_rows types))
unfolding rule_scan
rule_scan_missing [] pre h lacks = ap some (ap length (sym (append-nil pre)))
rule_scan_missing (b ∷ bs) pre h lacks =
    scan_row (length bs) h pre b (parent_rows bs) lacks.0
    ∙ rule_scan_missing bs (pre ++ parent_row b) h lacks.1
    ∙ ap (λ a. some (length a)) (append_assoc pre (parent_row b) (parent_rows bs))

scan_same :
    (n g h : ℕ) (pre rest : List ℕ)
    → g ≡ h
    → rule_scan (suc n) (pre ++ g ∷ rest) h (length pre) ≡ some (length pre + 1)
scan_same n g h pre rest e =
    subst (λ k. rule_scan (suc n) (pre ++ g ∷ rest) k (length pre) ≡ some (length pre + 1)) e
      (scan_hit n g pre rest)

rule_scan_ends :
    (types : List TypeInfo) (pre : List ℕ) (h : ℕ)
    → (p : ℕ) × (rule_scan (length types) (pre ++ parent_rows types) h (length pre) ≡ some p)
unfolding rule_scan
rule_scan_ends [] pre h = (length pre, refl)
rule_scan_ends (b ∷ bs) pre h = elim (Bool-cases (b.detail_info.type_hash_value == h)) [
  | inl same ↦
      let set = sorted_hashes b.all_parents in
      let e = eq_of_== b.detail_info.type_hash_value h same in
      (
        length pre + 1,
        scan_same (length bs) b.detail_info.type_hash_value h pre
            (length set ∷ set ++ parent_rows bs) e,
      )
  | inr differ ↦
      let (p, run) = rule_scan_ends bs (pre ++ parent_row b) h in
      (p, scan_row (length bs) h pre b (parent_rows bs) differ ∙ run)
]

-- The search for the rules of a type in the table of the types never leaves the table.
pub rule_position_ends :
    (types : List TypeInfo) (h : ℕ)
    → (p : ℕ) × (rule_position (get_sorted_all_parent_set types) h ≡ some p)
unfolding rule_position get_sorted_all_parent_set
rule_position_ends types h = rule_scan_ends types (length types ∷ []) h

-- If no type of the table has the hash, then the search ends without an error, at the position behind
-- the last word of the table.
pub rule_position_missing :
    (types : List TypeInfo) (h : ℕ)
    → Lacks h types
    → rule_position (get_sorted_all_parent_set types) h
      ≡ some (length (get_sorted_all_parent_set types))
unfolding rule_position get_sorted_all_parent_set
rule_position_missing types h lacks = rule_scan_missing types (length types ∷ []) h lacks
