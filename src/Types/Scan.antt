-- ===== src/Types/Scan.antt =====
-- The search for a type's rules ends at the type's row of the table.
use hex_type.Prelude.{
  get_elem?, ℕ, zero, suc, ◌+◌, ◌<◌, ◌≡◌, refl, sym, ap, ◌∙◌, some, false, List, [], ◌∷◌, ◌++◌,
  ◌==◌, append_assoc, length, length-append, arith,
}
use hex_type.Types.{
  TypeInfo, parent_row, parent_rows, get_sorted_all_parent_set, sorted_hashes, rule_scan,
  rule_position,
}

pub get_elem?-append :
    (xs ys : List ℕ) (i : ℕ) → get_elem? (xs ++ ys) (length xs + i) ≡ get_elem? ys i
get_elem?-append [] ys i = let e : 0 + i ≡ i = omega arith in rw e refl
get_elem?-append (x ∷ xs) ys i =
    let e : suc (length xs) + i ≡ suc (length xs + i) = omega arith in
    rw e (get_elem?-append xs ys i)

-- No type of the list has the hash.
abbrev pub Lacks : ℕ → List TypeInfo → Type 0
Lacks hash [] = Unit
Lacks hash (t ∷ ts) = ((t.detail_info.type_hash_value == hash) ≡ false) × Lacks hash ts

pub element_lem :
    (pre : List ℕ) (x : ℕ) (rest : List ℕ) → get_elem? (pre ++ x ∷ rest) (length pre) ≡ some x
element_lem pre x rest =
    let e : length pre ≡ length pre + 0 = omega arith in
    ap (get_elem? (pre ++ x ∷ rest)) e ∙ get_elem?-append pre (x ∷ rest) 0

pub scan_hit :
    (n h : ℕ) (pre rest : List ℕ)
    → rule_scan (suc n) (pre ++ h ∷ rest) h (length pre) ≡ some (length pre + 1)
unfolding rule_scan
scan_hit n h pre rest = ground (arith, element_lem pre h rest)

scan_miss :
    (n h g m : ℕ) (pre rest : List ℕ)
    → (g == h) ≡ false
    → rule_scan (suc n) (pre ++ g ∷ m ∷ rest) h (length pre)
      ≡ rule_scan n (pre ++ g ∷ m ∷ rest) h (length pre + 1 + (m + 1))
unfolding rule_scan
scan_miss n h g m pre rest differ =
    ground (arith, element_lem pre g (m ∷ rest), get_elem?-append pre (g ∷ m ∷ rest) 1)

-- A row of another type is passed over.
pub scan_row :
    (n h : ℕ) (pre : List ℕ) (b : TypeInfo) (rows : List ℕ)
    → (b.detail_info.type_hash_value == h) ≡ false
    → rule_scan (suc n) (pre ++ (parent_row b ++ rows)) h (length pre)
      ≡ rule_scan n ((pre ++ parent_row b) ++ rows) h (length (pre ++ parent_row b))
scan_row n h pre b rows differ =
    let set = sorted_hashes b.all_parents in
    let e : length (pre ++ parent_row b) ≡ length pre + 1 + (length set + 1) =
      omega (arith, length-append pre (parent_row b)) in
    scan_miss n h b.detail_info.type_hash_value (length set) pre (set ++ rows) differ
    ∙ ap (rule_scan n (pre ++ (parent_row b ++ rows)) h) (sym e)
    ∙ ap (λ a. rule_scan n a h (length (pre ++ parent_row b)))
        (sym (append_assoc pre (parent_row b) rows))

rule_scan_lem :
    (before : List TypeInfo) (t : TypeInfo) (after : List TypeInfo) (pre : List ℕ) (n : ℕ)
    → Lacks t.detail_info.type_hash_value before
    → length before < n
    → rule_scan n
        (pre ++ parent_rows (before ++ t ∷ after))
        t.detail_info.type_hash_value
        (length pre)
      ≡ some (length pre + length (parent_rows before) + 1)
rule_scan_lem [] t after pre zero lacks l = absurd (omega arith)
rule_scan_lem [] t after pre (suc n) lacks l =
    let set = sorted_hashes t.all_parents in
    let e : length pre + 0 + 1 ≡ length pre + 1 = omega arith in
    scan_hit n t.detail_info.type_hash_value pre (length set ∷ set ++ parent_rows after)
    ∙ ap some (sym e)
rule_scan_lem (b ∷ bs) t after pre zero lacks l = absurd (omega arith)
rule_scan_lem (b ∷ bs) t after pre (suc n) lacks l =
    let h = t.detail_info.type_hash_value in
    let set = sorted_hashes b.all_parents in
    let total : length (pre ++ parent_row b) + length (parent_rows bs) + 1
        ≡ length pre + length (parent_rows (b ∷ bs)) + 1 =
      omega (arith, length-append pre (parent_row b), length-append set (parent_rows bs)) in
    scan_row n h pre b (parent_rows (bs ++ t ∷ after)) lacks.0
    ∙ rule_scan_lem bs t after (pre ++ parent_row b) n lacks.1 (omega arith)
    ∙ ap some total

-- The position of the rules of the first type with a hash.
abbrev pub row_position : List TypeInfo → ℕ
row_position before = 1 + length (parent_rows before) + 1

-- In the table of the types, the search for a type's hash, where no type before it has the same,
-- ends at the position after the hash in the type's row.
pub rule_position_lem :
    (before : List TypeInfo) (t : TypeInfo) (after : List TypeInfo)
    → Lacks t.detail_info.type_hash_value before
    → rule_position (get_sorted_all_parent_set (before ++ t ∷ after)) t.detail_info.type_hash_value
      ≡ some (row_position before)
unfolding rule_position get_sorted_all_parent_set
rule_position_lem before t after lacks =
    let n = length (before ++ t ∷ after) in
    rule_scan_lem before t after (n ∷ []) n lacks (omega (arith, length-append before (t ∷ after)))

get_elem?-rows :
    (before : List TypeInfo) (t : TypeInfo) (after : List TypeInfo) (i : ℕ)
    → get_elem? (parent_rows (before ++ t ∷ after)) (length (parent_rows before) + i)
      ≡ get_elem? (parent_row t ++ parent_rows after) i
get_elem?-rows [] t after i = let e : 0 + i ≡ i = omega arith in rw e refl
get_elem?-rows (b ∷ bs) t after i =
    let e : length (parent_row b ++ parent_rows bs) + i
        ≡ length (parent_row b) + (length (parent_rows bs) + i) =
      omega (arith, length-append (parent_row b) (parent_rows bs)) in
    ap (get_elem? (parent_row b ++ parent_rows (bs ++ t ∷ after))) e
    ∙ get_elem?-append (parent_row b) (parent_rows (bs ++ t ∷ after)) (length (parent_rows bs) + i)
    ∙ get_elem?-rows bs t after i

pub get_elem?_front :
    (xs ys : List ℕ) (i : ℕ) → i < length xs → get_elem? (xs ++ ys) i ≡ get_elem? xs i
get_elem?_front [] ys i l = absurd (omega arith)
get_elem?_front (x ∷ xs) ys zero l = refl
get_elem?_front (x ∷ xs) ys (suc i) l = get_elem?_front xs ys i (omega arith)

-- From that position on the table has the number of the parents and the parents.
pub get_elem?-table :
    (before : List TypeInfo) (t : TypeInfo) (after : List TypeInfo) (i : ℕ)
    → i < suc (length (sorted_hashes t.all_parents))
    → get_elem? (get_sorted_all_parent_set (before ++ t ∷ after)) (row_position before + i)
      ≡ get_elem? (length (sorted_hashes t.all_parents) ∷ sorted_hashes t.all_parents) i
unfolding get_sorted_all_parent_set
get_elem?-table before t after i l =
    let set = sorted_hashes t.all_parents in
    let n = length (before ++ t ∷ after) in
    let e : row_position before + i ≡ suc (length (parent_rows before) + suc i) = omega arith in
    ap (get_elem? (n ∷ parent_rows (before ++ t ∷ after))) e
    ∙ get_elem?-rows before t after (suc i)
    ∙ get_elem?_front (length set ∷ set) (parent_rows after) i l
