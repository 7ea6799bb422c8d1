-- ===== src/Types/PhantomTable.antt =====
-- The table of phantoms that `getSortedAllPhantomSet` lays out is what `__update_phantom_info` reads.
use hex_type.Prelude.{
  ℕ, suc, ◌+◌, ◌<◌, ◌≡◌, sym, ap, subst, refl, ◌∙◌, none, some, true, List, [], ◌∷◌, ◌++◌, inl, inr,
  Bool-cases, append_assoc, length, length-append, get_elem?, arith,
}
use hex_type.Runtime.{Runtime}
use hex_type.Casts.{phantoms}
use hex_type.Phantoms.{update_phantom_info}
use hex_type.Phantoms.Laws.{contains}
use hex_type.Phantoms.Rows.{row_start, IsFresh, update_phantom_info-contains}
use hex_type.Types.{
  TypeInfo, hashes, sorted_hashes, has_phantoms, phantom_type_cnt, phantom_rows,
  get_sorted_all_phantom_set,
}
use hex_type.Types.Sets.{contains-sorted_hashes, index_of_contains}
use hex_type.Types.Scan.{get_elem?-append, get_elem?_front}

-- The words of an array in memory.
abbrev pub read : List ℕ → ℕ → ℕ
read array i = elim (get_elem? array i) [ none ↦ 0 | some w ↦ w ]

-- What a round of `getSortedAllPhantomSet` appends.
abbrev phantom_row : TypeInfo → List ℕ
phantom_row t =
    let set = sorted_hashes t.all_phantom_types in t.detail_info.type_hash_value ∷ length set ∷ set

phantom_rows-some :
    (t : TypeInfo) (ts : List TypeInfo)
    → has_phantoms t ≡ true
    → phantom_rows (t ∷ ts) ≡ phantom_row t ++ phantom_rows ts
unfolding phantom_rows
phantom_rows-some t ts e = rw e refl

-- The rows of some types stand before those of others.
phantom_rows-append :
    (before ts : List TypeInfo)
    → phantom_rows (before ++ ts) ≡ phantom_rows before ++ phantom_rows ts
unfolding phantom_rows
phantom_rows-append [] ts = refl
phantom_rows-append (b ∷ bs) ts = elim (Bool-cases (has_phantoms b)) [
  | inl e ↦
      rw (e, phantom_rows-append bs ts)
        (sym (append_assoc (phantom_row b) (phantom_rows bs) (phantom_rows ts)))
  | inr e ↦ rw e (phantom_rows-append bs ts)
]

phantom_type_cnt-append :
    (before : List TypeInfo) (t : TypeInfo) (after : List TypeInfo)
    → has_phantoms t ≡ true
    → phantom_type_cnt before < phantom_type_cnt (before ++ t ∷ after)
unfolding phantom_type_cnt
phantom_type_cnt-append [] t after e = rw e (omega arith)
phantom_type_cnt-append (b ∷ bs) t after e = ground (arith, phantom_type_cnt-append bs t after e)

read-append : (pre ys : List ℕ) (i : ℕ) → read (pre ++ ys) (length pre + i) ≡ read ys i
read-append pre ys i = ap (λ o. elim o [ none ↦ 0 | some w ↦ w ]) (get_elem?-append pre ys i)

-- A row is passed over.
row_start-row :
    (b : TypeInfo) (rest pre : List ℕ) (n : ℕ)
    → row_start (read (pre ++ (phantom_row b ++ rest))) (suc n) (length pre)
      ≡ row_start (read ((pre ++ phantom_row b) ++ rest)) n (length (pre ++ phantom_row b))
row_start-row b rest pre n =
    let e : length pre + 2 + read (pre ++ (phantom_row b ++ rest)) (length pre + 1)
        ≡ length (pre ++ phantom_row b) =
      omega (arith, read-append pre (phantom_row b ++ rest) 1, length-append pre (phantom_row b)) in
    ap (row_start (read (pre ++ (phantom_row b ++ rest))) n) e
    ∙ ap (λ array. row_start (read array) n (length (pre ++ phantom_row b)))
        (sym (append_assoc pre (phantom_row b) rest))

row_start-phantom_rows :
    (before : List TypeInfo) (rest pre : List ℕ)
    → row_start (read (pre ++ (phantom_rows before ++ rest))) (phantom_type_cnt before) (length pre)
      ≡ length pre + length (phantom_rows before)
unfolding phantom_rows phantom_type_cnt
row_start-phantom_rows [] rest pre = omega arith
row_start-phantom_rows (b ∷ bs) rest pre = elim (Bool-cases (has_phantoms b)) [
  | inr e ↦ rw e (row_start-phantom_rows bs rest pre)
  | inl e ↦
      let n = phantom_type_cnt bs in
      let total : length (pre ++ phantom_row b) + length (phantom_rows bs)
          ≡ length pre + length (phantom_row b ++ phantom_rows bs) =
        omega (
          arith,
          length-append pre (phantom_row b),
          length-append (phantom_row b) (phantom_rows bs),
        ) in
      rw e (
        ap (λ words. row_start (read (pre ++ words)) (suc n) (length pre))
          (append_assoc (phantom_row b) (phantom_rows bs) rest)
        ∙ row_start-row b (phantom_rows bs ++ rest) pre n
        ∙ row_start-phantom_rows bs rest (pre ++ phantom_row b)
        ∙ total)
]

-- The words of a type's row, after as many types with phantoms as stand before it.
read-table :
    (before : List TypeInfo) (t : TypeInfo) (after : List TypeInfo) (i : ℕ)
    → has_phantoms t ≡ true
    → i < length (phantom_row t)
    → read (get_sorted_all_phantom_set (before ++ t ∷ after)) (
        row_start
          (read (get_sorted_all_phantom_set (before ++ t ∷ after)))
          (phantom_type_cnt before)
          1
        + i)
      ≡ read (phantom_row t) i
unfolding get_sorted_all_phantom_set
read-table before t after i e l =
    let n = phantom_type_cnt (before ++ t ∷ after) in
    let rest = phantom_row t ++ phantom_rows after in
    let words : phantom_rows (before ++ t ∷ after) ≡ phantom_rows before ++ rest =
      phantom_rows-append before (t ∷ after)
      ∙ ap (λ w. phantom_rows before ++ w) (phantom_rows-some t after e) in
    let shift : 1 + length (phantom_rows before) + i ≡ length (n ∷ phantom_rows before) + i =
      omega arith in
    rw (words, row_start-phantom_rows before rest (n ∷ []))
      (ap (read (n ∷ (phantom_rows before ++ rest))) shift
        ∙ read-append (n ∷ phantom_rows before) rest i
        ∙ ap (λ o. elim o [ none ↦ 0 | some w ↦ w ])
            (get_elem?_front (phantom_row t) (phantom_rows after) i l))

info_count :
    (before : List TypeInfo) (t : TypeInfo) (after : List TypeInfo)
    → has_phantoms t ≡ true
    → phantom_type_cnt before < read (get_sorted_all_phantom_set (before ++ t ∷ after)) 0
unfolding get_sorted_all_phantom_set
info_count before t after e = phantom_type_cnt-append before t after e

-- If each hash of the map leads to a set that has been created, then after the run-time library has
-- read the table of phantoms that the compiler emits for a list of types, every phantom of every
-- type of the list with more than one phantom is a phantom of the type's hash.
pub update_phantom_info-table :
    (before : List TypeInfo) (t : TypeInfo) (after : List TypeInfo) (x : ℕ) (s : Runtime)
    → has_phantoms t ≡ true
    → IsFresh s
    → contains x (hashes t.all_phantom_types) ≡ true
    → contains x (
        phantoms
          (update_phantom_info (read (get_sorted_all_phantom_set (before ++ t ∷ after))) s)
          t.detail_info.type_hash_value)
      ≡ true
update_phantom_info-table before t after x s e ok there =
    let info = read (get_sorted_all_phantom_set (before ++ t ∷ after)) in
    let start = row_start info (phantom_type_cnt before) 1 in
    let (j, l, at) =
      index_of_contains (sorted_hashes t.all_phantom_types) x
        (contains-sorted_hashes x t.all_phantom_types ∙ there) in
    let h : info start ≡ t.detail_info.type_hash_value =
      ap info (omega arith) ∙ read-table before t after 0 e (omega arith) in
    let m : info (start + 1) ≡ length (sorted_hashes t.all_phantom_types) =
      read-table before t after 1 e (omega arith) in
    let w : info (start + 2 + j) ≡ x =
      ap info (omega arith)
      ∙ read-table before t after (suc (suc j)) e (omega arith)
      ∙ ap (λ o. elim o [ none ↦ 0 | some w ↦ w ]) at in
    let added =
      update_phantom_info-contains info (phantom_type_cnt before) j s ok
        (info_count before t after e) (omega arith) in
    subst
      (λ y. contains y (phantoms (update_phantom_info info s) t.detail_info.type_hash_value) ≡ true)
      w
      (subst (λ g. contains (info (start + 2 + j)) (phantoms (update_phantom_info info s) g) ≡ true)
        h added)
