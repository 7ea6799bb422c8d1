-- ===== src/Names.antt =====
-- The names of types and their hashes, src/llvm-files/HexTypeUtil.cpp. A string is the list of its
-- bytes, none of them zero.
pub mod Removal
pub mod Plain
pub mod Records
pub mod Prefixes
pub mod Agreement
use hex_type.Prelude.{
  ℕ, zero, suc, ◌+◌, ◌-◌, ◌*◌, ◌/◌, ◌%◌, ◌^◌, Option, none, some, Bool, true, false, List, [], ◌∷◌,
  ◌++◌, ◌&&◌, ◌||◌, not, ltb, ◌==◌, if◌then◌else◌, ◌>>=◌, length,
}
use Prim.Native.Nat.{bit_xor}

abbrev pub starts_with : List ℕ → List ℕ → Bool
starts_with [] str = true
starts_with (x ∷ xs) [] = false
starts_with (x ∷ xs) (y ∷ ys) = x == y && starts_with xs ys

-- `std::string::find`; `none` is `npos`.
abbrev pub find : List ℕ → List ℕ → Option ℕ
find sub [] = if starts_with sub [] then some 0 else none
find sub (y ∷ ys) =
    let rest = find sub ys >>= λ i. some (suc i) in
    if starts_with sub (y ∷ ys) then some 0 else rest

abbrev pub take : ℕ → List ℕ → List ℕ
take n [] = []
take zero (x ∷ xs) = []
take (suc n) (x ∷ xs) = x ∷ take n xs

abbrev pub drop : ℕ → List ℕ → List ℕ
drop n [] = []
drop zero (x ∷ xs) = x ∷ xs
drop (suc n) (x ∷ xs) = drop n xs

-- `RemoveStr.compare("::") == 0`
abbrev pub is_scope : List ℕ → Bool
is_scope (a ∷ b ∷ []) = a == 58 && b == 58
is_scope s = false

-- What a round of the `while` loop erases.
abbrev pub erase : List ℕ → ℕ → List ℕ → List ℕ
erase remove_str i full_str =
    if is_scope remove_str
    then drop (i + 2) full_str
    else take i full_str ++ drop (i + length remove_str) full_str

pub remove_rounds : ℕ → List ℕ → List ℕ → Option (List ℕ)
remove_rounds zero remove_str full_str = none
remove_rounds (suc fuel) remove_str full_str = elim (find remove_str full_str) [
  | none ↦ some full_str
  | some i ↦ remove_rounds fuel remove_str (erase remove_str i full_str)
]

-- `removeTargetStr`
unfoldable pub remove_target_str : List ℕ → List ℕ → Option (List ℕ)
unfolding remove_rounds
remove_target_str full_str remove_str = remove_rounds (suc (length full_str)) remove_str full_str

-- Whether a digit follows a position.
abbrev pub digit_at : ℕ → List ℕ → Bool
digit_at n [] = false
digit_at zero (x ∷ xs) = not (ltb x 48) && not (ltb 57 x)
digit_at (suc n) (x ∷ xs) = digit_at n xs

-- `removeTargetNum`
unfoldable pub remove_target_num : List ℕ → List ℕ
remove_target_num target_str = elim (find (46 ∷ []) target_str) [
  | none ↦ target_str
  | some i ↦ if digit_at (i + 1) target_str then take i target_str else target_str
]

-- "::", "class.", "./", "struct.", "union.", ".base", "trackedtype.", "blacklistedtype.", "*", "'"
abbrev pub remove_strs : List (List ℕ)
remove_strs =
    (58 ∷ 58 ∷ [])
    ∷ (99 ∷ 108 ∷ 97 ∷ 115 ∷ 115 ∷ 46 ∷ [])
    ∷ (46 ∷ 47 ∷ [])
    ∷ (115 ∷ 116 ∷ 114 ∷ 117 ∷ 99 ∷ 116 ∷ 46 ∷ [])
    ∷ (117 ∷ 110 ∷ 105 ∷ 111 ∷ 110 ∷ 46 ∷ [])
    ∷ (46 ∷ 98 ∷ 97 ∷ 115 ∷ 101 ∷ [])
    ∷ (116 ∷ 114 ∷ 97 ∷ 99 ∷ 107 ∷ 101 ∷ 100 ∷ 116 ∷ 121 ∷ 112 ∷ 101 ∷ 46 ∷ [])
    ∷ (98 ∷ 108 ∷ 97 ∷ 99 ∷ 107 ∷ 108 ∷ 105 ∷ 115 ∷ 116 ∷ 101 ∷ 100 ∷ 116 ∷ 121 ∷ 112 ∷ 101 ∷ 46
        ∷ [])
    ∷ (42 ∷ [])
    ∷ (39 ∷ [])
    ∷ []

-- The loop over the strings to remove.
unfoldable pub remove_all : List (List ℕ) → List ℕ → Option (List ℕ)
remove_all [] target_str = some target_str
remove_all (r ∷ rs) target_str = do s ← remove_target_str target_str r; remove_all rs s

-- `syncTypeName`
unfoldable pub sync_type_name : List ℕ → Option (List ℕ)
sync_type_name target_str = do s ← remove_all remove_strs target_str; some (remove_target_num s)

-- `syncModuleName`, which removes "./", "." and "/"
unfoldable pub sync_module_name : List ℕ → Option (List ℕ)
sync_module_name target_str = do
  s ← remove_all ((46 ∷ 47 ∷ []) ∷ (46 ∷ []) ∷ (47 ∷ []) ∷ []) target_str
  some (remove_target_num s)

-- One of the eight rounds for an entry of the table of `crc64c`.
abbrev pub crc_shift : ℕ → ℕ
crc_shift crc = bit_xor (crc / 2) (if crc % 2 == 1 then 14514072000185962306 else 0)

abbrev pub crc_rounds : ℕ → ℕ → ℕ
crc_rounds zero crc = crc
crc_rounds (suc j) crc = crc_rounds j (crc_shift crc)

-- The loop over the message.
unfoldable pub crc_bytes : List ℕ → ℕ → ℕ
crc_bytes [] crc = crc
crc_bytes (byte ∷ rest) crc =
    crc_bytes rest (bit_xor (crc / 2 ^ 8) (crc_rounds 8 (bit_xor crc byte % 2 ^ 8)))

-- `crc64c`
unfoldable pub crc64c : List ℕ → ℕ
crc64c message = 2 ^ 64 - 1 - crc_bytes message (2 ^ 64 - 1)

-- `getHashValueFromStr`
unfoldable pub get_hash_value_from_str : List ℕ → Option ℕ
get_hash_value_from_str str = do s ← sync_type_name str; some (crc64c s)

-- `getHashValueFromSTy`, of the type's name
unfoldable pub get_hash_value_from_sty : List ℕ → Option ℕ
get_hash_value_from_sty name = do s ← sync_type_name name; get_hash_value_from_str s
