-- ===== src/Names/Plain.antt =====
-- Names without the special characters of the strings that `syncTypeName` removes.
use hex_type.Prelude.{
  ℕ, ◌≡◌, ◌≢◌, refl, ◌∙◌, none, some, true, false, List, [], ◌∷◌, ◌++◌, ◌==◌, contains, Bool-cases,
  inl, inr, arith,
}
use hex_type.Names.{
  starts_with, find, remove_rounds, remove_target_str, remove_all, remove_strs, remove_target_num,
  sync_type_name,
}

-- A character does not occur.
abbrev pub Free : ℕ → List ℕ → Type 0
Free c [] = Unit
Free c (x ∷ xs) = (c ≢ x) × Free c xs

pub Free-append : (c : ℕ) (xs ys : List ℕ) → Free c xs → Free c ys → Free c (xs ++ ys)
Free-append c [] ys h k = k
Free-append c (x ∷ xs) ys (n, h) k = (n, Free-append c xs ys h k)

pub starts_with-Free :
    (c : ℕ) (sub str : List ℕ) → contains c sub ≡ true → Free c str → starts_with sub str ≡ false
starts_with-Free c [] str h k = cc
starts_with-Free c (x ∷ xs) [] h k = refl
starts_with-Free c (x ∷ xs) (y ∷ ys) h (n, k) = elim (Bool-cases (contains c xs)) [
  | inl later ↦ rw (starts_with-Free c xs ys later k) (ground arith)
  | inr first ↦ elim (Bool-cases (x == c)) [
    | inl same ↦ let other : (x == y) ≡ false = ground (arith, n) in rw other refl
    | inr differs ↦ cc
  ]
]

-- A string with a character that does not occur is not found.
pub find-Free :
    (c : ℕ) (sub str : List ℕ) → contains c sub ≡ true → Free c str → find sub str ≡ none
find-Free c sub [] h k = rw (starts_with-Free c sub [] h k) refl
find-Free c sub (y ∷ ys) h (n, k) =
    rw (starts_with-Free c sub (y ∷ ys) h (n, k), find-Free c sub ys h k) refl

pub remove_target_str_absent :
    (sub str : List ℕ) → find sub str ≡ none → remove_target_str str sub ≡ some str
unfolding remove_target_str remove_rounds
remove_target_str_absent sub str e = rw (e, remove_target_str, remove_rounds) refl

-- The loop goes on behind a string that is removed.
pub remove_all_step :
    (r : List ℕ) (rs : List (List ℕ)) (s s' : List ℕ)
    → remove_target_str s r ≡ some s'
    → remove_all (r ∷ rs) s ≡ remove_all rs s'
unfolding remove_all
remove_all_step r rs s s' e = rw e refl

pub remove_all_absent :
    (r : List ℕ) (rs : List (List ℕ)) (s : List ℕ)
    → find r s ≡ none
    → remove_all (r ∷ rs) s ≡ remove_all rs s
remove_all_absent r rs s e = remove_all_step r rs s s (remove_target_str_absent r s e)

-- Each string of a list has a character that does not occur.
abbrev pub Absent : List ℕ → List (List ℕ) → Type 0
Absent s [] = Unit
Absent s (r ∷ rs) = ((c : ℕ) × (contains c r ≡ true) × Free c s) × Absent s rs

pub remove_all-Absent : (rs : List (List ℕ)) (s : List ℕ) → Absent s rs → remove_all rs s ≡ some s
unfolding remove_all
remove_all-Absent [] s h = refl
remove_all-Absent (r ∷ rs) s ((c, there, free), h) =
    remove_all_absent r rs s (find-Free c r s there free) ∙ remove_all-Absent rs s h

pub remove_target_num-Free : (s : List ℕ) → Free 46 s → remove_target_num s ≡ s
unfolding remove_target_num
remove_target_num-Free s h = rw (find-Free 46 (46 ∷ []) s refl h, remove_target_num) refl

-- A name without dots, colons, stars, quotes and slashes, as those of the classes.
pub record IsPlain (name : List ℕ) : Type 0 where
  pub no_dot : Free 46 name
  pub no_colon : Free 58 name
  pub no_star : Free 42 name
  pub no_quote : Free 39 name
  pub no_slash : Free 47 name

Free-of : (c : ℕ) (xs : List ℕ) → contains c xs ≡ false → Free c xs
Free-of c [] e = tt
Free-of c (x ∷ xs) e = elim (Bool-cases (x == c)) [
  | inl same ↦ cc
  | inr differs ↦ (ground arith, Free-of c xs (rw differs at e))
]

pub IsPlain-of :
    (xs : List ℕ)
    → contains 46 xs ≡ false
    → contains 58 xs ≡ false
    → contains 42 xs ≡ false
    → contains 39 xs ≡ false
    → contains 47 xs ≡ false
    → IsPlain xs
IsPlain-of xs dot colon star quote slash = record {
  no_dot = Free-of 46 xs dot;
  no_colon = Free-of 58 xs colon;
  no_star = Free-of 42 xs star;
  no_quote = Free-of 39 xs quote;
  no_slash = Free-of 47 xs slash;
}

pub IsPlain-append : (xs ys : List ℕ) → IsPlain xs → IsPlain ys → IsPlain (xs ++ ys)
IsPlain-append xs ys h k = record {
  no_dot = Free-append 46 xs ys h.no_dot k.no_dot;
  no_colon = Free-append 58 xs ys h.no_colon k.no_colon;
  no_star = Free-append 42 xs ys h.no_star k.no_star;
  no_quote = Free-append 39 xs ys h.no_quote k.no_quote;
  no_slash = Free-append 47 xs ys h.no_slash k.no_slash;
}

-- The strings behind "::" are not in a plain name.
abbrev pub dotted_strs : List (List ℕ)
dotted_strs = elim remove_strs [ [] ↦ [] | r ∷ rs ↦ rs ]

pub dotted-Absent : (name : List ℕ) → IsPlain name → Absent name dotted_strs
dotted-Absent name h = (
  (46, refl, h.no_dot),
  (
    (46, refl, h.no_dot),
    (
      (46, refl, h.no_dot),
      (
        (46, refl, h.no_dot),
        (
          (46, refl, h.no_dot),
          (
            (46, refl, h.no_dot),
            ((46, refl, h.no_dot), ((42, refl, h.no_star), ((39, refl, h.no_quote), tt))),
          ),
        ),
      ),
    ),
  ),
)

-- A plain name is left as it is.
pub sync_type_name-IsPlain : (name : List ℕ) → IsPlain name → sync_type_name name ≡ some name
unfolding sync_type_name
sync_type_name-IsPlain name h =
    rw
      (
        remove_all-Absent remove_strs name ((58, refl, h.no_colon), dotted-Absent name h),
        remove_target_num-Free name h.no_dot,
      )
      refl
