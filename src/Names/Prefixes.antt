-- ===== src/Names/Prefixes.antt =====
-- The common form of the names of struct types: a word and a dot, scopes and a plain name.
use hex_type.Prelude.{
  ℕ, zero, suc, ◌+◌, ◌<◌, ◌≤◌, ◌≡◌, refl, ap, subst, ◌∙◌, some, false, List, [], ◌∷◌, ◌++◌, length,
  length-append, arith,
}
use hex_type.Names.{
  starts_with, find, drop, remove_rounds, remove_target_str, remove_all, remove_strs,
  sync_type_name,
}
use hex_type.Names.Plain.{
  Free, find-Free, starts_with-Free, remove_all_step, remove_all_absent, remove_all-Absent,
  remove_target_num-Free, IsPlain, IsPlain-of, IsPlain-append, dotted_strs, dotted-Absent,
}
use hex_type.Names.Records.{tracked_prefix, blacklisted_prefix}

-- A name in its scopes, as `printQualifiedName` prints it.
abbrev pub qualified : List (List ℕ) → List ℕ → List ℕ
qualified [] name = name
qualified (s ∷ ss) name = s ++ 58 ∷ 58 ∷ qualified ss name

abbrev pub AllFree : List (List ℕ) → Type 0
AllFree [] = Unit
AllFree (s ∷ ss) = Free 58 s × AllFree ss

drop_zero : (xs : List ℕ) → drop 0 xs ≡ xs
drop_zero [] = refl
drop_zero (x ∷ xs) = refl

find-scope :
    (p rest : List ℕ) → Free 58 p → find (58 ∷ 58 ∷ []) (p ++ 58 ∷ 58 ∷ rest) ≡ some (length p)
find-scope [] rest h = refl
find-scope (x ∷ p) rest (n, h) = rw (find-scope p rest h) (ground arith)

drop-scope : (p rest : List ℕ) → drop (length p + 2) (p ++ 58 ∷ 58 ∷ rest) ≡ rest
drop-scope [] rest = drop_zero rest
drop-scope (x ∷ p) rest =
    let shift : suc (length p + 2) ≡ suc (length p) + 2 = omega arith in
    subst (λ n. drop n (x ∷ p ++ 58 ∷ 58 ∷ rest) ≡ rest) shift (drop-scope p rest)

-- The rounds for "::" leave what is behind the last one.
rounds-qualified :
    (fuel : ℕ) (ss : List (List ℕ)) (name : List ℕ)
    → AllFree ss
    → Free 58 name
    → length ss < fuel
    → remove_rounds fuel (58 ∷ 58 ∷ []) (qualified ss name) ≡ some name
unfolding remove_rounds
rounds-qualified zero ss name h k l = absurd (omega arith)
rounds-qualified (suc fuel) [] name h k l =
    rw (find-Free 58 (58 ∷ 58 ∷ []) name refl k, remove_rounds) refl
rounds-qualified (suc fuel) (s ∷ ss) name (free, h) k l =
    rw (find-scope s (qualified ss name) free, remove_rounds, drop-scope s (qualified ss name))
      (rounds-qualified fuel ss name h k (omega arith))

length-qualified : (ss : List (List ℕ)) (name : List ℕ) → length ss ≤ length (qualified ss name)
length-qualified [] name = omega arith
length-qualified (s ∷ ss) name =
    omega (arith, length-qualified ss name, length-append s (58 ∷ 58 ∷ qualified ss name))

pub sync_of :
    (str s : List ℕ) → remove_all remove_strs str ≡ some s → Free 46 s → sync_type_name str ≡ some s
unfolding sync_type_name
sync_of str s e h = rw (e, remove_target_num-Free s h) refl

-- Of a name in scopes, the plain name is left.
pub sync-scoped :
    (s : List ℕ) (ss : List (List ℕ)) (name : List ℕ)
    → AllFree (s ∷ ss)
    → IsPlain name
    → sync_type_name (qualified (s ∷ ss) name) ≡ some name
unfolding remove_target_str
sync-scoped s ss name h k =
    let str = qualified (s ∷ ss) name in
    sync_of str name
      (remove_all_step (58 ∷ 58 ∷ []) dotted_strs str name (
          rounds-qualified (suc (length str)) (s ∷ ss) name h k.no_colon
            (omega (arith, length-qualified (s ∷ ss) name)))
        ∙ remove_all-Absent dotted_strs name (dotted-Absent name k))
      k.no_dot

-- "base"
abbrev pub base : List ℕ
base = 98 ∷ 97 ∷ 115 ∷ 101 ∷ []

-- The strings from ".base" on.
abbrev base_strs : List (List ℕ)
base_strs = elim dotted_strs [ _ ∷ _ ∷ _ ∷ _ ∷ rs ↦ rs | _ ↦ [] ]

-- The rounds for the strings before ".base" find nothing in "trackedtype." with a plain name behind it.
tracked-before :
    (name : List ℕ)
    → IsPlain name
    → remove_all remove_strs (tracked_prefix ++ 46 ∷ name)
      ≡ remove_all base_strs (tracked_prefix ++ 46 ∷ name)
tracked-before name h =
    remove_all_absent _ _ _ (rw (find-Free 58 (58 ∷ 58 ∷ []) name refl h.no_colon) refl)
    ∙ remove_all_absent _ _ _
        (rw (find-Free 46 (99 ∷ 108 ∷ 97 ∷ 115 ∷ 115 ∷ 46 ∷ []) name refl h.no_dot) refl)
    ∙ remove_all_absent _ _ _ (
        rw
          (
            find-Free 46 (46 ∷ 47 ∷ []) name refl h.no_dot,
            starts_with-Free 47 (47 ∷ []) name refl h.no_slash,
          )
          refl)
    ∙ remove_all_absent _ _ _
        (rw (find-Free 46 (115 ∷ 116 ∷ 114 ∷ 117 ∷ 99 ∷ 116 ∷ 46 ∷ []) name refl h.no_dot) refl)
    ∙ remove_all_absent _ _ _
        (rw (find-Free 46 (117 ∷ 110 ∷ 105 ∷ 111 ∷ 110 ∷ 46 ∷ []) name refl h.no_dot) refl)

-- The name of a class in no scope, if it does not begin with "base".
pub tracked-plain :
    (name : List ℕ)
    → IsPlain name
    → starts_with base name ≡ false
    → remove_all remove_strs (tracked_prefix ++ 46 ∷ name) ≡ some name
unfolding remove_target_str remove_rounds
tracked-plain name h no_base =
    tracked-before name h
    ∙ remove_all_absent _ _ _
        (rw (find-Free 46 (46 ∷ 98 ∷ 97 ∷ 115 ∷ 101 ∷ []) name refl h.no_dot, no_base) refl)
    ∙ remove_all_step _ _ _ name (
        rw
          (
            drop_zero name,
            find-Free 46 (116 ∷ 114 ∷ 97 ∷ 99 ∷ 107 ∷ 101 ∷ 100 ∷ 116 ∷ 121 ∷ 112 ∷ 101 ∷ 46 ∷ [])
                name refl h.no_dot,
          )
          (ap some (drop_zero name)))
    ∙ remove_all-Absent _ name
        ((46, refl, h.no_dot), ((42, refl, h.no_star), ((39, refl, h.no_quote), tt)))

-- The rounds for the strings before ".base" find nothing in "blacklistedtype." with a plain name behind it.
blacklisted-before :
    (name : List ℕ)
    → IsPlain name
    → remove_all remove_strs (blacklisted_prefix ++ 46 ∷ name)
      ≡ remove_all base_strs (blacklisted_prefix ++ 46 ∷ name)
blacklisted-before name h =
    remove_all_absent _ _ _ (rw (find-Free 58 (58 ∷ 58 ∷ []) name refl h.no_colon) refl)
    ∙ remove_all_absent _ _ _
        (rw (find-Free 46 (99 ∷ 108 ∷ 97 ∷ 115 ∷ 115 ∷ 46 ∷ []) name refl h.no_dot) refl)
    ∙ remove_all_absent _ _ _ (
        rw
          (
            find-Free 46 (46 ∷ 47 ∷ []) name refl h.no_dot,
            starts_with-Free 47 (47 ∷ []) name refl h.no_slash,
          )
          refl)
    ∙ remove_all_absent _ _ _
        (rw (find-Free 46 (115 ∷ 116 ∷ 114 ∷ 117 ∷ 99 ∷ 116 ∷ 46 ∷ []) name refl h.no_dot) refl)
    ∙ remove_all_absent _ _ _
        (rw (find-Free 46 (117 ∷ 110 ∷ 105 ∷ 111 ∷ 110 ∷ 46 ∷ []) name refl h.no_dot) refl)

-- The name of a class in no scope, if it does not begin with "base".
pub blacklisted-plain :
    (name : List ℕ)
    → IsPlain name
    → starts_with base name ≡ false
    → remove_all remove_strs (blacklisted_prefix ++ 46 ∷ name) ≡ some name
unfolding remove_target_str remove_rounds
blacklisted-plain name h no_base =
    blacklisted-before name h
    ∙ remove_all_absent _ _ _
        (rw (find-Free 46 (46 ∷ 98 ∷ 97 ∷ 115 ∷ 101 ∷ []) name refl h.no_dot, no_base) refl)
    ∙ remove_all_absent _ _ _ (
        rw
          (find-Free 46 (116 ∷ 114 ∷ 97 ∷ 99 ∷ 107 ∷ 101 ∷ 100 ∷ 116 ∷ 121 ∷ 112 ∷ 101 ∷ 46 ∷ [])
            name refl h.no_dot)
          refl)
    ∙ remove_all_step _ _ _ name (
        rw
          (
            drop_zero name,
            find-Free 46
                (98 ∷ 108 ∷ 97 ∷ 99 ∷ 107 ∷ 108 ∷ 105 ∷ 115 ∷ 116 ∷ 101 ∷ 100 ∷ 116 ∷ 121 ∷ 112
                  ∷ 101 ∷ 46 ∷ [])
                name refl h.no_dot,
          )
          (ap some (drop_zero name)))
    ∙ remove_all-Absent _ name ((42, refl, h.no_star), ((39, refl, h.no_quote), tt))

-- The name of a class in no scope that begins with "base" loses this and the dot before it.
pub tracked-base :
    (rest : List ℕ)
    → IsPlain rest
    → remove_all remove_strs (tracked_prefix ++ 46 ∷ base ++ rest) ≡ some (tracked_prefix ++ rest)
unfolding remove_target_str remove_rounds
tracked-base rest h =
    let plain =
      IsPlain-append tracked_prefix rest (IsPlain-of tracked_prefix refl refl refl refl refl) h in
    tracked-before (base ++ rest)
      (IsPlain-append base rest (IsPlain-of base refl refl refl refl refl) h)
    ∙ remove_all_step _ _ _ (tracked_prefix ++ rest) (
        rw (drop_zero rest, find-Free 46 (46 ∷ 98 ∷ 97 ∷ 115 ∷ 101 ∷ []) rest refl h.no_dot)
          (ap (λ r. some (tracked_prefix ++ r)) (drop_zero rest)))
    ∙ remove_all-Absent _ (tracked_prefix ++ rest) (
      (46, refl, plain.no_dot),
      ((46, refl, plain.no_dot), ((42, refl, plain.no_star), ((39, refl, plain.no_quote), tt))),
    )
