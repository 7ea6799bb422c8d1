-- ===== src/Names/Agreement.antt =====
-- The names that the front end gives to the struct types of classes, and the names of the classes that
-- it logs, have the same common form.
use hex_type.Prelude.{
  ℕ, ◌≡◌, ◌≢◌, refl, sym, ap, ◌∙◌, some, Bool, true, false, List, [], ◌∷◌, ◌++◌, append_assoc,
  append-nil, if◌then◌else◌, arith,
}
use hex_type.Names.{
  starts_with, remove_all, remove_strs, sync_type_name, get_hash_value_from_str,
  get_hash_value_from_sty,
}
use hex_type.Names.Plain.{
  Free, Free-append, IsPlain, IsPlain-of, IsPlain-append, sync_type_name-IsPlain,
}
use hex_type.Names.Prefixes.{
  qualified, AllFree, sync_of, sync-scoped, base, tracked-plain, blacklisted-plain, tracked-base,
}
use hex_type.Names.Records.{RecordDecl, tracked_prefix, blacklisted_prefix, add_record_type_name}

-- A class as `addRecordTypeName` sees it: a `CXXRecordDecl` with a name and a declaration context,
-- whose name and scopes are plain.
pub record IsClass (rd : RecordDecl) (scopes : List (List ℕ)) : Type 0 where
  pub named : rd.has_identifier ≡ true
  pub placed : rd.has_decl_context ≡ true
  pub cxx : rd.is_cxx_record ≡ true
  pub shape : rd.qualified_name ≡ qualified scopes rd.name
  pub plain : IsPlain rd.name
  pub plain_scopes : AllFree scopes

-- What `addRecordTypeName` puts before the dot.
abbrev kind : RecordDecl → List ℕ
kind rd = if rd.is_blacklisted then blacklisted_prefix else tracked_prefix

class_name :
    (rd : RecordDecl) (scopes : List (List ℕ))
    → IsClass rd scopes
    → add_record_type_name rd [] ≡ kind rd ++ 46 ∷ qualified scopes rd.name
unfolding add_record_type_name
class_name rd scopes h = rw (h.named, h.placed, h.cxx, h.shape, append-nil) refl

kind-Free : (b : Bool) → Free 58 (if b then blacklisted_prefix else tracked_prefix)
kind-Free true = (IsPlain-of blacklisted_prefix refl refl refl refl refl).no_colon
kind-Free false = (IsPlain-of tracked_prefix refl refl refl refl refl).no_colon

kind-plain :
    (b : Bool) (name : List ℕ)
    → IsPlain name
    → starts_with base name ≡ false
    → remove_all remove_strs ((if b then blacklisted_prefix else tracked_prefix) ++ 46 ∷ name)
      ≡ some name
kind-plain true name h no_base = blacklisted-plain name h no_base
kind-plain false name h no_base = tracked-plain name h no_base

dot-Free : Free 58 (46 ∷ [])
dot-Free = (λ e. absurd (omega arith), tt)

scoped_name :
    (k s : List ℕ) (ss : List (List ℕ)) (name : List ℕ)
    → Free 58 k
    → AllFree (s ∷ ss)
    → IsPlain name
    → sync_type_name (k ++ 46 ∷ qualified (s ∷ ss) name) ≡ some name
scoped_name k s ss name free (first, h) plain =
    ap sync_type_name (sym (append_assoc k (46 ∷ s) (58 ∷ 58 ∷ qualified ss name)))
    ∙ sync-scoped (k ++ 46 ∷ s) ss name (Free-append 58 k (46 ∷ s) free (dot-Free.0, first), h)
        plain

common_name :
    (rd : RecordDecl) (scopes : List (List ℕ))
    → IsClass rd scopes
    → (scopes ≡ [] → starts_with base rd.name ≡ false)
    → sync_type_name (kind rd ++ 46 ∷ qualified scopes rd.name) ≡ some rd.name
common_name rd [] h no_base =
    sync_of (kind rd ++ 46 ∷ rd.name) rd.name
      (kind-plain rd.is_blacklisted rd.name h.plain (no_base refl)) h.plain.no_dot
common_name rd (s ∷ ss) h no_base =
    scoped_name (kind rd) s ss rd.name (kind-Free rd.is_blacklisted) h.plain_scopes h.plain

-- The struct type of a class has the same hash as the name of the class, which the front end logs,
-- whatever its scopes: at the casts, and in the tables, where the name is brought to its common form
-- twice. A class in no scope must not have a name that begins with "base".
pub add_record_type_name-hash :
    (rd : RecordDecl) (scopes : List (List ℕ))
    → IsClass rd scopes
    → (scopes ≡ [] → starts_with base rd.name ≡ false)
    → (get_hash_value_from_str (add_record_type_name rd []) ≡ get_hash_value_from_str rd.name)
      × (get_hash_value_from_sty (add_record_type_name rd []) ≡ get_hash_value_from_str rd.name)
unfolding get_hash_value_from_str get_hash_value_from_sty
add_record_type_name-hash rd scopes h no_base =
    rw
      (
        class_name rd scopes h,
        common_name rd scopes h no_base,
        sync_type_name-IsPlain rd.name h.plain,
      )
      (refl, refl)

tracked_ne : (rest : List ℕ) → tracked_prefix ++ rest ≢ base ++ rest
tracked_ne rest q =
    let heads : starts_with (116 ∷ []) (tracked_prefix ++ rest)
        ≡ starts_with (116 ∷ []) (base ++ rest) =
      ap (starts_with (116 ∷ [])) q in
    cc

-- The struct type of a class in no scope whose name begins with "base" has another common form than the
-- name of the class.
pub add_record_type_name-base :
    (rd : RecordDecl) (rest : List ℕ)
    → IsClass rd []
    → rd.is_blacklisted ≡ false
    → rd.name ≡ base ++ rest
    → IsPlain rest
    → (sync_type_name (add_record_type_name rd []) ≡ some (tracked_prefix ++ rest))
      × (sync_type_name rd.name ≡ some (base ++ rest))
      × (tracked_prefix ++ rest ≢ base ++ rest)
add_record_type_name-base rd rest h listed e plain = (
  ap sync_type_name (class_name rd [] h ∙ rw (listed, e) refl)
      ∙ sync_of (tracked_prefix ++ 46 ∷ base ++ rest) (tracked_prefix ++ rest)
          (tracked-base rest plain)
          (IsPlain-append tracked_prefix rest (IsPlain-of tracked_prefix refl refl refl refl refl)
            plain).no_dot,
  sync_type_name-IsPlain rd.name h.plain ∙ ap some e,
  tracked_ne rest,
)
