-- ===== src/Layout/Distinct.antt =====
-- A layout has at most one object at an offset.
use hex_type.Prelude.{
  ℕ, zero, suc, ◌+◌, ◌*◌, ◌%◌, ◌^◌, ◌≡◌, refl, false, List, [], ◌∷◌, ◌++◌, ◌||◌, ◌==◌, inl, inr,
  Bool-cases, arith,
}
use hex_type.Names.{starts_with}
use hex_type.Layout.{
  Ty, array_type, struct_type, other_type, Fields, no_fields, field, Element, has_offset,
  push_struct, rounds, is_interesting_struct_type, tracked_type, get_array_offsets,
  get_field_offsets,
}

-- No offset occurs twice.
abbrev pub Distinct : List Element → Type 0
Distinct [] = Unit
Distinct (e ∷ es) = (has_offset e.offset es ≡ false) × Distinct es

has_offset-snoc :
    (o : ℕ) (es : List Element) (e : Element)
    → has_offset o (es ++ e ∷ []) ≡ (has_offset o es || o == e.offset)
has_offset-snoc o [] e = ground arith
has_offset-snoc o (d ∷ ds) e = ground (arith, has_offset-snoc o ds e)

snoc-Distinct :
    (es : List Element) (e : Element)
    → Distinct es
    → has_offset e.offset es ≡ false
    → Distinct (es ++ e ∷ [])
snoc-Distinct [] e h free = (refl, tt)
snoc-Distinct (d ∷ ds) e h free =
    (ground (arith, has_offset-snoc d.offset ds e), snoc-Distinct ds e h.1 (ground arith))

push_struct-Distinct :
    (name : List ℕ) (o : ℕ) (es : List Element) → Distinct es → Distinct (push_struct name o es)
push_struct-Distinct name o es h = elim (Bool-cases (has_offset o es)) [
  | inl taken ↦ rw taken h
  | inr free ↦ elim (Bool-cases (starts_with tracked_type name)) [
    | inl tracked ↦
        rw (free, tracked) (snoc-Distinct es (record { offset = o; name = name }) h free)
    | inr plain ↦ rw (free, plain) h
  ]
]

rounds-Distinct :
    (n i : ℕ) (step : ℕ → List Element → List Element) (es : List Element)
    → ((j : ℕ) (ds : List Element) → Distinct ds → Distinct (step j ds))
    → Distinct es
    → Distinct (rounds n i step es)
rounds-Distinct zero i step es keeps h = h
rounds-Distinct (suc n) i step es keeps h =
    rounds-Distinct n (i + 1) step (step i es) keeps (keeps i es h)

mutual
  unfolding get_array_offsets get_field_offsets

  array_lem :
      (ty : Ty) (o : ℕ) (es : List Element) → Distinct es → Distinct (get_array_offsets ty o es)
  array_lem (array_type n size ty) o es h =
      rounds-Distinct (n % 2 ^ 32) 0 (λ i ds. get_array_offsets ty ((o + i * size) % 2 ^ 32) ds) es
        (λ j ds d. array_lem ty ((o + j * size) % 2 ^ 32) ds d) h
  array_lem (struct_type name literal opaque parts) o es h =
      elim (Bool-cases (is_interesting_struct_type name literal opaque)) [
        | inl told ↦
            rw told (fields_lem parts o (push_struct name o es) (push_struct-Distinct name o es h))
        | inr skipped ↦ rw skipped h
      ]
  array_lem other_type o es h = h

  fields_lem :
      (parts : Fields) (o : ℕ) (es : List Element)
      → Distinct es
      → Distinct (get_field_offsets parts o es)
  fields_lem no_fields o es h = h
  fields_lem (field d ty rest) o es h =
      fields_lem rest o (get_array_offsets ty ((d + o) % 2 ^ 32) es)
        (array_lem ty ((d + o) % 2 ^ 32) es h)

-- The objects that a type lays out from an offset have distinct offsets, for arrays and structures of
-- any depth.
pub get_array_offsets-Distinct : (ty : Ty) (o : ℕ) → Distinct (get_array_offsets ty o [])
get_array_offsets-Distinct ty o = array_lem ty o [] tt
