-- ===== src/Layout/Casting.antt =====
-- `removeNonCastingRelatedObj` of src/llvm-files/HexTypeUtil.cpp, which leaves the objects whose types
-- take part in casts.
use hex_type.Prelude.{
  ℕ, zero, suc, ◌<◌, ◌≡◌, refl, sym, ap, ◌∙◌, Option, none, some, Bool, true, false, List, [], ◌∷◌,
  if◌then◌else◌, ◌>>=◌, inl, inr, Bool-cases, length, arith,
}
use hex_type.Names.{sync_type_name}
use hex_type.Layout.{Element}

-- Whether `CastingRelatedSet` holds the type's name in its common form.
abbrev pub is_casting_related : (List ℕ → Bool) → Element → Bool
is_casting_related casting_related_set e = elim (sync_type_name e.name) [
  | none ↦ false
  | some s ↦ casting_related_set s
]

-- The inner loop: the list without the first object that is not casting-related, or `none` if there is
-- no such object.
unfoldable pub erase_first : (Element → Bool) → List Element → Option (List Element)
erase_first related [] = none
erase_first related (e ∷ es) =
    let rest = erase_first related es >>= λ ds. some (e ∷ ds) in if related e then rest else some es

-- The outer loop.
unfoldable pub erase_rounds : ℕ → (Element → Bool) → List Element → Option (List Element)
erase_rounds zero related elements = none
erase_rounds (suc fuel) related elements = elim elements [
  | [] ↦ some []
  | e ∷ es ↦ elim (erase_first related (e ∷ es)) [
    | none ↦ some (e ∷ es)
    | some ds ↦ erase_rounds fuel related ds
  ]
]

unfoldable pub remove_non_casting_related_obj :
    (List ℕ → Bool) → List Element → Option (List Element)
remove_non_casting_related_obj casting_related_set elements =
    erase_rounds (suc (length elements)) (is_casting_related casting_related_set) elements

abbrev pub filter : (Element → Bool) → List Element → List Element
filter related [] = []
filter related (e ∷ es) = if related e then e ∷ filter related es else filter related es

-- What a round erases, in terms of the filter.
abbrev Erases : (Element → Bool) → List Element → Option (List Element) → Type 0
Erases related es none = filter related es ≡ es
Erases related es (some ds) = (filter related ds ≡ filter related es) × (length ds < length es)

cons-Erases :
    (related : Element → Bool) (e : Element) (es : List Element) (r : Option (List Element))
    → related e ≡ true
    → Erases related es r
    → Erases related (e ∷ es) (r >>= λ ds. some (e ∷ ds))
cons-Erases related e es none yes_ h = rw yes_ (ap (λ ds. e ∷ ds) h)
cons-Erases related e es (some ds) yes_ h = rw yes_ (ap (λ xs. e ∷ xs) h.0, omega (arith, h.1))

erase_first-Erases :
    (related : Element → Bool) (es : List Element) → Erases related es (erase_first related es)
unfolding erase_first
erase_first-Erases related [] = refl
erase_first-Erases related (e ∷ es) = elim (Bool-cases (related e)) [
  | inl kept ↦
      rw kept
        (cons-Erases related e es (erase_first related es) kept (erase_first-Erases related es))
  | inr gone ↦ rw gone (rw gone refl, omega arith)
]

-- A round, if the next ones leave what the filter does.
round_lem :
    (fuel : ℕ) (related : Element → Bool) (es : List Element) (r : Option (List Element))
    → ((ds : List Element)
        → length ds < fuel
        → erase_rounds fuel related ds ≡ some (filter related ds))
    → length es < suc fuel
    → Erases related es r
    → (elim r [ none ↦ some es | some ds ↦ erase_rounds fuel related ds ])
      ≡ some (filter related es)
round_lem fuel related es none again l h = ap some (sym h)
round_lem fuel related es (some ds) again l h = again ds (omega (arith, h.1, l)) ∙ ap some h.0

erase_rounds_lem :
    (fuel : ℕ) (related : Element → Bool) (es : List Element)
    → length es < fuel
    → erase_rounds fuel related es ≡ some (filter related es)
unfolding erase_rounds
erase_rounds_lem zero related es l = absurd (omega arith)
erase_rounds_lem (suc fuel) related [] l = refl
erase_rounds_lem (suc fuel) related (e ∷ es) l =
    round_lem fuel related (e ∷ es) (erase_first related (e ∷ es))
      (λ ds k. erase_rounds_lem fuel related ds k) l (erase_first-Erases related (e ∷ es))

-- The loops, which start again after each object that they erase, end, and leave exactly the objects
-- whose types are casting-related, in their order.
pub remove_non_casting_related_obj-filter :
    (casting_related_set : List ℕ → Bool) (elements : List Element)
    → remove_non_casting_related_obj casting_related_set elements
      ≡ some (filter (is_casting_related casting_related_set) elements)
unfolding remove_non_casting_related_obj
remove_non_casting_related_obj-filter casting_related_set elements =
    erase_rounds_lem (suc (length elements)) (is_casting_related casting_related_set) elements
      (omega arith)
