-- ===== src/Tracing/Lifetimes.antt =====
-- Where the objects of an alloca are registered and removed, by the intrinsics that stand in the code.
use hex_type.Prelude.{
  ℕ, ◌≡◌, refl, sym, ap, ◌∙◌, Option, none, some, Bool, true, false, List, [], ◌∷◌, ◌==◌, ◌&&◌, not,
  if◌then◌else◌, inl, inr, Bool-cases, ◌⊎◌, eq_of_==,
}
use hex_type.Tracing.{
  Intrinsic, LifeTimes, Alloca, places, insert_place, collect_life_time_info, collect_life_times,
  handle_alloca_add, handle_alloca_delete,
}

-- The intrinsic is of the kind, for the alloca, and of a known size.
abbrev pub concerns : Bool → ℕ → Intrinsic → Bool
concerns start a i =
    not i.is_minus_one
    && ((if start then i.is_start else not i.is_start)
        && (elim i.found [ none ↦ false | some b ↦ a == b ]))

-- The first such intrinsic.
abbrev pub first_place : Bool → ℕ → List Intrinsic → List ℕ
first_place start a [] = []
first_place start a (i ∷ is_) =
    let rest = first_place start a is_ in if concerns start a i then i.place ∷ [] else rest

abbrev side : Bool → LifeTimes → List (ℕ × ℕ)
side true l = l.start_set
side false l = l.end_set

abbrev pub or_else : List ℕ → List ℕ → List ℕ
or_else [] ys = ys
or_else (x ∷ xs) ys = x ∷ xs

or_else_nil : (xs : List ℕ) → or_else xs [] ≡ xs
or_else_nil [] = refl
or_else_nil (x ∷ xs) = refl

List-cases : (xs : List ℕ) → (xs ≡ []) ⊎ ((x : ℕ) × (ys : List ℕ) × (xs ≡ x ∷ ys))
List-cases [] = inl refl
List-cases (x ∷ xs) = inr (x, xs, refl)

places-insert_place :
    (a b i : ℕ) (m : List (ℕ × ℕ))
    → places a (insert_place b i m) ≡ or_else (places a m) (if a == b then i ∷ [] else [])
places-insert_place a b i m = elim (List-cases (places b m)) [
  | inl e ↦
      let added : insert_place b i m ≡ (b, i) ∷ m =
        ap (λ o. elim o [ [] ↦ (b, i) ∷ m | j ∷ js ↦ m ]) e in
      elim (Bool-cases (a == b)) [
        | inl same ↦
            let f : places a m ≡ [] = ap (λ c. places c m) (eq_of_== a b same) ∙ e in
            rw (added, same) (rw f refl)
        | inr differ ↦ rw (added, differ) (sym (or_else_nil (places a m)))
      ]
  | inr (j, js, e) ↦
      let kept : insert_place b i m ≡ m = ap (λ o. elim o [ [] ↦ (b, i) ∷ m | j ∷ js ↦ m ]) e in
      elim (Bool-cases (a == b)) [
        | inl same ↦
            let f : places a m ≡ j ∷ js = ap (λ c. places c m) (eq_of_== a b same) ∙ e in
            rw (kept, same) (rw f refl)
        | inr differ ↦ rw (kept, differ) (sym (or_else_nil (places a m)))
      ]
]

-- One intrinsic, by its fields.
step_lem :
    (start : Bool) (a place : ℕ) (is_start is_minus_one : Bool) (found : Option ℕ) (l : LifeTimes)
    → let i : Intrinsic = record {
      place = place;
      is_start = is_start;
      is_minus_one = is_minus_one;
      found = found;
    } in
      places a (side start (collect_life_time_info i l))
      ≡ or_else (places a (side start l)) (if concerns start a i then place ∷ [] else [])
unfolding collect_life_time_info
step_lem start a place is_start true none l = sym (or_else_nil (places a (side start l)))
step_lem start a place is_start true (some b) l = sym (or_else_nil (places a (side start l)))
step_lem true a place true false none l = sym (or_else_nil (places a l.start_set))
step_lem true a place false false none l = sym (or_else_nil (places a l.start_set))
step_lem false a place true false none l = sym (or_else_nil (places a l.end_set))
step_lem false a place false false none l = sym (or_else_nil (places a l.end_set))
step_lem true a place true false (some b) l = places-insert_place a b place l.start_set
step_lem true a place false false (some b) l = sym (or_else_nil (places a l.start_set))
step_lem false a place true false (some b) l = sym (or_else_nil (places a l.end_set))
step_lem false a place false false (some b) l = places-insert_place a b place l.end_set

or_else_first :
    (xs : List ℕ) (c : Bool) (i : ℕ) (ys : List ℕ)
    → or_else (or_else xs (if c then i ∷ [] else [])) ys ≡ or_else xs (if c then i ∷ [] else ys)
or_else_first [] true i ys = refl
or_else_first [] false i ys = refl
or_else_first (x ∷ xs) c i ys = refl

collect_lem :
    (start : Bool) (a : ℕ) (is_ : List Intrinsic) (l : LifeTimes)
    → places a (side start (collect_life_times is_ l))
      ≡ or_else (places a (side start l)) (first_place start a is_)
unfolding collect_life_times
collect_lem start a [] l = sym (or_else_nil (places a (side start l)))
collect_lem start a (i ∷ is_) l =
    collect_lem start a is_ (collect_life_time_info i l)
    ∙ ap (λ xs. or_else xs (first_place start a is_))
        (step_lem start a i.place i.is_start i.is_minus_one i.found l)
    ∙ or_else_first (places a (side start l)) (concerns start a i) i.place (first_place start a is_)

abbrev pub no_life_times : LifeTimes
no_life_times = record { start_set = []; end_set = [] }

-- The objects of an alloca that has any are registered before the first lifetime.start of known size
-- that concerns it, or if there is none after the alloca; and unless the function returns it they
-- are removed before the first such lifetime.end only, or if there is none before every return that
-- it dominates.
pub handle_alloca-first_place :
    (is_ : List Intrinsic) (a : Alloca)
    → a.has_no_objects ≡ false
    → a.is_returned ≡ false
    → let l = collect_life_times is_ no_life_times in
      (handle_alloca_add l a ≡ or_else (first_place true a.id is_) (a.next ∷ []))
      × (handle_alloca_delete l a ≡ or_else (first_place false a.id is_) a.dominated_returns)
unfolding handle_alloca_add handle_alloca_delete
handle_alloca-first_place is_ a objects stays =
    let starts = collect_lem true a.id is_ no_life_times in
    let ends = collect_lem false a.id is_ no_life_times in
    (
      rw (objects, starts) (or_else_elim (first_place true a.id is_) (a.next ∷ [])),
      rw (stays, objects, ends) (or_else_elim (first_place false a.id is_) a.dominated_returns),
    )
  where
    or_else_elim : (xs ys : List ℕ) → (elim xs [ [] ↦ ys | i ∷ js ↦ i ∷ js ]) ≡ or_else xs ys
    or_else_elim [] ys = refl
    or_else_elim (x ∷ xs) ys = refl
