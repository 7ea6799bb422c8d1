-- ===== src/Tracing/Functions.antt =====
-- The functions whose stack objects are traced.
use hex_type.Prelude.{
  ℕ, ◌≡◌, ◌≢◌, refl, ap, none, some, Bool, true, false, List, [], ◌∷◌, ◌==◌, ◌&&◌, ◌||◌, not,
  if◌then◌else◌, inl, inr, Has, Bool-cases, arith,
}
use hex_type.Tracing.{Fn, lookup, insert_new, has_any, may_cast, is_safe_stack_fn, traced_functions}

-- The functions whose bodies are visited, and of which with `ClStackOpt` those that call anything.
abbrev pub is_traced : Bool → Fn → Bool
is_traced stack_opt f =
    f.is_interesting && (not stack_opt || (f.is_declaration || has_any f.callees))

abbrev pub filter_ids : Bool → List Fn → List ℕ
filter_ids stack_opt [] = []
filter_ids stack_opt (f ∷ fs) =
    let rest = filter_ids stack_opt fs in if is_traced stack_opt f then f.id ∷ rest else rest

abbrev pub Differ : List Fn → Type 0
Differ [] = Unit
Differ (f ∷ fs) = ((g : Fn) → Has g fs → g.id ≢ f.id) × Differ fs

lookup-insert_new :
    (i j : ℕ) (b : Bool) (m : List (ℕ × Bool))
    → j ≢ i
    → lookup i m ≡ none
    → lookup j m ≡ none
    → lookup j (insert_new i b m) ≡ none
lookup-insert_new i j b m n e f =
    let g : (j == i) ≡ false = ground arith in
    let added : insert_new i b m ≡ (i, b) ∷ m =
      ap (λ o. elim o [ none ↦ (i, b) ∷ m | some c ↦ m ]) e in
    rw (added, g) f

may_cast_lem :
    (f : Fn) (m : List (ℕ × Bool))
    → lookup f.id m ≡ none
    → may_cast f m ≡ (f.is_declaration || has_any f.callees)
unfolding may_cast
may_cast_lem f m e = elim (Bool-cases f.is_declaration) [
  | inl d ↦ rw d refl
  | inr d ↦ rw d (ap (λ o. elim o [ some b ↦ b | none ↦ has_any f.callees ]) e)
]

choice_lem :
    (interesting stack_opt casts : Bool) (i : ℕ) (rest : List ℕ)
    → (if not interesting
        then rest
        else if stack_opt
        then (if casts then i ∷ rest else rest)
        else i ∷ rest)
      ≡ (if interesting && (not stack_opt || casts) then i ∷ rest else rest)
choice_lem true true true i rest = refl
choice_lem true true false i rest = refl
choice_lem true false true i rest = refl
choice_lem true false false i rest = refl
choice_lem false stack_opt casts i rest = refl

traced_functions_lem :
    (stack_opt : Bool) (fs : List Fn) (m : List (ℕ × Bool))
    → Differ fs
    → ((f : Fn) → Has f fs → lookup f.id m ≡ none)
    → traced_functions stack_opt fs m ≡ filter_ids stack_opt fs
unfolding traced_functions is_safe_stack_fn
traced_functions_lem stack_opt [] m d fresh = refl
traced_functions_lem stack_opt (f ∷ fs) m d fresh =
    let missing = fresh f (inl refl) in
    let same = traced_functions_lem stack_opt fs m d.1 (λ g h. fresh g (inr h)) in
    let later =
      traced_functions_lem stack_opt fs (insert_new f.id (may_cast f m) m) d.1
        (λ g h. lookup-insert_new f.id g.id (may_cast f m) m (d.0 g h) missing (fresh g (inr h))) in
    rw (later, same, may_cast_lem f m missing)
      (choice_lem f.is_interesting stack_opt (f.is_declaration || has_any f.callees) f.id
        (filter_ids stack_opt fs))

-- Over functions that differ, from an empty map: the objects on the stack of exactly those functions
-- are traced that are of interest and, with the stack optimisation, call anything.
pub traced_functions-filter_ids :
    (stack_opt : Bool) (fs : List Fn)
    → Differ fs
    → traced_functions stack_opt fs [] ≡ filter_ids stack_opt fs
traced_functions-filter_ids stack_opt fs d = traced_functions_lem stack_opt fs [] d (λ f h. refl)
