-- ===== src/Prelude.antt =====
-- The names that the other modules share: the libraries', passed on, and the tests on numbers, the
-- chain of nullable pointers and the case splits that the components have in common.
use Prim.Native.Nat.{compare, Ordering}
pub use Prim.Native.Nat.{ℕ, zero, suc, ◌+◌, ◌-◌, ◌*◌, ◌/◌, ◌%◌, ◌^◌, ◌≤◌, ◌<◌}
pub use mathlib.Core.Path.{◌≡◌, refl, sym, ap, subst, ◌∙◌}
pub use mathlib.Core.Logic.{◌≢◌, ◌⊎◌, inl, inr}
pub use mathlib.Core.Bool.{Bool, true, false, not, ◌&&◌, ◌||◌}
pub use mathlib.Core.Option.{Option, none, some}
pub use mathlib.Core.List.{List, [], ◌∷◌, ◌++◌, append_assoc, append-nil}
pub use native.Mathlib.Omega.{arith}

-- Boolean tests; they compute to `compare`, which `ground` and `grind` read.
abbrev pub ltb : ℕ → ℕ → Bool
ltb a b = elim (compare a b) [ Ordering.lt ↦ true | _ ↦ false ]

infix 50 ◌==◌
abbrev pub ◌==◌ : ℕ → ℕ → Bool
a == b = elim (compare a b) [ Ordering.eq ↦ true | _ ↦ false ]

infix 1 if◌then◌else◌
abbrev pub if◌then◌else◌ {ℓ} : {A : Type ℓ} → Bool → A → A → A
if true then x else y = x
if false then x else y = y

pub Bool-cases : (b : Bool) → (b ≡ true) ⊎ (b ≡ false)
Bool-cases true = inl refl
Bool-cases false = inr refl

pub Option-cases {ℓ} : {A : Type ℓ} (o : Option A) → (o ≡ none) ⊎ ((a : A) × (o ≡ some a))
Option-cases none = inl refl
Option-cases (some a) = inr (a, refl)

pub some_inj {ℓ} : {A : Type ℓ} (a b : A) → some a ≡ some b → a ≡ b
some_inj a b e = cc

pub ==_refl : (a : ℕ) → (a == a) ≡ true
==_refl a = ground arith

pub eq_of_== : (a b : ℕ) → (a == b) ≡ true → a ≡ b
eq_of_== a b h = ground arith

pub ne_of_== : (a b : ℕ) → (a == b) ≡ false → a ≢ b
ne_of_== a b h = ground arith

-- A pointer that may be null, followed; `none` is a dereference of null.
infixl 5 ◌>>=◌
abbrev pub ◌>>=◌ {ℓ κ} : {A : Type ℓ} {B : Type κ} → Option A → (A → Option B) → Option B
none >>= f = none
some a >>= f = f a

-- The run ends without a fault, in a value that satisfies `P`.
abbrev pub Returns {ℓ κ} : {A : Type ℓ} → Option A → (A → Type κ) → Type (ℓ ⊔ κ)
Returns {A} r P = (a : A) × (r ≡ some a) × P a

-- If the run ends without a fault, its value satisfies `P`.
abbrev pub Holds {ℓ} : {A : Type ℓ} → Option A → (A → Type ℓ) → Type ℓ
Holds none P = Unit
Holds (some a) P = P a

pub Returns-Holds {ℓ} :
    {A : Type ℓ} (r : Option A) (P : A → Type ℓ) → r ≢ none → Holds r P → Returns r P
Returns-Holds none P n h = absurd (n refl)
Returns-Holds (some a) P n h = (a, refl, h)

-- `Returns`, computed from the run.
abbrev pub Yields {ℓ} : {A : Type ℓ} → Option A → (A → Type 0) → Type 0
Yields none P = ⊥
Yields (some a) P = P a

pub Yields-Returns {ℓ} : {A : Type ℓ} (r : Option A) (P : A → Type 0) → Yields r P → Returns r P
Yields-Returns none P h = absurd h
Yields-Returns (some a) P h = (a, refl, h)

module _ {ℓ} {A : Type ℓ} where
  abbrev pub length : List A → ℕ
  length [] = 0
  length (x ∷ xs) = suc (length xs)

  pub length-append : (xs ys : List A) → length (xs ++ ys) ≡ length xs + length ys
  length-append [] ys = omega arith
  length-append (x ∷ xs) ys = omega (arith, length-append xs ys)

  -- An element at an index; `none` is out of range.
  abbrev pub get_elem? : List A → ℕ → Option A
  get_elem? [] i = none
  get_elem? (x ∷ xs) zero = some x
  get_elem? (x ∷ xs) (suc i) = get_elem? xs i

  pub get_elem?_bound : (xs : List A) (i : ℕ) (x : A) → get_elem? xs i ≡ some x → i < length xs
  get_elem?_bound [] i x e = cc
  get_elem?_bound (y ∷ xs) zero x e = omega arith
  get_elem?_bound (y ∷ xs) (suc i) x e = omega (arith, get_elem?_bound xs i x e)

  -- A list with one element rewritten.
  abbrev pub modify : List A → ℕ → (A → A) → List A
  modify [] i f = []
  modify (x ∷ xs) zero f = f x ∷ xs
  modify (x ∷ xs) (suc i) f = x ∷ modify xs i f

  pub length-modify : (xs : List A) (i : ℕ) (f : A → A) → length (modify xs i f) ≡ length xs
  length-modify [] i f = refl
  length-modify (x ∷ xs) zero f = refl
  length-modify (x ∷ xs) (suc i) f = ap suc (length-modify xs i f)

  pub get_elem?_below : (xs : List A) (i : ℕ) → i < length xs → (x : A) × (get_elem? xs i ≡ some x)
  get_elem?_below [] i l = absurd (omega arith)
  get_elem?_below (x ∷ xs) zero l = (x, refl)
  get_elem?_below (x ∷ xs) (suc i) l = get_elem?_below xs i (omega arith)

  pub get_elem?-modify :
      (xs : List A) (i : ℕ) (f : A → A) (x : A)
      → get_elem? xs i ≡ some x
      → get_elem? (modify xs i f) i ≡ some (f x)
  get_elem?-modify [] i f x e = cc
  get_elem?-modify (y ∷ xs) zero f x e = cc
  get_elem?-modify (y ∷ xs) (suc i) f x e = get_elem?-modify xs i f x e

  pub get_elem?-modify_other :
      (xs : List A) (i w : ℕ) (f : A → A) → w ≢ i → get_elem? (modify xs i f) w ≡ get_elem? xs w
  get_elem?-modify_other [] i w f n = refl
  get_elem?-modify_other (x ∷ xs) zero zero f n = absurd (n refl)
  get_elem?-modify_other (x ∷ xs) zero (suc w) f n = refl
  get_elem?-modify_other (x ∷ xs) (suc i) zero f n = refl
  get_elem?-modify_other (x ∷ xs) (suc i) (suc w) f n =
      get_elem?-modify_other xs i w f (λ e. n (ap suc e))

  -- What is at an index after one element was rewritten.
  pub get_elem?-modify_cases :
      (xs : List A) (i u : ℕ) (f : A → A) (y : A)
      → get_elem? (modify xs i f) u ≡ some y
      → ((u ≢ i) × (get_elem? xs u ≡ some y))
        ⊎ ((u ≡ i) × (x : A) × (get_elem? xs i ≡ some x) × (f x ≡ y))
  get_elem?-modify_cases [] i u f y e = cc
  get_elem?-modify_cases (x ∷ xs) zero zero f y e = inr (refl, x, refl, some_inj (f x) y e)
  get_elem?-modify_cases (x ∷ xs) zero (suc u) f y e = inl (omega arith, e)
  get_elem?-modify_cases (x ∷ xs) (suc i) zero f y e = inl (omega arith, e)
  get_elem?-modify_cases (x ∷ xs) (suc i) (suc u) f y e =
      elim (get_elem?-modify_cases xs i u f y e) [
        | inl (n, q) ↦ inl (omega arith, q)
        | inr (n, z, q, r) ↦ inr (ap suc n, z, q, r)
      ]

-- The elements of a list.
abbrev pub Has : {A : Type 0} → A → List A → Type 0
Has a [] = ⊥
Has a (x ∷ xs) = (a ≡ x) ⊎ Has a xs

module _ {ℓ κ} {A : Type ℓ} {B : Type κ} (g : A → B) where
  abbrev pub map : List A → List B
  map [] = []
  map (x ∷ xs) = g x ∷ map xs

  pub length-map : (xs : List A) → length (map xs) ≡ length xs
  length-map [] = refl
  length-map (x ∷ xs) = ap suc (length-map xs)

  pub map-modify :
      (xs : List A) (i : ℕ) (f : A → A) → ((x : A) → g (f x) ≡ g x) → map (modify xs i f) ≡ map xs
  map-modify [] i f same = refl
  map-modify (x ∷ xs) zero f same = ap (λ y. y ∷ map xs) (same x)
  map-modify (x ∷ xs) (suc i) f same = ap (λ ys. g x ∷ ys) (map-modify xs i f same)

  pub get_elem?-map :
      (xs : List A) (i : ℕ) (x : A) → get_elem? xs i ≡ some x → get_elem? (map xs) i ≡ some (g x)
  get_elem?-map [] i x e = cc
  get_elem?-map (y ∷ xs) zero x e = ap (λ z. some (g z)) (some_inj y x e)
  get_elem?-map (y ∷ xs) (suc i) x e = get_elem?-map xs i x e

  pub get_elem?-map_cases :
      (xs : List A) (i : ℕ) (b : B)
      → get_elem? (map xs) i ≡ some b
      → (x : A) × (get_elem? xs i ≡ some x) × (g x ≡ b)
  get_elem?-map_cases [] i b e = cc
  get_elem?-map_cases (x ∷ xs) zero b e = (x, refl, some_inj (g x) b e)
  get_elem?-map_cases (x ∷ xs) (suc i) b e = get_elem?-map_cases xs i b e

-- The loop over a list, with a step that may fail; and `for` from `start`, with `n` rounds.
abbrev pub each {ℓ κ} : {A : Type ℓ} {S : Type κ} → (A → S → Option S) → List A → S → Option S
each call [] v = some v
each call (i ∷ is) v = do v' ← call i v; each call is v'

abbrev pub upto : ℕ → ℕ → List ℕ
upto zero start = []
upto (suc n) start = start ∷ upto n (suc start)

pub upto_below : (n start j : ℕ) → Has j (upto n start) → j < start + n
upto_below zero start j h = absurd h
upto_below (suc n) start j (inl e) = omega arith
upto_below (suc n) start j (inr h) = omega (arith, upto_below n (suc start) j h)

-- A loop whose steps return and keep an invariant returns and keeps it.
pub each_keeps {κ μ} :
    {A : Type 0} {S : Type κ} (P : S → Type μ) (Q : A → Type 0) (call : A → S → Option S)
    → ((i : A) (s : S) → Q i → P s → Returns (call i s) P)
    → (is : List A) → ((i : A) → Has i is → Q i)
    → (s : S) → P s
    → Returns (each call is s) P
each_keeps P Q call good [] q s p = (s, refl, p)
each_keeps P Q call good (i ∷ is) q s p =
    let (s₁, e₁, p₁) = good i s (q i (inl refl)) p in
    let (s₂, e₂, p₂) = each_keeps P Q call good is (λ j h. q j (inr h)) s₁ p₁ in
    (s₂, rw (e₁, ◌>>=◌) e₂, p₂)

-- Whether a number is among some.
abbrev pub contains : ℕ → List ℕ → Bool
contains x [] = false
contains x (y ∷ ys) = y == x || contains x ys
