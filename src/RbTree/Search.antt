-- ===== src/RbTree/Search.antt =====
-- Sorted lists of entries: what the tree stands for. Keys are equal when `compare` says so.
use Prim.Native.Nat.Ordering.{lt, eq, gt}
use Prim.Native.Nat.{Ordering}
use hex_type.Prelude.{ℕ, ◌<◌, ◌≡◌, ◌≢◌, refl, Option, none, some, List, [], ◌∷◌, ◌++◌, arith}
use hex_type.RbTree.{as_int, compare}

-- What a write of `a` under one key makes of `b` under another that compares so with it.
abbrev pub override {ℓ} : {A : Type ℓ} → Ordering → A → A → A
override eq a b = a
override _ a b = b

pub override_same {ℓ} : {A : Type ℓ} (o : Ordering) (a : A) → override o a a ≡ a
override_same eq a = refl
override_same lt a = refl
override_same gt a = refl

pub compare_refl : (q : ℕ) → compare q q ≡ eq
unfolding compare
compare_refl q = ground arith

-- What `compare` says of the three numbers that it is computed from.
pub record Compares (a b : ℕ) (o : Ordering) : Type 0 where
  pub below : o ≡ lt → as_int a < as_int b
  pub same : o ≡ eq → as_int a ≡ as_int b
  pub above : o ≡ gt → as_int b < as_int a

pub compare_lem : (a b : ℕ) → Compares a b (compare a b)
unfolding compare
compare_lem a b = ground arith

module _ {ℓ} {V : Type ℓ} where
  abbrev pub find : ℕ → List (ℕ × V) → Option V
  find q [] = none
  find q ((k, v) ∷ m) = elim (compare q k) [ eq ↦ some v | _ ↦ find q m ]

  abbrev pub put : ℕ → V → List (ℕ × V) → List (ℕ × V)
  put q w [] = (q, w) ∷ []
  put q w ((k, v) ∷ m) = elim (compare q k) [
    | eq ↦ (k, w) ∷ m
    | lt ↦ (q, w) ∷ (k, v) ∷ m
    | gt ↦ (k, v) ∷ put q w m
  ]

  abbrev pub remove : ℕ → List (ℕ × V) → List (ℕ × V)
  remove q [] = []
  remove q ((k, v) ∷ m) = elim (compare q k) [ eq ↦ m | _ ↦ (k, v) ∷ remove q m ]

  abbrev pub Below : ℕ → List (ℕ × V) → Type 0
  Below q [] = Unit
  Below q ((k, v) ∷ m) = (as_int k < as_int q) × Below q m

  abbrev pub Above : ℕ → List (ℕ × V) → Type 0
  Above q [] = Unit
  Above q ((k, v) ∷ m) = (as_int q < as_int k) × Above q m

  abbrev pub IsSorted : List (ℕ × V) → Type 0
  IsSorted [] = Unit
  IsSorted ((k, v) ∷ m) = Above k m × IsSorted m

  -- No entry has the key.
  abbrev pub Absent : ℕ → List (ℕ × V) → Type 0
  Absent q [] = Unit
  Absent q ((k, v) ∷ m) = (as_int q ≢ as_int k) × Absent q m

  Above-trans : (p q : ℕ) (m : List (ℕ × V)) → as_int p < as_int q → Above q m → Above p m
  Above-trans p q [] h a = tt
  Above-trans p q ((k, v) ∷ m) h a = (omega arith, Above-trans p q m h a.1)

  pub Above-Absent : (q k : ℕ) (m : List (ℕ × V)) → as_int q ≡ as_int k → Above k m → Absent q m
  Above-Absent q k [] e a = tt
  Above-Absent q k ((j, v) ∷ m) e a = (omega arith, Above-Absent q k m e a.1)

  pub Absent-Above : (q k : ℕ) (m : List (ℕ × V)) → as_int q < as_int k → Above k m → Absent q m
  Absent-Above q k [] h a = tt
  Absent-Above q k ((j, v) ∷ m) h a = (omega arith, Absent-Above q k m h a.1)

  pub Absent-Below : (q k : ℕ) (m : List (ℕ × V)) → as_int k < as_int q → Below k m → Absent q m
  Absent-Below q k [] h a = tt
  Absent-Below q k ((j, v) ∷ m) h a = (omega arith, Absent-Below q k m h a.1)

  pub Absent-append : (q : ℕ) (a b : List (ℕ × V)) → Absent q a → Absent q b → Absent q (a ++ b)
  Absent-append q [] b h i = i
  Absent-append q (e ∷ a) b h i = (h.0, Absent-append q a b h.1 i)

  pub find-Absent : (q : ℕ) (m : List (ℕ × V)) → Absent q m → find q m ≡ none
  find-Absent q [] h = refl
  find-Absent q ((k, v) ∷ m) h = ground (arith, compare_lem q k, find-Absent q m h.1)

  pub remove-Absent : (q : ℕ) (m : List (ℕ × V)) → Absent q m → remove q m ≡ m
  remove-Absent q [] h = refl
  remove-Absent q ((k, v) ∷ m) h = ground (arith, compare_lem q k, remove-Absent q m h.1)

  Above-middle :
      (j : ℕ) (a : List (ℕ × V)) (k : ℕ) (v : V) (b : List (ℕ × V))
      → Above j (a ++ (k, v) ∷ b)
      → Above j a × (as_int j < as_int k) × Above j b
  Above-middle j [] k v b h = (tt, h.0, h.1)
  Above-middle j (e ∷ a) k v b h = let i = Above-middle j a k v b h.1 in ((h.0, i.0), i.1, i.2)

  -- A sorted list, taken apart at an entry.
  pub IsSorted-middle :
      (a : List (ℕ × V)) (k : ℕ) (v : V) (b : List (ℕ × V))
      → IsSorted (a ++ (k, v) ∷ b)
      → Below k a × Above k b × IsSorted a × IsSorted b
  IsSorted-middle [] k v b s = (tt, s.0, tt, s.1)
  IsSorted-middle ((j, w) ∷ a) k v b s =
      let i = IsSorted-middle a k v b s.1 in
      let h = Above-middle j a k v b s.0 in ((h.1, i.0), i.1, (h.0, i.2), i.3)

  pub find_middle :
      (q : ℕ) (a : List (ℕ × V)) (k : ℕ) (v : V) (b : List (ℕ × V))
      → as_int q ≡ as_int k
      → Below k a
      → find q (a ++ (k, v) ∷ b) ≡ some v
  find_middle q [] k v b e h = ground (arith, compare_lem q k)
  find_middle q ((j, w) ∷ a) k v b e h =
      ground (arith, compare_lem q j, find_middle q a k v b e h.1)

  pub remove_middle :
      (q : ℕ) (a : List (ℕ × V)) (k : ℕ) (v : V) (b : List (ℕ × V))
      → as_int q ≡ as_int k
      → Below k a
      → remove q (a ++ (k, v) ∷ b) ≡ a ++ b
  remove_middle q [] k v b e h = ground (arith, compare_lem q k)
  remove_middle q ((j, w) ∷ a) k v b e h =
      ground (arith, compare_lem q j, remove_middle q a k v b e h.1)

  pub put_before :
      (q : ℕ) (w : V) (a : List (ℕ × V)) (k : ℕ) (v : V) (b : List (ℕ × V))
      → compare q k ≡ lt
      → put q w (a ++ (k, v) ∷ b) ≡ put q w a ++ (k, v) ∷ b
  put_before q w [] k v b e = ground arith
  put_before q w ((j, x) ∷ a) k v b e = ground (arith, put_before q w a k v b e)

  pub put_middle :
      (q : ℕ) (w : V) (a : List (ℕ × V)) (k : ℕ) (v : V) (b : List (ℕ × V))
      → compare q k ≡ eq
      → Below k a
      → put q w (a ++ (k, v) ∷ b) ≡ a ++ (k, w) ∷ b
  put_middle q w [] k v b e h = ground arith
  put_middle q w ((j, x) ∷ a) k v b e h =
      ground (arith, compare_lem q j, compare_lem q k, put_middle q w a k v b e h.1)

  pub put_after :
      (q : ℕ) (w : V) (a : List (ℕ × V)) (k : ℕ) (v : V) (b : List (ℕ × V))
      → compare q k ≡ gt
      → Below k a
      → put q w (a ++ (k, v) ∷ b) ≡ a ++ (k, v) ∷ put q w b
  put_after q w [] k v b e h = ground arith
  put_after q w ((j, x) ∷ a) k v b e h =
      ground (arith, compare_lem q j, compare_lem q k, put_after q w a k v b e h.1)

  Above-put :
      (j q : ℕ) (w : V) (m : List (ℕ × V)) → as_int j < as_int q → Above j m → Above j (put q w m)
  Above-put j q w [] h a = (h, tt)
  Above-put j q w ((k, v) ∷ m) h a = ground (arith, Above-put j q w m h a.1)

  pub put-IsSorted : (q : ℕ) (w : V) (m : List (ℕ × V)) → IsSorted m → IsSorted (put q w m)
  put-IsSorted q w [] s = (tt, tt)
  put-IsSorted q w ((k, v) ∷ m) s =
      ground (arith, compare_lem q k, put-IsSorted q w m s.1, Above-put k q w m, Above-trans q k m)

  Above-remove : (j q : ℕ) (m : List (ℕ × V)) → Above j m → Above j (remove q m)
  Above-remove j q [] a = tt
  Above-remove j q ((k, v) ∷ m) a = ground (arith, Above-remove j q m a.1)

  pub remove-IsSorted : (q : ℕ) (m : List (ℕ × V)) → IsSorted m → IsSorted (remove q m)
  remove-IsSorted q [] s = tt
  remove-IsSorted q ((k, v) ∷ m) s = ground (arith, remove-IsSorted q m s.1, Above-remove k q m s.0)

  pub find_same_key : (p q : ℕ) (m : List (ℕ × V)) → as_int p ≡ as_int q → find p m ≡ find q m
  find_same_key p q [] e = refl
  find_same_key p q ((k, v) ∷ m) e =
      ground (arith, compare_lem p k, compare_lem q k, find_same_key p q m e)

  -- A write is seen under every key that compares equal, and under no other.
  pub find-put :
      (p q : ℕ) (w : V) (m : List (ℕ × V))
      → find p (put q w m) ≡ override (compare p q) (some w) (find p m)
  find-put p q w [] = ground (arith, compare_lem p q)
  find-put p q w ((k, v) ∷ m) =
      ground (arith, compare_lem p q, compare_lem q k, compare_lem p k, find-put p q w m)

  pub find-remove :
      (p q : ℕ) (m : List (ℕ × V))
      → IsSorted m
      → find p (remove q m) ≡ override (compare p q) none (find p m)
  find-remove p q [] s = ground arith
  find-remove p q ((k, v) ∷ m) s = ground (
    arith,
    compare_lem p q,
    compare_lem q k,
    compare_lem p k,
    find-remove p q m s.1,
    find-Absent p m,
    Above-Absent p k m,
  )
