-- ===== src/Types/Relations/Spans.antt =====
-- What a traversal marks and finds.
use hex_type.Prelude.{
  ℕ, zero, suc, ◌≤◌, ◌<◌, ◌≡◌, refl, ap, some, Bool, true, false, List, [], ◌∷◌, ◌++◌, inl, inr,
  ◌⊎◌, Has, length, get_elem?, modify, length-modify, arith,
}
use hex_type.Types.{TypeInfo, TypeDetailInfo}
use hex_type.Types.Relations.{Visit, marked}
use hex_type.Types.Relations.Reach.{Edge, Reach}

pub Has-append_left : {A : Type 0} (a : A) (xs ys : List A) → Has a xs → Has a (xs ++ ys)
Has-append_left a [] ys h = absurd h
Has-append_left a (x ∷ xs) ys (inl e) = inl e
Has-append_left a (x ∷ xs) ys (inr h) = inr (Has-append_left a xs ys h)

pub Has-append_right : {A : Type 0} (a : A) (xs ys : List A) → Has a ys → Has a (xs ++ ys)
Has-append_right a [] ys h = h
Has-append_right a (x ∷ xs) ys h = inr (Has-append_right a xs ys h)

pub Has-append_cases :
    {A : Type 0} (a : A) (xs ys : List A) → Has a (xs ++ ys) → Has a xs ⊎ Has a ys
Has-append_cases a [] ys h = inr h
Has-append_cases a (x ∷ xs) ys (inl e) = inl (inl e)
Has-append_cases a (x ∷ xs) ys (inr h) = elim (Has-append_cases a xs ys h) [
  | inl l ↦ inl (inr l)
  | inr r ↦ inr r
]

-- The types that are not marked.
abbrev pub unseen : List Bool → ℕ
unseen [] = 0
unseen (false ∷ bs) = suc (unseen bs)
unseen (true ∷ bs) = unseen bs

abbrev pub set_mark : List Bool → ℕ → List Bool
set_mark bs i = modify bs i (λ b. true)

pub unseen-set_mark :
    (bs : List Bool) (i : ℕ)
    → i < length bs
    → marked bs i ≡ false
    → suc (unseen (set_mark bs i)) ≡ unseen bs
unseen-set_mark [] i l e = absurd (omega arith)
unseen-set_mark (b ∷ bs) zero l e = rw e refl
unseen-set_mark (false ∷ bs) (suc i) l e = ap suc (unseen-set_mark bs i (omega arith) e)
unseen-set_mark (true ∷ bs) (suc i) l e = unseen-set_mark bs i (omega arith) e

pub length-set_mark : (bs : List Bool) (i : ℕ) → length (set_mark bs i) ≡ length bs
length-set_mark bs i = length-modify bs i (λ b. true)

pub marked-set_mark : (bs : List Bool) (i : ℕ) → i < length bs → marked (set_mark bs i) i ≡ true
marked-set_mark [] i l = absurd (omega arith)
marked-set_mark (b ∷ bs) zero l = refl
marked-set_mark (b ∷ bs) (suc i) l = marked-set_mark bs i (omega arith)

pub set_mark-cases : (bs : List Bool) (i w : ℕ) → (w ≡ i) ⊎ (marked (set_mark bs i) w ≡ marked bs w)
set_mark-cases [] i w = inr refl
set_mark-cases (b ∷ bs) zero zero = inl refl
set_mark-cases (b ∷ bs) zero (suc w) = inr refl
set_mark-cases (b ∷ bs) (suc i) zero = inr refl
set_mark-cases (b ∷ bs) (suc i) (suc w) = elim (set_mark-cases bs i w) [
  | inl e ↦ inl (ap suc e)
  | inr e ↦ inr e
]

pub set_mark_keeps :
    (bs : List Bool) (i w : ℕ) → marked bs w ≡ true → marked (set_mark bs i) w ≡ true
set_mark_keeps [] i w m = m
set_mark_keeps (b ∷ bs) zero zero m = refl
set_mark_keeps (b ∷ bs) zero (suc w) m = m
set_mark_keeps (b ∷ bs) (suc i) zero m = m
set_mark_keeps (b ∷ bs) (suc i) (suc w) m = set_mark_keeps bs i w m

module _ (edges : TypeInfo → List ℕ) (types : List TypeInfo) where
  -- A type that was marked on the way, with its relations.
  abbrev pub New : Visit → Visit → ℕ → Type 0
  New v v' w = (marked v'.visit_check w ≡ true) × (marked v.visit_check w ≡ false)

  -- From `v`, the roots have been traversed, with the result `v'`.
  pub record Spans (roots : List ℕ) (v v' : Visit) : Type 0 where
    pub size : length v'.visit_check ≡ length v.visit_check
    pub work : unseen v'.visit_check ≤ unseen v.visit_check
    pub grows : (w : ℕ) → marked v.visit_check w ≡ true → marked v'.visit_check w ≡ true
    pub covers : (r : ℕ) → Has r roots → marked v'.visit_check r ≡ true
    pub sound : (w : ℕ) → New v v' w → (r : ℕ) × Has r roots × Reach edges types r w
    pub closed : (u w : ℕ) → New v v' u → Edge edges types u w → marked v'.visit_check w ≡ true
    pub kept : (d : TypeDetailInfo) → Has d v.found → Has d v'.found
    pub listed :
        (w : ℕ) (t : TypeInfo)
        → New v v' w
        → get_elem? types w ≡ some t
        → Has t.detail_info v'.found
    pub origin :
        (d : TypeDetailInfo)
        → Has d v'.found
        → Has d v.found
          ⊎ ((w : ℕ) × (t : TypeInfo) × New v v' w
              × (get_elem? types w ≡ some t)
              × (d ≡ t.detail_info))

  pub Spans-none : (v : Visit) → Spans [] v v
  Spans-none v = record {
    size = refl;
    work = omega arith;
    grows = λ w m. m;
    covers = λ r h. absurd h;
    sound = λ w n. cc;
    closed = λ u w n e. cc;
    kept = λ d h. h;
    listed = λ w t n e. cc;
    origin = λ d h. inl h;
  }

  -- Nothing is left to do at a type that is marked.
  pub Spans-marked : (i : ℕ) (v : Visit) → marked v.visit_check i ≡ true → Spans (i ∷ []) v v
  Spans-marked i v m = record {
    size = refl;
    work = omega arith;
    grows = λ w k. k;
    covers = λ r h. elim h [ inl e ↦ rw e m | inr n ↦ absurd n ];
    sound = λ w n. cc;
    closed = λ u w n e. cc;
    kept = λ d h. h;
    listed = λ w t n e. cc;
    origin = λ d h. inl h;
  }
