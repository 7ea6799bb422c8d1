-- ===== src/Types/Relations/Traversal.antt =====
-- That `extendParentSet` and `extendPhantomSet` return, and what they have then found.
use hex_type.Prelude.{
  subst, ℕ, zero, suc, ◌<◌, ◌≤◌, ltb, ◌≡◌, refl, sym, ap, ◌∙◌, Option, some, Bool, true, false,
  List, [], ◌∷◌, inl, inr, Bool-cases, Has, length, get_elem?, get_elem?_below, each, arith,
  Returns, ◌>>=◌,
}
use hex_type.Types.{TypeInfo, TypeDetailInfo}
use hex_type.Types.Relations.{Visit, marked, enter, extend_set, maxnode, all_false, blank, traverse}
use hex_type.Types.Relations.Reach.{Edge, Reach, here, step}
use hex_type.Types.Relations.Spans.{
  Spans, Spans-none, Spans-marked, length-set_mark, unseen-set_mark, unseen,
}
use hex_type.Types.Relations.Steps.{Spans-trans, Spans-enter}

module _ (edges : TypeInfo → List ℕ) (types : List TypeInfo) where
  -- Every relation has the index of a type.
  abbrev pub InRange : Type 0
  InRange = (u w : ℕ) → Edge edges types u w → w < length types

  -- A call with enough fuel returns, whatever has been marked.
  abbrev Traverses : (ℕ → Visit → Option Visit) → ℕ → Type 0
  Traverses call fuel =
      (i : ℕ) (v : Visit)
      → length v.visit_check ≡ length types
      → i < length types
      → unseen v.visit_check < fuel
      → Returns (call i v) (Spans edges types (i ∷ []) v)

  each-Returns :
      (call : ℕ → Visit → Option Visit) (fuel : ℕ)
      → Traverses call fuel
      → (is : List ℕ) → ((j : ℕ) → Has j is → j < length types)
      → (v : Visit) → length v.visit_check ≡ length types
      → unseen v.visit_check < fuel
      → Returns (each call is v) (Spans edges types is v)
  each-Returns call fuel good [] below v size work = (v, refl, Spans-none edges types v)
  each-Returns call fuel good (i ∷ is) below v size work =
      let (v₁, e₁, s₁) = good i v size (below i (inl refl)) work in
      let (v₂, e₂, s₂) =
        each-Returns call fuel good is (λ j h. below j (inr h)) v₁ (s₁.size ∙ size)
          (omega (arith, s₁.work)) in
      (v₂, rw (e₁, ◌>>=◌) e₂, Spans-trans edges types i is v v₁ v₂ s₁ s₂)

  extend_set-marked :
      (fuel i : ℕ) (v : Visit)
      → marked v.visit_check i ≡ true
      → extend_set edges types (suc fuel) i v ≡ some v
  unfolding extend_set
  extend_set-marked fuel i v m = rw (m, extend_set) refl

  extend_set-unmarked :
      (fuel i : ℕ) (v : Visit) (t : TypeInfo)
      → marked v.visit_check i ≡ false
      → get_elem? types i ≡ some t
      → extend_set edges types (suc fuel) i v
        ≡ each (extend_set edges types fuel) (edges t) (enter i t v)
  unfolding extend_set
  extend_set-unmarked fuel i v t m e = rw (m, extend_set) (rw e refl)

  extend_set-Returns : InRange → (fuel : ℕ) → Traverses (extend_set edges types fuel) fuel
  extend_set-Returns ok zero i v size l work = absurd (omega arith)
  extend_set-Returns ok (suc fuel) i v size l work = elim (Bool-cases (marked v.visit_check i)) [
    | inl m ↦ (v, extend_set-marked fuel i v m, Spans-marked edges types i v m)
    | inr m ↦
        let (t, e) = get_elem?_below types i l in
        let b = unseen-set_mark v.visit_check i (omega arith) m in
        let (v', r, s) =
          each-Returns (extend_set edges types fuel) fuel (extend_set-Returns ok fuel) (edges t)
            (λ j h. ok i j (t, e, h)) (enter i t v) (length-set_mark v.visit_check i ∙ size)
            (omega arith) in
        (
          v',
          extend_set-unmarked fuel i v t m e ∙ r,
          Spans-enter edges types i t v v' (omega arith) m e s,
        )
  ]

  unmarked_blank : (ts : List TypeInfo) (w : ℕ) → marked (all_false ts) w ≡ false
  unmarked_blank [] w = refl
  unmarked_blank (t ∷ ts) zero = refl
  unmarked_blank (t ∷ ts) (suc w) = unmarked_blank ts w

  length-all_false : (ts : List TypeInfo) → length (all_false ts) ≡ length ts
  length-all_false [] = refl
  length-all_false (t ∷ ts) = ap suc (length-all_false ts)

  unseen-all_false : (ts : List TypeInfo) → unseen (all_false ts) ≡ length ts
  unseen-all_false [] = refl
  unseen-all_false (t ∷ ts) = ap suc (unseen-all_false ts)

  module _ (bs : List Bool)
      (shut : (u w : ℕ) → marked bs u ≡ true → Edge edges types u w → marked bs w ≡ true) where
    Reach-marked : (u w : ℕ) → Reach edges types u w → marked bs u ≡ true → marked bs w ≡ true
    Reach-marked u w here m = m
    Reach-marked u w (step {v = x} e r) m = Reach-marked x w r (shut u x m e)

  -- The detail of a type that can be reached from `i`.
  abbrev pub FoundFrom : ℕ → TypeDetailInfo → Type 0
  FoundFrom i d =
      (w : ℕ) × (t : TypeInfo) × Reach edges types i w
      × (get_elem? types w ≡ some t)
      × (d ≡ t.detail_info)

  blank_lem : length types ≤ maxnode → blank types ≡ some (all_false types)
  blank_lem room =
      let fits : ltb maxnode (length types) ≡ false = ground (arith, room) in rw fits refl

  -- With every relation at the index of a type, and no more types than `VisitCheck` has elements, a
  -- traversal into an empty vector returns, and the vector then holds the details of the types that the
  -- relations lead to, and no others.
  pub traverse-collects :
      InRange
      → length types ≤ maxnode
      → (i : ℕ) → i < length types
      → Returns
          (traverse edges types i [])
          λ ds. (d : TypeDetailInfo) → (FoundFrom i d → Has d ds) × (Has d ds → FoundFrom i d)
  unfolding traverse
  traverse-collects ok room i l =
      let (v', e, s) =
        extend_set-Returns ok (suc (length types)) i start (length-all_false types) l
          (omega (arith, unseen-all_false types)) in
      (v'.found, rw (blank_lem room) (rw (◌>>=◌, e) refl), λ d. (into v' s d, out v' s d))
    where
      start : Visit
      start = record { visit_check = all_false types; found = [] }

      into :
          (v' : Visit)
          → Spans edges types (i ∷ []) start v'
          → (d : TypeDetailInfo) → FoundFrom i d
          → Has d v'.found
      into v' s d (w, t, r, e, q) =
          subst (λ x. Has x v'.found) (sym q)
            (s.listed w t
              (
                Reach-marked v'.visit_check (λ u x m h. s.closed u x (m, unmarked_blank types u) h)
                    i w r (s.covers i (inl refl)),
                unmarked_blank types w,
              )
              e)

      out :
          (v' : Visit)
          → Spans edges types (i ∷ []) start v'
          → (d : TypeDetailInfo) → Has d v'.found
          → FoundFrom i d
      out v' s d h = elim (s.origin d h) [
        | inl k ↦ absurd k
        | inr (w, t, n, e, q) ↦
            let (r, k, p) = s.sound w n in
            (
              w,
              t,
              elim k [ inl a ↦ subst (λ x. Reach edges types x w) a p | inr z ↦ absurd z ],
              e,
              q,
            )
      ]
