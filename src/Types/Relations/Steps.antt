-- ===== src/Types/Relations/Steps.antt =====
-- How what a traversal marks adds up along `extendParentSet` and `extendPhantomSet`.
use hex_type.Prelude.{
  ℕ, ◌<◌, ◌≡◌, refl, sym, ap, ◌∙◌, subst, Option, some, Bool, true, false, List, [], ◌∷◌, inl, inr,
  Bool-cases, Has, length, get_elem?, arith,
}
use hex_type.Types.{TypeInfo}
use hex_type.Types.Relations.{Visit, marked, enter}
use hex_type.Types.Relations.Reach.{Reach, here, step}
use hex_type.Types.Relations.Spans.{
  Spans, set_mark, set_mark-cases, set_mark_keeps, length-set_mark, marked-set_mark,
  unseen-set_mark, Has-append_left, Has-append_right, Has-append_cases,
}

set_mark_unmarked :
    (bs : List Bool) (i w : ℕ) → marked (set_mark bs i) w ≡ false → marked bs w ≡ false
set_mark_unmarked bs i w m = elim (Bool-cases (marked bs w)) [
  | inl e ↦ let k = set_mark_keeps bs i w e in cc
  | inr e ↦ e
]

some_inj : (a b : TypeInfo) (o : Option TypeInfo) → o ≡ some a → o ≡ some b → a ≡ b
some_inj a b o p q = cc

module _ (edges : TypeInfo → List ℕ) (types : List TypeInfo) where
  -- The roots one after the other.
  pub Spans-trans :
      (i : ℕ) (is : List ℕ) (v v₁ v₂ : Visit)
      → Spans edges types (i ∷ []) v v₁
      → Spans edges types is v₁ v₂
      → Spans edges types (i ∷ is) v v₂
  Spans-trans i is v v₁ v₂ a b = record {
    size = b.size ∙ a.size;
    work = omega (arith, a.work, b.work);
    grows = λ w m. b.grows w (a.grows w m);
    covers = λ r h. elim h [ inl e ↦ b.grows r (a.covers r (inl e)) | inr k ↦ b.covers r k ];
    sound = λ w n. elim (Bool-cases (marked v₁.visit_check w)) [
      | inl m ↦
          let (r, h, p) = a.sound w (m, n.1) in (r, elim h [ inl e ↦ inl e | inr k ↦ absurd k ], p)
      | inr m ↦ let (r, h, p) = b.sound w (n.0, m) in (r, inr h, p)
    ];
    closed = λ u w n e. elim (Bool-cases (marked v₁.visit_check u)) [
      | inl m ↦ b.grows w (a.closed u w (m, n.1) e)
      | inr m ↦ b.closed u w (n.0, m) e
    ];
    kept = λ d h. b.kept d (a.kept d h);
    listed = λ w t n e. elim (Bool-cases (marked v₁.visit_check w)) [
      | inl m ↦ b.kept t.detail_info (a.listed w t (m, n.1) e)
      | inr m ↦ b.listed w t (n.0, m) e
    ];
    origin = λ d h. elim (b.origin d h) [
      | inl k ↦ elim (a.origin d k) [
        | inl l ↦ inl l
        | inr (w, t, n, e, q) ↦ inr (w, t, (b.grows w n.0, n.1), e, q)
      ]
      | inr (w, t, n, e, q) ↦ inr (w, t, (n.0, earlier w n.1), e, q)
    ];
  }
    where
      earlier : (w : ℕ) → marked v₁.visit_check w ≡ false → marked v.visit_check w ≡ false
      earlier w m = elim (Bool-cases (marked v.visit_check w)) [
        | inl e ↦ let k = a.grows w e in cc
        | inr e ↦ e
      ]

  -- A type that is not marked, and then its relations.
  pub Spans-enter :
      (i : ℕ) (t : TypeInfo) (v v' : Visit)
      → i < length v.visit_check
      → marked v.visit_check i ≡ false
      → get_elem? types i ≡ some t
      → Spans edges types (edges t) (enter i t v) v'
      → Spans edges types (i ∷ []) v v'
  Spans-enter i t v v' l m e s = record {
    size = s.size ∙ length-set_mark v.visit_check i;
    work = omega (arith, s.work, unseen-set_mark v.visit_check i l m);
    grows = λ w k. s.grows w (set_mark_keeps v.visit_check i w k);
    covers = λ r h. elim h [
      | inl q ↦ subst (λ x. marked v'.visit_check x ≡ true) (sym q) root
      | inr k ↦ absurd k
    ];
    sound = λ w n. elim (set_mark-cases v.visit_check i w) [
      | inl q ↦ (i, inl refl, subst (λ x. Reach edges types i x) (sym q) here)
      | inr q ↦ let (r, h, p) = s.sound w (n.0, q ∙ n.1) in (i, inl refl, step (t, e, h) p)
    ];
    closed = λ u w n (t', e', h). elim (set_mark-cases v.visit_check i u) [
      | inl q ↦ s.covers w (
          subst (λ x. Has w (edges x))
            (some_inj t' t (get_elem? types u) e' (ap (get_elem? types) q ∙ e)) h)
      | inr q ↦ s.closed u w (n.0, q ∙ n.1) (t', e', h)
    ];
    kept = λ d h. s.kept d (Has-append_left d v.found (t.detail_info ∷ []) h);
    listed = λ w t' n e'. elim (set_mark-cases v.visit_check i w) [
      | inl q ↦
          subst (λ x. Has x.detail_info v'.found)
            (some_inj t t' (get_elem? types w) (ap (get_elem? types) q ∙ e) e')
            (s.kept t.detail_info
              (Has-append_right t.detail_info v.found (t.detail_info ∷ []) (inl refl)))
      | inr q ↦ s.listed w t' (n.0, q ∙ n.1) e'
    ];
    origin = λ d h. elim (s.origin d h) [
      | inl k ↦ elim (Has-append_cases d v.found (t.detail_info ∷ []) k) [
        | inl a ↦ inl a
        | inr (inl q) ↦ inr (i, t, (root, m), e, q)
        | inr (inr z) ↦ absurd z
      ]
      | inr (w, t', n, e', q) ↦ inr (w, t', (n.0, set_mark_unmarked v.visit_check i w n.1), e', q)
    ];
  }
    where
      root : marked v'.visit_check i ≡ true
      root = s.grows i (marked-set_mark v.visit_check i l)
