-- ===== src/Classes/Ancestors.antt =====
-- `getTypeRelationInfo` returns, and records every class of a hierarchy with each of its ancestors.
use hex_type.Prelude.{
  ◌≡◌, refl, ap, subst, sym, ◌∙◌, true, false, inl, inr, ◌⊎◌, Bool-cases, Returns, ◌>>=◌,
}
use hex_type.Classes.{
  ClassDecl, class_decl, Bases, no_bases, base, no_decl, is_usable, RelationInfo,
  get_type_relation_info, relate_bases,
}
use hex_type.Classes.Spans.{Noted, Keeps, Keeps-trans, Noted-Keeps, record_relation-Noted}

abbrev pub bases : ClassDecl → Bases
bases (class_decl i bs) = bs

-- The class is one of the bases.
abbrev pub HasBase : ClassDecl → Bases → Type 0
HasBase c no_bases = ⊥
HasBase c (base b rest) = (c ≡ b) ⊎ HasBase c rest
HasBase c (no_decl rest) = HasBase c rest

-- The classes above a class, along bases that are complete.
pub data Ancestor : ClassDecl → ClassDecl → Type 0 where
  parent : {c b : ClassDecl} → HasBase b (bases c) → is_usable b ≡ true → Ancestor c b
  above :
      {c b a : ClassDecl} → HasBase b (bases c) → is_usable b ≡ true → Ancestor b a → Ancestor c a

-- The class and its ancestors.
abbrev pub Lineage : ClassDecl → ClassDecl → Type 0
Lineage c d = (d ≡ c) ⊎ Ancestor c d

-- `t` is recorded with `p` and what is above it, and so is every class of the lineage of `p` with what is
-- above that.
pub record Covers (t p : ClassDecl) (s : RelationInfo) : Type 0 where
  pub itself : Noted t p s
  pub higher : (z : ClassDecl) → Ancestor p z → Noted t z s
  pub inside : (x z : ClassDecl) → Lineage p x → Ancestor x z → Noted x z s

Covers-Keeps : (t p : ClassDecl) (s s' : RelationInfo) → Keeps s s' → Covers t p s → Covers t p s'
Covers-Keeps t p s s' k c = record {
  itself = Noted-Keeps t p s s' k c.itself;
  higher = λ z a. Noted-Keeps t z s s' k (c.higher z a);
  inside = λ x z l a. Noted-Keeps x z s s' k (c.inside x z l a);
}

abbrev CoversBases : ClassDecl → ClassDecl → Bases → RelationInfo → Type 0
CoversBases t p bs s =
    (b : ClassDecl) → HasBase b bs → is_usable b ≡ true → Covers t b s × Covers p b s

-- From the bases of a class to the class.
bases-Covers :
    (t p : ClassDecl) (s : RelationInfo) → Noted t p s → CoversBases t p (bases p) s → Covers t p s
bases-Covers t p s n all = record {
  itself = n;
  higher = λ z a. elim a [
    | parent h u ↦ (all z h u).0.itself
    | above {b = b} h u a' ↦ (all b h u).0.higher z a'
  ];
  inside = λ x z l a. elim l [
    | inl e ↦ subst (λ w. Noted w z s) (sym e) (own z (subst (λ w. Ancestor w z) e a))
    | inr a' ↦ elim a' [
      | parent h u ↦ (all x h u).0.inside x z (inl refl) a
      | above {b = b} h u a'' ↦ (all b h u).0.inside x z (inr a'') a
    ]
  ];
}
  where
    own : (z : ClassDecl) → Ancestor p z → Noted p z s
    own z a = elim a [
      | parent h u ↦ (all z h u).1.itself
      | above {b = b} h u a' ↦ (all b h u).1.higher z a'
    ]

-- A base and then the others.
CoversBases-base :
    (t p b : ClassDecl) (rest : Bases) (s₁ s₂ s₃ : RelationInfo)
    → Covers t b s₁
    → Keeps s₁ s₂
    → Covers p b s₂
    → Keeps s₂ s₃
    → CoversBases t p rest s₃
    → CoversBases t p (base b rest) s₃
CoversBases-base t p b rest s₁ s₂ s₃ one k₂ two k₃ more c (inl e) u =
    subst (λ x. Covers t x s₃ × Covers p x s₃) (sym e)
      (Covers-Keeps t b s₁ s₃ (Keeps-trans s₁ s₂ s₃ k₂ k₃) one, Covers-Keeps p b s₂ s₃ k₃ two)
CoversBases-base t p b rest s₁ s₂ s₃ one k₂ two k₃ more c (inr h) u = more c h u

CoversBases-skip :
    (t p b : ClassDecl) (rest : Bases) (s : RelationInfo)
    → is_usable b ≡ false
    → CoversBases t p rest s
    → CoversBases t p (base b rest) s
CoversBases-skip t p b rest s unusable more c (inl e) u =
    absurd (contrary (sym unusable ∙ ap is_usable (sym e) ∙ u))
  where
    contrary : false ≡ true → ⊥
    contrary z = cc
CoversBases-skip t p b rest s unusable more c (inr h) u = more c h u

mutual
  unfolding get_type_relation_info relate_bases

  pub get_type_relation_info-Covers :
      (t p : ClassDecl) (s : RelationInfo)
      → is_usable t ≡ true
      → is_usable p ≡ true
      → Returns (get_type_relation_info t p s) λ s'. Keeps s s' × Covers t p s'
  get_type_relation_info-Covers t (class_decl i bs) s ut up =
      let p = class_decl i bs in
      let (s₁, e₁, (k₁, n)) = record_relation-Noted t p s in
      let (s₂, e₂, (k₂, all)) = relate_bases-Covers t p bs s₁ ut up in
      (
        s₂,
        rw (ut, get_type_relation_info) (rw (e₁, ◌>>=◌) e₂),
        (Keeps-trans s s₁ s₂ k₁ k₂, bases-Covers t p s₂ (Noted-Keeps t p s₁ s₂ k₂ n) all),
      )

  relate_bases-Covers :
      (t p : ClassDecl) (bs : Bases) (s : RelationInfo)
      → is_usable t ≡ true
      → is_usable p ≡ true
      → Returns (relate_bases t p bs s) λ s'. Keeps s s' × CoversBases t p bs s'
  relate_bases-Covers t p no_bases s ut up = (s, refl, (λ x y. (λ h. h, λ h. h), λ b h u. absurd h))
  relate_bases-Covers t p (no_decl rest) s ut up = relate_bases-Covers t p rest s ut up
  relate_bases-Covers t p (base b rest) s ut up = elim (Bool-cases (is_usable b)) [
    | inl u ↦
        let (s₁, e₁, (k₁, one)) = get_type_relation_info-Covers t b s ut u in
        let (s₂, e₂, (k₂, two)) = get_type_relation_info-Covers p b s₁ up u in
        let (s₃, e₃, (k₃, more)) = relate_bases-Covers t p rest s₂ ut up in
        (
          s₃,
          rw (u, relate_bases) (rw (e₁, ◌>>=◌) (rw (e₂, ◌>>=◌) e₃)),
          (
            Keeps-trans s s₁ s₃ k₁ (Keeps-trans s₁ s₂ s₃ k₂ k₃),
            CoversBases-base t p b rest s₁ s₂ s₃ one k₂ two k₃ more,
          ),
        )
    | inr unusable ↦
        let (s', e, (k, more)) = relate_bases-Covers t p rest s ut up in
        (s', rw (unusable, relate_bases) e, (k, CoversBases-skip t p b rest s' unusable more))
  ]
