-- ===== src/Types/Links/Fits.antt =====
-- The relations between the types of a vector stay inside it while `extendTypeRelationInfo` links
-- them.
use hex_type.Prelude.{
  some_inj, map, map-modify, get_elem?-map, ℕ, zero, suc, ◌<◌, ◌≡◌, refl, sym, subst, ◌∙◌, some,
  List, [], ◌∷◌, ◌++◌, inl, inr, Bool-cases, Has, length, get_elem?, get_elem?_below,
  get_elem?-modify_cases, modify, length-modify, each, each_keeps, upto, upto_below, arith, Returns,
  ◌>>=◌, if◌then◌else◌, ◌==◌,
}
use hex_type.Types.{TypeInfo, TypeDetailInfo}
use hex_type.Types.Relations.{indices, parent_edges, phantom_edges}
use hex_type.Types.Relations.Spans.{Has-append_cases}
use hex_type.Types.Relations.Traversal.{InRange}
use hex_type.Types.Links.{
  set_index, index_parent, push_phantom, is_parent, link, relate, relate_type,
}

-- No traversal has filled the vectors of the type.
abbrev pub Fresh : TypeInfo → Type 0
Fresh t = (t.all_parents ≡ []) × (t.all_phantom_types ≡ [])

-- The type has its own index, and relations to types below `n` only, and is fresh.
abbrev pub Fits : ℕ → ℕ → TypeInfo → Type 0
Fits n u t =
    (t.detail_info.type_index ≡ u)
    × ((j : ℕ) → Has j (indices t.direct_parents) → j < n)
    × ((j : ℕ) → Has j (indices t.direct_phantom_types) → j < n)
    × Fresh t

abbrev pub AllFit : ℕ → List TypeInfo → Type 0
AllFit n types = (u : ℕ) (t : TypeInfo) → get_elem? types u ≡ some t → Fits n u t

-- The numbers of direct parents.
abbrev pub counts : List TypeInfo → List ℕ
counts = map (λ (t : TypeInfo). length t.direct_parents)

AllFit-modify :
    (n i : ℕ) (types : List TypeInfo) (f : TypeInfo → TypeInfo)
    → ((t : TypeInfo) → Fits n i t → Fits n i (f t))
    → AllFit n types
    → AllFit n (modify types i f)
AllFit-modify n i types f good fits u t e = elim (get_elem?-modify_cases types i u f t e) [
  | inl (_, q) ↦ fits u t q
  | inr (q, x, r, s) ↦
      subst (λ y. Fits n u y) s (subst (λ v. Fits n v (f x)) (sym q) (good x (fits i x r)))
]

indices-modify :
    (n j t : ℕ) (ds : List TypeDetailInfo)
    → t < n
    → ((k : ℕ) → Has k (indices ds) → k < n)
    → (k : ℕ) → Has k (indices (modify ds j (set_index t)))
    → k < n
indices-modify n j t [] l below k h = absurd h
indices-modify n zero t (d ∷ ds) l below k (inl e) = omega arith
indices-modify n zero t (d ∷ ds) l below k (inr h) = below k (inr h)
indices-modify n (suc j) t (d ∷ ds) l below k (inl e) = below k (inl e)
indices-modify n (suc j) t (d ∷ ds) l below k (inr h) =
    indices-modify n j t ds l (λ k h. below k (inr h)) k h

pub indices-push :
    (n : ℕ) (d : TypeDetailInfo) (ds : List TypeDetailInfo)
    → d.type_index < n
    → ((k : ℕ) → Has k (indices ds) → k < n)
    → (k : ℕ) → Has k (indices (ds ++ d ∷ []))
    → k < n
indices-push n d [] l below k (inl e) = omega arith
indices-push n d [] l below k (inr h) = absurd h
indices-push n d (x ∷ ds) l below k (inl e) = below k (inl e)
indices-push n d (x ∷ ds) l below k (inr h) = indices-push n d ds l (λ k h. below k (inr h)) k h

-- The vector has `n` types with these numbers of direct parents, and its relations stay inside.
abbrev pub Table : ℕ → List ℕ → List TypeInfo → Type 0
Table n cs types = (length types ≡ n) × AllFit n types × (counts types ≡ cs)

Table-modify :
    (n i : ℕ) (cs : List ℕ) (types : List TypeInfo) (f : TypeInfo → TypeInfo)
    → ((t : TypeInfo) → Fits n i t → Fits n i (f t))
    → ((t : TypeInfo) → length (f t).direct_parents ≡ length t.direct_parents)
    → Table n cs types
    → Table n cs (modify types i f)
Table-modify n i cs types f good same (size, fits, e) = (
  length-modify types i f ∙ size,
  AllFit-modify n i types f good fits,
  map-modify (λ t. length t.direct_parents) types i f same ∙ e,
)

Table-push :
    (n i : ℕ) (cs : List ℕ) (types : List TypeInfo) (d : TypeDetailInfo)
    → d.type_index < n
    → Table n cs types
    → Table n cs (modify types i (push_phantom d))
Table-push n i cs types d l =
    Table-modify n i cs types (push_phantom d)
      (λ t (a, b, c, f). (a, b, indices-push n d t.direct_phantom_types l c, f)) (λ t. refl)

Table-link :
    (n i j t : ℕ) (cs : List ℕ) (a b : TypeInfo) (types : List TypeInfo)
    → t < n
    → a.detail_info.type_index < n
    → b.detail_info.type_index < n
    → Table n cs types
    → Table n cs (link i j t a b types)
Table-link n i j t cs a b types l la lb ok =
    let linked : Table n cs (modify types i (index_parent j t)) =
      Table-modify n i cs types (index_parent j t)
        (λ x (p, q, r, f). (p, indices-modify n j t x.direct_parents l q, r, f))
        (λ x. length-modify x.direct_parents j (set_index t)) ok in
    elim (Bool-cases (a.alloc_size == b.alloc_size)) [
      | inl e ↦ rw e (
          Table-push n t cs
            (modify (modify types i (index_parent j t)) i (push_phantom b.detail_info))
            a.detail_info la
            (Table-push n i cs (modify types i (index_parent j t)) b.detail_info lb linked))
      | inr e ↦ rw e linked
    ]

pub relate_lem :
    (i j t : ℕ) (types : List TypeInfo) (a b : TypeInfo) (p : TypeDetailInfo)
    → get_elem? types i ≡ some a
    → get_elem? a.direct_parents j ≡ some p
    → get_elem? types t ≡ some b
    → relate i j t types ≡ some (if is_parent i t p b then link i j t a b types else types)
unfolding relate
relate_lem i j t types a b p ea ep eb = rw (ea, ◌>>=◌) (rw (ep, ◌>>=◌) (rw (eb, ◌>>=◌) refl))

pub relate_type_lem :
    (i : ℕ) (types : List TypeInfo) (a : TypeInfo)
    → get_elem? types i ≡ some a
    → relate_type i types
      ≡ each
          (λ j. each (relate i j) (upto (length types) 0))
          (upto (length a.direct_parents) 0)
          types
unfolding relate_type
relate_type_lem i types a e = rw (e, ◌>>=◌) refl

module _ (n : ℕ) (cs : List ℕ) where
  parents_at :
      (types : List TypeInfo) (i : ℕ) (a : TypeInfo)
      → Table n cs types
      → get_elem? types i ≡ some a
      → get_elem? cs i ≡ some (length a.direct_parents)
  parents_at types i a (size, fits, e) ea =
      subst (λ l. get_elem? l i ≡ some (length a.direct_parents)) e
        (get_elem?-map (λ t. length t.direct_parents) types i a ea)

  relate-Table :
      (i j t m : ℕ) (types : List TypeInfo)
      → i < n
      → t < n
      → get_elem? cs i ≡ some m
      → j < m
      → Table n cs types
      → Returns (relate i j t types) (Table n cs)
  relate-Table i j t m types li lt em lj ok =
      let (a, ea) = get_elem?_below types i (omega (arith, ok.0)) in
      let (b, eb) = get_elem?_below types t (omega (arith, ok.0)) in
      let same = some_inj (length a.direct_parents) m (sym (parents_at types i a ok ea) ∙ em) in
      let (p, ep) = get_elem?_below a.direct_parents j (omega arith) in
      (
        if is_parent i t p b then link i j t a b types else types,
        relate_lem i j t types a b p ea ep eb,
        elim (Bool-cases (is_parent i t p b)) [
          | inl e ↦ rw e (
              Table-link n i j t cs a b types lt (omega (arith, (ok.1 i a ea).0))
                (omega (arith, (ok.1 t b eb).0)) ok)
          | inr e ↦ rw e ok
        ],
      )

  pub relate_type-Table :
      (i : ℕ) (types : List TypeInfo)
      → i < n
      → Table n cs types
      → Returns (relate_type i types) (Table n cs)
  relate_type-Table i types li ok =
      let (a, ea) = get_elem?_below types i (omega (arith, ok.0)) in
      let m = length a.direct_parents in
      let em = parents_at types i a ok ea in
      subst (λ r. Returns r (Table n cs)) (sym (relate_type_lem i types a ea))
        (each_keeps (Table n cs) (λ j. j < m) (λ j. each (relate i j) (upto (length types) 0))
          (λ j ts lj.
            each_keeps (Table n cs) (λ t. t < n) (relate i j)
              (λ t ts' lt. relate-Table i j t m ts' li lt em lj) (upto (length types) 0)
              (λ t h. omega (arith, upto_below (length types) 0 t h, ok.0)) ts)
          (upto m 0) (λ j h. omega (arith, upto_below m 0 j h)) types ok)

  pub relate_types-Table :
      (types : List TypeInfo)
      → Table n cs types
      → Returns (each relate_type (upto (length types) 0) types) (Table n cs)
  relate_types-Table types ok =
      each_keeps (Table n cs) (λ i. i < n) relate_type (λ i ts. relate_type-Table i ts)
        (upto (length types) 0) (λ i h. omega (arith, upto_below (length types) 0 i h, ok.0)) types
        ok

-- The traversals of such a vector stay inside it.
pub AllFit-InRange :
    (n : ℕ) (types : List TypeInfo)
    → length types ≡ n
    → AllFit n types
    → InRange parent_edges types × InRange phantom_edges types
AllFit-InRange n types size fits = (
  λ u w (t, e, h).
      elim (Has-append_cases w (indices t.direct_parents) (indices t.direct_phantom_types) h) [
        | inl l ↦ omega (arith, (fits u t e).1 w l)
        | inr r ↦ omega (arith, (fits u t e).2 w r)
      ],
  λ u w (t, e, h). omega (arith, (fits u t e).2 w h),
)
