-- ===== src/Types/Links/Closure.antt =====
-- What `extendTypeRelationInfo` computes: it returns, and the vectors of every type are closures of
-- the direct relations.
use hex_type.Prelude.{
  ℕ, zero, suc, ◌+◌, ◌<◌, ◌≤◌, ◌≡◌, ◌≢◌, refl, sym, ap, subst, ◌∙◌, ◌⊎◌, some, List, Has, inl, inr,
  length, get_elem?, get_elem?-modify_cases, length-modify, modify, map-modify, arith, Returns,
  ◌>>=◌, get_elem?_below, get_elem?_bound, each, upto,
}
use hex_type.Types.{TypeInfo, TypeDetailInfo}
use hex_type.Types.Relations.{maxnode, parent_edges, phantom_edges, extend_type}
use hex_type.Types.Relations.Traversal.{InRange, FoundFrom}
use hex_type.Types.Links.{relate_type, extend_type_relation_info}
use hex_type.Types.Links.Fits.{Fresh, AllFit, AllFit-InRange, counts, relate_types-Table}
use hex_type.Types.Links.Rounds.{
  bare, bares, Complete, HoldsFrom, set_parents, set_phantom_types, extend_type_lem, traverse-bare,
  FoundFrom-bare, FoundFrom-unbare, InRange-bare,
}

round-Complete :
    (bs : List TypeInfo) (k u : ℕ) (t : TypeInfo) (ps qs : List TypeDetailInfo)
    → u ≡ k
    → t.all_parents ≡ ps
    → t.all_phantom_types ≡ qs
    → HoldsFrom parent_edges (λ t. refl) bs k ps
    → HoldsFrom phantom_edges (λ t. refl) bs k qs
    → Complete bs u t
round-Complete bs k u t ps qs e p q hp hq = rw (e, p, q) (hp, hq)

module _ (n : ℕ) (room : n ≤ maxnode) (bs : List TypeInfo) (ok_parents : InRange parent_edges bs)
    (ok_phantoms : InRange phantom_edges bs) where
  -- The first `k` types are complete, and the others fresh.
  abbrev Progress : ℕ → List TypeInfo → Type 0
  Progress k ts =
      (bares ts ≡ bs)
      × (length ts ≡ n)
      × ((u : ℕ) (t : TypeInfo) → get_elem? ts u ≡ some t → u < k → Complete bs u t)
      × ((u : ℕ) (t : TypeInfo) → get_elem? ts u ≡ some t → k ≤ u → Fresh t)

  round-cases :
      (k : ℕ) (ts : List TypeInfo) (ps qs : List TypeDetailInfo) (u : ℕ) (t : TypeInfo)
      → get_elem? (modify (modify ts k (set_parents ps)) k (set_phantom_types qs)) u ≡ some t
      → ((u ≢ k) × (get_elem? ts u ≡ some t))
        ⊎ ((u ≡ k) × (t.all_parents ≡ ps) × (t.all_phantom_types ≡ qs))
  round-cases k ts ps qs u t e =
      elim (get_elem?-modify_cases (modify ts k (set_parents ps)) k u (set_phantom_types qs) t e) [
        | inl (a, q) ↦ elim (get_elem?-modify_cases ts k u (set_parents ps) t q) [
          | inl b ↦ inl b
          | inr (b, _, _, _) ↦ absurd (a b)
        ]
        | inr (a, x, q, r) ↦ elim (get_elem?-modify_cases ts k k (set_parents ps) x q) [
          | inl (b, _) ↦ absurd (b refl)
          | inr (b, y, _, s) ↦ inr (
            a,
            ap (λ (z : TypeInfo). z.all_parents) (sym r)
                ∙ ap (λ (z : TypeInfo). z.all_parents) (sym s),
            ap (λ (z : TypeInfo). z.all_phantom_types) (sym r),
          )
        ]
      ]

  round-Progress :
      (k : ℕ) (ts : List TypeInfo)
      → k < n
      → Progress k ts
      → Returns (extend_type k ts) (Progress (suc k))
  round-Progress k ts l (same, size, before, after) =
      let (t, e) = get_elem?_below ts k (omega arith) in
      let (no_parents, no_phantoms) = after k t e (omega arith) in
      let (ps, run, all) =
        traverse-bare parent_edges (λ t. refl) bs ts k t.all_parents ok_parents same no_parents
          (omega arith) (omega arith) in
      let ts₁ = modify ts k (set_parents ps) in
      let same₁ : bares ts₁ ≡ bs = map-modify bare ts k (set_parents ps) (λ x. refl) ∙ same in
      let (qs, run₁, all₁) =
        traverse-bare phantom_edges (λ t. refl) bs ts₁ k t.all_phantom_types ok_phantoms same₁
          no_phantoms (omega (arith, length-modify ts k (set_parents ps)))
          (omega (arith, length-modify ts k (set_parents ps))) in
      (
        modify ts₁ k (set_phantom_types qs),
        extend_type_lem k ts t ps qs e run run₁,
        (
          map-modify bare ts₁ k (set_phantom_types qs) (λ x. refl) ∙ same₁,
          length-modify ts₁ k (set_phantom_types qs) ∙ length-modify ts k (set_parents ps) ∙ size,
          λ u x f m. elim (round-cases k ts ps qs u x f) [
            | inl (a, q) ↦ before u x q (omega arith)
            | inr (a, p, q) ↦ round-Complete bs k u x ps qs a p q all all₁
          ],
          λ u x f m. elim (round-cases k ts ps qs u x f) [
            | inl (a, q) ↦ after u x q (omega arith)
            | inr (a, p, q) ↦ absurd (omega arith)
          ],
        ),
      )

  rounds-Progress :
      (m k : ℕ) (ts : List TypeInfo)
      → k + m ≡ n
      → Progress k ts
      → Returns (each extend_type (upto m k) ts) (Progress n)
  rounds-Progress zero k ts e p = (ts, refl, subst (λ j. Progress j ts) (omega arith) p)
  rounds-Progress (suc m) k ts e p =
      let (ts₁, e₁, p₁) = round-Progress k ts (omega arith) p in
      let (ts₂, e₂, p₂) = rounds-Progress m (suc k) ts₁ (omega arith) p₁ in
      (ts₂, rw (e₁, ◌>>=◌) e₂, p₂)

-- The vectors of every type hold what its relations lead to, and nothing else.
abbrev pub Closed : List TypeInfo → Type 0
Closed types =
    (u : ℕ) (t : TypeInfo) (d : TypeDetailInfo)
    → get_elem? types u ≡ some t
    → ((FoundFrom parent_edges types u d → Has d t.all_parents)
        × (Has d t.all_parents → FoundFrom parent_edges types u d))
      × ((FoundFrom phantom_edges types u d → Has d t.all_phantom_types)
          × (Has d t.all_phantom_types → FoundFrom phantom_edges types u d))

Closed-bares :
    (bs types : List TypeInfo)
    → bares types ≡ bs
    → ((u : ℕ) (t : TypeInfo) → get_elem? types u ≡ some t → Complete bs u t)
    → Closed types
Closed-bares bs types same all u t d e =
    let (ps, qs) = all u t e in
    (
      (
        λ f. (ps d).0 (
            subst (λ x. FoundFrom parent_edges x u d) same
              (FoundFrom-bare parent_edges (λ t. refl) types u d f)),
        λ h.
            FoundFrom-unbare parent_edges (λ t. refl) types u d
              (subst (λ x. FoundFrom parent_edges x u d) (sym same) ((ps d).1 h)),
      ),
      (
        λ f. (qs d).0 (
            subst (λ x. FoundFrom phantom_edges x u d) same
              (FoundFrom-bare phantom_edges (λ t. refl) types u d f)),
        λ h.
            FoundFrom-unbare phantom_edges (λ t. refl) types u d
              (subst (λ x. FoundFrom phantom_edges x u d) (sym same) ((qs d).1 h)),
      ),
    )

extend_types-Closed :
    (linked : List TypeInfo)
    → length linked ≤ maxnode
    → AllFit (length linked) linked
    → Returns
        (each extend_type (upto (length linked) 0) linked)
        λ types. (length types ≡ length linked) × (bares types ≡ bares linked) × Closed types
extend_types-Closed linked room fits =
    let n = length linked in
    let (okp, okq) = AllFit-InRange n linked refl fits in
    let (types, run, (same, size, all, _)) =
      rounds-Progress n room (bares linked) (InRange-bare parent_edges (λ t. refl) linked okp)
        (InRange-bare phantom_edges (λ t. refl) linked okq) n 0 linked (omega arith)
        (refl, refl, λ u t e l. absurd (omega arith), λ u t e l. (fits u t e).3) in
    (
      types,
      run,
      (
        size,
        same,
        Closed-bares (bares linked) types same λ u t e. all u t e (below types u t size e),
      ),
    )
  where
    below :
        (types : List TypeInfo) (u : ℕ) (t : TypeInfo)
        → length types ≡ length linked
        → get_elem? types u ≡ some t
        → u < length linked
    below types u t size e = omega (arith, get_elem?_bound types u t e)

-- The loops of `extendTypeRelationInfo`: what the first leaves, and what the second makes of it.
pub extend_type_relation_info-linked :
    (types : List TypeInfo)
    → length types ≤ maxnode
    → AllFit (length types) types
    → Returns (extend_type_relation_info types) λ types'.
      (linked : List TypeInfo) × (each relate_type (upto (length types) 0) types ≡ some linked)
      × (length types' ≡ length types)
      × (bares types' ≡ bares linked)
      × Closed types'
unfolding extend_type_relation_info
extend_type_relation_info-linked types room fits =
    let n = length types in
    let (linked, run, (size, fits₁, _)) =
      relate_types-Table n (counts types) types (refl, fits, refl) in
    let (types', run₁, (size₁, same, closed)) =
      extend_types-Closed linked (omega arith) (subst (λ m. AllFit m linked) (sym size) fits₁) in
    (
      types',
      rw (run, ◌>>=◌) (subst (λ m. each extend_type (upto m 0) linked ≡ some types') size run₁),
      (linked, run, size₁ ∙ size, same, closed),
    )

-- From no more types than `VisitCheck` has elements, that have their own indices, relations inside the
-- vector and nothing that a traversal found, the linking and the traversals return,
-- and the vectors of every type then are the closures, along the relations that the types have at the end, of its parents and of its phantoms.
pub extend_type_relation_info-Closed :
    (types : List TypeInfo)
    → length types ≤ maxnode
    → AllFit (length types) types
    → Returns
        (extend_type_relation_info types)
        λ types'. (length types' ≡ length types) × Closed types'
extend_type_relation_info-Closed types room fits =
    let (types', run, (linked, _, size, _, closed)) =
      extend_type_relation_info-linked types room fits in
    (types', run, (size, closed))
