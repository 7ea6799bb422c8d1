-- ===== src/Types/Links/Rounds.antt =====
-- The rounds of the second loop of `extendTypeRelationInfo`, each of which fills the vectors of one
-- type and leaves the relations as they are.
use hex_type.Prelude.{
  ℕ, ◌<◌, ◌≤◌, ◌≡◌, refl, sym, ap, subst, ◌∙◌, some, List, [], Has, length, get_elem?, modify, map,
  length-map, get_elem?-map, get_elem?-map_cases, arith, Returns, ◌>>=◌,
}
use hex_type.Types.{TypeInfo, TypeDetailInfo}
use hex_type.Types.Relations.{maxnode, parent_edges, phantom_edges, traverse, extend_type}
use hex_type.Types.Relations.Reach.{Edge, Reach, here, step}
use hex_type.Types.Relations.Traversal.{InRange, FoundFrom, traverse-collects}

-- The type without what the traversals find.
abbrev pub bare : TypeInfo → TypeInfo
bare t = record t { all_parents = []; all_phantom_types = [] }

abbrev pub bares : List TypeInfo → List TypeInfo
bares = map bare

-- Relations that do not depend on what the traversals find.
module _ (edges : TypeInfo → List ℕ) (plain : (t : TypeInfo) → edges (bare t) ≡ edges t) where
  Edge-bare : (ts : List TypeInfo) (u w : ℕ) → Edge edges ts u w → Edge edges (bares ts) u w
  Edge-bare ts u w (t, e, h) =
      (bare t, get_elem?-map bare ts u t e, subst (λ l. Has w l) (sym (plain t)) h)

  Edge-unbare : (ts : List TypeInfo) (u w : ℕ) → Edge edges (bares ts) u w → Edge edges ts u w
  Edge-unbare ts u w (b, e, h) =
      let (t, q, r) = get_elem?-map_cases bare ts u b e in
      (t, q, subst (λ l. Has w l) (ap edges (sym r) ∙ plain t) h)

  Reach-bare : (ts : List TypeInfo) (u w : ℕ) → Reach edges ts u w → Reach edges (bares ts) u w
  Reach-bare ts u w here = here
  Reach-bare ts u w (step {v = x} e r) = step (Edge-bare ts u x e) (Reach-bare ts x w r)

  Reach-unbare : (ts : List TypeInfo) (u w : ℕ) → Reach edges (bares ts) u w → Reach edges ts u w
  Reach-unbare ts u w here = here
  Reach-unbare ts u w (step {v = x} e r) = step (Edge-unbare ts u x e) (Reach-unbare ts x w r)

  pub FoundFrom-bare :
      (ts : List TypeInfo) (i : ℕ) (d : TypeDetailInfo)
      → FoundFrom edges ts i d
      → FoundFrom edges (bares ts) i d
  FoundFrom-bare ts i d (w, t, r, e, q) =
      (w, bare t, Reach-bare ts i w r, get_elem?-map bare ts w t e, q)

  pub FoundFrom-unbare :
      (ts : List TypeInfo) (i : ℕ) (d : TypeDetailInfo)
      → FoundFrom edges (bares ts) i d
      → FoundFrom edges ts i d
  FoundFrom-unbare ts i d (w, b, r, e, q) =
      let (t, p, s) = get_elem?-map_cases bare ts w b e in
      (w, t, Reach-unbare ts i w r, p, q ∙ ap (λ (x : TypeInfo). x.detail_info) (sym s))

  InRange-unbare : (ts : List TypeInfo) → InRange edges (bares ts) → InRange edges ts
  InRange-unbare ts ok u w e = omega (arith, ok u w (Edge-bare ts u w e), length-map bare ts)

  pub InRange-bare : (ts : List TypeInfo) → InRange edges ts → InRange edges (bares ts)
  InRange-bare ts ok u w e = omega (arith, ok u w (Edge-unbare ts u w e), length-map bare ts)

  -- A vector holds what is found from `i`.
  abbrev pub HoldsFrom : List TypeInfo → ℕ → List TypeDetailInfo → Type 0
  HoldsFrom ts i ds =
      (d : TypeDetailInfo)
      → (FoundFrom edges ts i d → Has d ds) × (Has d ds → FoundFrom edges ts i d)

  pub traverse-bare :
      (bs ts : List TypeInfo) (i : ℕ) (found : List TypeDetailInfo)
      → InRange edges bs
      → bares ts ≡ bs
      → found ≡ []
      → length ts ≤ maxnode
      → i < length ts
      → Returns (traverse edges ts i found) (HoldsFrom bs i)
  traverse-bare bs ts i found ok same nil room l =
      let (ds, run, all) =
        traverse-collects edges ts (InRange-unbare ts (subst (InRange edges) (sym same) ok)) room i
          l in
      (
        ds,
        ap (traverse edges ts i) nil ∙ run,
        λ d. (
          λ f.
              (all d).0 (FoundFrom-unbare ts i d (subst (λ x. FoundFrom edges x i d) (sym same) f)),
          λ h. subst (λ x. FoundFrom edges x i d) same (FoundFrom-bare ts i d ((all d).1 h)),
        ),
      )

-- What a round leaves at its type, `bs` having the relations.
abbrev pub Complete : List TypeInfo → ℕ → TypeInfo → Type 0
Complete bs u t =
    HoldsFrom parent_edges (λ t. refl) bs u t.all_parents
    × HoldsFrom phantom_edges (λ t. refl) bs u t.all_phantom_types

abbrev pub set_parents : List TypeDetailInfo → TypeInfo → TypeInfo
set_parents ds a = record a { all_parents = ds }

abbrev pub set_phantom_types : List TypeDetailInfo → TypeInfo → TypeInfo
set_phantom_types ds a = record a { all_phantom_types = ds }

pub extend_type_lem :
    (i : ℕ) (ts : List TypeInfo) (t : TypeInfo) (ps qs : List TypeDetailInfo)
    → get_elem? ts i ≡ some t
    → traverse parent_edges ts i t.all_parents ≡ some ps
    → traverse phantom_edges (modify ts i (set_parents ps)) i t.all_phantom_types ≡ some qs
    → extend_type i ts ≡ some (modify (modify ts i (set_parents ps)) i (set_phantom_types qs))
unfolding extend_type
extend_type_lem i ts t ps qs e p q = rw (e, ◌>>=◌) (rw (p, ◌>>=◌) (rw (q, ◌>>=◌) refl))
