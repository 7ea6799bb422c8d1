-- ===== src/Types/Links/Created.antt =====
-- `createObjRelationInfo` from the structures of a module and the log of the compiler's front end.
use hex_type.Prelude.{
  ℕ, zero, suc, ◌<◌, ◌≤◌, ◌≡◌, refl, sym, subst, ◌∙◌, some, List, [], ◌∷◌, ◌==◌, inl, inr,
  Bool-cases, Option-cases, Has, length, get_elem?, get_elem?_bound, arith, Returns, ◌>>=◌,
  some_inj, if◌then◌else◌,
}
use hex_type.Types.{TypeDetailInfo, TypeInfo, get_sorted_all_parent_set, get_sorted_all_phantom_set}
use hex_type.Types.Direct.{StructTy, collected}
use hex_type.Types.Direct.Indices.{AllDirect, direct_types-Returns}
use hex_type.Types.Relations.{maxnode, indices}
use hex_type.Types.Links.{
  LogLine, logged, push_parent, push_phantom, add_relation, add_line, get_type_info_from_clang,
  get_direct_type_info, extend_type_relation_info, relation_tables, create_obj_relation_info,
}
use hex_type.Types.Links.Fits.{Fits, AllFit, indices-push}
use hex_type.Types.Links.Overrun.{extend_type_relation_info-bound}
use hex_type.Types.Links.Closure.{Closed, extend_type_relation_info-Closed}
use hex_type.Types.Links.Linked.{
  IsLinked, extend_type_relation_info-IsLinked, extend_type_relation_info-SameKeys,
}
use hex_type.Types.Links.Hashes.{SameKeys}

push_parent-Fits :
    (n u : ℕ) (d : TypeDetailInfo) (t : TypeInfo)
    → d.type_index < n
    → Fits n u t
    → Fits n u (push_parent d t)
push_parent-Fits n u d t l (a, b, c, f) = (a, indices-push n d t.direct_parents l b, c, f)

push_phantom-Fits :
    (n u : ℕ) (d : TypeDetailInfo) (t : TypeInfo)
    → d.type_index < n
    → Fits n u t
    → Fits n u (push_phantom d t)
push_phantom-Fits n u d t l (a, b, c, f) = (a, b, indices-push n d t.direct_phantom_types l c, f)

add_relation-Fits :
    (n u : ℕ) (l : LogLine) (t : TypeInfo) → 0 < n → Fits n u t → Fits n u (add_relation l t)
add_relation-Fits n u l t positive fits = elim (Bool-cases (l.relation == 2)) [
  | inl e ↦ rw e (push_phantom-Fits n u (logged l) first positive first-Fits)
  | inr e ↦ rw e first-Fits
]
  where
    first : TypeInfo
    first = if l.relation == 1 then push_parent (logged l) t else t

    first-Fits : Fits n u first
    first-Fits = elim (Bool-cases (l.relation == 1)) [
      | inl e ↦ rw e (push_parent-Fits n u (logged l) t positive fits)
      | inr e ↦ rw e fits
    ]

-- A line of the log keeps what its relations keep, at every index.
add_line_keeps :
    (P : ℕ → TypeInfo → Type 0) (l : LogLine)
    → ((u : ℕ) (t : TypeInfo) → P u t → P u (add_relation l t))
    → (types : List TypeInfo) → ((u : ℕ) (t : TypeInfo) → get_elem? types u ≡ some t → P u t)
    → (u : ℕ) (t : TypeInfo) → get_elem? (add_line l types) u ≡ some t
    → P u t
unfolding add_line
add_line_keeps P l good [] all u t e = cc
add_line_keeps P l good (x ∷ types) all zero t e =
    subst (P 0) (some_inj _ t e) (elim (Bool-cases (x.detail_info.type_hash_value == l.from_ty)) [
      | inl y ↦ rw y (good 0 x (all 0 x refl))
      | inr y ↦ rw y (all 0 x refl)
    ])
add_line_keeps P l good (x ∷ types) all (suc u) t e =
    add_line_keeps (λ v. P (suc v)) l (λ v. good (suc v)) types (λ v. all (suc v)) u t e

length-add_line : (l : LogLine) (types : List TypeInfo) → length (add_line l types) ≡ length types
unfolding add_line
length-add_line l [] = refl
length-add_line l (x ∷ types) = omega (arith, length-add_line l types)

get_type_info_from_clang-Fits :
    (n : ℕ) (lines : List LogLine) (types : List TypeInfo)
    → length types ≡ n
    → AllFit n types
    → (length (get_type_info_from_clang lines types) ≡ n)
      × AllFit n (get_type_info_from_clang lines types)
unfolding get_type_info_from_clang
get_type_info_from_clang-Fits n [] types size fits = (size, fits)
get_type_info_from_clang-Fits n (l ∷ lines) types size fits =
    get_type_info_from_clang-Fits n lines (add_line l types) (length-add_line l types ∙ size)
      (λ u t e.
        let below : 0 < n =
          omega (arith, get_elem?_bound (add_line l types) u t e, length-add_line l types) in
        add_line_keeps (Fits n) l (λ v x. add_relation-Fits n v l x below) types fits u t e)

AllDirect-AllFit : (types : List TypeInfo) → AllDirect 0 types → AllFit (length types) types
AllDirect-AllFit types all u t e =
    let (i, p, q, f) = all u t e in
    let l = get_elem?_bound types u t e in
    (
      i ∙ omega arith,
      λ j h. omega (arith, p j h),
      λ j h. absurd (subst (λ ds. Has j (indices ds)) q h),
      f,
    )

-- What holds of the types in the end.
abbrev pub Finished : List TypeInfo → List TypeInfo → Type 0
Finished types types' = Closed types' × IsLinked types' × SameKeys types types'

relation_tables-Finished :
    (types : List TypeInfo)
    → length types ≤ maxnode
    → AllFit (length types) types
    → Returns (relation_tables types) λ r. Finished types r.0
relation_tables-Finished [] room fits =
    (([], [], []), refl, (λ u t d e. cc, λ u a j p w b e. cc, (refl, refl)))
relation_tables-Finished (t ∷ ts) room fits =
    let (types, e, (size, closed)) = extend_type_relation_info-Closed (t ∷ ts) room fits in
    let (types₁, e₁, linked) = extend_type_relation_info-IsLinked (t ∷ ts) room fits in
    let (types₂, e₂, same) = extend_type_relation_info-SameKeys (t ∷ ts) room fits in
    (
      (types, get_sorted_all_parent_set types, get_sorted_all_phantom_set types),
      rw (e, ◌>>=◌) refl,
      (
        closed,
        subst IsLinked (some_inj types₁ types (sym e₁ ∙ e)) linked,
        subst (SameKeys (t ∷ ts)) (some_inj types₂ types (sym e₂ ∙ e)) same,
      ),
    )

-- The types of the module with the relations of the log, as many as the structures collected.
logged_types-Fits :
    (lines : List LogLine) (module_types : List StructTy)
    → Returns (get_direct_type_info lines module_types) λ types.
      (length types ≡ collected module_types)
      × AllFit (length types) types
      × ((ts : List TypeInfo) × (types ≡ get_type_info_from_clang lines ts))
unfolding get_direct_type_info
logged_types-Fits lines module_types =
    let (ts, e, (count, all)) = direct_types-Returns module_types 0 in
    let types = get_type_info_from_clang lines ts in
    let (size, fits) =
      get_type_info_from_clang-Fits (length ts) lines ts refl (AllDirect-AllFit ts all) in
    (
      types,
      rw (e, ◌>>=◌) refl,
      (size ∙ count, subst (λ n. AllFit n types) (sym size) fits, (ts, refl)),
    )

-- `createObjRelationInfo`, with the types that the module's structures give.
pub create_obj_relation_info-Finished :
    (lines : List LogLine) (module_types : List StructTy)
    → collected module_types ≤ maxnode
    → Returns
        (create_obj_relation_info lines module_types)
        λ r. (ts : List TypeInfo) × Finished (get_type_info_from_clang lines ts) r.0
unfolding create_obj_relation_info
create_obj_relation_info-Finished lines module_types room =
    let (types, e, (size, fits, (ts, shape))) = logged_types-Fits lines module_types in
    let (r, run, done) = relation_tables-Finished types (omega (arith, size, room)) fits in
    (r, rw (e, ◌>>=◌) run, (ts, subst (λ a. Finished a r.0) shape done))

relation_tables-bound :
    (types : List TypeInfo) (r : List TypeInfo × List ℕ × List ℕ)
    → AllFit (length types) types
    → relation_tables types ≡ some r
    → length types ≤ maxnode
relation_tables-bound [] r fits e = omega arith
relation_tables-bound (t ∷ ts) r fits e = elim (Option-cases (extend_type_relation_info (t ∷ ts))) [
  | inl stuck ↦ let q = rw (stuck, ◌>>=◌) at e in cc
  | inr (types, run) ↦ extend_type_relation_info-bound (t ∷ ts) types fits run
]

-- A run that returns had no more types than `VisitCheck` has elements.
pub create_obj_relation_info-bound :
    (lines : List LogLine) (module_types : List StructTy) (r : List TypeInfo × List ℕ × List ℕ)
    → create_obj_relation_info lines module_types ≡ some r
    → collected module_types ≤ maxnode
unfolding create_obj_relation_info
create_obj_relation_info-bound lines module_types r e =
    let (types, run, (size, fits, _)) = logged_types-Fits lines module_types in
    let made : relation_tables types ≡ some r = rw (run, ◌>>=◌) at e in
    omega (arith, size, relation_tables-bound types r fits made)

-- From any log and the structures of a module of which at most 1000000, the size of `VisitCheck`, are
-- collected, the types and their tables are made: nothing is out of range and no loop runs on. The
-- vectors of every type are the closures, along the relations that the types have at the end, of its
-- parents and of its phantoms, and each direct parent whose hash another type has leads to a type with
-- that hash.
pub create_obj_relation_info-Closed :
    (lines : List LogLine) (module_types : List StructTy)
    → collected module_types ≤ maxnode
    → Returns (create_obj_relation_info lines module_types) λ r. Closed r.0 × IsLinked r.0
create_obj_relation_info-Closed lines module_types room =
    let (r, run, (ts, (closed, linked, _))) =
      create_obj_relation_info-Finished lines module_types room in
    (r, run, (closed, linked))
