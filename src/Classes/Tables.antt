-- ===== src/Classes/Tables.antt =====
-- From the hierarchy of a class in the front end to the parents in the tables of the compiler's pass.
use hex_type.Prelude.{
  ℕ, ◌≤◌, ◌≡◌, ◌≢◌, sym, ap, subst, ◌∙◌, some, true, List, [], ◌∷◌, ◌++◌, ◌==◌, ◌&&◌, inl, inr,
  Bool-cases, Has, contains, get_elem?, get_elem?-map, get_elem?-map_cases, eq_of_==, some_inj,
  arith, Returns,
}
use hex_type.Names.{get_hash_value_from_str}
use hex_type.Types.{TypeInfo, hashes}
use hex_type.Types.Direct.{StructTy, collected}
use hex_type.Types.Relations.{maxnode}
use hex_type.Types.Relations.Spans.{Has-append_left, Has-append_right}
use hex_type.Types.Links.{LogLine, get_type_info_from_clang, create_obj_relation_info}
use hex_type.Types.Links.Hashes.{keys}
use hex_type.Types.Links.Logged.{
  HasHash, keys-get_type_info_from_clang, get_type_info_from_clang-parent, all_parents-parent,
}
use hex_type.Types.Links.Created.{Finished, create_obj_relation_info-Finished}
use hex_type.Classes.{
  ClassDecl, class_info, is_usable, is_recorded, Storage, RelationInfo, get_type_relation_info,
  key_lines, storage_lines, relation_lines,
}
use hex_type.Classes.Spans.{holds}
use hex_type.Classes.Ancestors.{Lineage, Ancestor, get_type_relation_info-Covers}

Has-key_lines :
    (r x y : ℕ) (set : List ℕ)
    → contains y set ≡ true
    → Has (record { relation = r; from_ty = x; to_ty = y }) (key_lines r x set)
Has-key_lines r x y [] h = cc
Has-key_lines r x y (z ∷ set) h = elim (Bool-cases (z == y)) [
  | inl e ↦ inl (ap (λ w. record { relation = r; from_ty = x; to_ty = w }) (sym (eq_of_== z y e)))
  | inr e ↦ inr (Has-key_lines r x y set (rw e at h))
]

Has-storage_lines :
    (r x y : ℕ) (s : Storage)
    → holds x y s ≡ true
    → Has (record { relation = r; from_ty = x; to_ty = y }) (storage_lines r s)
Has-storage_lines r x y [] h = cc
Has-storage_lines r x y ((k, set) ∷ rest) h =
    let line : LogLine = record { relation = r; from_ty = x; to_ty = y } in
    elim (Bool-cases (k == x && contains y set)) [
      | inl e ↦ Has-append_left line (key_lines r k set) (storage_lines r rest) (
          subst (λ z. Has line (key_lines r z set)) (sym (eq_of_== k x (ground (arith, e))))
            (Has-key_lines r x y set (ground (arith, e))))
      | inr e ↦
          Has-append_right line (key_lines r k set) (storage_lines r rest)
            (Has-storage_lines r x y rest (rw e at h))
    ]

-- A type with the first hash has the second among all its parents, if another type has that.
abbrev pub Lists : ℕ → ℕ → List TypeInfo → Type 0
Lists x y types =
    (u w : ℕ) (a b : TypeInfo)
    → get_elem? types u ≡ some a
    → HasHash x a
    → get_elem? types w ≡ some b
    → HasHash y b
    → w ≢ u
    → contains y (hashes a.all_parents) ≡ true

-- A pair in the log is in the tables.
Finished-Lists :
    (x y : ℕ) (lines : List LogLine) (ts types : List TypeInfo)
    → Has (record { relation = 1; from_ty = x; to_ty = y }) lines
    → Finished (get_type_info_from_clang lines ts) types
    → Lists x y types
Finished-Lists x y lines ts types there (closed, linked, same) u w a b ea ex eb ey other =
    let logged_types = get_type_info_from_clang lines ts in
    let at_key : get_elem? (keys ts) u ≡ some x =
      ap (λ l. get_elem? l u) (sym (same.0 ∙ keys-get_type_info_from_clang lines ts))
      ∙ get_elem?-map (λ t. t.detail_info.type_hash_value) types u a ea
      ∙ ap some ex in
    let (t, et, hash) = get_elem?-map_cases (λ t. t.detail_info.type_hash_value) ts u x at_key in
    let (t', et', (_, listed)) =
      get_type_info_from_clang-parent x y u lines ts there (t, et, hash) in
    let parents : some (hashes t'.direct_parents) ≡ some (hashes a.direct_parents) =
      sym (get_elem?-map (λ t. hashes t.direct_parents) logged_types u t' et')
      ∙ ap (λ l. get_elem? l u) (sym same.1)
      ∙ get_elem?-map (λ t. hashes t.direct_parents) types u a ea in
    let known =
      subst (λ hs. contains y hs ≡ true)
        (some_inj (hashes t'.direct_parents) (hashes a.direct_parents) parents) listed in
    all_parents-parent types u w x y a b closed linked ea (ex, known) eb other ey

-- A class and one above it, with their hashes, where the front end tells the two apart.
abbrev pub IsPair : ClassDecl → ClassDecl → ℕ → ℕ → Type 0
IsPair x z hx hz =
    (get_hash_value_from_str (class_info x).name ≡ some hx)
    × (get_hash_value_from_str (class_info z).name ≡ some hz)
    × (is_recorded x z hx hz ≡ true)

-- The front end returns with the relations of a class that is defined; and from a log that has its lines
-- among others the compiler's pass makes tables for the structures of a module, of which it collects at
-- most 1000000, the size of `VisitCheck`. In these tables the type of every class
-- of the hierarchy has every ancestor of that class that has a type of its own in the module among all
-- its parents.
pub get_type_relation_info-Lists :
    (d : ClassDecl) (s : RelationInfo) (before after : List LogLine) (module_types : List StructTy)
    → is_usable d ≡ true
    → collected module_types ≤ maxnode
    → Returns (get_type_relation_info d d s) λ s'.
      Returns (create_obj_relation_info (before ++ (relation_lines s' ++ after)) module_types) λ r.
        (x z : ClassDecl) (hx hz : ℕ)
        → Lineage d x
        → Ancestor x z
        → IsPair x z hx hz
        → Lists hx hz r.0
unfolding relation_lines
get_type_relation_info-Lists d s before after module_types usable room =
    let (s', run, (_, covers)) = get_type_relation_info-Covers d d s usable usable in
    let lines = before ++ (relation_lines s' ++ after) in
    let (r, made, (ts, done)) = create_obj_relation_info-Finished lines module_types room in
    (
      s',
      run,
      (
        r,
        made,
        λ x z hx hz l a (ex, ez, apart).
            let line : LogLine = record { relation = 1; from_ty = hx; to_ty = hz } in
            Finished-Lists hx hz lines ts r.0
              (Has-append_right line before (relation_lines s' ++ after) (
                Has-append_left line (relation_lines s') after (
                  Has-append_left line (storage_lines 1 s'.type_parent_info)
                    (storage_lines 2 s'.type_phantom_info)
                    (Has-storage_lines 1 hx hz s'.type_parent_info
                      (covers.inside x z l a hx hz ex ez apart).0))))
              done,
      ),
    )
