-- ===== src/Types/Links/Logged.antt =====
-- What the log of the compiler's front end adds to the types, and what becomes of it in the linking.
use hex_type.Prelude.{
  ℕ, zero, suc, ◌≡◌, ◌≢◌, refl, sym, ap, subst, ◌∙◌, some, Bool, true, false, List, [], ◌∷◌, ◌++◌,
  ◌==◌, ◌||◌, inl, inr, Bool-cases, Has, contains, get_elem?, eq_of_==, ==_refl, if◌then◌else◌,
  arith, some_inj,
}
use hex_type.Types.{TypeDetailInfo, TypeInfo, hashes}
use hex_type.Types.Relations.{indices}
use hex_type.Types.Relations.Reach.{here, step}
use hex_type.Types.Relations.Spans.{Has-append_left}
use hex_type.Types.Links.{
  LogLine, logged, push_parent, push_phantom, add_relation, add_line, get_type_info_from_clang,
}
use hex_type.Types.Links.Closure.{Closed}
use hex_type.Types.Links.Linked.{IsLinked}
use hex_type.Types.Links.Hashes.{keys}

-- At the index there is a type with the hash; with the parent among its direct parents.
abbrev pub HoldsAt : (TypeInfo → Type 0) → ℕ → List TypeInfo → Type 0
HoldsAt P u types = (t : TypeInfo) × (get_elem? types u ≡ some t) × P t

abbrev pub HasHash : ℕ → TypeInfo → Type 0
HasHash x t = t.detail_info.type_hash_value ≡ x

abbrev pub HasParent : ℕ → ℕ → TypeInfo → Type 0
HasParent x y t =
    (t.detail_info.type_hash_value ≡ x) × (contains y (hashes t.direct_parents) ≡ true)

add_line_at :
    (P Q : TypeInfo → Type 0) (l : LogLine)
    → ((t : TypeInfo)
        → P t
        → Q (if t.detail_info.type_hash_value == l.from_ty then add_relation l t else t))
    → (types : List TypeInfo) (u : ℕ) → HoldsAt P u types
    → HoldsAt Q u (add_line l types)
unfolding add_line
add_line_at P Q l good [] u (t, e, p) = cc
add_line_at P Q l good (x ∷ types) zero (t, e, p) =
    (_, refl, good x (subst P (sym (some_inj x t e)) p))
add_line_at P Q l good (x ∷ types) (suc u) h = add_line_at P Q l good types u h

contains-push :
    (y : ℕ) (d : TypeDetailInfo) (ds : List TypeDetailInfo)
    → contains y (hashes (ds ++ d ∷ [])) ≡ (d.type_hash_value == y || contains y (hashes ds))
contains-push y d [] = refl
contains-push y d (x ∷ ds) = ground (arith, contains-push y d ds)

either : (P : TypeInfo → Type 0) (b : Bool) (s t : TypeInfo) → P s → P t → P (if b then s else t)
either P true s t p q = p
either P false s t p q = q

-- What both pushes keep is kept by a line.
line_keeps :
    (P : TypeInfo → Type 0) (l : LogLine)
    → ((t : TypeInfo) → P t → P (push_parent (logged l) t))
    → ((t : TypeInfo) → P t → P (push_phantom (logged l) t))
    → (t : TypeInfo) → P t
    → P (if t.detail_info.type_hash_value == l.from_ty then add_relation l t else t)
line_keeps P l parents phantoms t p =
    let t₁ = if l.relation == 1 then push_parent (logged l) t else t in
    let p₁ : P t₁ = either P (l.relation == 1) (push_parent (logged l) t) t (parents t p) p in
    either P (t.detail_info.type_hash_value == l.from_ty) (add_relation l t) t
      (either P (l.relation == 2) (push_phantom (logged l) t₁) t₁ (phantoms t₁ p₁) p₁) p

line_keeps_hash :
    (x : ℕ) (l : LogLine) (t : TypeInfo)
    → HasHash x t
    → HasHash x (if t.detail_info.type_hash_value == l.from_ty then add_relation l t else t)
line_keeps_hash x l = line_keeps (HasHash x) l (λ t e. e) (λ t e. e)

line_keeps_parent :
    (x y : ℕ) (l : LogLine) (t : TypeInfo)
    → HasParent x y t
    → HasParent x y (if t.detail_info.type_hash_value == l.from_ty then add_relation l t else t)
line_keeps_parent x y l =
    line_keeps (HasParent x y) l
      (λ t (e, c). (e, ground (arith, contains-push y (logged l) t.direct_parents))) (λ t h. h)

line_adds :
    (x y : ℕ) (t : TypeInfo)
    → HasHash x t
    → let l : LogLine = record { relation = 1; from_ty = x; to_ty = y } in
      HasParent x y (if t.detail_info.type_hash_value == l.from_ty then add_relation l t else t)
line_adds x y t e =
    let l : LogLine = record { relation = 1; from_ty = x; to_ty = y } in
    let found : (t.detail_info.type_hash_value == x) ≡ true =
      subst (λ z. (t.detail_info.type_hash_value == z) ≡ true) e
        (==_refl t.detail_info.type_hash_value) in
    subst (λ b. HasParent x y (if b then add_relation l t else t)) (sym found)
      (e, ground (arith, contains-push y (logged l) t.direct_parents, ==_refl y))

lines_keep_parent :
    (x y u : ℕ) (lines : List LogLine) (types : List TypeInfo)
    → HoldsAt (HasParent x y) u types
    → HoldsAt (HasParent x y) u (get_type_info_from_clang lines types)
unfolding get_type_info_from_clang
lines_keep_parent x y u [] types h = h
lines_keep_parent x y u (l ∷ lines) types h =
    lines_keep_parent x y u lines (add_line l types)
      (add_line_at (HasParent x y) (HasParent x y) l (line_keeps_parent x y l) types u h)

keys-add_line : (l : LogLine) (types : List TypeInfo) → keys (add_line l types) ≡ keys types
unfolding add_line
keys-add_line l [] = refl
keys-add_line l (t ∷ ts) =
    ap (λ k. k ∷ keys (add_line l ts)) (line_keeps_hash t.detail_info.type_hash_value l t refl)
    ∙ ap (λ ks. t.detail_info.type_hash_value ∷ ks) (keys-add_line l ts)

pub keys-get_type_info_from_clang :
    (lines : List LogLine) (types : List TypeInfo)
    → keys (get_type_info_from_clang lines types) ≡ keys types
unfolding get_type_info_from_clang
keys-get_type_info_from_clang [] types = refl
keys-get_type_info_from_clang (l ∷ lines) types =
    keys-get_type_info_from_clang lines (add_line l types) ∙ keys-add_line l types

-- After the log has been read, a parent that it names for a hash is among the direct parents of each
-- type with the hash.
pub get_type_info_from_clang-parent :
    (x y u : ℕ) (lines : List LogLine) (types : List TypeInfo)
    → Has (record { relation = 1; from_ty = x; to_ty = y }) lines
    → HoldsAt (HasHash x) u types
    → HoldsAt (HasParent x y) u (get_type_info_from_clang lines types)
unfolding get_type_info_from_clang
get_type_info_from_clang-parent x y u [] types there h = absurd there
get_type_info_from_clang-parent x y u (l ∷ lines) types (inl e) h =
    lines_keep_parent x y u lines (add_line l types) (
      subst (λ m. HoldsAt (HasParent x y) u (add_line m types)) e
        (add_line_at (HasHash x) (HasParent x y) (record { relation = 1; from_ty = x; to_ty = y })
          (line_adds x y) types u h))
get_type_info_from_clang-parent x y u (l ∷ lines) types (inr there) h =
    get_type_info_from_clang-parent x y u lines (add_line l types) there
      (add_line_at (HasHash x) (HasHash x) l (line_keeps_hash x l) types u h)

-- A hash in a vector of types has an index.
hash_index :
    (y : ℕ) (ds : List TypeDetailInfo)
    → contains y (hashes ds) ≡ true
    → (j : ℕ) × (p : TypeDetailInfo) × (get_elem? ds j ≡ some p)
      × (p.type_hash_value ≡ y)
      × Has p.type_index (indices ds)
hash_index y [] h = cc
hash_index y (d ∷ ds) h = elim (Bool-cases (d.type_hash_value == y)) [
  | inl e ↦ (0, d, refl, eq_of_== d.type_hash_value y e, inl refl)
  | inr e ↦ let (j, p, f, g, i) = hash_index y ds (rw e at h) in (suc j, p, f, g, inr i)
]

contains_of_Has :
    (d : TypeDetailInfo) (ds : List TypeDetailInfo)
    → Has d ds
    → contains d.type_hash_value (hashes ds) ≡ true
contains_of_Has d [] h = absurd h
contains_of_Has d (x ∷ ds) (inl e) =
    let same : d.type_hash_value ≡ x.type_hash_value =
      ap (λ (z : TypeDetailInfo). z.type_hash_value) e in
    ground (arith, ==_refl x.type_hash_value)
contains_of_Has d (x ∷ ds) (inr h) = ground (arith, contains_of_Has d ds h)

-- In linked and closed types, a direct parent whose hash another type has is among all parents.
pub all_parents-parent :
    (types : List TypeInfo) (u w x y : ℕ) (a b : TypeInfo)
    → Closed types
    → IsLinked types
    → get_elem? types u ≡ some a
    → HasParent x y a
    → get_elem? types w ≡ some b
    → w ≢ u
    → b.detail_info.type_hash_value ≡ y
    → contains y (hashes a.all_parents) ≡ true
all_parents-parent types u w x y a b closed linked ea (ex, h) eb other eh =
    let (j, p, ep, py, i) = hash_index y a.direct_parents h in
    let (c, ec, cy) = linked u a j p w b ea ep eb other (eh ∙ sym py) in
    let found = (closed u a c.detail_info ea).0.0 (
      p.type_index,
      c,
      step
          (
            a,
            ea,
            Has-append_left p.type_index (indices a.direct_parents) (indices a.direct_phantom_types)
                i,
          )
          here,
      ec,
      refl,
    ) in
    subst (λ z. contains z (hashes a.all_parents) ≡ true) (cy ∙ py)
      (contains_of_Has c.detail_info a.all_parents found)
