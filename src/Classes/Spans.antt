-- ===== src/Classes/Spans.antt =====
-- What the front end records stays recorded, and is recorded for a class and another.
use hex_type.Prelude.{
  ℕ, ◌≡◌, refl, sym, subst, ◌∙◌, some, Bool, true, false, List, [], ◌∷◌, ◌==◌, ◌&&◌, ◌||◌, ◌>>=◌,
  contains, inl, inr, Bool-cases, Option-cases, ==_refl, Returns, some_inj, arith,
}
use hex_type.Names.{get_hash_value_from_str, sync_type_name, crc64c}
use hex_type.Names.Removal.{sync_ends}
use hex_type.Phantoms.Laws.{contains-insert}
use hex_type.Classes.{
  ClassDecl, class_info, Storage, insert_type_relation_info, RelationInfo, insert_phantoms,
  insert_relation, is_recorded, record_relation,
}

-- The storage has the pair.
abbrev pub holds : ℕ → ℕ → Storage → Bool
holds x y [] = false
holds x y ((k, set) ∷ rest) = k == x && contains y set || holds x y rest

pub holds-insert_type_relation_info :
    (x y target parent : ℕ) (s : Storage)
    → holds x y (insert_type_relation_info target parent s)
      ≡ (target == x && parent == y || holds x y s)
unfolding insert_type_relation_info
holds-insert_type_relation_info x y target parent [] = ground arith
holds-insert_type_relation_info x y target parent ((k, set) ∷ rest) =
    ground
      (arith, contains-insert y parent set, holds-insert_type_relation_info x y target parent rest)

-- The pair of hashes is recorded, with its phantoms if the two have the same size.
abbrev pub NotedAt : Bool → RelationInfo → ℕ → ℕ → Type 0
NotedAt same_size s x y =
    (holds x y s.type_parent_info ≡ true)
    × (same_size ≡ true
        → (holds x y s.type_phantom_info ≡ true) × (holds y x s.type_phantom_info ≡ true))

-- The relation of a class to another is recorded.
abbrev pub Noted : ClassDecl → ClassDecl → RelationInfo → Type 0
Noted c d s =
    (x y : ℕ)
    → get_hash_value_from_str (class_info c).name ≡ some x
    → get_hash_value_from_str (class_info d).name ≡ some y
    → is_recorded c d x y ≡ true
    → NotedAt ((class_info c).data_size == (class_info d).data_size) s x y

pair-Noted :
    (c d : ClassDecl) (s : RelationInfo) (x y : ℕ)
    → get_hash_value_from_str (class_info c).name ≡ some x
    → get_hash_value_from_str (class_info d).name ≡ some y
    → (is_recorded c d x y ≡ true
        → NotedAt ((class_info c).data_size == (class_info d).data_size) s x y)
    → Noted c d s
pair-Noted c d s x y ex ey h u v eu ev =
    subst (λ w. is_recorded c d u w ≡ true → NotedAt same s u w) (some_inj y v (sym ey ∙ ev))
      (subst (λ w. is_recorded c d w y ≡ true → NotedAt same s w y) (some_inj x u (sym ex ∙ eu)) h)
  where
    same : Bool
    same = (class_info c).data_size == (class_info d).data_size

-- What is recorded stays so.
abbrev pub Keeps : RelationInfo → RelationInfo → Type 0
Keeps s s' =
    (x y : ℕ)
    → (holds x y s.type_parent_info ≡ true → holds x y s'.type_parent_info ≡ true)
      × (holds x y s.type_phantom_info ≡ true → holds x y s'.type_phantom_info ≡ true)

pub Keeps-trans : (r s t : RelationInfo) → Keeps r s → Keeps s t → Keeps r t
Keeps-trans r s t a b x y = (λ h. (b x y).0 ((a x y).0 h), λ h. (b x y).1 ((a x y).1 h))

pub Noted-Keeps : (c d : ClassDecl) (s s' : RelationInfo) → Keeps s s' → Noted c d s → Noted c d s'
Noted-Keeps c d s s' k n x y ex ey r =
    let (p, q) = n x y ex ey r in
    ((k x y).0 p, λ same. let (a, b) = q same in ((k x y).1 a, (k y x).1 b))

hash_ends : (name : List ℕ) → (h : ℕ) × (get_hash_value_from_str name ≡ some h)
unfolding get_hash_value_from_str
hash_ends name = elim (Option-cases (sync_type_name name)) [
  | inl e ↦ absurd (sync_ends name e)
  | inr (s, e) ↦ (crc64c s, rw (e, ◌>>=◌) refl)
]

holds-insert_phantoms :
    (u v : ℕ) (b : Bool) (x y : ℕ) (s : Storage)
    → holds u v (insert_phantoms b x y s)
      ≡ (b && (y == u && x == v || (x == u && y == v)) || holds u v s)
holds-insert_phantoms u v false x y s = refl
holds-insert_phantoms u v true x y s = ground (
  arith,
  holds-insert_type_relation_info u v y x (insert_type_relation_info x y s),
  holds-insert_type_relation_info u v x y s,
)

insert_relation-Keeps : (x y : ℕ) (b : Bool) (s : RelationInfo) → Keeps s (insert_relation x y b s)
insert_relation-Keeps x y b s u v = (
  λ h. ground (arith, holds-insert_type_relation_info u v x y s.type_parent_info),
  λ h. ground (arith, holds-insert_phantoms u v b x y s.type_phantom_info),
)

module _ (x y : ℕ) (b : Bool) (s : RelationInfo) where
  insert_relation_lem :
      (holds x y (insert_relation x y b s).type_parent_info ≡ true)
      × (b ≡ true
          → (holds x y (insert_relation x y b s).type_phantom_info ≡ true)
            × (holds y x (insert_relation x y b s).type_phantom_info ≡ true))
  insert_relation_lem = (
    ground
        (arith, holds-insert_type_relation_info x y x y s.type_parent_info, ==_refl x, ==_refl y),
    λ same. (
      ground (arith, holds-insert_phantoms x y b x y s.type_phantom_info, ==_refl x, ==_refl y),
      ground (arith, holds-insert_phantoms y x b x y s.type_phantom_info, ==_refl x, ==_refl y),
    ),
  )

pub record_relation-Noted :
    (c d : ClassDecl) (s : RelationInfo)
    → Returns (record_relation c d s) λ s'. Keeps s s' × Noted c d s'
unfolding record_relation
record_relation-Noted c d s =
    let (x, ex) = hash_ends (class_info c).name in
    let (y, ey) = hash_ends (class_info d).name in
    elim (Bool-cases (is_recorded c d x y)) [
      | inl e ↦
          let b = (class_info c).data_size == (class_info d).data_size in
          (
            insert_relation x y b s,
            rw (ex, ◌>>=◌) (rw (ey, ◌>>=◌) (rw e refl)),
            (
              insert_relation-Keeps x y b s,
              pair-Noted c d (insert_relation x y b s) x y ex ey (λ r. insert_relation_lem x y b s),
            ),
          )
      | inr e ↦ (
        s,
        rw (ex, ◌>>=◌) (rw (ey, ◌>>=◌) (rw e refl)),
        (λ u v. (λ h. h, λ h. h), pair-Noted c d s x y ex ey (λ r. cc)),
      )
    ]
