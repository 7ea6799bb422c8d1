-- ===== src/Classes/Checks.antt =====
-- The run-time check of a cast to an ancestor, with the tables that are made of the class hierarchy.
use hex_type.Prelude.{
  ℕ, ◌+◌, ◌*◌, ◌%◌, ◌^◌, ◌<◌, ◌≡◌, ◌≢◌, refl, sym, ap, subst, ◌∙◌, some, Bool, true, false, List,
  ◌∷◌, ◌++◌, ◌==◌, ◌||◌, contains, length, get_elem?, Returns, some_inj, ◌>>=◌, if◌then◌else◌,
}
use hex_type.Runtime.{Runtime, ObjInfo}
use hex_type.Casts.{phantoms, rule_contains, is_related, check_cast}
use hex_type.Casts.Cache.{IsCoherent, reference, check_cast-IsCoherent}
use hex_type.Types.{TypeInfo, hashes, sorted_hashes, get_sorted_all_parent_set, rule_position}
use hex_type.Types.Direct.{StructTy}
use hex_type.Types.Rules.{Loaded, rules-contains}
use hex_type.Types.Scan.{Lacks}
use hex_type.Types.Links.{LogLine, create_obj_relation_info}
use hex_type.Types.Links.Created.{create_obj_relation_info-bound}
use hex_type.Types.Links.Search.{at_length}
use hex_type.Classes.{ClassDecl, is_usable, RelationInfo, get_type_relation_info, relation_lines}
use hex_type.Classes.Ancestors.{Lineage, Ancestor}
use hex_type.Classes.Tables.{IsPair, Lists, get_type_relation_info-Lists}

-- A type whose rules hold the target accepts it, whatever the phantoms.
is_related_found :
    (memory : ℕ → ℕ) (phantom_set : List ℕ) (rule_addr dst : ℕ)
    → rule_contains memory rule_addr dst ≡ some true
    → is_related memory phantom_set rule_addr dst ≡ some true
unfolding is_related
is_related_found memory phantom_set rule_addr dst e = rw (e, ◌>>=◌) refl

-- The rules of a type in the tables accept a hash among all its parents.
related-parent :
    (before : List TypeInfo) (t : TypeInfo) (after : List TypeInfo) (base p : ℕ) (memory : ℕ → ℕ)
    (phantom_set : List ℕ) (dst : ℕ)
    → Lacks t.detail_info.type_hash_value before
    → Loaded memory base (get_sorted_all_parent_set (before ++ t ∷ after))
    → length (sorted_hashes t.all_parents) < 2 ^ 63
    → rule_position (get_sorted_all_parent_set (before ++ t ∷ after)) t.detail_info.type_hash_value
      ≡ some p
    → contains dst (hashes t.all_parents) ≡ true
    → is_related memory phantom_set ((base + 8 * p) % 2 ^ 64) dst ≡ some true
related-parent before t after base p memory phantom_set dst lacks loaded small place there =
    let (q, found, (b, run, e)) =
      rules-contains before t after memory base dst lacks loaded small in
    let same : (base + 8 * q) % 2 ^ 64 ≡ (base + 8 * p) % 2 ^ 64 =
      ap (λ i. (base + 8 * i) % 2 ^ 64) (some_inj q p (sym found ∙ place)) in
    is_related_found memory phantom_set ((base + 8 * p) % 2 ^ 64) dst
      (subst (λ a. rule_contains memory a dst ≡ some true) same (run ∙ ap some (e ∙ there)))

-- The rules of a class in the tables that are made of the log of its hierarchy accept an ancestor.
pub is_related-Ancestor :
    (d x z : ClassDecl) (hx hz : ℕ) (info info' : RelationInfo) (earlier later : List LogLine)
    (module_types : List StructTy) (r : List TypeInfo × List ℕ × List ℕ) (before : List TypeInfo)
    (t : TypeInfo) (after : List TypeInfo) (w : ℕ) (b : TypeInfo) (base p : ℕ) (memory : ℕ → ℕ)
    (phantom_set : List ℕ)
    → is_usable d ≡ true
    → get_type_relation_info d d info ≡ some info'
    → create_obj_relation_info (earlier ++ (relation_lines info' ++ later)) module_types ≡ some r
    → Lineage d x
    → Ancestor x z
    → IsPair x z hx hz
    → r.0 ≡ before ++ t ∷ after
    → t.detail_info.type_hash_value ≡ hx
    → Lacks hx before
    → get_elem? r.0 w ≡ some b
    → b.detail_info.type_hash_value ≡ hz
    → w ≢ length before
    → Loaded memory base (get_sorted_all_parent_set r.0)
    → length (sorted_hashes t.all_parents) < 2 ^ 63
    → rule_position (get_sorted_all_parent_set r.0) hx ≡ some p
    → is_related memory phantom_set ((base + 8 * p) % 2 ^ 64) hz ≡ some true
is_related-Ancestor d x z hx hz info info' earlier later module_types r before t after w b base p
      memory phantom_set usable traced made l a pair shape et lacks eb ez other loaded small place =
    let (info₁, traced₁, (r₁, made₁, lists)) =
      get_type_relation_info-Lists d info earlier later module_types usable (
        create_obj_relation_info-bound (earlier ++ (relation_lines info' ++ later)) module_types r
          made) in
    let same : r₁ ≡ r = some_inj r₁ r (
      sym made₁
      ∙ ap (λ i. create_obj_relation_info (earlier ++ (relation_lines i ++ later)) module_types)
          (some_inj info₁ info' (sym traced₁ ∙ traced))
      ∙ made) in
    let listed : Lists hx hz r.0 = subst (λ q. Lists hx hz q.0) same (lists x z hx hz l a pair) in
    let there =
      listed (length before) w t b
        (ap (λ ts. get_elem? ts (length before)) shape ∙ at_length before t after) et eb ez other in
    related-parent before t after base p memory phantom_set hz
      (subst (λ h. Lacks h before) (sym et) lacks)
      (subst (λ ts. Loaded memory base (get_sorted_all_parent_set ts)) shape loaded) small
      (ap (rule_position (get_sorted_all_parent_set (before ++ t ∷ after))) et
        ∙ ap (λ ts. rule_position (get_sorted_all_parent_set ts) hx) (sym shape)
        ∙ place)
      there

or_true : (c : Bool) (a : ℕ) → (if c || true then a else 0) ≡ a
or_true true a = refl
or_true false a = refl

-- No cast to an ancestor is refused. If the front end's log has the relations of a class, and the
-- compiler's pass made tables of it, in which the type `t` of a class of the hierarchy is the first with
-- its hash and an ancestor of that class has another type; and if the program's memory holds the table
-- of parents, an object has the hash and the rules of `t`, of which there are less than 2 ^ 63, and the
-- cache of verdicts is right: then the check of a cast of the object to the ancestor returns the address.
pub check_cast-Ancestor :
    (d x z : ClassDecl) (hx hz : ℕ) (info info' : RelationInfo) (earlier later : List LogLine)
    (module_types : List StructTy) (r : List TypeInfo × List ℕ × List ℕ) (before : List TypeInfo)
    (t : TypeInfo) (after : List TypeInfo) (w : ℕ) (b : TypeInfo) (base p : ℕ) (rules : ℕ → ℕ)
    (v : ObjInfo) (dst_addr : ℕ) (s : Runtime)
    → is_usable d ≡ true
    → get_type_relation_info d d info ≡ some info'
    → create_obj_relation_info (earlier ++ (relation_lines info' ++ later)) module_types ≡ some r
    → Lineage d x
    → Ancestor x z
    → IsPair x z hx hz
    → r.0 ≡ before ++ t ∷ after
    → t.detail_info.type_hash_value ≡ hx
    → Lacks hx before
    → get_elem? r.0 w ≡ some b
    → b.detail_info.type_hash_value ≡ hz
    → w ≢ length before
    → Loaded s.memory base (get_sorted_all_parent_set r.0)
    → length (sorted_hashes t.all_parents) < 2 ^ 63
    → rule_position (get_sorted_all_parent_set r.0) hx ≡ some p
    → v.type_hash_value ≡ hx
    → v.rule_addr ≡ (base + 8 * p) % 2 ^ 64
    → v.rule_addr ≢ 0
    → rules hx ≡ v.rule_addr
    → IsCoherent (reference rules s) s.verify_result_cache
    → Returns (check_cast v hz dst_addr s) λ q. q.0 ≡ dst_addr
check_cast-Ancestor d x z hx hz info info' earlier later module_types r before t after w b base p
      rules v dst_addr s usable traced made l a pair shape et lacks eb ez other loaded small place
      ev at has table ok =
    let related =
      is_related-Ancestor d x z hx hz info info' earlier later module_types r before t after w b
        base p s.memory (phantoms s hz) usable traced made l a pair shape et lacks eb ez other
        loaded small place in
    let (q, done, (value, _)) =
      check_cast-IsCoherent rules v hz dst_addr true s (ap rules ev ∙ table) has
        (subst (λ i. is_related s.memory (phantoms s hz) i hz ≡ some true) (sym at) related) ok in
    (q, done, value ∙ or_true (v.type_hash_value == hz) dst_addr)
