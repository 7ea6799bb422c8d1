-- ===== src/Downcasts/Ancestors.antt =====
-- Casts of pointers to an ancestor of the object's class, from the classes' declarations to the report.
use hex_type.Prelude.{
  ℕ, ◌+◌, ◌*◌, ◌%◌, ◌^◌, ◌<◌, ◌≡◌, ◌≢◌, refl, sym, ap, subst, ◌∙◌, none, some, Bool, true, false,
  List, [], ◌∷◌, ◌++◌, ◌==◌, ◌||◌, length, get_elem?, Returns, if◌then◌else◌,
}
use hex_type.Names.{starts_with, get_hash_value_from_str}
use hex_type.Names.Prefixes.{base}
use hex_type.Names.Records.{RecordDecl, add_record_type_name}
use hex_type.Names.Agreement.{IsClass, add_record_type_name-hash}
use hex_type.Runtime.{Runtime, ObjInfo, get_hash}
use hex_type.Objects.{entry_find}
use hex_type.Casts.{phantoms, is_related}
use hex_type.Casts.Cache.{IsCoherent, reference}
use hex_type.Types.{TypeInfo, sorted_hashes, get_sorted_all_parent_set, rule_position}
use hex_type.Types.Direct.{StructTy}
use hex_type.Types.Rules.{Loaded}
use hex_type.Types.Scan.{Lacks}
use hex_type.Types.Links.{LogLine, create_obj_relation_info}
use hex_type.Classes.{
  ClassDecl, class_info, is_usable, RelationInfo, get_type_relation_info, relation_lines,
}
use hex_type.Classes.Ancestors.{Lineage, Ancestor}
use hex_type.Classes.Tables.{IsPair}
use hex_type.Classes.Checks.{is_related-Ancestor}
use hex_type.Downcasts.{Layouts, Downcast, downcast_offset, pointer_downcast}
use hex_type.Downcasts.Reports.{reported, pointer_downcast-reports}

-- The hash at a cast is that of the name of the class.
target-hash :
    (rd : RecordDecl) (scopes : List (List ℕ)) (c : Downcast) (hz : ℕ)
    → IsClass rd scopes
    → (scopes ≡ [] → starts_with base rd.name ≡ false)
    → rd.name ≡ (class_info c.target.decl).name
    → c.target.llvm_name ≡ add_record_type_name rd []
    → get_hash_value_from_str (class_info c.target.decl).name ≡ some hz
    → get_hash_value_from_str c.target.llvm_name ≡ some hz
target-hash rd scopes c hz class no_base name struct e =
    ap get_hash_value_from_str struct
    ∙ (add_record_type_name-hash rd scopes class no_base).0
    ∙ ap get_hash_value_from_str name
    ∙ e

or_true : (c : Bool) {A : Type 0} (x y : A) → (if c || true then x else y) ≡ x
or_true true x y = refl
or_true false x y = refl

-- A cast of a pointer to an ancestor reports nothing. Let the front end's log have the relations of a
-- class, and the compiler's pass make tables of it, in which the type `t` of a class of the hierarchy is
-- the first with its hash and an ancestor of that class has another type. Let the program's memory hold
-- the table of parents, and let an object at an address other than null have the hash and the rules of
-- `t`, of which there are less than 2 ^ 63, while the cache of verdicts is right. Then a checked cast of
-- the address to the ancestor, a class that is defined, at no offset and with a plain name that does not
-- begin with "base" in no scope, returns the address, and the reports stay as they are.
pub pointer_downcast-Ancestor :
    (layout : Layouts) (c : Downcast) (null_check : Bool) (rd : RecordDecl) (scopes : List (List ℕ))
    (addr : ℕ) (d x : ClassDecl) (hx hz : ℕ) (info info' : RelationInfo)
    (earlier later : List LogLine) (module_types : List StructTy)
    (r : List TypeInfo × List ℕ × List ℕ) (before : List TypeInfo) (t : TypeInfo)
    (after : List TypeInfo) (w : ℕ) (b : TypeInfo) (table p : ℕ) (rules : ℕ → ℕ) (v : ObjInfo)
    (s : Runtime)
    → c.hex_type ≡ true
    → c.blacklisted ≡ false
    → is_usable c.target.decl ≡ true
    → downcast_offset layout c ≡ none
    → IsClass rd scopes
    → (scopes ≡ [] → starts_with base rd.name ≡ false)
    → rd.name ≡ (class_info c.target.decl).name
    → c.target.llvm_name ≡ add_record_type_name rd []
    → is_usable d ≡ true
    → get_type_relation_info d d info ≡ some info'
    → create_obj_relation_info (earlier ++ (relation_lines info' ++ later)) module_types ≡ some r
    → Lineage d x
    → Ancestor x c.target.decl
    → IsPair x c.target.decl hx hz
    → r.0 ≡ before ++ t ∷ after
    → t.detail_info.type_hash_value ≡ hx
    → Lacks hx before
    → get_elem? r.0 w ≡ some b
    → b.detail_info.type_hash_value ≡ hz
    → w ≢ length before
    → Loaded s.memory table (get_sorted_all_parent_set r.0)
    → length (sorted_hashes t.all_parents) < 2 ^ 63
    → rule_position (get_sorted_all_parent_set r.0) hx ≡ some p
    → addr ≢ 0
    → entry_find (s.obj_type_map (get_hash addr)) addr ≡ some v
    → v.type_hash_value ≡ hx
    → v.rule_addr ≡ (table + 8 * p) % 2 ^ 64
    → v.rule_addr ≢ 0
    → rules hx ≡ v.rule_addr
    → IsCoherent (reference rules s) s.verify_result_cache
    → Returns
        (pointer_downcast layout c null_check addr s)
        λ q. (q.0 ≡ addr) × (q.1.reports ≡ s.reports)
pointer_downcast-Ancestor layout c null_check rd scopes addr d x hx hz info info' earlier later
      module_types r before t after w b table p rules v s on off usable flat class no_base name
      struct defined traced made l a pair shape et lacks eb ez other loaded small place n found ev
      at has rule ok =
    let related =
      is_related-Ancestor d x c.target.decl hx hz info info' earlier later module_types r before t
        after w b table p s.memory (phantoms s hz) defined traced made l a pair shape et lacks eb ez
        other loaded small place in
    let (q, run, (same, reports)) =
      pointer_downcast-reports layout c null_check rules v addr hz true s on off usable
        (target-hash rd scopes c hz class no_base name struct pair.1) flat n found
        (ap rules ev ∙ rule) has
        (subst (λ i. is_related s.memory (phantoms s hz) i hz ≡ some true) (sym at) related) ok in
    (
      q,
      run,
      (
        same,
        reports ∙ or_true (v.type_hash_value == hz) s.reports (reported v.type_hash_value hz s),
      ),
    )
