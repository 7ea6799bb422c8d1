-- ===== src/Downcasts/Dynamic/Untracked.antt =====
-- The check that takes the place of `dynamic_cast`, on an object that is not in the object map.
use hex_type.Prelude.{
  ℕ, ◌+◌, ◌-◌, ◌%◌, ◌^◌, ◌≡◌, ◌≢◌, refl, ap, ◌∙◌, Option, none, some, Bool, true, false, List, ◌==◌,
  Returns, arith,
}
use hex_type.Names.{get_hash_value_from_str}
use hex_type.Runtime.{Runtime, get_hash, count}
use hex_type.Counters.{num_casting}
use hex_type.Objects.{entry_find, find_obj_info}
use hex_type.Runtime.{ObjInfo}
use hex_type.Casts.{verify_type_casting, dynamic_casting_verification}
use hex_type.Casts.Counts.{find-counts}
use hex_type.Classes.{is_usable}
use hex_type.Downcasts.{Layouts, ClassTy}
use hex_type.Downcasts.Dynamic.{BasePath, pointer, compute_offset_hint, emit_dynamic_cast_call}

verify_missing :
    (src dst hash : ℕ) (s s₁ : Runtime)
    → src ≢ 0
    → find_obj_info src (count num_casting s) ≡ (none, s₁)
    → verify_type_casting src dst hash s ≡ some (dst, s₁)
unfolding verify_type_casting
verify_missing src dst hash s s₁ n lookup =
    let start : (src == 0) ≡ false = ground (arith, n) in
    rw (start, lookup) (ap (λ (l : Option ObjInfo × Runtime). some (dst, l.1)) lookup)

-- A `dynamic_cast` of a pointer to an object that is not in the object map, with the check of HexType in
-- the place of `__dynamic_cast`, gives the pointer less the hint, whatever the classes are; if the class
-- is not derived from the static class of the object, this is the pointer plus two.
pub emit_dynamic_cast_call-untracked :
    (layout : Layouts) (is_derived_from : Bool) (paths : List BasePath) (dynamic_cast : ℕ)
    (t : ClassTy) (hash this : ℕ) (s : Runtime)
    → is_usable t.decl ≡ true
    → get_hash_value_from_str t.llvm_name ≡ some hash
    → this ≢ 0
    → entry_find (s.obj_type_map (get_hash this)) this ≡ none
    → Returns
        (emit_dynamic_cast_call true dynamic_cast false
          (some t)
          (compute_offset_hint layout is_derived_from paths)
          this
          s)
        λ r.
          (r.0
            ≡ pointer ((this + 2 ^ 64 - compute_offset_hint layout is_derived_from paths) % 2 ^ 64))
          × (is_derived_from ≡ false → r.0 ≡ pointer ((this + 2) % 2 ^ 64))
unfolding emit_dynamic_cast_call dynamic_casting_verification compute_offset_hint
emit_dynamic_cast_call-untracked layout derived paths dynamic_cast t hash this s usable e n
      missing =
    let hint = compute_offset_hint layout derived paths in
    let (i, lookup, _, _) = find-counts this (count num_casting s) in
    let s₁ = count i (count num_casting s) in
    let run =
      verify_missing this ((this + 2 ^ 64 - hint) % 2 ^ 64) hash s s₁ n
        (lookup ∙ ap (λ o. (o, s₁)) missing) in
    (
      (pointer ((this + 2 ^ 64 - hint) % 2 ^ 64), s₁),
      rw (usable, e, run) refl,
      (refl, λ q. rw q (ap pointer (omega arith))),
    )
