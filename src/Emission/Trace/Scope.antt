-- ===== src/Emission/Trace/Scope.antt =====
-- The objects of a scope: what `insertUpdate` emits for an allocation on the stack and what
-- `insertRemove` emits for its end.
use hex_type.Prelude.{
  ℕ, zero, suc, ◌+◌, ◌*◌, ◌%◌, ◌^◌, ◌<◌, ◌≡◌, refl, ◌∙◌, some, Bool, true, false, List, [], ◌∷◌,
  ◌++◌, inl, inr, if◌then◌else◌, Bool-cases, Option-cases, Has, map, each, Returns, ◌>>=◌, ltb,
  arith,
}
use hex_type.Runtime.{Runtime, stackalloc}
use hex_type.Objects.Find.{IsObjectMap}
use hex_type.Types.{TypeInfo, get_sorted_all_parent_set}
use hex_type.Types.Missing.{rule_position_ends}
use hex_type.Names.{get_hash_value_from_sty}
use hex_type.Names.Removal.{get_hash_value_from_sty_ends}
use hex_type.Layout.{Element}
use hex_type.Layout.Casting.{filter, is_casting_related, remove_non_casting_related_obj-filter}
use hex_type.Emission.{
  EmitType, con_obj_add, con_obj_del, Emission, update_stack_oinfo, remove_stack_oinfo, sized,
  emit_elements, insert_update, insert_remove, get_alloc_type,
}
use hex_type.Emission.Trace.{
  Config, Allocation, count_update, count_remove, rule_address, trace_entry, trace_entries,
  emit_inst_for_obj_trace, new_addr,
}
use hex_type.Types.Relations.Spans.{Has-append_left, Has-append_right}
use hex_type.Emission.Trace.Steps.{Adds, Removes, add_object-Adds, remove_object-Removes}
use hex_type.Emission.Trace.Frame.{InWindow}
use hex_type.Emission.Trace.Runs.{
  Runs, Runs-some, Runs-equal, Runs-bind, Stable, NoDup, NoDup-append,
}

abbrev pub on_stack : ℕ → EmitType → ℕ → Emission
on_stack size t i = record {
  emit_type = t;
  array_size = some size;
  curr_array_index = i;
  alloc_type = stackalloc;
}

-- The address of an object of element `i` of the allocation.
abbrev pub address : Allocation → ℕ → Element → ℕ
address a i e = new_addr a (on_stack 1 con_obj_add i) e

count_update-map :
    (cfg : Config) (t v : ℕ) (s : Runtime) → (count_update cfg t v s).obj_type_map ≡ s.obj_type_map
count_update-map cfg t v s = elim (Bool-cases cfg.make_log_info) [
  | inl e ↦ rw e refl
  | inr e ↦ rw e refl
]

count_remove-map :
    (cfg : Config) (t v : ℕ) (s : Runtime) → (count_remove cfg t v s).obj_type_map ≡ s.obj_type_map
count_remove-map cfg t v s = elim (Bool-cases cfg.make_log_info) [
  | inl e ↦ rw e refl
  | inr e ↦ rw e refl
]

module _ (cfg : Config) (a : Allocation) (size i : ℕ) (first : Bool) (e : Element) (s : Runtime)
    (ok : IsObjectMap s) where
  pub entry_add :
      (hash rule : ℕ)
      → get_hash_value_from_sty e.name ≡ some hash
      → rule_address cfg hash ≡ some rule
      → Returns
          (trace_entry cfg a (on_stack size con_obj_add i) first e s)
          (Adds (address a i e) hash (e.offset % 2 ^ 32) rule s)
  unfolding trace_entry
  entry_add hash rule eh er =
      let (s₁, run, (e', table, put, own, h, o, r)) =
        add_object-Adds cfg stackalloc (address a i e) hash (e.offset % 2 ^ 32) rule s ok
          (omega arith) in
      (
        count_update cfg stackalloc 1 s₁,
        rw (eh, ◌>>=◌) (rw (er, ◌>>=◌) (rw (run, ◌>>=◌) refl)),
        (e', count_update-map cfg stackalloc 1 s₁ ∙ table, put, own, h, o, r),
      )

  pub entry_remove :
      (hash : ℕ)
      → get_hash_value_from_sty e.name ≡ some hash
      → Returns
          (trace_entry cfg a (on_stack size con_obj_del i) first e s)
          (Removes (address a i e) s)
  unfolding trace_entry
  entry_remove hash eh =
      let (s₁, run, (e', table, rest)) =
        remove_object-Removes cfg stackalloc (address a i e) s ok (omega arith) (omega arith) in
      (
        count_remove cfg stackalloc 1 s₁,
        rw (eh, ◌>>=◌) (rw (run, ◌>>=◌) refl),
        (e', count_remove-map cfg stackalloc 1 s₁ ∙ table, rest),
      )

-- The addresses of all objects of the allocation, element by element.
abbrev pub addresses : Allocation → List Element → ℕ → ℕ → List ℕ
addresses a es zero i = []
addresses a es (suc n) i = map (address a i) es ++ addresses a es n (i + 1)

-- The objects that are left when those that take part in no cast have been taken out.
abbrev pub kept : Config → List Element → List Element
kept cfg elements =
    if cfg.cast_obj_opt
    then filter (is_casting_related cfg.casting_related_set) elements
    else elements

emit_lem :
    (cfg : Config) (a : Allocation) (elements : List Element) (size : ℕ) (t : EmitType) (i : ℕ)
    (s : Runtime)
    → emit_inst_for_obj_trace cfg a elements (on_stack size t i) s
      ≡ trace_entries cfg a (on_stack size t i) true (kept cfg elements) s
unfolding emit_inst_for_obj_trace
emit_lem cfg a elements size t i s = elim (Bool-cases cfg.cast_obj_opt) [
  | inl e ↦ rw (e, remove_non_casting_related_obj-filter cfg.casting_related_set elements) refl
  | inr e ↦ rw e refl
]

module _ (cfg : Config) (a : Allocation) (size w : ℕ) (t : EmitType) (P Q : ℕ → Runtime → Type 0)
    (stable : Stable w P) (stays : Stable w Q)
    (entry : (i : ℕ) (first : Bool) (e : Element)
      → InWindow w (address a i e)
      → Runs w P Q (address a i e ∷ []) (trace_entry cfg a (on_stack size t i) first e)) where
  entries-Runs :
      (i : ℕ) (first : Bool) (es : List Element)
      → NoDup (map (address a i) es)
      → ((x : ℕ) → Has x (map (address a i) es) → InWindow w x)
      → Runs w P Q (map (address a i) es) (trace_entries cfg a (on_stack size t i) first es)
  unfolding trace_entries
  entries-Runs i first [] nodup inside = Runs-some w P Q stable stays
  entries-Runs i first (e ∷ es) nodup inside =
      Runs-bind w P Q stable stays (address a i e ∷ []) (map (address a i) es)
        (trace_entry cfg a (on_stack size t i) first e)
        (trace_entries cfg a (on_stack size t i) false es) nodup inside
        (entry i first e (inside (address a i e) (inl refl)))
        (entries-Runs i false es nodup.1 (λ x h. inside x (inr h)))

  pub emissions-Runs :
      (elements : List Element) (n i : ℕ)
      → NoDup (addresses a (kept cfg elements) n i)
      → ((x : ℕ) → Has x (addresses a (kept cfg elements) n i) → InWindow w x)
      → Runs w P Q (addresses a (kept cfg elements) n i) (
          each
            (emit_inst_for_obj_trace cfg a elements)
            (emit_elements n i t (some size) stackalloc))
  unfolding emit_elements
  emissions-Runs elements zero i nodup inside = Runs-some w P Q stable stays
  emissions-Runs elements (suc n) i nodup inside =
      let es = kept cfg elements in
      let here = map (address a i) es in
      let later = addresses a es n (i + 1) in
      let (n₁, n₂, _) = NoDup-append here later nodup in
      Runs-bind w P Q stable stays here later
        (emit_inst_for_obj_trace cfg a elements (on_stack size t i))
        (each (emit_inst_for_obj_trace cfg a elements)
          (emit_elements n (i + 1) t (some size) stackalloc))
        nodup inside
        (Runs-equal w P Q here (emit_inst_for_obj_trace cfg a elements (on_stack size t i))
          (trace_entries cfg a (on_stack size t i) true es) (emit_lem cfg a elements size t i)
          (entries-Runs i true es n₁ (λ x h. inside x (Has-append_left x here later h))))
        (emissions-Runs elements n (i + 1) n₂ (λ x h. inside x (Has-append_right x here later h)))

-- The table of the compiler answers for every hash.
pub rule_address_ends :
    (cfg : Config) (types : List TypeInfo) (hash : ℕ)
    → cfg.type_info_array_int ≡ get_sorted_all_parent_set types
    → (rule : ℕ) × (rule_address cfg hash ≡ some rule)
rule_address_ends cfg types hash e =
    let (p, run) = rule_position_ends types hash in
    ((p * 8 + cfg.type_info_array_global) % 2 ^ 64, rw (e, run, ◌>>=◌) refl)

pub hash_ends : (name : List ℕ) → (hash : ℕ) × (get_hash_value_from_sty name ≡ some hash)
hash_ends name = elim (Option-cases (get_hash_value_from_sty name)) [
  | inl e ↦ absurd (get_hash_value_from_sty_ends name e)
  | inr h ↦ h
]

pub insert_update_stack :
    (n : ℕ)
    → n < 2 ^ 32
    → insert_update update_stack_oinfo (some n)
      ≡ some (emit_elements n 0 con_obj_add (some n) stackalloc)
unfolding insert_update get_alloc_type
insert_update_stack n l = let e : ltb n (2 ^ 32) ≡ true = ground arith in rw e refl

pub insert_remove_stack :
    (n : ℕ)
    → n < 2 ^ 32
    → insert_remove remove_stack_oinfo false (sized (some n))
      ≡ some (emit_elements n 0 con_obj_del (some n) stackalloc)
unfolding insert_remove get_alloc_type
insert_remove_stack n l = let e : ltb n (2 ^ 32) ≡ true = ground arith in rw e refl
