-- ===== src/Examples/Scopes.antt =====
-- The theorems on what is emitted for a scope, on an array of two structures with a base class.
use hex_type.Prelude.{
  ℕ, ◌^◌, ◌≡◌, refl, none, some, true, false, List, [], ◌∷◌, ◌==◌, inl, inr, Bool-cases, Returns,
  arith, ◌>>=◌, Has,
}
use hex_type.Runtime.{get_hash}
use hex_type.Objects.{find_obj_info, tree_lookup, update_direct_oinfo}
use hex_type.Objects.Find.{IsObjectMap, find}
use hex_type.Types.{get_sorted_all_parent_set}
use hex_type.Layout.{Element}
use hex_type.Emission.{update_stack_oinfo, remove_stack_oinfo, sized}
use hex_type.Emission.Trace.{Config, Allocation, trace_update, trace_remove, inline_add}
use hex_type.Emission.Trace.Frame.{InWindow, Fronts}
use hex_type.Emission.Trace.Runs.{NoDup}
use hex_type.Emission.Trace.Scope.{addresses}
use hex_type.Emission.Trace.Undo.{scope-find}
use hex_type.Emission.Trace.Inlining.{inline_add-update_direct_oinfo}
use hex_type.Counters.{num_placement_new}
use hex_type.Emission.Trace.{rule_address}
use hex_type.Emission.Trace.Steps.{Adds}
use hex_type.Emission.Extend.{placement_new, emit_extend_obj_trace_inst}
use hex_type.Emission.Extend.Placement.{place, twice, emit_extend_obj_trace_inst-Adds}
use hex_type.Examples.{one_object, parent, child}

abbrev config : Config
config = record {
  cast_obj_opt = false;
  inline_opt = true;
  make_log_info = true;
  casting_related_set = λ name. true;
  type_info_array_int = get_sorted_all_parent_set (parent ∷ child ∷ []);
  type_info_array_global = 2 ^ 20;
}

abbrev pair : Allocation
pair = record { obj_addr = 4096; array_size = 2; type_size = 16; realloc_addr = 0 }

abbrev object : Element
object = record { offset = 0; name = 65 ∷ [] }

abbrev member : Element
member = record { offset = 8; name = 66 ∷ [] }

one_object-IsObjectMap : IsObjectMap one_object
one_object-IsObjectMap = record {
  trees = λ i. elim (Bool-cases (i == 8)) [ inl e ↦ rw e tt | inr e ↦ rw e tt ];
}

one_object-Fronts : Fronts 0 one_object
one_object-Fronts i = elim (Bool-cases (i == 8)) [
  | inl e ↦ rw e (λ n. (refl, omega arith))
  | inr e ↦ rw e (λ n. absurd (n refl))
]

abbrev pair_addresses : List ℕ
pair_addresses = addresses pair (object ∷ member ∷ []) 2 0

free : (x : ℕ) → Has x pair_addresses → InWindow 0 x × (find x one_object ≡ none)
unfolding find_obj_info tree_lookup get_hash
free x (inl e) = rw e ((refl, omega arith), refl)
free x (inr (inl e)) = rw e ((refl, omega arith), refl)
free x (inr (inr (inl e))) = rw e ((refl, omega arith), refl)
free x (inr (inr (inr (inl e)))) = rw e ((refl, omega arith), refl)
free x (inr (inr (inr (inr h)))) = absurd h

apart : NoDup pair_addresses
apart = (λ h. ground arith, (λ h. ground arith, (λ h. ground arith, (λ h. h, tt))))

scope-find_example :
    Returns
      (trace_update config pair (object ∷ member ∷ []) update_stack_oinfo (some 2) one_object
        >>= trace_remove config pair (object ∷ member ∷ []) remove_stack_oinfo (sized (some 2)))
      λ s. find 64 s ≡ find 64 one_object
scope-find_example =
    scope-find config pair 0 (parent ∷ child ∷ []) object (member ∷ []) 2 64 one_object refl
      (omega arith) (one_object-IsObjectMap, one_object-Fronts) free apart (refl, omega arith)

inline_add-update_direct_oinfo_example :
    inline_add 64 7 0 4096 one_object ≡ update_direct_oinfo 64 7 0 4096 one_object
unfolding get_hash
inline_add-update_direct_oinfo_example =
    inline_add-update_direct_oinfo 64 7 0 4096 one_object (λ e. refl)

emit_extend_obj_trace_inst-Adds_example :
    (rule : ℕ) × (rule_address config 5 ≡ some rule)
    × Returns (emit_extend_obj_trace_inst config [] placement_new 5 4096 16 one_object) λ s.
      Adds (place 4096 16) 5 0 rule one_object s
      × (s.counts num_placement_new ≡ twice true (one_object.counts num_placement_new))
emit_extend_obj_trace_inst-Adds_example =
    emit_extend_obj_trace_inst-Adds config (parent ∷ child ∷ []) [] 5 4096 16 one_object refl
      one_object-IsObjectMap (inl refl)
