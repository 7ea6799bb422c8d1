-- ===== src/Emission/Extend/Placement.antt =====
-- What the code for a placement new does.
use hex_type.Prelude.{
  ℕ, ◌+◌, ◌%◌, ◌^◌, ◌≡◌, refl, subst, none, some, Bool, true, false, List, [], ◌∷◌, ◌==◌, ◌||◌, not,
  inl, inr, ◌⊎◌, if◌then◌else◌, Bool-cases, Option-cases, Returns, Holds, arith, ◌>>=◌,
}
use hex_type.Counters.{num_placement_new}
use hex_type.Counters.Events.{obj_update_count}
use hex_type.Runtime.{Runtime, get_hash, placementnew}
use hex_type.Objects.{update_direct_oinfo, update_direct_oinfo_inline, register, displace}
use hex_type.Objects.Find.{IsObjectMap}
use hex_type.Types.{TypeInfo, get_sorted_all_parent_set}
use hex_type.Emission.{insert_update, get_alloc_type, placement_new_handle}
use hex_type.Emission.Trace.{
  Config, rule_address, count_update, is_inlined, inline_add, add_object, trace_entry,
  trace_entries, emit_inst_for_obj_trace, trace_update,
}
use hex_type.Emission.Trace.Steps.{Adds, add_object-Adds}
use hex_type.Emission.Trace.Scope.{rule_address_ends}
use hex_type.Emission.Extend.{
  placement_new, has_hash, handle_allocation, emit_extend_obj_trace_inst,
}

-- A registration leaves this counter.
abbrev Counted : Runtime → Runtime → Type 0
Counted s s' = s'.counts num_placement_new ≡ s.counts num_placement_new

update_direct_counts :
    (addr hash offset rule : ℕ) (s : Runtime)
    → Holds (update_direct_oinfo addr hash offset rule s) (Counted s)
unfolding update_direct_oinfo register
update_direct_counts addr hash offset rule s =
    let e = s.obj_type_map (get_hash addr) in
    elim (Bool-cases (e.info.obj_addr == 0 || e.info.obj_addr == addr)) [
      | inl direct ↦ rw direct refl
      | inr busy ↦ elim (Option-cases (displace e)) [
        | inl fault ↦ rw (busy, fault) tt
        | inr (e', run) ↦ rw (busy, run) refl
      ]
    ]

inline_add_counts :
    (addr hash offset rule : ℕ) (s : Runtime)
    → Holds (inline_add addr hash offset rule s) (Counted s)
unfolding inline_add update_direct_oinfo_inline
inline_add_counts addr hash offset rule s =
    let e = s.obj_type_map (get_hash addr) in
    elim (Bool-cases (e.info.obj_addr == 0 || addr == e.info.obj_addr)) [
      | inl direct ↦ rw direct refl
      | inr busy ↦ elim (Option-cases (displace e)) [
        | inl fault ↦ rw (busy, fault) tt
        | inr (e', run) ↦ rw (busy, run) refl
      ]
    ]

add_object_counts :
    (cfg : Config) (addr hash offset rule : ℕ) (s : Runtime)
    → Holds (add_object cfg placementnew addr hash offset rule s) (Counted s)
unfolding add_object
add_object_counts cfg addr hash offset rule s = elim (Bool-cases (is_inlined cfg placementnew)) [
  | inl inlined ↦ rw inlined (inline_add_counts addr hash offset rule s)
  | inr called ↦ rw called (update_direct_counts addr hash offset rule s)
]

-- The address of the object.
abbrev pub place : ℕ → ℕ → ℕ
place operand_0 operand_2 = (0 + (operand_0 + operand_2) % 2 ^ 64) % 2 ^ 64

-- The counter goes up by two if the build logs.
abbrev pub twice : Bool → ℕ → ℕ
twice logs c = if logs then ((c + 1) % 2 ^ 64 + 1) % 2 ^ 64 else c

module _ (cfg : Config) (types : List TypeInfo) (related : List (List ℕ))
    (hash operand_0 operand_2 : ℕ) (s : Runtime) where
  abbrev Result : ℕ → Runtime → Type 0
  Result rule s' =
      Adds (place operand_0 operand_2) hash 0 rule s s'
      × (s'.counts num_placement_new ≡ twice cfg.make_log_info (s.counts num_placement_new))

  goes_on :
      (cfg.cast_obj_opt ≡ false) ⊎ (has_hash hash related ≡ some true)
      → (if cfg.cast_obj_opt then has_hash hash related >>= (λ b. some (not b)) else some false)
        ≡ some false
  goes_on known = elim (Bool-cases cfg.cast_obj_opt) [
    | inr e ↦ rw e refl
    | inl e ↦ elim known [ inl f ↦ cc | inr f ↦ rw e (rw f refl) ]
  ]

  trace_lem :
      (rule : ℕ) (s₁ : Runtime)
      → rule_address cfg hash ≡ some rule
      → add_object cfg placementnew (place operand_0 operand_2) hash 0 rule s ≡ some s₁
      → trace_update cfg
          (handle_allocation operand_0 operand_2)
          (record { offset = hash; name = [] } ∷ [])
          placement_new_handle
          none
          s
        ≡ some (count_update cfg placementnew 1 s₁)
  unfolding trace_update insert_update get_alloc_type emit_inst_for_obj_trace trace_entries
      trace_entry add_object obj_update_count
  trace_lem rule s₁ er run = elim (Bool-cases cfg.cast_obj_opt) [
    | inl e ↦ rw e (rw (er, ◌>>=◌) (rw (run, ◌>>=◌) refl))
    | inr e ↦ rw e (rw (er, ◌>>=◌) (rw (run, ◌>>=◌) refl))
  ]

  counted :
      (rule : ℕ) (s₁ : Runtime)
      → Adds (place operand_0 operand_2) hash 0 rule s s₁
      → Counted s s₁
      → Result rule (count_update cfg placementnew 1 (count_update cfg placementnew 1 s₁))
  unfolding obj_update_count
  counted rule s₁ h c = elim (Bool-cases cfg.make_log_info) [
    | inl e ↦ rw e (h, rw (← c) refl)
    | inr e ↦ rw e (h, c)
  ]

  -- Let the compiler's table be that of some types, and the class take part in casts, if the compiler
  -- goes by that. Then the code for a placement new follows no null pointer and registers an object
  -- with the class's hash and rules at the sum of the call's operands, and in a build that logs it
  -- counts this object twice.
  pub emit_extend_obj_trace_inst-Adds :
      cfg.type_info_array_int ≡ get_sorted_all_parent_set types
      → IsObjectMap s
      → (cfg.cast_obj_opt ≡ false) ⊎ (has_hash hash related ≡ some true)
      → (rule : ℕ) × (rule_address cfg hash ≡ some rule)
        × Returns
            (emit_extend_obj_trace_inst cfg related placement_new hash operand_0 operand_2 s)
            (Result rule)
  unfolding emit_extend_obj_trace_inst
  emit_extend_obj_trace_inst-Adds table ok known =
      let (rule, er) = rule_address_ends cfg types hash table in
      let (s₁, run, h) =
        add_object-Adds cfg placementnew (place operand_0 operand_2) hash 0 rule s ok
          (omega arith) in
      (
        rule,
        er,
        (
          count_update cfg placementnew 1 (count_update cfg placementnew 1 s₁),
          rw (goes_on known, ◌>>=◌) (rw (trace_lem rule s₁ er run, ◌>>=◌) refl),
          counted rule s₁ h (
              subst (λ o. Holds o (Counted s)) run
                (add_object_counts cfg (place operand_0 operand_2) hash 0 rule s)),
        ),
      )
