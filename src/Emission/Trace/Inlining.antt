-- ===== src/Emission/Trace/Inlining.antt =====
-- The inlined registration and removal of an object, against the calls that they replace.
use hex_type.Prelude.{
  ℕ, ◌≡◌, refl, sym, ap, ◌∙◌, Option, none, some, true, ◌||◌, ◌==◌, inl, inr, Bool-cases,
  Option-cases,
}
use hex_type.Runtime.{Runtime, Entry, get_hash}
use hex_type.Objects.{
  update_direct_oinfo, update_direct_oinfo_inline, remove_direct_oinfo, remove_direct_oinfo_inline,
  register, remove_from_tree,
}
use hex_type.Emission.Trace.{inline_add, inline_remove}
use hex_type.Emission.Trace.Steps.{==_comm}

abbrev pub tables : Option Runtime → Option (ℕ → Entry)
tables none = none
tables (some s) = some s.obj_type_map

-- The inlined removal leaves the object map as the call does.
pub inline_remove-tables :
    (addr : ℕ) (s : Runtime) → tables (inline_remove addr s) ≡ tables (remove_direct_oinfo addr s)
unfolding inline_remove remove_direct_oinfo remove_direct_oinfo_inline
inline_remove-tables addr s =
    let e = s.obj_type_map (get_hash addr) in
    elim (Bool-cases (addr == e.info.obj_addr)) [
      | inl own ↦
          rw (own, sym (==_comm addr e.info.obj_addr) ∙ own, inline_remove, remove_direct_oinfo)
            refl
      | inr other ↦ elim (Option-cases (remove_from_tree addr e)) [
        | inl fault ↦
            rw
              (
                other,
                sym (==_comm addr e.info.obj_addr) ∙ other,
                inline_remove,
                remove_direct_oinfo,
                remove_direct_oinfo_inline,
                fault,
              )
              refl
        | inr (e', run) ↦
            rw
              (
                other,
                sym (==_comm addr e.info.obj_addr) ∙ other,
                inline_remove,
                remove_direct_oinfo,
                remove_direct_oinfo_inline,
                run,
              )
              refl
      ]
    ]

-- The entry has the array size that a registration of one object writes, wherever one is written over
-- it.
abbrev pub IsSingle : ℕ → Entry → Type 0
IsSingle addr e =
    (e.info.obj_addr == 0 || e.info.obj_addr == addr) ≡ true → e.info.heap_array_size ≡ 1

-- The inlined registration does what the call does, unless it is written over an entry with another
-- array size than 1.
pub inline_add-update_direct_oinfo :
    (addr hash offset rule : ℕ) (s : Runtime)
    → IsSingle addr (s.obj_type_map (get_hash addr))
    → inline_add addr hash offset rule s ≡ update_direct_oinfo addr hash offset rule s
unfolding inline_add update_direct_oinfo register update_direct_oinfo_inline
inline_add-update_direct_oinfo addr hash offset rule s single =
    let e = s.obj_type_map (get_hash addr) in
    let turn = ap (λ b. e.info.obj_addr == 0 || b) (==_comm e.info.obj_addr addr) in
    elim (Bool-cases (e.info.obj_addr == 0 || e.info.obj_addr == addr)) [
      | inl direct ↦ rw (direct, sym turn ∙ direct) (rw (single direct) refl)
      | inr busy ↦ rw (busy, sym turn ∙ busy) refl
    ]
