-- ===== src/Emission/Trace/Steps.antt =====
-- What one emitted registration and one emitted removal do to the object map.
use hex_type.Prelude.{
  ℕ, ◌≡◌, refl, ap, ◌∙◌, ◌≢◌, false, ◌||◌, ◌==◌, inl, inr, Bool-cases, Returns, arith, sym,
  eq_of_==, ne_of_==,
}
use hex_type.Runtime.{
  Runtime, Entry, ObjInfo, get_hash, update, set_entry, count, reinterpret, globalalloc,
}
use hex_type.Counters.{num_update_miss}
use hex_type.Objects.{
  update_direct_oinfo, update_direct_oinfo_inline, remove_direct_oinfo_inline, write_entry,
  tree_lookup,
}
use hex_type.Objects.Entries.{displace-tree_lookup, remove_from_tree-tree_lookup}
use hex_type.Objects.Find.{IsObjectMap, Registered, register-Registered}
use hex_type.Objects.Remove.{Removed, remove-Removed}
use hex_type.Emission.Trace.{
  Config, store_entry, inline_add, inline_remove, is_inlined, add_object, remove_object,
}

-- The entry at the address gets the object.
abbrev pub Adds : ℕ → ℕ → ℕ → ℕ → Runtime → Runtime → Type 0
Adds addr hash offset rule s s' =
    (e' : Entry) × (s'.obj_type_map ≡ update s.obj_type_map (get_hash addr) e')
    × Registered addr e'.info (s.obj_type_map (get_hash addr)) e'
    × (e'.info.obj_addr ≡ addr)
    × (e'.info.type_hash_value ≡ hash)
    × (e'.info.offset ≡ offset)
    × (e'.info.rule_addr ≡ rule)

-- The entry at the address loses it.
abbrev pub Removes : ℕ → Runtime → Runtime → Type 0
Removes addr s s' =
    (e' : Entry) × (s'.obj_type_map ≡ update s.obj_type_map (get_hash addr) e')
    × Removed addr (s.obj_type_map (get_hash addr)) e'

pub ==_comm : (a b : ℕ) → (a == b) ≡ (b == a)
==_comm a b = ground arith

==_apart : (a b : ℕ) → a ≢ b → (a == b) ≡ false
==_apart a b n = ground arith

pub update_direct-Adds :
    (addr hash offset rule : ℕ) (s : Runtime)
    → IsObjectMap s
    → Returns (update_direct_oinfo addr hash offset rule s) (Adds addr hash offset rule s)
unfolding update_direct_oinfo
update_direct-Adds addr hash offset rule s ok =
    let (s', run, (e', table, (h, i, t))) = register-Registered addr hash offset 1 rule s ok in
    (
      s',
      run,
      (
        e',
        table,
        (h, refl, t),
        ap (λ (v : ObjInfo). v.obj_addr) i,
        ap (λ (v : ObjInfo). v.type_hash_value) i,
        ap (λ (v : ObjInfo). v.offset) i,
        ap (λ (v : ObjInfo). v.rule_addr) i,
      ),
    )

pub inline_add-Adds :
    (addr hash offset rule : ℕ) (s : Runtime)
    → IsObjectMap s
    → Returns (inline_add addr hash offset rule s) (Adds addr hash offset rule s)
unfolding inline_add update_direct_oinfo_inline tree_lookup
inline_add-Adds addr hash offset rule s ok =
    let e = s.obj_type_map (get_hash addr) in
    let turn = ap (λ b. e.info.obj_addr == 0 || b) (==_comm e.info.obj_addr addr) in
    elim (Bool-cases (e.info.obj_addr == 0 || addr == e.info.obj_addr)) [
      | inl direct ↦ (
        set_entry (get_hash addr) (store_entry addr hash offset rule e) s,
        rw (direct, inline_add) refl,
        (
          store_entry addr hash offset rule e,
          refl,
          (ok.trees (get_hash addr), refl, λ p. rw (turn ∙ direct)),
          refl,
          refl,
          refl,
          refl,
        ),
      )
      | inr busy ↦
          let (e', run, h) = displace-tree_lookup e (ok.trees (get_hash addr)) in
          (
            set_entry (get_hash addr) (write_entry addr hash offset 1 rule e')
                (count num_update_miss s),
            rw (busy, inline_add, run),
            (
              write_entry addr hash offset 1 rule e',
              refl,
              (h.0, refl, λ p. rw (turn ∙ busy) (h.1 p)),
              refl,
              refl,
              refl,
              refl,
            ),
          )
    ]

pub inline_remove-Removes :
    (addr : ℕ) (s : Runtime) → IsObjectMap s → Returns (inline_remove addr s) (Removes addr s)
unfolding inline_remove remove_direct_oinfo_inline tree_lookup
inline_remove-Removes addr s ok =
    let e = s.obj_type_map (get_hash addr) in
    elim (Bool-cases (addr == e.info.obj_addr)) [
      | inl own ↦ (
        set_entry (get_hash addr) (record e { info = record (e.info) { obj_addr = 0 } }) s,
        rw (own, inline_remove) refl,
        (
          record e { info = record (e.info) { obj_addr = 0 } },
          refl,
          (
            ok.trees (get_hash addr),
            inl (sym (eq_of_== addr e.info.obj_addr own), refl, λ p. refl),
          ),
        ),
      )
      | inr other ↦
          let (e', run, h) = remove_from_tree-tree_lookup addr e (ok.trees (get_hash addr)) in
          (
            set_entry (get_hash addr) e' s,
            rw (other, inline_remove, run),
            (e', refl, (h.0, inr ((λ q. ne_of_== addr e.info.obj_addr other (sym q)), h.1, h.2))),
          )
    ]

-- Whether or not the registration of an object is inlined: unless a cast registers it, the emitted
-- instructions follow no null pointer, put the object with its hash, offset and rules at the front of
-- the address's entry and, if another object stood there, leave that in the entry's tree.
pub add_object-Adds :
    (cfg : Config) (alloc_type addr hash offset rule : ℕ) (s : Runtime)
    → IsObjectMap s
    → alloc_type ≢ reinterpret
    → Returns (add_object cfg alloc_type addr hash offset rule s) (Adds addr hash offset rule s)
unfolding add_object
add_object-Adds cfg alloc_type addr hash offset rule s ok no_cast =
    elim (Bool-cases (is_inlined cfg alloc_type)) [
      | inl inlined ↦ rw (inlined, add_object) (inline_add-Adds addr hash offset rule s ok)
      | inr called ↦
          rw (called, add_object)
            (rw (==_apart alloc_type reinterpret no_cast)
              (update_direct-Adds addr hash offset rule s ok))
    ]

-- And the removal, which is emitted for objects that are not global and that no cast registered, takes
-- the object out.
pub remove_object-Removes :
    (cfg : Config) (alloc_type addr : ℕ) (s : Runtime)
    → IsObjectMap s
    → alloc_type ≢ reinterpret
    → alloc_type ≢ globalalloc
    → Returns (remove_object cfg alloc_type addr s) (Removes addr s)
unfolding remove_object
remove_object-Removes cfg alloc_type addr s ok no_cast no_global =
    elim (Bool-cases cfg.inline_opt) [
      | inl inlined ↦
          rw (inlined, remove_object)
            (rw (==_apart alloc_type reinterpret no_cast, ==_apart alloc_type globalalloc no_global)
              (inline_remove-Removes addr s ok))
      | inr called ↦ rw (called, remove_object) (remove-Removed addr s ok)
    ]
