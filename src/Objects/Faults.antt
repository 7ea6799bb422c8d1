-- ===== src/Objects/Faults.antt =====
-- Where the object map loses track: keys of the tree are compared in their low 32 bits only, and an
-- object that was displaced into the tree stays there when its address is registered again.
use hex_type.Prelude.{
  ℕ, ◌≡◌, ◌≢◌, ◌∙◌, refl, ap, some, true, ◌>>=◌, inl, inr, Returns, arith, ==_refl,
}
use hex_type.RbTree.{as_int}
use hex_type.RbTree.Search.{compare_lem}
use hex_type.RbTree.Laws.{is_some}
use hex_type.Runtime.{Runtime, Entry, ObjInfo, get_hash}
use hex_type.Objects.{tree_lookup, entry_find, register, remove_direct_oinfo}
use hex_type.Objects.Find.{
  IsObjectMap, Registered, find, find_after, new_info, update-IsObjectMap, register-Registered,
}
use hex_type.Objects.Remove.{Removed, remove-Removed}

Registered-alias :
    (addr p : ℕ) (v : ObjInfo) (e e' : Entry)
    → Registered addr v e e'
    → v.obj_addr ≡ addr
    → p ≢ addr
    → e.info.obj_addr ≢ 0
    → e.info.obj_addr ≢ addr
    → as_int p ≡ as_int e.info.obj_addr
    → entry_find e' p ≡ some e.info
Registered-alias addr p v e e' h a other busy free same =
    ground (arith, h.2 p, compare_lem p e.info.obj_addr)

-- When a registration displaces an object, `findObjInfo` takes any other address of the same entry
-- that agrees with it in the low 32 bits for that object.
pub register-find_alias :
    (addr type_hash offset array_size rule_addr p : ℕ) (s : Runtime)
    → IsObjectMap s
    → (s.obj_type_map (get_hash addr)).info.obj_addr ≢ 0
    → (s.obj_type_map (get_hash addr)).info.obj_addr ≢ addr
    → get_hash p ≡ get_hash addr
    → p ≢ addr
    → as_int p ≡ as_int (s.obj_type_map (get_hash addr)).info.obj_addr
    → Returns
        (register addr type_hash offset array_size rule_addr s)
        λ s'. find p s' ≡ some (s.obj_type_map (get_hash addr)).info
register-find_alias addr type_hash offset array_size rule_addr p s ok busy free slot other same =
    let i = get_hash addr in
    let (s', run, (e', table, h)) =
      register-Registered addr type_hash offset array_size rule_addr s ok in
    (
      s',
      run,
      find_after p s s' i e' table
          ∙ rw (slot, ==_refl i)
              (Registered-alias addr p (new_info addr type_hash offset array_size rule_addr)
                (s.obj_type_map i) e' h refl other busy free same),
    )

Registered-again :
    (addr : ℕ) (v w : ObjInfo) (e e' : Entry)
    → Registered addr v e e'
    → tree_lookup e addr ≡ some w
    → is_some (tree_lookup e' addr) ≡ true
Registered-again addr v w e e' h there = ground (arith, h.2 addr, compare_lem addr e.info.obj_addr)

Removed-front :
    (addr : ℕ) (e e' : Entry)
    → Removed addr e e'
    → addr ≢ 0
    → e.info.obj_addr ≡ addr
    → is_some (tree_lookup e addr) ≡ true
    → is_some (entry_find e' addr) ≡ true
Removed-front addr e e' h nonnull front there = elim h.1 [
  | inl own ↦ ground (arith, own.0, own.1, own.2 addr)
  | inr tree ↦ absurd (tree.0 front)
]

-- An address that was displaced into the tree, registered again and removed is found all the same:
-- `__remove_direct_oinfo` clears the front of the entry and leaves the older object in the tree.
pub remove-stale :
    (addr type_hash offset array_size rule_addr : ℕ) (v : ObjInfo) (s : Runtime)
    → IsObjectMap s
    → addr ≢ 0
    → tree_lookup (s.obj_type_map (get_hash addr)) addr ≡ some v
    → Returns
        (register addr type_hash offset array_size rule_addr s >>= remove_direct_oinfo addr)
        λ s'. is_some (find addr s') ≡ true
remove-stale addr type_hash offset array_size rule_addr v s ok nonnull there =
    let i = get_hash addr in
    let (s₁, run₁, (e₁, table₁, h₁)) =
      register-Registered addr type_hash offset array_size rule_addr s ok in
    let (s₂, run₂, (e₂, table₂, h₂)) =
      remove-Removed addr s₁ (update-IsObjectMap s i e₁ s₁ ok h₁.0 table₁) in
    let front : s₁.obj_type_map i ≡ e₁ = rw (table₁, ==_refl i) in
    (
      s₂,
      rw (run₁, run₂),
      rw (find_after addr s₁ s₂ i e₂ table₂, ==_refl i)
          (Removed-front addr e₁ e₂ (rw front at h₂) nonnull (ap (λ (w : ObjInfo). w.obj_addr) h₁.1)
            (Registered-again addr (new_info addr type_hash offset array_size rule_addr) v
              (s.obj_type_map i) e₁ h₁ there)),
    )
