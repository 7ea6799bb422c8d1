-- ===== src/Emission/Trace/Frame.antt =====
-- Which addresses a registration and a removal leave alone, where all objects lie in one window of
-- 4 GiB, and what they do to their own.
use hex_type.Prelude.{
  ℕ, ◌/◌, ◌%◌, ◌^◌, ◌≡◌, ◌≢◌, refl, sym, ◌∙◌, none, ◌==◌, inl, inr, Bool-cases, arith, ==_refl,
  eq_of_==, ne_of_==, ap, subst,
}
use hex_type.RbTree.{as_int, compare}
use hex_type.RbTree.Search.{override, override_same, compare_lem}
use hex_type.Runtime.{Runtime, ObjInfo, Entry, get_hash}
use hex_type.Objects.{tree_lookup, entry_find}
use hex_type.Objects.Find.{Registered, Registered-entry_find, find, find-entry_find, find_after}
use hex_type.Objects.Remove.{Removed-miss, Removed-entry_find}
use hex_type.Emission.Trace.Steps.{Adds, Removes}

-- An address of the window, not at its start.
abbrev pub InWindow : ℕ → ℕ → Type 0
InWindow w p = (p / 2 ^ 32 ≡ w) × (p % 2 ^ 32 ≢ 0)

-- The objects at the front of the entries lie in the window.
abbrev pub Fronts : ℕ → Runtime → Type 0
Fronts w s =
    (i : ℕ) → (s.obj_type_map i).info.obj_addr ≢ 0 → InWindow w (s.obj_type_map i).info.obj_addr

-- An address that is at the front of its entry is not in the entry's tree too.
abbrev pub Once : ℕ → Runtime → Type 0
Once p s =
    (s.obj_type_map (get_hash p)).info.obj_addr ≡ p
    → tree_lookup (s.obj_type_map (get_hash p)) p ≡ none

front_apart : (w p q : ℕ) → InWindow w p → (q ≢ 0 → InWindow w q) → as_int p ≡ as_int q → p ≡ q
unfolding as_int
front_apart w p q a f e = elim (Bool-cases (q == 0)) [
  | inl z ↦ let k = eq_of_== q 0 z in absurd (a.1 (omega arith))
  | inr n ↦ let b = f (ne_of_== q 0 n) in omega (arith, a.0, b.0)
]

nonnull : (w p : ℕ) → InWindow w p → p ≢ 0
nonnull w p a e = a.1 (rw e refl)

module _ (w a p : ℕ) (s s' : Runtime) (wa : InWindow w a) (wp : InWindow w p) where
  pub Adds-Fronts : (hash offset rule : ℕ) → Adds a hash offset rule s s' → Fronts w s → Fronts w s'
  Adds-Fronts hash offset rule (e', table, h, own, _, _, _) f i =
      rw table
        (elim (Bool-cases (get_hash a == i)) [ inl t ↦ rw (t, own) (λ n. wa) | inr t ↦ rw t (f i) ])

  pub Removes-Fronts : Removes a s s' → Fronts w s → Fronts w s'
  Removes-Fronts (e', table, h) f i = rw table (elim (Bool-cases (get_hash a == i)) [
    | inl t ↦
        rw t (elim h.1 [ inl own ↦ λ n. absurd (n own.1) | inr tree ↦ rw tree.1 (f (get_hash a)) ])
    | inr t ↦ rw t (f i)
  ])

  pub Adds-find :
      (hash offset rule : ℕ)
      → Adds a hash offset rule s s'
      → Fronts w s
      → p ≢ a
      → find p s' ≡ find p s
  Adds-find hash offset rule (e', table, h, own, _, _, _) f other =
      let i = get_hash a in
      find_after p s s' i e' table ∙ (elim (Bool-cases (i == get_hash p)) [
        | inr t ↦ rw t (sym (find-entry_find p s))
        | inl t ↦ rw t (
            Registered-entry_find a p e'.info (s.obj_type_map i) e' h own (nonnull w p wp) other
              (front_apart w p (s.obj_type_map i).info.obj_addr wp (f i))
            ∙ rw (eq_of_== i (get_hash p) t) (sym (find-entry_find p s)))
      ])

  pub Removes-find : Removes a s s' → p ≢ a → find p s' ≡ find p s
  Removes-find (e', table, h) other =
      let i = get_hash a in
      find_after p s s' i e' table ∙ (elim (Bool-cases (i == get_hash p)) [
        | inr t ↦ rw t (sym (find-entry_find p s))
        | inl t ↦ rw t (
            Removed-entry_find a p (s.obj_type_map i) e' h (nonnull w p wp) other
              (front_apart w p a wp (λ n. wa))
            ∙ rw (eq_of_== i (get_hash p) t) (sym (find-entry_find p s)))
      ])

  pub Adds-Once :
      (hash offset rule : ℕ) → Adds a hash offset rule s s' → p ≢ a → Once p s → Once p s'
  Adds-Once hash offset rule (e', table, h, own, _, _, _) other once =
      rw table (elim (Bool-cases (get_hash a == get_hash p)) [
        | inl t ↦ rw t (λ e. absurd (other (sym e ∙ own)))
        | inr t ↦ rw t once
      ])

  pub Removes-Once : Removes a s s' → p ≢ a → Once p s → Once p s'
  Removes-Once (e', table, h) other once = rw table (elim (Bool-cases (get_hash a == get_hash p)) [
    | inl t ↦ rw t (elim h.1 [
      | inl own ↦ λ e. absurd (nonnull w p wp (sym e ∙ own.1))
      | inr tree ↦ λ e.
          let here =
            subst
              (λ i. (s.obj_type_map i).info.obj_addr ≡ p → tree_lookup (s.obj_type_map i) p ≡ none)
              (sym (eq_of_== (get_hash a) (get_hash p) t)) once
              (ap (λ (v : ObjInfo). v.obj_addr) (sym tree.1) ∙ e) in
          tree.2 p ∙ ap (override (compare p a) none) here ∙ override_same (compare p a) none
    ])
    | inr t ↦ rw t once
  ])

Registered-miss :
    (a : ℕ) (e e' : Entry)
    → Registered a e'.info e e'
    → entry_find e a ≡ none
    → (as_int a ≡ as_int e.info.obj_addr → a ≡ e.info.obj_addr)
    → tree_lookup e' a ≡ none
Registered-miss a e e' h miss apart = ground (arith, h.2 a, compare_lem a e.info.obj_addr)

-- The address itself.
module _ (w a : ℕ) (s s' : Runtime) (wa : InWindow w a) where
  pub Adds-Once_self :
      (hash offset rule : ℕ)
      → Adds a hash offset rule s s'
      → Fronts w s
      → find a s ≡ none
      → Once a s'
  Adds-Once_self hash offset rule (e', table, h, own, _, _, _) f missing =
      let miss = sym (find-entry_find a s) ∙ missing in
      rw (table, ==_refl (get_hash a))
        (λ e.
          Registered-miss a (s.obj_type_map (get_hash a)) e' h miss
            (front_apart w a (s.obj_type_map (get_hash a)).info.obj_addr wa (f (get_hash a))))

  pub Removes-find_self : Removes a s s' → Once a s → find a s' ≡ none
  Removes-find_self (e', table, h) once =
      find_after a s s' (get_hash a) e' table
      ∙ rw (==_refl (get_hash a))
          (Removed-miss a (s.obj_type_map (get_hash a)) e' h (nonnull w a wa) once)
