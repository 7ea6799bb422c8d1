-- ===== src/Emission/Trace/Undo.antt =====
-- A scope that registers its objects and removes them again leaves no trace.
use hex_type.Prelude.{
  ◌⊎◌, ◌==◌, Bool-cases, eq_of_==, ne_of_==, ℕ, ◌%◌, ◌^◌, ◌<◌, ◌≡◌, sym, ◌∙◌, some, none, Bool,
  List, [], ◌∷◌, inl, inr, Has, Returns, ◌>>=◌,
}
use hex_type.Runtime.{Runtime}
use hex_type.Objects.Find.{find}
use hex_type.Types.{TypeInfo, get_sorted_all_parent_set}
use hex_type.Layout.{Element}
use hex_type.Emission.{con_obj_add, con_obj_del, update_stack_oinfo, remove_stack_oinfo, sized}
use hex_type.Emission.Trace.{Config, Allocation, trace_entry, trace_update, trace_remove}
use hex_type.Emission.Trace.Frame.{InWindow, Once}
use hex_type.Emission.Trace.Runs.{
  Good, Runs, Missing, Missing-Stable, Once-Stable, Adds-Runs, Removes-Runs, NoDup,
}
use hex_type.Emission.Trace.Scope.{
  address, addresses, kept, on_stack, entry_add, entry_remove, emissions-Runs, rule_address_ends,
  hash_ends, insert_update_stack, insert_remove_stack,
}

module _ (cfg : Config) (a : Allocation) (size w : ℕ) where
  module _ (types : List TypeInfo)
      (table : cfg.type_info_array_int ≡ get_sorted_all_parent_set types) where
    add-Runs :
        (i : ℕ) (first : Bool) (e : Element)
        → InWindow w (address a i e)
        → Runs w
            (Missing w)
            Once
            (address a i e ∷ [])
            (trace_entry cfg a (on_stack size con_obj_add i) first e)
    add-Runs i first e inside =
        let (hash, eh) = hash_ends e.name in
        let (rule, er) = rule_address_ends cfg types hash table in
        Adds-Runs w (address a i e) hash (e.offset % 2 ^ 32) rule
          (trace_entry cfg a (on_stack size con_obj_add i) first e) inside
          (λ s ok. entry_add cfg a size i first e s ok hash rule eh er)

  remove-Runs :
      (i : ℕ) (first : Bool) (e : Element)
      → InWindow w (address a i e)
      → Runs w Once
          (Missing w)
          (address a i e ∷ [])
          (trace_entry cfg a (on_stack size con_obj_del i) first e)
  remove-Runs i first e inside =
      let (hash, eh) = hash_ends e.name in
      Removes-Runs w (address a i e) (trace_entry cfg a (on_stack size con_obj_del i) first e)
        inside (λ s ok. entry_remove cfg a size i first e s ok hash eh)

Has_decided : (p : ℕ) (xs : List ℕ) → Has p xs ⊎ (Has p xs → ⊥)
Has_decided p [] = inr (λ h. h)
Has_decided p (x ∷ xs) = elim (Bool-cases (p == x)) [
  | inl e ↦ inl (inl (eq_of_== p x e))
  | inr n ↦ elim (Has_decided p xs) [
    | inl h ↦ inl (inr h)
    | inr h ↦ inr (λ k. elim k [ inl e ↦ ne_of_== p x n e | inr l ↦ h l ])
  ]
]

-- Let the compiler's table be that of some types, let all objects that the library knows, and those of
-- an allocation on the stack, lie in one window of 4 GiB, none of them at its start, and let the
-- library find none at the allocation's addresses, which all differ. Then, inlined or not, the
-- code that is emitted for the allocation, of a constant number of elements that is less than 2 ^ 32,
-- and then that for its end return, and afterwards the library finds at every address of the window
-- what it found before.
pub scope-find :
    (cfg : Config) (a : Allocation) (w : ℕ) (types : List TypeInfo) (e : Element)
    (es : List Element) (n p : ℕ) (s : Runtime)
    → cfg.type_info_array_int ≡ get_sorted_all_parent_set types
    → n < 2 ^ 32
    → Good w s
    → ((x : ℕ) → Has x (addresses a (kept cfg (e ∷ es)) n 0) → InWindow w x × (find x s ≡ none))
    → NoDup (addresses a (kept cfg (e ∷ es)) n 0)
    → InWindow w p
    → Returns
        (trace_update cfg a (e ∷ es) update_stack_oinfo (some n) s
          >>= trace_remove cfg a (e ∷ es) remove_stack_oinfo (sized (some n)))
        λ s'. find p s' ≡ find p s
unfolding trace_update trace_remove
scope-find cfg a w types e es n p s table small good free nodup inside =
    let all = addresses a (kept cfg (e ∷ es)) n 0 in
    let (s₁, run₁, (good₁, frame₁, post₁)) =
      emissions-Runs cfg a n w con_obj_add (Missing w) Once (Missing-Stable w) (Once-Stable w)
        (add-Runs cfg a n w types table) (e ∷ es) n 0 nodup (λ x h. (free x h).0) s good
        (λ x h. (free x h).1) in
    let (s₂, run₂, (good₂, frame₂, post₂)) =
      emissions-Runs cfg a n w con_obj_del Once (Missing w) (Once-Stable w) (Missing-Stable w)
        (remove-Runs cfg a n w) (e ∷ es) n 0 nodup (λ x h. (free x h).0) s₁ good₁ post₁ in
    (
      s₂,
      rw (insert_update_stack n small, ◌>>=◌, run₁, insert_remove_stack n small) run₂,
      elim (Has_decided p all) [
        | inl h ↦ post₂ p h ∙ sym (free p h).1
        | inr h ↦ (frame₂ p inside h).0 ∙ (frame₁ p inside h).0
      ],
    )
