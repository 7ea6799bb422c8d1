-- ===== src/Downcasts/Checked.antt =====
-- What the checks at casts come to: the calls of the run-time library.
use hex_type.Prelude.{ℕ, ◌≡◌, refl, Option, none, some, Bool, true, false, Option-cases, inl, inr}
use hex_type.Names.{get_hash_value_from_str}
use hex_type.Runtime.{Runtime}
use hex_type.Casts.{
  verify_type_casting, type_casting_verification, type_casting_verification_changing,
}
use hex_type.Classes.{is_usable}
use hex_type.Downcasts.{
  Layouts, Downcast, downcast_offset, get_address_of_derived_class, get_hash_value_from_qual_type,
  emit_hex_type_check_for_cast, emit_hex_type_check_for_changing_cast, emit_downcast_check,
  run_check, run_downcast, reference_downcast, pointer_downcast,
}

abbrev derived_addr : Layouts → Downcast → Bool → ℕ → ℕ
derived_addr layout c null_check base =
    get_address_of_derived_class (downcast_offset layout c) null_check base

abbrev pub with_address : ℕ → Option (ℕ × Runtime) → Option (ℕ × Runtime)
with_address a none = none
with_address a (some r) = some (a, r.1)

-- The derived address, and the state that `verifyTypeCasting` leaves of the two addresses.
abbrev pub verified : Option ℕ → Bool → ℕ → ℕ → Runtime → Option (ℕ × Runtime)
verified offset null_check base hash s =
    let derived = get_address_of_derived_class offset null_check base in
    with_address derived (verify_type_casting base derived hash s)

run_downcast-verified :
    (offset : Option ℕ) (c : Downcast) (null_check : Bool) (base hash : ℕ) (s : Runtime)
    → c.hex_type ≡ true
    → c.blacklisted ≡ false
    → is_usable c.target.decl ≡ true
    → get_hash_value_from_str c.target.llvm_name ≡ some hash
    → run_downcast offset c null_check base s ≡ verified offset null_check base hash s
unfolding run_downcast emit_downcast_check emit_hex_type_check_for_cast
    emit_hex_type_check_for_changing_cast get_hash_value_from_qual_type run_check
    type_casting_verification type_casting_verification_changing get_address_of_derived_class
run_downcast-verified none c null_check base hash s on off usable e =
    elim (Option-cases (verify_type_casting base base hash s)) [
      | inl stuck ↦ rw (on, off, usable, e, stuck) refl
      | inr (r, run) ↦ rw (on, off, usable, e, run) refl
    ]
run_downcast-verified (some offset) c null_check base hash s on off usable e =
    let derived = get_address_of_derived_class (some offset) null_check base in
    elim (Option-cases (verify_type_casting base derived hash s)) [
      | inl stuck ↦ rw (on, off, usable, e, stuck) refl
      | inr (r, run) ↦ rw (on, off, usable, e, run) refl
    ]

-- Where HexType checks a cast to a class that is defined, the code for the cast, of a pointer or a
-- reference, whether or not the class has its base at an offset, gives the derived address and calls
-- `verifyTypeCasting` with the address of the base, the derived address and the hash of the class.
pub downcast-verified :
    (layout : Layouts) (c : Downcast) (null_check : Bool) (base hash : ℕ) (s : Runtime)
    → c.hex_type ≡ true
    → c.blacklisted ≡ false
    → is_usable c.target.decl ≡ true
    → get_hash_value_from_str c.target.llvm_name ≡ some hash
    → (pointer_downcast layout c null_check base s
        ≡ verified (downcast_offset layout c) null_check base hash s)
      × (reference_downcast layout c base s ≡ verified (downcast_offset layout c) false base hash s)
unfolding pointer_downcast reference_downcast
downcast-verified layout c null_check base hash s on off usable e =
    let offset = downcast_offset layout c in
    (
      run_downcast-verified offset c null_check base hash s on off usable e,
      run_downcast-verified offset c false base hash s on off usable e,
    )
