-- ===== src/Inline/Agreement.antt =====
-- An inlined check has the same verdicts as the call that it replaces.
use hex_type.Prelude.{ℕ, ◌≡◌, Option, none, some, ◌>>=◌}
use hex_type.Counters.{get_val, num_verified_casting, num_casting, num_look_hit}
use hex_type.Runtime.{Runtime, VerifyResultEntry, count, get_hash, safecastsame}
use hex_type.Casts.{cache_index}
use hex_type.Casts.Counts.{outcomes}

-- What a check leaves behind: an entry of the cache of verdicts, the number of outcomes and the
-- number of verified casts.
abbrev pub observe : ℕ → Option Runtime → Option (VerifyResultEntry × ℕ × ℕ)
observe j none = none
observe j (some s) =
    some (s.verify_result_cache j, outcomes s, get_val s.counts num_verified_casting)

-- A cached verdict on the type of the object at the front of an entry, if it is for that type itself.
abbrev pub HasSame : Runtime → ℕ → ℕ → Type 0
HasSame s src_addr dst =
    let src = (s.obj_type_map (get_hash src_addr)).info.type_hash_value in
    let c = s.verify_result_cache (cache_index src dst) in
    src ≡ dst → c.src_h_value ≡ src → c.dst_h_value ≡ dst → c.verify_result ≡ safecastsame

-- `find_obj_info` at the front of an entry.
abbrev found : Runtime → Runtime
found s = count num_verified_casting (count num_look_hit (count num_casting s))

-- The rest of the function in the run-time library, once the object is found.
abbrev finish : Option (ℕ × Runtime) → Option Runtime
finish r = r >>= λ x. some x.1

-- The entry of the cache alone.
abbrev pub cached : ℕ → Option Runtime → Option VerifyResultEntry
cached j none = none
cached j (some s) = some (s.verify_result_cache j)

abbrev entry_of : Option (VerifyResultEntry × ℕ × ℕ) → Option VerifyResultEntry
entry_of none = none
entry_of (some o) = some o.0
