-- ===== src/Inline.antt =====
-- A cast check as `typecastinginlineoptimization` of src/llvm-files/HexTypeTreePass.cpp inlines it: the
-- instructions that it emits in place of a call of `__type_casting_verification`, with
-- `__lookup_success_count` of src/compiler-rt-files/hextype.cc, which they call.
pub mod Agreement
use hex_type.Prelude.{ℕ, Option, some, Bool, true, false, ◌&&◌, ◌==◌, if◌then◌else◌}
use hex_type.Counters.{
  num_casting, num_verified_casting, num_look_hit, num_cast_hit, num_cast_bad_cast,
  num_cast_non_bad_cast, num_cast_same, num_miss_find_obj,
}
use hex_type.Runtime.{Runtime, count, get_hash, badcast, failinfo, safecastsame, safecastupcast}
use hex_type.Casts.{cache_index, type_casting_verification, type_casting_verification_inline}

-- `__lookup_success_count`
unfoldable pub lookup_success_count : ℕ → Runtime → Runtime
lookup_success_count verify_result s =
    let s₁ =
      count num_cast_hit (count num_look_hit (count num_verified_casting (count num_casting s))) in
    if verify_result == badcast
    then count num_cast_bad_cast s₁
    else if verify_result == safecastupcast
    then count num_cast_non_bad_cast s₁
    else if verify_result == safecastsame
    then count num_cast_same s₁
    else if verify_result == failinfo
    then count num_miss_find_obj s₁
    else s₁

-- The instructions for one cast, by `ClMakeLogInfo`, without which a hit of the cache is not counted. On
-- a cached bad cast they call `__type_casting_verification_print_cache_result` as well, which only
-- prints a heading.
unfoldable pub inline_cast : Bool → ℕ → ℕ → Runtime → Option Runtime
inline_cast make_log_info src_addr dst s =
    if src_addr == 0
    then some s
    else let map_index = get_hash src_addr in
      let e = s.obj_type_map map_index in
      if e.info.obj_addr == src_addr
      then (let src = e.info.type_hash_value in
          let i = cache_index src dst in
          let c = s.verify_result_cache i in
          if c.src_h_value == src && c.dst_h_value == dst
          then some (if make_log_info then lookup_success_count c.verify_result s else s)
          else type_casting_verification_inline src dst map_index i s)
      else type_casting_verification src_addr dst s
