-- ===== src/Casts/Missing.antt =====
-- The check of a cast from an object whose type has no rules, src/compiler-rt-files/hextype.cc.
use hex_type.Prelude.{ℕ, ◌≡◌, refl, some, false, ◌&&◌, ◌==◌, Returns, ==_refl}
use hex_type.Counters.{num_cast_hit, num_cast_miss, num_miss_find_obj}
use hex_type.Runtime.{Runtime, ObjInfo, count, set_cache, failinfo}
use hex_type.Casts.{cache_index, count_hit, check_rules, check_cast}

abbrev first : ObjInfo → ℕ → Runtime → Runtime
first v dst s =
    let src = v.type_hash_value in
    count num_miss_find_obj
      (set_cache (cache_index src dst) src dst failinfo (count num_cast_miss s))

first_run :
    (v : ObjInfo) (dst dst_addr : ℕ) (s : Runtime)
    → (v.type_hash_value == dst) ≡ false
    → v.rule_addr ≡ 0
    → ((s.verify_result_cache (cache_index v.type_hash_value dst)).src_h_value == v.type_hash_value
        && (s.verify_result_cache (cache_index v.type_hash_value dst)).dst_h_value == dst)
      ≡ false
    → check_cast v dst dst_addr s ≡ some (0, first v dst s)
unfolding check_cast check_rules
first_run v dst dst_addr s differ bare miss = rw (differ, check_cast, miss, check_rules, bare) refl

second_run :
    (v : ObjInfo) (dst dst_addr : ℕ) (s : Runtime)
    → (v.type_hash_value == dst) ≡ false
    → check_cast v dst dst_addr (first v dst s)
      ≡ some (dst_addr, count_hit failinfo (count num_cast_hit (first v dst s)))
unfolding check_cast
second_run v dst dst_addr s differ =
    rw
      (
        differ,
        check_cast,
        ==_refl (cache_index v.type_hash_value dst),
        ==_refl v.type_hash_value,
        ==_refl dst,
      )
      refl

-- Two checks, one after the other, of a cast to another type from an object whose type has no rules,
-- where the cache does not know the two types: the first returns null, and the second the address.
pub check_cast_twice :
    (v : ObjInfo) (dst dst_addr : ℕ) (s : Runtime)
    → (v.type_hash_value == dst) ≡ false
    → v.rule_addr ≡ 0
    → ((s.verify_result_cache (cache_index v.type_hash_value dst)).src_h_value == v.type_hash_value
        && (s.verify_result_cache (cache_index v.type_hash_value dst)).dst_h_value == dst)
      ≡ false
    → Returns
        (check_cast v dst dst_addr s)
        λ r. (r.0 ≡ 0) × Returns (check_cast v dst dst_addr r.1) λ q. q.0 ≡ dst_addr
check_cast_twice v dst dst_addr s differ bare miss = (
  (0, first v dst s),
  first_run v dst dst_addr s differ bare miss,
  (
    refl,
    (
      (dst_addr, count_hit failinfo (count num_cast_hit (first v dst s))),
      second_run v dst dst_addr s differ,
      refl,
    ),
  ),
)
