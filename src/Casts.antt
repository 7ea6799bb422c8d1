-- ===== src/Casts.antt =====
-- `verifyTypeCasting` of src/compiler-rt-files/hextype.cc and the functions that call it. The result
-- is a pointer, with 0 for null; `none` is a search that does not end.
pub mod Rules
pub mod Cache
pub mod Counts
pub mod Missing
pub mod Bounds
use Prim.Native.Nat.Ordering.{lt, eq, gt}
use Prim.Native.Nat.{compare}
use hex_type.Prelude.{
  ℕ, zero, suc, ◌+◌, ◌-◌, ◌*◌, ◌/◌, ◌%◌, ◌^◌, Option, none, some, Bool, true, false, List, [], ◌∷◌,
  ◌&&◌, ltb, ◌==◌, if◌then◌else◌, ◌>>=◌, arith,
}
use hex_type.Counters.{
  num_casting, num_verified_casting, num_look_hit, num_cast_same, num_cast_hit, num_cast_miss,
  num_cast_no_cache_use, num_cast_bad_cast, num_cast_bad_cast_minus, num_cast_non_bad_cast,
  num_miss_find_obj, num_bad_cast_type1, num_bad_cast_type2, num_bad_cast_type3, num_bad_cast_type4,
}
use hex_type.Runtime.{
  Runtime, ObjInfo, VerifyResultEntry, count, set_cache, print_type_confusion, badcast, failinfo,
  safecastsame, safecastupcast,
}
use hex_type.Objects.{find_obj_info}

-- The 64-bit word at an index of a rule table, whose size is at index 0.
unfoldable pub word : (ℕ → ℕ) → ℕ → ℕ → ℕ
word memory rule_addr i = memory ((rule_addr + 8 * i) % 2 ^ 64)

abbrev pub middle : ℕ → ℕ → ℕ
middle start end = (start + end) % 2 ^ 64 / 2

-- The `while` loop of the binary search.
unfoldable pub rule_search : (ℕ → ℕ) → ℕ → ℕ → ℕ → ℕ → ℕ → Option Bool
rule_search memory rule_addr hash zero start end = none
rule_search memory rule_addr hash (suc fuel) start end = elim (ltb end start) [
  | true ↦ some false
  | false ↦ elim (compare (word memory rule_addr (middle start end)) hash) [
    | lt ↦ rule_search memory rule_addr hash fuel ((middle start end + 1) % 2 ^ 64) end
    | eq ↦ some true
    | gt ↦ rule_search memory rule_addr hash fuel start ((middle start end + 2 ^ 64 - 1) % 2 ^ 64)
  ]
]

-- The search of a whole table.
unfoldable pub rule_contains : (ℕ → ℕ) → ℕ → ℕ → Option Bool
unfolding rule_search
rule_contains memory rule_addr hash =
    let size = word memory rule_addr 0 in rule_search memory rule_addr hash (suc size) 1 size

-- The loop over a phantom set.
unfoldable pub any_rule : (ℕ → ℕ) → ℕ → List ℕ → Option Bool
any_rule memory rule_addr [] = some false
any_rule memory rule_addr (phantom ∷ rest) = do
  found ← rule_contains memory rule_addr phantom
  elim found [ true ↦ some true | false ↦ any_rule memory rule_addr rest ]

-- `ObjPhantomInfo->find(DstTypeHashValue)` and the set that it leads to; none is the empty one.
abbrev pub phantoms : Runtime → ℕ → List ℕ
phantoms s hash = elim (s.obj_phantom_info hash) [ none ↦ [] | some p ↦ s.phantom_sets p ]

-- `((src & 0xfff) << 12) | (dst & 0xfff)`
unfoldable pub cache_index : ℕ → ℕ → ℕ
cache_index src dst = src % 2 ^ 12 * 2 ^ 12 + dst % 2 ^ 12

-- The searches of the rule table for the target type and for its phantoms.
unfoldable pub is_related : (ℕ → ℕ) → List ℕ → ℕ → ℕ → Option Bool
is_related memory phantom_set rule_addr dst = do
  found ← rule_contains memory rule_addr dst
  elim found [ true ↦ some true | false ↦ any_rule memory rule_addr phantom_set ]

-- The end of a failed check.
abbrev pub bad_cast : ℕ → ℕ → Runtime → Runtime
bad_cast src dst s =
    count num_cast_bad_cast (print_type_confusion 3 src dst (count num_bad_cast_type3 s))

-- The `switch` on a cached verdict.
abbrev pub count_hit : ℕ → Runtime → Runtime
count_hit result s =
    if result == safecastupcast
    then count num_cast_non_bad_cast s
    else if result == safecastsame
    then count num_cast_same s
    else if result == failinfo
    then count num_miss_find_obj s
    else s

-- The check on a cache miss.
unfoldable pub check_rules : ℕ → ℕ → ℕ → ℕ → Runtime → Option (ℕ × Runtime)
check_rules src rule_addr dst dst_addr s =
    let i = cache_index src dst in
    if rule_addr == 0
    then some (0, count num_miss_find_obj (set_cache i src dst failinfo s))
    else do
      related ← is_related s.memory (phantoms s dst) rule_addr dst
      if related
          then some (dst_addr, count num_cast_non_bad_cast (set_cache i src dst safecastupcast s))
          else some (0, bad_cast src dst (set_cache i src dst badcast s))

-- The second half of `verifyTypeCasting`, on the object that was found.
unfoldable pub check_cast : ObjInfo → ℕ → ℕ → Runtime → Option (ℕ × Runtime)
check_cast v dst dst_addr s =
    let src = v.type_hash_value in
    let i = cache_index src dst in
    let c = s.verify_result_cache i in
    if src == dst
    then some (
      dst_addr,
      set_cache i src dst safecastsame (count num_cast_same (count num_cast_no_cache_use s)),
    )
    else if c.src_h_value == src && c.dst_h_value == dst
    then (if c.verify_result == badcast
        then some (0, bad_cast src dst (count num_cast_hit s))
        else some (dst_addr, count_hit c.verify_result (count num_cast_hit s)))
    else check_rules src v.rule_addr dst dst_addr (count num_cast_miss s)

-- An `int` as a 64-bit pattern.
abbrev pub sign_extend : ℕ → ℕ
sign_extend n = if ltb n (2 ^ 31) then n else n + 2 ^ 64 - 2 ^ 32

-- `(char *)DstAddr - ((char *)SrcAddr - OffsetTmp)`
unfoldable pub cast_offset : ℕ → ℕ → ℕ → ℕ
cast_offset src_addr dst_addr offset =
    let tmp : ℕ = if offset == 2 ^ 32 - 1 then 0 else sign_extend offset in
    (dst_addr + 2 ^ 64 - (src_addr + 2 ^ 64 - tmp) % 2 ^ 64) % 2 ^ 64

-- The failures of a cast to another address.
abbrev pub bad_address : ℕ → ℕ → ℕ → Runtime → Runtime
bad_address error_type index dst s =
    print_type_confusion error_type 0 dst
      (count index (count num_cast_bad_cast_minus (count num_cast_bad_cast s)))

-- The part for a `DstAddr` that is not `SrcAddr`.
pub check_moved : ObjInfo → ℕ → ℕ → ℕ → Runtime → Option (ℕ × Runtime)
check_moved v src_addr dst_addr dst s =
    let (found, s₁) = find_obj_info dst_addr s in
    if ltb (cast_offset src_addr dst_addr v.offset) (2 ^ 63)
    then elim found [
      | none ↦ some (0, bad_address 2 num_bad_cast_type2 dst s₁)
      | some w ↦ check_cast w dst dst_addr s₁
    ]
    else elim found [
      | none ↦ some (0, bad_address 1 num_bad_cast_type1 dst s₁)
      | some w ↦
          if w.type_hash_value == dst
          then some (dst_addr, count num_cast_same s₁)
          else some (0, bad_address 1 num_bad_cast_type1 dst s₁)
    ]

unfoldable pub verify_type_casting : ℕ → ℕ → ℕ → Runtime → Option (ℕ × Runtime)
verify_type_casting src_addr dst_addr dst s =
    if src_addr == 0
    then some (0, s)
    else let (found, s₁) = find_obj_info src_addr (count num_casting s) in
      elim found [
        | none ↦ some (dst_addr, s₁)
        | some v ↦
            if dst_addr == src_addr
            then check_cast v dst dst_addr (count num_verified_casting s₁)
            else check_moved v src_addr dst_addr dst (count num_verified_casting s₁)
      ]

-- `__type_casting_verification`, and `__type_casting_verification_inline_normal` alike
unfoldable pub type_casting_verification : ℕ → ℕ → Runtime → Option Runtime
type_casting_verification src_addr dst s = do
  r ← verify_type_casting src_addr src_addr dst s
  some r.1

-- `__type_casting_verification_changing`
unfoldable pub type_casting_verification_changing : ℕ → ℕ → ℕ → Runtime → Option Runtime
type_casting_verification_changing src_addr dst_addr dst s = do
  r ← verify_type_casting src_addr dst_addr dst s
  some r.1

-- `__dynamic_casting_verification`; the offset is the 64-bit pattern of a `ptrdiff_t`.
unfoldable pub dynamic_casting_verification : ℕ → ℕ → ℕ → Runtime → Option (ℕ × Runtime)
dynamic_casting_verification src_addr dst src2dst_offset s =
    verify_type_casting src_addr ((src_addr + 2 ^ 64 - src2dst_offset) % 2 ^ 64) dst s

-- `__type_casting_verification_inline`
unfoldable pub type_casting_verification_inline : ℕ → ℕ → ℕ → ℕ → Runtime → Option Runtime
type_casting_verification_inline src dst obj_map_index i s =
    let s₁ =
      count num_cast_miss (count num_look_hit (count num_verified_casting (count num_casting s))) in
    let rule_addr = (s.obj_type_map obj_map_index).info.rule_addr in
    if src == dst
    then some (set_cache i src dst safecastsame (count num_cast_same s₁))
    else if rule_addr == 0
    then some (count num_miss_find_obj (set_cache i src dst failinfo s₁))
    else do
      related ← is_related s.memory (phantoms s dst) rule_addr dst
      if related
          then some (count num_cast_non_bad_cast (set_cache i src dst safecastupcast s₁))
          else some (
              count num_cast_bad_cast (
                print_type_confusion 4 src dst
                  (count num_bad_cast_type4 (set_cache i src dst badcast s₁))))
