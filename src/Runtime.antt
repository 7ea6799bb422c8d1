-- ===== src/Runtime.antt =====
-- The state of the run-time library, src/compiler-rt-files/hextype.h and hextype_rbtree.h: the object
-- map, the cache of verdicts, the counters and the reports. Pointers are 64-bit addresses, 0 is
-- null; `int Offset` is its 32-bit pattern. The rule tables lie in memory that the library only reads.
use hex_type.Prelude.{ℕ, ◌/◌, ◌%◌, ◌^◌, Option, List, ◌∷◌, ◌==◌, if◌then◌else◌}
use hex_type.RbTree.{Tree}
use hex_type.Counters.{Counts, inc_val}

-- `BADCAST` to `SAFECASTUPCAST`
abbrev pub badcast : ℕ
badcast = 0

abbrev pub failinfo : ℕ
failinfo = 1

abbrev pub safecastsame : ℕ
safecastsame = 2

abbrev pub safecastupcast : ℕ
safecastupcast = 3

abbrev pub stackalloc : ℕ
stackalloc = 1

abbrev pub heapalloc : ℕ
heapalloc = 2

abbrev pub globalalloc : ℕ
globalalloc = 3

abbrev pub realloc : ℕ
realloc = 4

abbrev pub placementnew : ℕ
placementnew = 5

abbrev pub reinterpret : ℕ
reinterpret = 6

abbrev pub nummap : ℕ
nummap = 268435460

abbrev pub numcache : ℕ
numcache = 16777220

-- `(a >> 3) & 0xfffffff`
unfoldable pub get_hash : ℕ → ℕ
get_hash a = a / 8 % 2 ^ 28

-- `ObjTypeMapEntry` without `HexTree`: what `memcpy` saves in the tree. The copy's `HexTree` is never
-- read.
pub record ObjInfo : Type 0 where
  pub obj_addr : ℕ
  pub rule_addr : ℕ
  pub type_hash_value : ℕ
  pub heap_array_size : ℕ
  pub offset : ℕ

-- `ObjTypeMapEntry`; `none` is a `HexTree` that has not been created.
pub record Entry : Type 0 where
  pub info : ObjInfo
  pub hex_tree : Option (Tree ObjInfo)

pub record VerifyResultEntry : Type 0 where
  pub src_h_value : ℕ
  pub dst_h_value : ℕ
  pub verify_result : ℕ

-- `printTypeConfusion(ErrorType, SrcHash, DstHash)`
pub record Confusion : Type 0 where
  pub error_type : ℕ
  pub src_hash : ℕ
  pub dst_hash : ℕ

-- `PhantomHashSet` objects are shared: `obj_phantom_info` leads from a hash to the number of such a
-- set, `phantom_sets` from a number to its elements in ascending order, and `next_set` is the number of
-- the next one to be created.
pub record Runtime : Type 0 where
  pub memory : ℕ → ℕ
  pub obj_type_map : ℕ → Entry
  pub verify_result_cache : ℕ → VerifyResultEntry
  pub obj_phantom_info : ℕ → Option ℕ
  pub phantom_sets : ℕ → List ℕ
  pub next_set : ℕ
  pub counts : Counts
  pub reports : List Confusion

-- A write to one index of a table.
abbrev pub update {ℓ} : {A : Type ℓ} → (ℕ → A) → ℕ → A → ℕ → A
update f i a j = if i == j then a else f j

-- `IncVal(index, 1)`
abbrev pub count : ℕ → Runtime → Runtime
count index s = record s { counts = inc_val index 1 s.counts }

abbrev pub set_entry : ℕ → Entry → Runtime → Runtime
set_entry i e s = record s { obj_type_map = update s.obj_type_map i e }

abbrev pub set_cache : ℕ → ℕ → ℕ → ℕ → Runtime → Runtime
set_cache i src dst result s = record s {
  verify_result_cache =
      update s.verify_result_cache i
        (record { src_h_value = src; dst_h_value = dst; verify_result = result });
}

abbrev pub print_type_confusion : ℕ → ℕ → ℕ → Runtime → Runtime
print_type_confusion error_type src dst s = record s {
  reports = record { error_type = error_type; src_hash = src; dst_hash = dst } ∷ s.reports;
}
