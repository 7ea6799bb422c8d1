-- ===== src/Emission/Trace.antt =====
-- What the instructions do that `emitInstForObjTrace` of src/llvm-files/HexTypeUtil.cpp emits: the
-- object map before them and after them. `none` is a fault, of the compiler or of the program.
pub mod Steps
pub mod Frame
pub mod Runs
pub mod Scope
pub mod Undo
pub mod Inlining
use hex_type.Prelude.{
  ℕ, ◌+◌, ◌*◌, ◌%◌, ◌^◌, Option, none, some, Bool, true, false, List, [], ◌∷◌, ◌&&◌, ◌||◌, not,
  ◌==◌, if◌then◌else◌, ◌>>=◌, each,
}
use hex_type.Counters.Events.{obj_update_count, obj_remove_count}
use hex_type.Runtime.{
  Runtime, Entry, get_hash, set_entry, stackalloc, globalalloc, realloc, placementnew, reinterpret,
}
use hex_type.Objects.{
  update_direct_oinfo, update_direct_oinfo_inline, handle_reinterpret_cast, update_oinfo,
  remove_direct_oinfo, remove_direct_oinfo_inline, remove_oinfo,
}
use hex_type.Types.{rule_position}
use hex_type.Names.{get_hash_value_from_sty}
use hex_type.Layout.{Element}
use hex_type.Layout.Casting.{remove_non_casting_related_obj}
use hex_type.Emission.{
  EmitType, con_obj_add, vla_obj_add, con_obj_del, vla_obj_del, Emission, RuntimeFn, RemovalSize,
  insert_update, insert_remove,
}

-- `ClCastObjOpt`, `ClInlineOpt`, `ClMakeLogInfo`, `CastingRelatedSet`, `typeInfoArrayInt` and the address
-- of `typeInfoArrayGlobal`.
pub record Config : Type 0 where
  pub cast_obj_opt : Bool
  pub inline_opt : Bool
  pub make_log_info : Bool
  pub casting_related_set : List ℕ → Bool
  pub type_info_array_int : List ℕ
  pub type_info_array_global : ℕ

-- The arguments that all calls for an allocation share, as values of the program; `array_size` is the
-- value of an `ArraySize` that is not a constant.
pub record Allocation : Type 0 where
  pub obj_addr : ℕ
  pub array_size : ℕ
  pub type_size : ℕ
  pub realloc_addr : ℕ

-- What `ArraySize` comes to when the program runs.
abbrev pub array_size_value : Allocation → Emission → ℕ
array_size_value a m = elim m.array_size [ some n ↦ n % 2 ^ 64 | none ↦ a.array_size ]

-- The elements hold hashes in place of offsets.
abbrev pub by_hash : ℕ → Bool
by_hash alloc_type = alloc_type == placementnew || alloc_type == reinterpret

-- `OffsetV`, and `OffsetInt` with the array index
abbrev pub offset_value : ℕ → Element → ℕ
offset_value alloc_type e = if by_hash alloc_type then 0 else e.offset % 2 ^ 32

abbrev pub offset_int : Allocation → Emission → Element → ℕ
offset_int a m e = (offset_value m.alloc_type e + a.type_size * m.curr_array_index) % 2 ^ 32

-- `NewAddr`
abbrev pub new_addr : Allocation → Emission → Element → ℕ
new_addr a m e = (offset_int a m e + a.obj_addr) % 2 ^ 64

-- `TypeHashValueInt`
abbrev pub type_hash : ℕ → Element → Option ℕ
type_hash alloc_type e =
    if by_hash alloc_type then some e.offset else get_hash_value_from_sty e.name

-- `RuleAddr`
abbrev pub rule_address : Config → ℕ → Option ℕ
rule_address cfg hash = do
  pos ← rule_position cfg.type_info_array_int hash
  some ((pos * 8 + cfg.type_info_array_global) % 2 ^ 64)

-- The four stores into an entry; `HeapArraySize` keeps its value.
abbrev pub store_entry : ℕ → ℕ → ℕ → ℕ → Entry → Entry
store_entry addr hash offset rule e = record e {
  info = record (e.info) {
    obj_addr = addr;
    rule_addr = rule;
    type_hash_value = hash;
    offset = offset;
  };
}

-- The inlined registration.
unfoldable pub inline_add : ℕ → ℕ → ℕ → ℕ → Runtime → Option Runtime
inline_add addr hash offset rule s =
    let i = get_hash addr in
    let e = s.obj_type_map i in
    if e.info.obj_addr == 0 || addr == e.info.obj_addr
    then some (set_entry i (store_entry addr hash offset rule e) s)
    else update_direct_oinfo_inline addr hash offset rule i s

-- The inlined removal.
unfoldable pub inline_remove : ℕ → Runtime → Option Runtime
inline_remove addr s =
    let i = get_hash addr in
    let e = s.obj_type_map i in
    if addr == e.info.obj_addr
    then some (set_entry i (record e { info = record (e.info) { obj_addr = 0 } }) s)
    else remove_direct_oinfo_inline addr i s

abbrev pub is_inlined : Config → ℕ → Bool
is_inlined cfg alloc_type =
    cfg.inline_opt && not (alloc_type == reinterpret) && not (alloc_type == globalalloc)

-- The registration of one object, before it is counted.
unfoldable pub add_object : Config → ℕ → ℕ → ℕ → ℕ → ℕ → Runtime → Option Runtime
add_object cfg alloc_type addr hash offset rule s =
    if is_inlined cfg alloc_type
    then inline_add addr hash offset rule s
    else if alloc_type == reinterpret
    then handle_reinterpret_cast addr hash offset rule s
    else update_direct_oinfo addr hash offset rule s

-- The removal of one object. For a global object or one that a cast registered, the inlining asks for
-- a comparison that it has not emitted.
unfoldable pub remove_object : Config → ℕ → ℕ → Runtime → Option Runtime
remove_object cfg alloc_type addr s =
    if cfg.inline_opt
    then if is_inlined cfg alloc_type then inline_remove addr s else none
    else remove_direct_oinfo addr s

abbrev pub count_update : Config → ℕ → ℕ → Runtime → Runtime
count_update cfg alloc_type vla s =
    if cfg.make_log_info then record s { counts = obj_update_count alloc_type vla s.counts } else s

abbrev pub count_remove : Config → ℕ → ℕ → Runtime → Runtime
count_remove cfg alloc_type vla s =
    if cfg.make_log_info then record s { counts = obj_remove_count alloc_type vla s.counts } else s

-- A reallocation removes the old objects, with its first entry.
abbrev pub remove_reallocated : Bool → Allocation → Emission → Element → Runtime → Option Runtime
remove_reallocated first a m e s =
    if m.alloc_type == realloc && first
    then remove_oinfo ((offset_int a m e + a.realloc_addr) % 2 ^ 64) a.type_size
        (array_size_value a m) m.alloc_type s
    else some s

-- What is emitted for an entry of `Elements`.
unfoldable pub trace_entry :
    Config → Allocation → Emission → Bool → Element → Runtime → Option Runtime
trace_entry cfg a m first e s =
    let addr = new_addr a m e in
    let t = m.alloc_type in
    do
      hash ← type_hash t e
      elim m.emit_type [
        | con_obj_add ↦ do
          rule ← rule_address cfg hash
          s₁ ← add_object cfg t addr hash (offset_value t e) rule s
          some (count_update cfg t 1 s₁)
        | vla_obj_add ↦ do
          rule ← rule_address cfg hash
          s₁ ← remove_reallocated first a m e s
          s₂ ← update_oinfo addr hash (offset_value t e) a.type_size (array_size_value a m) rule s₁
          some (count_update cfg t (array_size_value a m) s₂)
        | con_obj_del ↦ do s₁ ← remove_object cfg t addr s; some (count_remove cfg t 1 s₁)
        | vla_obj_del ↦ do
          s₁ ← remove_oinfo addr a.type_size (array_size_value a m) t s
          some (if t == stackalloc then count_remove cfg t 1 s₁ else s₁)
      ]

-- The loop over `Elements`.
unfoldable pub trace_entries :
    Config → Allocation → Emission → Bool → List Element → Runtime → Option Runtime
trace_entries cfg a m first [] s = some s
trace_entries cfg a m first (e ∷ es) s = do
  s' ← trace_entry cfg a m first e s
  trace_entries cfg a m false es s'

-- `emitInstForObjTrace`
unfoldable pub emit_inst_for_obj_trace :
    Config → Allocation → List Element → Emission → Runtime → Option Runtime
emit_inst_for_obj_trace cfg a elements m s = do
  es ←
      if cfg.cast_obj_opt && not (by_hash m.alloc_type)
      then remove_non_casting_related_obj cfg.casting_related_set elements
      else some elements
  trace_entries cfg a m true es s

abbrev pub no_elements : List Element → Bool
no_elements [] = true
no_elements (e ∷ es) = false

-- `insertUpdate` and `insertRemove`, with what their calls emit.
unfoldable pub trace_update :
    Config → Allocation → List Element → RuntimeFn → Option ℕ → Runtime → Option Runtime
trace_update cfg a elements runtime_fn_name array_size s = do
  ms ← insert_update runtime_fn_name array_size
  each (emit_inst_for_obj_trace cfg a elements) ms s

unfoldable pub trace_remove :
    Config → Allocation → List Element → RuntimeFn → RemovalSize → Runtime → Option Runtime
trace_remove cfg a elements runtime_fn_name array_size s = do
  ms ← insert_remove runtime_fn_name (no_elements elements) array_size
  each (emit_inst_for_obj_trace cfg a elements) ms s
