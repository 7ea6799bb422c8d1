-- ===== src/Emission/Extend.antt =====
-- `emitExtendObjTraceInst` of src/llvm-files/HexTypeTreePass.cpp: the code in place of the calls that
-- the compiler's front end leaves for a placement new and for a reinterpret_cast.
pub mod Placement
use hex_type.Prelude.{
  ℕ, ◌+◌, ◌%◌, ◌^◌, Option, none, some, Bool, true, false, List, [], ◌∷◌, ◌==◌, ◌||◌, not, ◌&&◌,
  if◌then◌else◌, ◌>>=◌,
}
use hex_type.Runtime.{Runtime, placementnew, reinterpret}
use hex_type.Names.{get_hash_value_from_str}
use hex_type.Layout.{Element}
use hex_type.Emission.{RuntimeFn, placement_new_handle, reinterpret_casting_handle}
use hex_type.Emission.Trace.{Config, Allocation, count_update, trace_update}

-- Whether a name of `CastingRelatedSet`, as a list, has the hash.
abbrev pub has_hash : ℕ → List (List ℕ) → Option Bool
has_hash hash [] = some false
has_hash hash (name ∷ names) = do
  tmp_hash ← get_hash_value_from_str name
  rest ← has_hash hash names
  some (tmp_hash == hash || rest)

-- The kinds of calls, with their allocation types.
pub data ExtendTarget : Type 0 where
  placement_new reinterpret_cast : ExtendTarget

abbrev pub handle_fn : ExtendTarget → RuntimeFn
handle_fn placement_new = placement_new_handle
handle_fn reinterpret_cast = reinterpret_casting_handle

abbrev pub extend_alloc_type : ExtendTarget → ℕ
extend_alloc_type placement_new = placementnew
extend_alloc_type reinterpret_cast = reinterpret

abbrev pub handle_allocation : ℕ → ℕ → Allocation
handle_allocation operand_0 operand_2 = record {
  obj_addr = (operand_0 + operand_2) % 2 ^ 64;
  array_size = 0;
  type_size = 0;
  realloc_addr = 0;
}

-- The code for one call, whose operands 0 and 2 are added up to the object's address. The element that
-- is traced has the hash in place of an offset; the type size is 0.
unfoldable pub emit_extend_obj_trace_inst :
    Config → List (List ℕ) → ExtendTarget → ℕ → ℕ → ℕ → Runtime → Option Runtime
emit_extend_obj_trace_inst cfg casting_related target target_hash_value operand_0 operand_2 s = do
  is_safe_obj ←
      if cfg.cast_obj_opt
      then (has_hash target_hash_value casting_related >>= λ b. some (not b))
      else some false
  elim is_safe_obj [
    | true ↦ some s
    | false ↦ do
      s₁ ←
          trace_update cfg (handle_allocation operand_0 operand_2)
            (record { offset = target_hash_value; name = [] } ∷ []) (handle_fn target) none s
      some (count_update cfg (extend_alloc_type target) 1 s₁)
  ]
