-- ===== src/Emission.antt =====
-- Which objects `insertUpdate` and `insertRemove` of src/llvm-files/HexTypeUtil.cpp emit tracing code
-- for: a call of `emitInstForObjTrace` is a value here, and Trace is what it emits. Also their calls for
-- an alloca, in `emitRemoveInst` and in `handleAllocaAdd` of src/llvm-files/HexTypePass.cpp.
pub mod Pairing
pub mod Trace
pub mod Extend
use hex_type.Prelude.{
  ℕ, zero, suc, ◌+◌, ◌%◌, ◌^◌, Option, none, some, Bool, true, false, List, [], ◌∷◌, ◌&&◌, ◌||◌,
  not, ltb, ◌==◌, if◌then◌else◌,
}
use hex_type.Runtime.{stackalloc, heapalloc, globalalloc, realloc, placementnew, reinterpret}

-- The names of the run-time functions that are told apart, and any other.
pub data RuntimeFn : Type 0 where
  update_stack_oinfo remove_stack_oinfo update_global_oinfo update_heap_oinfo remove_heap_oinfo
        placement_new_handle reinterpret_casting_handle other_fn :
      RuntimeFn

-- `getAllocType`
unfoldable pub get_alloc_type : RuntimeFn → ℕ
get_alloc_type update_stack_oinfo = stackalloc
get_alloc_type remove_stack_oinfo = stackalloc
get_alloc_type update_global_oinfo = globalalloc
get_alloc_type update_heap_oinfo = heapalloc
get_alloc_type remove_heap_oinfo = heapalloc
get_alloc_type placement_new_handle = placementnew
get_alloc_type reinterpret_casting_handle = reinterpret
get_alloc_type other_fn = realloc

pub data EmitType : Type 0 where
  con_obj_add vla_obj_add con_obj_del vla_obj_del : EmitType

-- A call of `emitInstForObjTrace`, by the arguments in which the calls differ. The size of the array is
-- a constant or, as `none`, a value of the program.
pub record Emission : Type 0 where
  pub emit_type : EmitType
  pub array_size : Option ℕ
  pub curr_array_index : ℕ
  pub alloc_type : ℕ

-- The loops over the elements of an array of constant size, by the rounds left.
unfoldable pub emit_elements : ℕ → ℕ → EmitType → Option ℕ → ℕ → List Emission
emit_elements zero i emit_type array_size alloc_type = []
emit_elements (suc n) i emit_type array_size alloc_type =
    record {
      emit_type = emit_type;
      array_size = array_size;
      curr_array_index = i;
      alloc_type = alloc_type;
    }
    ∷ emit_elements n (i + 1) emit_type array_size alloc_type

-- The counter is a `uint32_t`, which never reaches a size of 2 ^ 32 or more: `none`.
abbrev pub emit_loop : ℕ → EmitType → ℕ → Option (List Emission)
emit_loop n emit_type alloc_type =
    if ltb n (2 ^ 32) then some (emit_elements n 0 emit_type (some n) alloc_type) else none

abbrev pub emit_one : EmitType → Option ℕ → ℕ → Option (List Emission)
emit_one emit_type array_size alloc_type = some (
    record {
      emit_type = emit_type;
      array_size = array_size;
      curr_array_index = 0;
      alloc_type = alloc_type;
    }
    ∷ [])

-- `insertUpdate`; for a placement new and a `reinterpret_cast` the size is null, and is not used.
unfoldable pub insert_update : RuntimeFn → Option ℕ → Option (List Emission)
insert_update runtime_fn_name array_size =
    let t = get_alloc_type runtime_fn_name in
    if t == realloc
    then emit_one vla_obj_add array_size t
    else if t == placementnew || t == reinterpret
    then emit_one con_obj_add array_size t
    else elim array_size [
      | none ↦ emit_one vla_obj_add none t
      | some n ↦
          if not (t == heapalloc)
          then emit_loop n con_obj_add t
          else emit_one vla_obj_add (some n) t
    ]

-- A null `ArraySize` is the constant 1.
pub data RemovalSize : Type 0 where
  null_size : RemovalSize
  sized : Option ℕ → RemovalSize

abbrev pub size_value : RemovalSize → Option ℕ
size_value null_size = some 1
size_value (sized array_size) = array_size

-- `insertRemove`, by whether there are elements.
unfoldable pub insert_remove : RuntimeFn → Bool → RemovalSize → Option (List Emission)
insert_remove runtime_fn_name no_elements array_size =
    let t = get_alloc_type runtime_fn_name in
    if no_elements then some [] else elim (size_value array_size) [
      | none ↦ emit_one vla_obj_del none t
      | some n ↦
          if not (t == heapalloc)
          then emit_loop n con_obj_del t
          else emit_one vla_obj_del (some n) t
    ]

-- The operand of an alloca for its number of elements: a constant, or a value with whether that is of
-- 64 bits; one of fewer bits is extended by zeros.
pub data AllocaSize : Type 0 where
  constant_size : ℕ → AllocaSize
  value_size : Bool → AllocaSize

-- `ArraySizeF` of `handleAllocaAdd`
abbrev pub array_size_f : AllocaSize → Option ℕ
array_size_f (constant_size n) = some (n % 2 ^ 64)
array_size_f (value_size is_int64) = none

-- What `handleAllocaAdd` emits for an alloca at one place, by whether its type lays out no object.
unfoldable pub emit_alloca_update : AllocaSize → Bool → Option (List Emission)
emit_alloca_update size has_no_objects =
    if has_no_objects then some [] else insert_update update_stack_oinfo (array_size_f size)

-- `TypeSize` of `emitRemoveInst`
abbrev pub removed_size : AllocaSize → RemovalSize
removed_size (constant_size n) = sized (some (n % 2 ^ 64))
removed_size (value_size is_int64) = sized none

-- `emitRemoveInst`
unfoldable pub emit_remove_inst : AllocaSize → Bool → Option (List Emission)
emit_remove_inst size has_no_objects =
    if has_no_objects
    then some []
    else insert_remove remove_stack_oinfo has_no_objects (removed_size size)
