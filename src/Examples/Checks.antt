-- ===== src/Examples/Checks.antt =====
-- The theorems on the compile-time verification, on a pointer to a local object and on a pointer that
-- is assigned to itself, and on the choice of the stack objects that are traced.
use hex_type.Prelude.{
  ℕ, zero, suc, ◌≡◌, refl, sym, subst, none, false, List, [], ◌∷◌, inl, inr, Returns, arith,
  some_inj,
}
use hex_type.Layout.{struct_type, no_fields}
use hex_type.Prelude.{true, some}
use hex_type.Layout.{Ty, is_interesting_type}
use hex_type.Heap.{
  HeapCall, HeapUpdate, malloc_like, trace_heap_alloc, collect_heap_alloc, is_alloc_call,
  get_allocation_data,
}
use hex_type.Heap.Sizes.{Registers, trace_heap_alloc-Registers}
use hex_type.Tracing.{
  Intrinsic, Alloca, collect_life_times, handle_alloca_add, handle_alloca_delete,
}
use hex_type.Tracing.Lifetimes.{no_life_times, handle_alloca-first_place}
use hex_type.Verify.{
  Value, instruction, Instruction, alloca, load, store, pointer_ty, value_ty, is_safe_src_value,
  AllocatedTy,
}
use hex_type.Verify.Decision.{Safe, Means}
use hex_type.Verify.Ranked.{Operand, IsRanked, is_safe_src_value-decides}
use hex_type.Verify.Cycle.{Circular, is_safe_src_value-Circular}

abbrev object_ty : AllocatedTy
object_ty = value_ty (struct_type (65 ∷ []) false false no_fields)

-- A o; A *p = &o; use(p);
abbrev straight : List Instruction
straight =
    alloca object_ty
    ∷ alloca pointer_ty
    ∷ store (instruction 0) (instruction 1)
    ∷ load (instruction 1)
    ∷ []

abbrev place : Value → ℕ
place (instruction i) = i
place v = 0

straight-IsRanked : IsRanked straight place
straight-IsRanked zero x v e o =
    absurd (subst (λ y. Operand straight 0 y v) (some_inj x (alloca object_ty) (sym e)) o)
straight-IsRanked (suc zero) x v e o =
    elim (subst (λ y. Operand straight 1 y v) (some_inj x (alloca pointer_ty) (sym e)) o) [
      | inl q ↦ rw q (omega arith)
      | inr z ↦ absurd z
    ]
straight-IsRanked (suc (suc zero)) x v e o =
    rw
      (subst (λ y. Operand straight 2 y v)
        (some_inj x (store (instruction 0) (instruction 1)) (sym e)) o)
      (omega arith)
straight-IsRanked (suc (suc (suc zero))) x v e o =
    elim (subst (λ y. Operand straight 3 y v) (some_inj x (load (instruction 1)) (sym e)) o) [
      | inl q ↦ rw q (omega arith)
      | inr z ↦ absurd z
    ]
straight-IsRanked (suc (suc (suc (suc i)))) x v e o = cc

is_safe_src_value-decides_example :
    Returns
      (is_safe_src_value 4 straight (instruction 3))
      λ b. Means straight b (Safe straight (instruction 3))
is_safe_src_value-decides_example =
    is_safe_src_value-decides straight place straight-IsRanked (instruction 3)

-- A *p; p = p;
abbrev circle : List Instruction
circle = alloca pointer_ty ∷ load (instruction 0) ∷ store (instruction 1) (instruction 0) ∷ []

circle-Circular : Circular circle (λ v. v ≡ instruction 1)
circle-Circular v e = (1, 0, pointer_ty, instruction 1, [], e, refl, refl, refl, refl)

is_safe_src_value-Circular_example : is_safe_src_value 1000 circle (instruction 1) ≡ none
is_safe_src_value-Circular_example =
    is_safe_src_value-Circular circle (λ v. v ≡ instruction 1) circle-Circular (instruction 1) refl
      1000

-- An object whose life ends on two paths.
abbrev intrinsics : List Intrinsic
intrinsics =
    record { place = 10; is_start = true; is_minus_one = false; found = some 1 }
    ∷ record { place = 20; is_start = false; is_minus_one = false; found = some 1 }
    ∷ record { place = 30; is_start = false; is_minus_one = false; found = some 1 }
    ∷ []

abbrev local : Alloca
local = record {
  id = 1;
  next = 2;
  has_no_objects = false;
  dominated_returns = 40 ∷ [];
  is_returned = false;
}

handle_alloca-first_place_example :
    (handle_alloca_add (collect_life_times intrinsics no_life_times) local ≡ (10 ∷ []))
    × (handle_alloca_delete (collect_life_times intrinsics no_life_times) local ≡ (20 ∷ []))
handle_alloca-first_place_example = handle_alloca-first_place intrinsics local refl refl

abbrev heap_ty : Ty
heap_ty = struct_type (65 ∷ []) false false no_fields

-- malloc(40)
abbrev forty_bytes : HeapCall
forty_bytes = record {
  fn_data = some malloc_like;
  function_name = 109 ∷ 97 ∷ 108 ∷ 108 ∷ 111 ∷ 99 ∷ [];
  unmangled_name = none;
  alloc_ty = some heap_ty;
  operands = 40 ∷ [];
}

forty_bytes_lem : collect_heap_alloc forty_bytes ≡ some heap_ty
unfolding collect_heap_alloc is_alloc_call get_allocation_data is_interesting_type
forty_bytes_lem = refl

trace_heap_alloc-Registers_example :
    Returns
      (trace_heap_alloc (λ ty. false) (λ ty. 16) forty_bytes)
      λ us. (u : HeapUpdate) × (us ≡ u ∷ []) × Registers (some malloc_like) (40 ∷ []) 16 40 u
trace_heap_alloc-Registers_example =
    trace_heap_alloc-Registers (λ ty. false) (λ ty. 16) forty_bytes heap_ty 15 40 forty_bytes_lem
      refl refl refl
