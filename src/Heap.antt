-- ===== src/Heap.antt =====
-- The heap tracing of src/llvm-files/HexTypeTreePass.cpp: which calls count as allocations of objects and
-- with how many elements `handleHeapAlloc` registers them, with the kinds of allocation functions of
-- src/llvm-files/MemoryBuiltins.cpp.
pub mod Sizes
use hex_type.Prelude.{
  ℕ, zero, ◌/◌, Option, none, some, Bool, true, false, List, [], ◌∷◌, ◌==◌, ◌&&◌, ◌||◌, not,
  if◌then◌else◌, ◌>>=◌, get_elem?,
}
use hex_type.Names.{find}
use hex_type.Layout.{Ty, is_interesting_type}
use hex_type.Emission.{RuntimeFn, update_heap_oinfo, other_fn}

-- `AllocType`, the kinds of the entries of `AllocationFnData`.
pub data AllocType : Type 0 where
  op_new_like malloc_like calloc_like realloc_like str_dup_like : AllocType

-- The bits that are set.
abbrev pub bits : AllocType → List ℕ
bits op_new_like = 0 ∷ []
bits malloc_like = 1 ∷ 0 ∷ []
bits calloc_like = 2 ∷ []
bits realloc_like = 3 ∷ []
bits str_dup_like = 4 ∷ []

-- `AllocLike` and `AnyAlloc`.
abbrev pub alloc_like_bits : List ℕ
alloc_like_bits = 1 ∷ 0 ∷ 2 ∷ 4 ∷ []

abbrev pub any_alloc_bits : List ℕ
any_alloc_bits = 1 ∷ 0 ∷ 2 ∷ 4 ∷ 3 ∷ []

abbrev pub has_bit : ℕ → List ℕ → Bool
has_bit b [] = false
has_bit b (c ∷ cs) = b == c || has_bit b cs

-- `(FnData->AllocTy & AllocTy) == FnData->AllocTy`
abbrev pub within : List ℕ → List ℕ → Bool
within [] mask = true
within (b ∷ bs) mask = has_bit b mask && within bs mask

-- A call: the kind of the library function that it calls, where that is in the table and has the
-- prototype; the called function's name and what `__cxa_demangle` makes of it; the type that
-- `getMallocAllocatedType` finds; the values of the operands.
pub record HeapCall : Type 0 where
  pub fn_data : Option AllocType
  pub function_name : List ℕ
  pub unmangled_name : Option (List ℕ)
  pub alloc_ty : Option Ty
  pub operands : List ℕ

-- `getAllocationData`, whether it is null
unfoldable pub get_allocation_data : Option AllocType → List ℕ → Bool
get_allocation_data fn_data alloc_ty = elim fn_data [
  | none ↦ false
  | some t ↦ within (bits t) alloc_ty
]

abbrev pub is_allocation_fn : HeapCall → Bool
is_allocation_fn c = get_allocation_data c.fn_data any_alloc_bits

abbrev pub is_malloc_like_fn : HeapCall → Bool
is_malloc_like_fn c = get_allocation_data c.fn_data (bits malloc_like)

abbrev pub is_calloc_like_fn : HeapCall → Bool
is_calloc_like_fn c = get_allocation_data c.fn_data (bits calloc_like)

abbrev pub is_alloc_like_fn : HeapCall → Bool
is_alloc_like_fn c = get_allocation_data c.fn_data alloc_like_bits

-- `isAllocCall`
unfoldable pub is_alloc_call : HeapCall → Bool
is_alloc_call c =
    is_allocation_fn c && (is_malloc_like_fn c || (is_calloc_like_fn c || not (is_alloc_like_fn c)))

abbrev pub occurs : List ℕ → List ℕ → Bool
occurs sub name = elim (find sub name) [ none ↦ false | some i ↦ true ]

-- "::operator new(unsigned long)"
abbrev operator_new : List ℕ
operator_new =
    58 ∷ 58 ∷ 111 ∷ 112 ∷ 101 ∷ 114 ∷ 97 ∷ 116 ∷ 111 ∷ 114 ∷ 32 ∷ 110 ∷ 101 ∷ 119 ∷ 40 ∷ 117 ∷ 110
    ∷ 115 ∷ 105 ∷ 103 ∷ 110 ∷ 101 ∷ 100 ∷ 32 ∷ 108 ∷ 111 ∷ 110 ∷ 103 ∷ 41 ∷ []

-- "::operator new(unsigned long, std::nothrow_t const&)"
abbrev operator_new_nothrow : List ℕ
operator_new_nothrow =
    58 ∷ 58 ∷ 111 ∷ 112 ∷ 101 ∷ 114 ∷ 97 ∷ 116 ∷ 111 ∷ 114 ∷ 32 ∷ 110 ∷ 101 ∷ 119 ∷ 40 ∷ 117 ∷ 110
    ∷ 115 ∷ 105 ∷ 103 ∷ 110 ∷ 101 ∷ 100 ∷ 32 ∷ 108 ∷ 111 ∷ 110 ∷ 103 ∷ 44 ∷ 32 ∷ 115 ∷ 116 ∷ 100
    ∷ 58 ∷ 58 ∷ 110 ∷ 111 ∷ 116 ∷ 104 ∷ 114 ∷ 111 ∷ 119 ∷ 95 ∷ 116 ∷ 32 ∷ 99 ∷ 111 ∷ 110 ∷ 115 ∷ 116
    ∷ 38 ∷ 41 ∷ []

-- "::operator new[](unsigned long)"
abbrev operator_new_array : List ℕ
operator_new_array =
    58 ∷ 58 ∷ 111 ∷ 112 ∷ 101 ∷ 114 ∷ 97 ∷ 116 ∷ 111 ∷ 114 ∷ 32 ∷ 110 ∷ 101 ∷ 119 ∷ 91 ∷ 93 ∷ 40
    ∷ 117 ∷ 110 ∷ 115 ∷ 105 ∷ 103 ∷ 110 ∷ 101 ∷ 100 ∷ 32 ∷ 108 ∷ 111 ∷ 110 ∷ 103 ∷ 41 ∷ []

-- "::operator new[](unsigned long, std::nothrow_t const&)"
abbrev operator_new_array_nothrow : List ℕ
operator_new_array_nothrow =
    58 ∷ 58 ∷ 111 ∷ 112 ∷ 101 ∷ 114 ∷ 97 ∷ 116 ∷ 111 ∷ 114 ∷ 32 ∷ 110 ∷ 101 ∷ 119 ∷ 91 ∷ 93 ∷ 40
    ∷ 117 ∷ 110 ∷ 115 ∷ 105 ∷ 103 ∷ 110 ∷ 101 ∷ 100 ∷ 32 ∷ 108 ∷ 111 ∷ 110 ∷ 103 ∷ 44 ∷ 32 ∷ 115
    ∷ 116 ∷ 100 ∷ 58 ∷ 58 ∷ 110 ∷ 111 ∷ 116 ∷ 104 ∷ 114 ∷ 111 ∷ 119 ∷ 95 ∷ 116 ∷ 32 ∷ 99 ∷ 111 ∷ 110
    ∷ 115 ∷ 116 ∷ 38 ∷ 41 ∷ []

-- `isOverloadedNew`
unfoldable pub is_overloaded_new : HeapCall → Bool
is_overloaded_new c = elim c.unmangled_name [
  | none ↦ false
  | some name ↦
      occurs operator_new name
      || (occurs operator_new_nothrow name
          || (occurs operator_new_array name || occurs operator_new_array_nothrow name))
]

-- `collectHeapAlloc`: the type with which the call is collected.
unfoldable pub collect_heap_alloc : HeapCall → Option Ty
collect_heap_alloc c = elim c.alloc_ty [
  | none ↦ none
  | some ty ↦
      if is_alloc_call c || is_overloaded_new c
      then (if is_interesting_type ty then some ty else none)
      else none
]

-- "realloc"
abbrev pub realloc_name : List ℕ
realloc_name = 114 ∷ 101 ∷ 97 ∷ 108 ∷ 108 ∷ 111 ∷ 99 ∷ []

-- `isReallocFn`
abbrev pub is_realloc_fn : HeapCall → Bool
is_realloc_fn c = occurs realloc_name c.function_name

-- A call of `insertUpdate`: `__update_realloc_oinfo` is `other_fn`, and comes with the old pointer.
pub record HeapUpdate : Type 0 where
  pub runtime_fn_name : RuntimeFn
  pub array_size : ℕ
  pub reallocated : Option ℕ

-- The operand that holds the size.
abbrev pub size_operand : HeapCall → Option ℕ
size_operand c =
    get_elem? c.operands (if is_malloc_like_fn c || not (is_allocation_fn c) then 0 else 1)

abbrev pub heap_update : HeapCall → Bool → ℕ → Option (List HeapUpdate)
heap_update c false n =
    some (record { runtime_fn_name = update_heap_oinfo; array_size = n; reallocated = none } ∷ [])
heap_update c true n = do
  p ← get_elem? c.operands 0
  some (record { runtime_fn_name = other_fn; array_size = n; reallocated = some p } ∷ [])

-- `handleHeapAlloc` for one call, by whether its type lays out no object, and the type's size.
unfoldable pub handle_heap_alloc : Bool → ℕ → HeapCall → Option (List HeapUpdate)
handle_heap_alloc no_objects type_size_val c =
    if no_objects
    then some []
    else if is_malloc_like_fn c || (not (is_alloc_like_fn c) || not (is_allocation_fn c))
    then (do
      array_size ← size_operand c
      heap_update c (is_realloc_fn c)
          (if type_size_val == 0 then array_size else array_size / type_size_val))
    else if is_calloc_like_fn c
    then (do array_size ← get_elem? c.operands 1; heap_update c false array_size)
    else some []

-- `heapObjTracing` for one call, with what the layout says of a type.
unfoldable pub trace_heap_alloc : (Ty → Bool) → (Ty → ℕ) → HeapCall → Option (List HeapUpdate)
trace_heap_alloc no_objects type_alloc_size c = elim (collect_heap_alloc c) [
  | none ↦ some []
  | some ty ↦ handle_heap_alloc (no_objects ty) (type_alloc_size ty) c
]
