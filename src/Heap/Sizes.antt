-- ===== src/Heap/Sizes.antt =====
-- The elements that are registered for an allocation are those that have room in its bytes.
use hex_type.Prelude.{
  ℕ, suc, ◌+◌, ◌*◌, ◌/◌, ◌%◌, ◌≤◌, ◌<◌, ◌≡◌, refl, Option, none, some, Bool, true, false, List, [],
  ◌∷◌, ◌==◌, if◌then◌else◌, Returns, get_elem?, arith, subst, some_inj,
}
use native.Mathlib.Omega.{div_any}
use native.Mathlib.Nat.{mod-lt}
use hex_type.Layout.{Ty}
use hex_type.Heap.{
  AllocType, op_new_like, malloc_like, calloc_like, realloc_like, str_dup_like, HeapCall,
  HeapUpdate, collect_heap_alloc, trace_heap_alloc, handle_heap_alloc, heap_update, is_realloc_fn,
  get_allocation_data,
}

-- The bytes that a function allocates, as its manual states; a class's operator new takes them as its
-- first operand.
abbrev pub allocated_bytes : Option AllocType → List ℕ → Option ℕ
allocated_bytes none (n ∷ ns) = some n
allocated_bytes (some op_new_like) (n ∷ ns) = some n
allocated_bytes (some malloc_like) (n ∷ ns) = some n
allocated_bytes (some calloc_like) (m ∷ n ∷ ns) = some (m * n)
allocated_bytes (some realloc_like) (p ∷ n ∷ ns) = some n
allocated_bytes k ns = none

abbrev call : List ℕ → Option (List ℕ) → Option Ty → Option AllocType → List ℕ → HeapCall
call name unmangled ty k ops = record {
  fn_data = k;
  function_name = name;
  unmangled_name = unmangled;
  alloc_ty = ty;
  operands = ops;
}

-- As many elements as have room; for `calloc` the second operand.
abbrev pub Registers : Option AllocType → List ℕ → ℕ → ℕ → HeapUpdate → Type 0
Registers (some calloc_like) operands type_size bytes u = get_elem? operands 1 ≡ some u.array_size
Registers k operands type_size bytes u =
    (u.array_size * type_size ≤ bytes) × (bytes < (u.array_size + 1) * type_size)

quotient_lem : (n s : ℕ) → (n / suc s * suc s ≤ n) × (n < (n / suc s + 1) * suc s)
quotient_lem n s =
    let whole = div_any n (suc s) in
    let part : n % suc s < suc s = mod-lt n (omega arith) in
    (grind (arith, whole), grind (arith, whole, part))

-- `handleHeapAlloc` where the first branch is taken.
divided_lem :
    (c : HeapCall) (p n bytes s : ℕ) (ns : List ℕ) (b : Bool)
    → c.operands ≡ p ∷ ns
    → some n ≡ some bytes
    → Returns (heap_update c b (if suc s == 0 then n else n / suc s)) λ us.
      (u : HeapUpdate) × (us ≡ u ∷ [])
      × ((u.array_size * suc s ≤ bytes) × (bytes < (u.array_size + 1) * suc s))
divided_lem c p n bytes s ns b e same =
    let positive : (suc s == 0) ≡ false = ground arith in
    subst
      (λ m. Returns (heap_update c b (if suc s == 0 then n else n / suc s)) λ us.
        (u : HeapUpdate) × (us ≡ u ∷ [])
        × ((u.array_size * suc s ≤ m) × (m < (u.array_size + 1) * suc s)))
      (some_inj n bytes same) (rw positive (updates b))
  where
    updates :
        (b : Bool)
        → Returns (heap_update c b (n / suc s)) λ us.
          (u : HeapUpdate) × (us ≡ u ∷ [])
          × ((u.array_size * suc s ≤ n) × (n < (u.array_size + 1) * suc s))
    updates true = rw e (_, refl, (_, refl, quotient_lem n s))
    updates false = (_, refl, (_, refl, quotient_lem n s))

handle_lem :
    (k : Option AllocType) (name : List ℕ) (unmangled : Option (List ℕ)) (ty : Option Ty)
    (ops : List ℕ) (s bytes : ℕ)
    → allocated_bytes k ops ≡ some bytes
    → let c = call name unmangled ty k ops in
      Returns
        (handle_heap_alloc false (suc s) c)
        λ us. (u : HeapUpdate) × (us ≡ u ∷ []) × Registers k ops (suc s) bytes u
unfolding handle_heap_alloc get_allocation_data
handle_lem none name un ty [] s bytes e = cc
handle_lem none name un ty (n ∷ ns) s bytes e =
    divided_lem (call name un ty none (n ∷ ns)) n n bytes s ns
      (is_realloc_fn (call name un ty none (n ∷ ns))) refl e
handle_lem (some op_new_like) name un ty [] s bytes e = cc
handle_lem (some op_new_like) name un ty (n ∷ ns) s bytes e =
    divided_lem (call name un ty (some op_new_like) (n ∷ ns)) n n bytes s ns
      (is_realloc_fn (call name un ty (some op_new_like) (n ∷ ns))) refl e
handle_lem (some malloc_like) name un ty [] s bytes e = cc
handle_lem (some malloc_like) name un ty (n ∷ ns) s bytes e =
    divided_lem (call name un ty (some malloc_like) (n ∷ ns)) n n bytes s ns
      (is_realloc_fn (call name un ty (some malloc_like) (n ∷ ns))) refl e
handle_lem (some calloc_like) name un ty [] s bytes e = cc
handle_lem (some calloc_like) name un ty (m ∷ []) s bytes e = cc
handle_lem (some calloc_like) name un ty (m ∷ n ∷ ns) s bytes e = (_, refl, (_, refl, refl))
handle_lem (some realloc_like) name un ty [] s bytes e = cc
handle_lem (some realloc_like) name un ty (p ∷ []) s bytes e = cc
handle_lem (some realloc_like) name un ty (p ∷ n ∷ ns) s bytes e =
    divided_lem (call name un ty (some realloc_like) (p ∷ n ∷ ns)) p n bytes s (n ∷ ns)
      (is_realloc_fn (call name un ty (some realloc_like) (p ∷ n ∷ ns))) refl e
handle_lem (some str_dup_like) name un ty ops s bytes e = cc

-- For each call that the tracing collects, with a type that lays out objects and has a size, one
-- registration is emitted. Its number of elements is, for `new`, `malloc` and `realloc`, how many have
-- room in the bytes that the call allocates, and for `calloc` its second operand, the size
-- of an element.
pub trace_heap_alloc-Registers :
    (no_objects : Ty → Bool) (type_alloc_size : Ty → ℕ) (c : HeapCall) (ty : Ty) (s bytes : ℕ)
    → collect_heap_alloc c ≡ some ty
    → no_objects ty ≡ false
    → type_alloc_size ty ≡ suc s
    → allocated_bytes c.fn_data c.operands ≡ some bytes
    → Returns (trace_heap_alloc no_objects type_alloc_size c) λ us.
      (u : HeapUpdate) × (us ≡ u ∷ []) × Registers c.fn_data c.operands (type_alloc_size ty) bytes u
unfolding trace_heap_alloc
trace_heap_alloc-Registers no_objects type_alloc_size c ty s bytes collected objects size room =
    rw (trace_heap_alloc, collected, objects, size)
      (handle_lem c.fn_data c.function_name c.unmangled_name c.alloc_ty c.operands s bytes room)
