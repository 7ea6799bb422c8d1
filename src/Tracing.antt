-- ===== src/Tracing.antt =====
-- Which stack objects src/llvm-files/HexTypePass.cpp traces, and at which instructions: the decisions of
-- `handleFnPrameter`, `mayCast`, `stackObjTracing`, `collectLifeTimeInfo`, `handleAllocaAdd` and
-- `handleAllocaDelete`. Functions, allocas and instructions are numbers.
pub mod Parameters
pub mod Functions
pub mod Lifetimes
use hex_type.Prelude.{
  ℕ, zero, suc, ◌+◌, Option, none, some, Bool, true, false, List, [], ◌∷◌, ◌++◌, ◌==◌, ◌&&◌, ◌||◌,
  not, if◌then◌else◌,
}
use hex_type.Layout.{Ty, is_interesting_type}

-- A parameter: whether it is passed by value, and the type that it points to.
pub record Parameter : Type 0 where
  pub by_val : Bool
  pub pointed_ty : Ty

-- The loop of `handleFnPrameter`: the numbers of the parameters that are copied to the stack.
unfoldable pub copied_parameters : ℕ → List Parameter → List ℕ
copied_parameters i [] = []
copied_parameters i (a ∷ as_) =
    let rest = copied_parameters (i + 1) as_ in
    if not a.by_val then [] else if is_interesting_type a.pointed_ty then i ∷ rest else rest

-- `handleFnPrameter`, by whether the function is empty or initialises a global object
unfoldable pub handle_fn_prameter : Bool → List Parameter → List ℕ
handle_fn_prameter skipped parameters = if skipped then [] else copied_parameters 0 parameters

-- A function of the module: whether `isInterestingFn` holds and whether it is only declared, its callees
-- in the call graph.
pub record Fn : Type 0 where
  pub id : ℕ
  pub is_interesting : Bool
  pub is_declaration : Bool
  pub callees : List ℕ

-- `mayCastMap`, to which `insert` adds what is not there.
abbrev pub lookup : ℕ → List (ℕ × Bool) → Option Bool
lookup i [] = none
lookup i ((j, b) ∷ m) = if i == j then some b else lookup i m

abbrev pub insert_new : ℕ → Bool → List (ℕ × Bool) → List (ℕ × Bool)
insert_new i b m = elim (lookup i m) [ none ↦ (i, b) ∷ m | some c ↦ m ]

abbrev pub has_any : List ℕ → Bool
has_any [] = false
has_any (x ∷ xs) = true

-- `mayCast`: the body of its loop begins with `return true`.
unfoldable pub may_cast : Fn → List (ℕ × Bool) → Bool
may_cast f may_cast_map =
    if f.is_declaration
    then true
    else elim (lookup f.id may_cast_map) [ some b ↦ b | none ↦ has_any f.callees ]

-- `isSafeStackFn`
unfoldable pub is_safe_stack_fn : Fn → List (ℕ × Bool) → Bool × List (ℕ × Bool)
is_safe_stack_fn f may_cast_map =
    let may_current_cast = may_cast f may_cast_map in
    (may_current_cast, insert_new f.id may_current_cast may_cast_map)

-- The loop of `stackObjTracing`, by `ClStackOpt`: the functions whose objects are traced.
unfoldable pub traced_functions : Bool → List Fn → List (ℕ × Bool) → List ℕ
traced_functions stack_opt [] may_cast_map = []
traced_functions stack_opt (f ∷ fs) may_cast_map =
    let checked = is_safe_stack_fn f may_cast_map in
    let skipped = traced_functions stack_opt fs may_cast_map in
    let unsafe = traced_functions stack_opt fs checked.1 in
    let plain = f.id ∷ traced_functions stack_opt fs may_cast_map in
    if not f.is_interesting
    then skipped
    else if stack_opt
    then (if checked.0 then f.id ∷ unsafe else unsafe)
    else plain

-- A lifetime intrinsic: whether it is a start, whether its size is -1, and the alloca that
-- `findAllocaForValue` finds.
pub record Intrinsic : Type 0 where
  pub place : ℕ
  pub is_start : Bool
  pub is_minus_one : Bool
  pub found : Option ℕ

-- The maps from allocas to intrinsics; `insert` keeps what is there.
abbrev pub places : ℕ → List (ℕ × ℕ) → List ℕ
places a [] = []
places a ((b, i) ∷ m) = if a == b then i ∷ places a m else places a m

abbrev pub insert_place : ℕ → ℕ → List (ℕ × ℕ) → List (ℕ × ℕ)
insert_place a i m = elim (places a m) [ [] ↦ (a, i) ∷ m | j ∷ js ↦ m ]

-- `LifeTimeStartSet` and `LifeTimeEndSet`.
pub record LifeTimes : Type 0 where
  pub start_set : List (ℕ × ℕ)
  pub end_set : List (ℕ × ℕ)

-- `collectLifeTimeInfo`, for one intrinsic
unfoldable pub collect_life_time_info : Intrinsic → LifeTimes → LifeTimes
collect_life_time_info i l = if i.is_minus_one then l else elim i.found [
  | none ↦ l
  | some a ↦
      if i.is_start
      then record l { start_set = insert_place a i.place l.start_set }
      else record l { end_set = insert_place a i.place l.end_set }
]

-- And for those of the traced functions, in order.
unfoldable pub collect_life_times : List Intrinsic → LifeTimes → LifeTimes
collect_life_times [] l = l
collect_life_times (i ∷ is_) l = collect_life_times is_ (collect_life_time_info i l)

-- A collected alloca: the instruction after it, whether its type lays out no object, the returns of its
-- function that it dominates, and whether one of these returns it.
pub record Alloca : Type 0 where
  pub id : ℕ
  pub next : ℕ
  pub has_no_objects : Bool
  pub dominated_returns : List ℕ
  pub is_returned : Bool

-- `handleAllocaAdd`: the instructions before which the alloca's objects are registered.
unfoldable pub handle_alloca_add : LifeTimes → Alloca → List ℕ
handle_alloca_add l a =
    if a.has_no_objects
    then []
    else elim (places a.id l.start_set) [ [] ↦ a.next ∷ [] | i ∷ is_ ↦ i ∷ is_ ]

-- `handleAllocaDelete`, with `emitRemoveInst`: the instructions before which they are removed.
unfoldable pub handle_alloca_delete : LifeTimes → Alloca → List ℕ
handle_alloca_delete l a =
    if a.is_returned || a.has_no_objects
    then []
    else elim (places a.id l.end_set) [ [] ↦ a.dominated_returns | i ∷ is_ ↦ i ∷ is_ ]
