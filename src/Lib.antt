-- ===== src/Lib.antt =====
-- HexType finds type confusion in C++ programs. The compiler gives each class a hash, records which
-- classes a class may be cast to, and inserts calls of a run-time library that records the objects of
-- the program and checks its casts. This library models the run-time library, the parts of the
-- compiler passes that make its tables and that inline its checks, and what the front end adds at
-- casts.
--
-- The parts, the files of the repository and the modules:
-- - src/compiler-rt-files/hextype_rbtree.cc and .h, the red-black tree: RbTree with RbTree.Insert and
--   RbTree.Delete. A node with its parents is a subtree with the path of frames to the root, and each
--   `insert_case` and `delete_case` is a function on them. RbTree.Entries, Balance, Search, Lookup and
--   Laws hold the facts on entries, on colors and heights, and on lookups.
-- - src/compiler-rt-files/hextype_report.cc and .h, the counters: Counters, Counters.Events and
--   Counters.Report (`IncVal`, `getVal`, `PrintStatResult`).
-- - src/compiler-rt-files/hextype.h and .cc: Runtime is the state; Objects is `findObjInfo`, the
--   `__update_...` and the `__remove_...` functions, on the trees above; Casts is `verifyTypeCasting`
--   and its callers, on the objects found; Phantoms is `__update_phantom_info`, which fills the sets
--   that Casts consults.
-- - src/llvm-files/HexTypeUtil.cpp: Types is the making of the tables and the search in them, with
--   Types.Relations for the traversals and Types.Links for the rest of `extendTypeRelationInfo` and
--   `createObjRelationInfo`; Names is the names of types and `crc64c`, Layout the objects inside a
--   type, Emission the choice of the objects that `insertUpdate` and `insertRemove` emit tracing code
--   for, and Emission.Trace the instructions of `emitInstForObjTrace` as steps on the state of Objects.
--   SafeStack is `isSafeStackAlloca`, and Types.Direct the collection of the types of a module.
-- - src/clang-files/CGExprCXX.cpp and CodeGenFunction.cpp: Classes is the recording of the relations of
--   a class hierarchy (`getTypeRelationInfo`) and the log that Types.Links reads; Classes.Checks joins
--   them to the tables and the check of Casts.
-- - src/clang-files/CGClass.cpp, CGExpr.cpp and CGExprScalar.cpp: Downcasts is the code that the front end
--   emits for casts to a derived class (`CK_BaseToDerived`), with its effect on the state of Casts.
--   Downcasts.Ancestors joins it to Classes and Names.
--   Downcasts.Dynamic is `dynamic_cast` (`EmitDynamicCastCall`, src/clang-files/ItaniumCXXABI.cpp), and
--   Names.Records the names of struct types (`addRecordTypeName`, src/clang-files/CodeGenTypes.cpp).
-- - src/llvm-files/HexTypeTreePass.cpp: Inline is the meaning of the code that
--   `typecastinginlineoptimization` emits for one cast, Verify the decision which casts need no check
--   (`isSafeSrcValue`), and Emission.Extend the code for placement new and reinterpret_cast
--   (`emitExtendObjTraceInst`), on top of Emission.Trace.
--   Heap is the choice of the heap allocations that are traced and the number of objects registered
--   for each (`collectHeapAlloc`, `handleHeapAlloc`), with the kinds of allocation functions of
--   src/llvm-files/MemoryBuiltins.cpp.
-- - src/llvm-files/HexTypePass.cpp: Tracing is the choice of the stack objects that are traced and of
--   the instructions at which they are registered and removed.
-- Prelude has the shared names and lemmas, and Examples the states and tables on which the theorems
-- are applied.
--
-- Functions pass the state on explicitly. `none` is a dereference of null, a failing `at` or
-- assertion, a loop that does not end, or a write behind the array `VisitCheck`, which has room for
-- 1000000 types. Pointers are addresses below 2 ^ 64 with 0 for null, and integers keep the
-- wrap-around that the code has. The logging and printing builds (HEX_LOG, PRINT_BAD_CASTING) are
-- modelled, with a report as a value in the state; the compiler's option ClMakeLogInfo is an argument.
--
-- Loops are recursion on the rounds that are left, but for these, which have fuel: the binary search
-- gets one more than the size of its table, `delete_case1` one more than the number of parents,
-- the removal of a string from a name one more than the length of the name, a traversal of the
-- relations one more than the number of types, and the search through the uses of an object on the
-- stack one more than the number of instructions. The theorems on them state that this is enough. The
-- fuel of `isSafeSrcValue` is the depth of its recursion; there is a theorem on when it suffices and
-- one on when none does.
--
-- Not modelled: the printing itself and the back traces; the allocation of the tables on first use,
-- taken as done; a `malloc` of a tree node that fails; concurrent use, which the code does not guard but for its counters; the LLVM passes
-- apart from the functions above, and the rest of the copies of clang and LLVM files. The layouts of
-- clang's classes, the paths between them and what `__dynamic_cast` returns are inputs. Sizes and
-- offsets of LLVM's `DataLayout` are data of the modelled types.
pub mod Prelude
pub mod RbTree
pub mod Counters
pub mod Runtime
pub mod Objects
pub mod Casts
pub mod Phantoms
pub mod Types
pub mod Verify
pub mod Classes
pub mod Downcasts
pub mod SafeStack
pub mod Heap
pub mod Tracing
pub mod Inline
pub mod Names
pub mod Layout
pub mod Emission
pub mod Examples
