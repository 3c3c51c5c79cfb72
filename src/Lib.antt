-- ===== src/Lib.antt =====
-- GKlib in antt: models of the library's data structures, and the theorems that make them correct.
--
-- The parts and how they meet. The library is a set of C modules over three services: the errors
-- (src/error.c), which every failing call reports to and which either throw to a recovery frame or
-- return; the allocation (src/memory.c); and size arithmetic with overflow checks
-- (src/memory_internal.h). The hash table, the workspace allocator (mcore), the cache simulator, the
-- base64 blocks and the priority queues stand on them and do not call each other.
--
--   Base         lists as C arrays with checked access, Boolean tests, and `Outcome`, the way a call
--                ends: `ok`, `raised` (an error was reported; the signal, the `errno` and the state
--                that is left) or `fault` (an access outside an object). An error that throws and one
--                that returns to a caller which returns at once end alike. Where the code goes on
--                after an error that returns, the model has `gk_exit_on_error` as an argument.
--   Base.Size    `gk_size_add` and `gk_size_mul` of src/memory_internal.h on 64-bit sizes.
--   HTable       src/htable.c: `HTable` is gk_HTable_t with its array, the loops of
--                HTable_InsertInto; HTable.Ops has the other functions under their names
--                (`resize_nosignal`, `reset`, `create`, `insert`, `delete`, `search`,
--                `search_and_delete`, `get_next`). An `int` is its pattern of 32 bits, so -1 is
--                2 ^ 32 - 1. The allocator is the record `Memory`, which may refuse at any call.
--                HTable.Scan, Probe and Reach have the lemmas on the probing loops, HTable.Table the
--                invariant (`IsTable`), the others one operation each. A table is read as a bag of
--                pairs: how often it holds each (`copies`).
--   PQueue       include/gk_mkpqueue.h, generic in the key as the template is: `KeyOrder` is KEY_LT,
--                a strict order up to ties, with KMAX. `Means` relates a queue to the function from
--                nodes to keys that it stands for; PQueue.Up and Down have the two filters, the
--                others the operations, PQueue.Init the creation. Init takes the answers of its signal
--                frame and of its two allocations as arguments. src/pqueue.c instantiates the
--                template.
--   Mcore        src/mcore.c: the records of the stack with the top first, the core as offsets, the
--                calls of src/memory.c as the record `Heap`, which may refuse at any call.
--                Mcore.State has the invariant, Mcore.Session the sequences of calls in a frame.
--   Tracker      the tracker of heap allocations in src/memory.c with its helpers in
--                src/memory_internal.h: the same records, and the variable gkmcore as an option. The C
--                library's allocator is the record `System`, which may refuse at any call. Tracker.Ops has
--                the calls with reports, and the gkmcore functions of src/mcore.c.
--   Cache        src/cache.c: `create`, `reset` and `load`. Cache.Search has the lemmas on the two
--                loops of a load.
--   Base64       src/b64.c: the two block functions on three and four bytes, and the two loops over
--                buffers.
--   Recovery     the bindings of src/error.c: gk_sigtrap, gk_siguntrap, gk_SetSignalHandlers,
--                gk_UnsetSignalHandlers, and where gk_errexit, gk_sigthrow and
--                gk_NonLocalExit_Handler go. `Thread` holds the variables of one thread, `mask` its
--                signal mask; whether pthread_sigmask succeeds is an argument. Recovery.Stack reads a
--                thread as the stack of its bindings.
--   Sparse       MAKECSR and SHIFTCSR of include/gk_macros.h, gk_?array2csr of include/gk_mkutils.h,
--                and the loops of gk_csr_CreateIndex in src/csr.c on `View`, one orientation of a
--                matrix. Loops turns the loops into one loop over the entries, Counts counts them by
--                their key, Pointers, Starts and Place have one stage each, Views says what a valid
--                view and an index are.
--   Csr          the checks of src/csr.c that its transformations start with:
--                gk_csr_ValidateSparseView, gk_csr_ValidateStructure, gk_csr_ValidatePermutation. A
--                number whose sign the code tests is an integer. `Decides` says that a check passes
--                with a result of a property or fails where there is none. Csr.Reverse joins them to
--                Sparse, Csr.Extract has gk_csr_ExtractSubmatrix, with the allocator as an argument
--                that grants a call or refuses it with an errno, and Csr.Dup gk_csr_Dup.
--   Graph        gk_graph_ValidateStructure of src/graph.c, with the steps of Csr.
--
-- Bounds and fuel. Numbers are natural numbers; the wrap-around of `int` (2 ^ 32) and `size_t`
-- (2 ^ 64) is written out where the code computes with them. The probing loops recurse on the slots
-- that are left, which is how often the C loops run. The filters of the queue run on fuel, one more
-- than the place they start from going up and one more than the number of nodes going down; each step
-- moves to a smaller, or to a greater, place, so the fuel is enough, and the theorems on the queue
-- say that its calls return.
--
-- What is not modelled. The release of whole objects (HTable_Destroy, gk_mcoreDestroy and the like),
-- output to the terminal and files, signals below the level of `Outcome`, and threads. The other CSR
-- and graph routines, strings and sorting are outside the development.
-- The copies of the GNU sources (getopt.c, gkregex.c) are not this library's code.
pub mod Base
pub mod Base64
pub mod Cache
pub mod Csr
pub mod Graph
pub mod HTable
pub mod Mcore
pub mod PQueue
pub mod Recovery
pub mod Sparse
pub mod Tracker
