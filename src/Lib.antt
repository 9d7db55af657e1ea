-- ===== src/Lib.antt =====
-- A model of the library code of Hot Path C++ (common/): what its shared-memory ring, its
-- reclamation scheme and map, its locks, its queues and its small kernels compute, with the
-- theorems that make them correct, and programs that come with it: the store buffer challenge, the
-- kernels of the episode on learning, the trials of the lock challenges, the filters of the
-- execution challenge and the loops of the Java challenge. The other programs under episodes/, the
-- other benchmarks and challenges and the tests drive this code and are not modelled.
--
-- Base holds what the models share: Boolean tests on the native numbers, vectors as lists, machine
-- words with their wrap-around (`add64` is addition modulo 2 ^ 64), families of cells, and facts
-- on the lowest bit; its Loops has `for` loops over a mutable state and what they do to one
-- observed place, Cells row-major matrices in flat vectors, Sums the sum of a count over all
-- threads. Status is absl::Status without messages.
--
-- Ring: common/shared_memory/broadcast_ring_buffer.h and .cc. Types has the structures; Memory the
-- data segment, in which an address is the byte at its remainder by the capacity, as the doubled
-- mapping of memory_map.cc provides; Producer has Reserve and Commit, Consumer the roster, the
-- polls and Advance, Batch the poll of several messages, with Bounds on its count. Log is the
-- abstract view, a list of published entries; Words, Publish and Refine relate the bytes to it.
-- Backpressure says whom the wait of Reserve protects, Progress when it ends, Roster what happens
-- to a reader whose slot was given away, Drain what a consumer's loop of polls reads. Clocks,
-- cycle counters and the writes of other processes are arguments, one element of a list for each
-- round of a loop: a loop that is still running after the last round answers `none`, and Progress
-- names the rounds that suffice. Registering is one step there; in Registration each of its atomic
-- accesses to a slot is a step, and so is each of Advance, beside other consumers and the
-- producer's look at the slot; Generations and Displaced are about its runs. Lifecycle is Create,
-- Attach, Unlink and the destructor over the mappings of Shm, and Holdings what they hold.
--
-- Shm: common/shared_memory/memory_map.h and .cc. The kernel is a parameter: Kernel has the calls
-- that the code makes, what can be observed of the kernel's state (descriptors, names, the backing
-- of each address) and, as laws, what the manual pages promise of these calls; other processes do
-- nothing meanwhile. The law of munmap leaves out ENOMEM, which is for ranges in the middle of a
-- mapping: the code unmaps whole mappings only. MemoryMap has the operations, Mirror and DoMap the
-- address space after DoMap, Ownership, Acquire and CreateOrOpen who holds what.
-- Examples/TinyKernel is a kernel that keeps the laws.
--
-- Ebr: common/concurrency/ebr.cc. Engine has every operation on the control blocks, epochs and
-- batches, each whole. Tasks cuts Retire and Gc at their accesses to the shared state, and Safety
-- puts threads together, one access a step, around one reader and one node: EnterCritical, Retire
-- and Gc come apart there, while a thread registers or unregisters in one step, and a thread's
-- loop over its own batches is one. Collect, Blocks, Collectors, Retiring and Preserve carry the
-- invariant; Alone is about the accesses of one Gc in a row, Drain about what whole collections
-- free. Atomics are sequentially consistent in every model but StoreBuffers: what a weaker order
-- would allow is outside of it. The epoch is unbounded.
--
-- RcuMap: common/concurrency/rcu_hash_map.h. Table has the buckets as lists of nodes and the
-- operations that the write mutex serialises; key equality and the hash are a record that is a
-- parameter. View is the abstract map, Walks the lemmas on chains, Rehash and Growth what Resize
-- does to the map.
--
-- Spsc: SpscRingBuffer of common/store_buffer/store_buffer.h (Ring) as a bounded queue (Window,
-- Refine), and a producer and a consumer at once, each load and store a step (Threads, Moves,
-- Fifo).
-- StoreBuffers: common/store_buffer/challenge.cc, on a machine in which each thread has a first-in
-- first-out buffer of stores, as x86 has. Litmus is RunStoreLoadLitmusTest and Order what it can
-- count; Handoff is RunProducerConsumerHandoff, Pending and Delivery what memory becomes as the
-- producer's stores arrive, Checksum and Completion what the consumer gets and that it gets all.
-- Learning: episodes/ai/02_how_ai_learns/benchmark.cc, over an arithmetic of floats that is a
-- parameter and of which nothing is assumed. Gemm has the two matrix products and Tiles compares
-- them; Mlp is TwoLayerMlp and Backprop its gradients; Nudge is the loop of finite differences and
-- Differences its gradients; Inference has the fused and the unfused activation.
-- Seqlock: common/concurrency/seqlock.h (Protocol), and SeqlockRouteCache of
-- common/locks_under_the_hood/locks_under_the_hood.h (RouteCache), whose reader's loop takes a
-- list of what each round loads; its siblings under std mutexes are in MutexCaches. Trial is the
-- cache of episodes/high_performance/10_locks_under_the_hood/challenge.cc with the threads of
-- RunRouteCacheTrial, Sound and Writes what holds of it, TearFree what its readers see.
-- Locks: the three-state mutexes of locks_under_the_hood.h as one relation with a bound on the
-- spins (Futex, Exclusion, Wakeup), and five spinlocks (Spin). The futex is a wait that checks the
-- word for 2 and may return at any time, and a wake that lets one sleeper go. Machine is what a
-- client of a lock relies on, which the spinlocks and the futex mutexes keep (Live: that a thread
-- has a step); Trial is RunLockTrial of common/locks_under_the_hood/challenge.cc over it, Tally its
-- count and Outcome what it comes to.
-- Mesi: common/mesi_coherency/mesi_coherency.h (Ids, Unique, Magazine, Counter), and from
-- locks_under_the_hood.h ShardedHashMap (Sharded) and the state that critical sections update
-- (Ledger), and RunShardedMapTrial of its challenge (ShardedTrial).
-- Execution: the integer sums of common/execution/execution_pipeline.h (Pipeline, Unrolled) and
-- the sums of doubles over an arithmetic that is a parameter (Floats); Filter has the recursive
-- filters of common/execution/challenge.cc over one. Of these two nothing is proved, since the
-- loops differ in the order of the sums, which changes a result over double.
-- Dispatch: common/dispatch, over an arithmetic of prices that is a parameter.
-- Mmu: common/syscalls_traps_and_mmu/syscalls_traps_and_mmu.h over the same kernel: the page
-- writer (Touch), the order book arena (Arena) and what the destructors give back (Pool).
-- Measurement: common/measurement. Generator has the data sets and the offsets that
-- FlushCacheRange flushes; the random draws, std::sort and std::shuffle are arguments. Successors
-- and Cycle are about the pointer chase, Flush about the flushed offsets.
-- Events: the event classes of common/cpp_vs_java_jit and FlatEvent, as two's complement words;
-- Slab the orders and the slab loop; of common/cpp_vs_java_jit/challenge.cc Battle has the loops
-- over events and Layouts the passes over orders.
-- Examples: the theorems applied to concrete inputs.
--
-- Not modelled: the rest of common/cpp_vs_java_jit, of common/measurement and of
-- common/syscalls_traps_and_mmu, which are intrinsics, single system calls and timing.
pub mod Base
pub mod Status
pub mod Shm
pub mod Mmu
pub mod Measurement
pub mod Ring
pub mod Ebr
pub mod RcuMap
pub mod Spsc
pub mod Seqlock
pub mod StoreBuffers
pub mod Learning
pub mod Locks
pub mod Execution
pub mod Mesi
pub mod Dispatch
pub mod Events
mod Examples
