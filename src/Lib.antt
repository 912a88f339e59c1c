-- ===== src/Lib.antt =====
-- Verification library of TORdex, a platform for collecting and reasoning about intelligence.
--
-- The library models seven subsystems, each by its own tree of files.
--
-- Fabric (crates/fabric): collection tasks are put into a priority queue
-- (crates/fabric/src/queue.rs), which a binary heap with an index by identifier implements, and a
-- session manager (crates/fabric/src/session.rs) keeps the state of each task. Fabric/Task.antt has
-- the data and the order of entries, Fabric/Queue.antt `PriorityQueue` with the state `QueueInner`,
-- one function per method, and Fabric/Session.antt `SessionManager` with a map of sessions. The
-- mutex makes each method one step. Heap.antt has the two sifting loops for any order, which
-- `bubble_up` and `bubble_down` use at the order of entries; the files below Heap/ and
-- Fabric/Queue/ have the proofs.
--
-- Tdxl (crates/tdxl): crates/tdxl/src/kir.rs is Tdxl/Kir.antt, the operations of the knowledge IR;
-- crates/tdxl/src/optimizer.rs is Tdxl/Optimizer.antt. Tdxl/Meaning.antt says what a program means,
-- for any reading of its operations, and Tdxl/WellFormed.antt which programs define each value once
-- and before its use. crates/tdxl/src/token.rs is Tdxl/Token.antt and crates/tdxl/src/lexer.rs is
-- Tdxl/Lexer.antt: the lexer is the rest of its characters with the line and the column, and
-- `is_alphanumeric` and the parsing of an f64 are parameters.
--
-- Vm (crates/vm): crates/vm/src/instruction.rs is Vm/Opcode.antt, Vm/Instruction.antt and
-- Vm/Build.antt; crates/vm/src/register.rs, crates/vm/src/stack.rs, crates/vm/src/syscall.rs and
-- crates/vm/src/program.rs have a file each of the same name; crates/vm/src/executor.rs is
-- Vm/Machine.antt, the state, and Vm/Executor.antt, the decode-execute cycle; crates/vm/src/vm.rs,
-- which runs programs, is Vm/Front.antt.
--
-- Algorithms (crates/algorithms): of crates/algorithms/src/storage.rs, `MerkleTree` is
-- Algorithms/Merkle.antt and `LSMTree` is Algorithms/Lsm.antt, with the order of its keys and the
-- laws of that as parameters. SHA-256 is any function. Of crates/algorithms/src/scheduling.rs,
-- `WorkStealingScheduler` is Algorithms/WorkStealing.antt, where a call answers which tasks it has
-- run, `TaskGraph` is Algorithms/TaskGraph.antt, and `BinaryHeapCustom` is
-- Algorithms/BinaryHeap.antt, which uses the loops of Heap.antt.
--
-- Core (crates/core): crates/core/src/event_store.rs is Core/EventStore.antt, the log of events
-- with its indices, the snapshots and the replay, and Core/Events.antt, the system events, which
-- become the envelopes that the store appends. Core/EventStore/Log.antt is the abstract
-- specification of the store. crates/core/src/ipc.rs is Core/Ipc.antt and
-- crates/core/src/scheduler.rs is Core/Scheduler.antt: there the definitions are the sections under
-- a lock, and Core/Ipc/Interleaving.antt and Core/Scheduler/Threads.antt are the step relations of
-- threads that run such sections in any order. The tasks of the scheduler are closures of the
-- caller, which may end or panic; the identifiers of ulid are numbers, and fresh where a task
-- starts.
--
-- Memory (crates/memory) and Temporal (crates/temporal-graph): crates/memory/src/working.rs is
-- Memory/Working.antt, where one reading of the clock serves a whole call, and
-- crates/temporal-graph/src/interval.rs is Temporal/Interval.antt, where each reading is an argument
-- and no time comes to the year 9999, after which the crate `time` panics.
--
-- Conventions. Numbers are natural numbers, machine integers keep their wrap-around; `i32` and
-- `i64` of the virtual machine are words of two's complement. A panic is a value of `Outcome`. A
-- `HashMap` is an association list. The clock is an argument. JSON values, floats and what
-- serde_json does to them are parameters, and so are the handler of system calls and what the
-- opcodes that go to the memory crates, the GPU engine, the clock or ulid make of the registers they
-- read: the interface `Outside` of Vm/Machine.antt collects these. What such an opcode reads and
-- writes is modelled, and that it may panic or never end; that it returns is a hypothesis where a
-- theorem needs it.
--
-- Fuel. `bubble_up` has more fuel than the index that each round lowers, `bubble_down` more than
-- the length that bounds the index each round raises, and the loop of `execute` more than
-- `max_cycles`, which each round comes nearer to. The levels of a Merkle tree and the chunks of a
-- compaction have as much fuel as there are leaves or entries, of which each round takes one at
-- least. The search for a cycle has two more rounds than the graph has edges, since each edge is
-- pushed once at most. The lexer has one unit more than there are characters, of which each token
-- and each round of `skip_whitespace` takes one at least.
--
-- Not modelled: `PriorityQueue::list`, the printing of instructions, the front end of the fabric,
-- the memory manager of the machine, the parser, compiler and code generator of tdxl, the other
-- structures of crates/algorithms/src/storage.rs, of crates/algorithms/src/scheduling.rs the wrapper of the
-- standard library's heap, the critical path and the topological order of a task graph, the
-- duration of an interval, and the other crates, which are input and output, text processing and
-- floating point, or are left for later.
pub mod Prelude
pub mod Heap
pub mod Fabric
pub mod Tdxl
pub mod Vm
pub mod Algorithms
pub mod Core
pub mod Memory
pub mod Temporal
pub mod Tests
