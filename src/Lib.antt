-- ===== src/Lib.antt =====
-- magic-core: a C++ library of executors, fibers, futures, lock-free containers and an HTTP client.
--
-- The parts and how they interact. Tasks (src/magic/executors) run on executors; a strand runs its
-- tasks one at a time over another executor and keeps them in a lock-free queue
-- (src/magic/concurrency/lockfree). Futures (src/magic/futures) pair a promise and a future through
-- a shared state with a rendezvous, carry a Result (src/magic/common/result.h), and pass their
-- callback to an executor. Fibers (src/magic/fibers) are tasks that an awaiter can suspend. The HTTP
-- client (src/magic/net) makes its transfers with libcurl and parses response headers with a text
-- cursor (src/magic/common/string_reader.h).
--
-- Which file models which part (paths below src/magic):
--   Executors/Strand: executors/strand.h and strand.cpp. `execute_put` and `execute_announce` are the
--     two actions of Execute, `run_next_batch` is RunNextBatch, `work` is one action of Run.
--   Executors/ThreadPool: executors/thread_pool.h and thread_pool.cpp, with
--     concurrency/atomic_counter.h and concurrency/intrusive/blocking_queue.h.
--   Executors/Manual: executors/manual.h and manual.cpp.
--   Lockfree/Queue: concurrency/lockfree/lockfree_intrusive_queue.h over its stack.
--   Lockfree/StampedPtr: concurrency/lockfree/stamped_ptr.h, with the bit laws in Lockfree/Bits.
--   Lockfree/Stack: concurrency/lockfree/stack.h, with the reference counts in stamps and nodes.
--   Fibers/StackPool: fibers/core/stack.cpp and metrics.h.
--   Fibers/Fiber: fibers/core/fiber.h and fiber.cpp, handle.cpp and awaiter.h, with Unlocker of
--     fibers/sync/mutex.h. `acts` is the next action of a worker: it takes a task, or the routine
--     suspends or returns, or RunFiber goes on.
--   Futures/Lite: concurrency/future_lite.h and future_lite.cpp.
--   Fibers/Await: fibers/core/await.h.
--   Coroutines/Impl, Coroutines/Generator and Coroutines/Processor: coroutine/core/impl.cpp and
--     coroutine.cpp, generator.h and processor.h, over any routine.
--   Lockfree/TwoStacks: concurrency/lockfree/queue.h.
--   Futures/Contract: concurrency/rendezvous.h, futures/core/detail/shared_state.h, and the
--     operations of Future and Promise that act on the shared state.
--   Futures/Chain: futures/execute.h and the combinators of futures/core/future.h. `build` is what the
--     caller does, `invoke` the bodies of the callbacks, and `eval` the meaning of a chain.
--   Sync/Mutex: fibers/sync/mutex.h.
--   Stackless/Mutex and Stackless/OneShotEvent: coroutine/stackless/sync/mutex.h and
--     oneshotevent.h, where the links of the waiting nodes are a store.
--   Memory/Ref: common/refer/ref.h and ref_counted.h.
--   Memory/SharedPtr: common/shared_ptr.h.
--   Sync/OneShotEvent: fibers/sync/oneshotevent.h.
--   Sync/CondVar: fibers/sync/condvar.h and condvar.cpp, with fibers/sync/detail/futex.h.
--   Sync/BlockingQueue: concurrency/blocking_queue.h.
--   Sync/BlockingEvent: concurrency/oneshotevent.h.
--   Sync/SpinLock: concurrency/spinlock.h.
--   Sync/CyclicBarrier: concurrency/barrier.h.
--   Result: common/result.h and common/result/.
--   Text/Bytes and Text/Reader: common/string_reader.h.
--   Net/Client: net/http.cpp, and net/http/response.h. Net/Curl is the ledger of what libcurl is handed.
--   Net/Request: net/http/request.h and request_builder.h, as methods that are called in any order.
--   Net/Dictionary and Net/Header: common/dictionary.h, net/http/header.h and header.cpp.
--   Net/Status: net/http/status.h and status.cpp.
--   Intrusive: the interface of the wheels library's intrusive lists, a parameter of the models.
--
-- How code is read. A concurrent object is a record of its shared state and of where its threads
-- stand; an event is one atomic action of one thread, `step` gives the next state or `none` where
-- the event is not possible, and `run` takes a sequence of events, so that a theorem about `run`
-- ranges over all interleavings. Memory orders are taken as sequentially consistent. Atomic words
-- wrap at 2 ^ 64, and stamps and counts at their own width; theorems that need fewer than 2 ^ 63 tasks,
-- or fewer references than a count or a stamp can hold, say so. An assertion that fails is
-- `none`, a `failed` flag or a constructor of its own. The fuel of the header parser is one more
-- than the length of its text, and each round drops at least the colon it has found; that of RunAll
-- is one more than the number of tasks it runs, that of TakeAll one more than the number of values.
-- Receive of a processor has fuel 2: one call that takes the value, and one that suspends.
--
-- Not modelled: contexts and stacks of coroutines (the sure library), the transfers of libcurl, sockets, files,
-- clocks and random numbers, template plumbing, and `ReadDouble`, which calls std::stod.
pub mod Prelude
pub mod Intrusive
pub mod Lockfree
pub mod Coroutines
pub mod Executors
pub mod Result
pub mod Fibers
pub mod Futures
pub mod Sync
pub mod Stackless
pub mod Text
pub mod Memory
pub mod Net
