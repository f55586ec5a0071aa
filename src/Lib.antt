-- ===== src/Lib.antt =====
-- Verification of concurrency-cpp11, a header-only C++11 library of concurrency tools.
--
-- The parts of the program, and the files here that model them:
--   concurrency/shared_mutex.h  SharedMutex: Word (the state word of both mutexes),
--                               Timed (SharedTimedMutex), ReaderPreferring
--                               (ReaderPreferringSharedTimedMutex), SharedLock (SharedLock);
--                               Spec is the abstract mutex that both refine
--   util/lru_cache.h            Util.LruCache (LRUCache), with its list in Chain, Relinking, Links, Nodes,
--                               its specification in Spec; Util.BlockingLruCache (BlockingLRUCache)
--   util/bits/scope_guard.h     Util.ScopeGuard (ScopeGuardBase, ScopeGuardImpl)
--   util/bits/invoke.h          Util.Invoke (the overloads of invoke), against the standard in Standard,
--                               and timed_invoke in Timed
--   util/bits/rvalue_wrapper.h  Util.RvalueWrapper (RValueWrapper, rval)
--   util/bits/make_unique.h     Util.MakeUnique (make_unique)
--   concurrency/executor.h      Executor (ThreadPoolExecutor), with its threads interleaved in System,
--                               the array of workers in Places, Removal and Indices, the counters in Counts,
--                               the wakeups in Sleepers, the tasks' futures in Futures,
--                               the joining of threads and the destructor in Joining, the calls after
--                               shutdown in Refusal, the work left then in Draining
--   concurrency/latch.h         Latch (Latch), with its counter in Counter
--   concurrency/spin_lock.h     FairSpinLock (FairSpinLock), with its tickets in Tickets, and SpinLock
--                               (SpinLock)
--   concurrency/semaphore.h     Semaphore: Word (the permits), Simple (SimpleSemaphore), WaitQueue
--                               (the queue of wait nodes: its contents in Contents, its calls in
--                               Enqueue, Ends, Remove and Refinement, its end in Destructor), Queued
--                               (QueuedSemaphore: its map in Record, its calls in Outcome and Moves,
--                               its invariant in Notified, Weights and Invariant, its promises in Progress
--                               and Handover),
--                               Guards (SemaphoreGuard, SemaphoreTimedLockableAdapter)
--   pthread_wrapper             PthreadWrapper: SharedMutex (PThreadSharedMutex), SpinLock
--                               (PThreadSpinLockWrapper) and LocalPtr (PThreadLocalPtr)
-- Base holds the names that all files share: tests on numbers, lists, sums over the threads of a
-- system, doubly linked chains of nodes, and code that may meet undefined behaviour.
--
-- Locks and condition variables. What a call does in one hold of its `std::mutex`, from taking it to
-- releasing it or to waiting, is one function of the object's state. It is named for the call, and
-- gives the new state and the place where the thread stands then. A step relation interleaves the
-- holds of any number of threads in any order, with the notifications, given after the mutex is
-- released, as steps of their own. A thread that waits is asleep until it is notified, or wakes
-- without cause, as the standard allows; a wait with a deadline may also expire at any time. Clocks
-- do not appear: every call with a deadline has the step in which it passes. Callers keep the
-- contract of the calls: only an owner unlocks, and in the mode in which it locked.
-- The atomics are sequentially consistent.
--
-- The state words of the mutexes are numbers, with the wrap of a 64-bit word written out; the masks
-- are divisions by 2 ^ 31. The counts of readers are bounded by the source's own test.
--
-- LRUCache. `std::unordered_map` is a function from keys to nodes with a count of its pairs; a
-- pointer to a pair is its key, so a pointer to an erased pair dangles, and reading it is a fault, as
-- is a failed assertion. The key type and its equality are parameters. Faults are `none`, and every
-- theorem on an operation says that it meets none. There are no loops.
--
-- ThreadPoolExecutor. `workers` holds places in the list of all workers made so far, in the place of
-- owning pointers. `submit` and `execute` are two steps, the test of `shut`, without the lock, and
-- the insertion, so that a shutdown may come between. A worker's pass through its loop is cut where it
-- gives up `main_lock`: in the wait, around the task, and between the loop and the exit. A task is a
-- value of any type, in the histories of the tasks inserted, started and finished; tasks do not
-- throw out of their wrapper. In Futures a task is one that says what its callable comes to, and a
-- future is a number. `awaiting` counts the callers asleep
-- in `await_termination`; the calls with a deadline never sleep there. Sizes are numbers, and the
-- theorems assume that they fit 64 bits; the counters wrap as `size_t` does. Joining a dead worker's
-- thread takes no step. The destructor is the steps of `shutdown` and `await_termination`, and then
-- `destroy`; the workers that were joined are read off a run.
--
-- Latch. The counter changes without the mutex, so that every load and every `fetch_sub` is a step,
-- and so are taking the mutex and falling asleep. The counter is a word of 64 bits in two's
-- complement. Callers subtract what is not negative, and do not make the counter wrap.
--
-- FairSpinLock. Each access of an atomic is a step, and the counters are words of 32 bits; fewer than
-- 2 ^ 32 threads use a lock at once. A thread in the loop of `lock` may be served at any time at which
-- its ticket is `active`.
--
-- Semaphores. The permits are a word of 32 bits, an `int` in two's complement; requests are words
-- below 2 ^ 31, and no call of `release` makes the `int` overflow. Each hold of the mutex is a
-- function; a wait gives it up. Every notification of a SimpleSemaphore reaches all threads at once.
-- A thread of a QueuedSemaphore waits on its own node, whose flag it reads when it wakes up, for
-- whatever cause. The nodes of a wait queue are cells of a map from addresses, `new` takes the next
-- address, and `delete` empties the cell, so that a dangling or null pointer is a fault, `none`. The
-- first capacity, 256 in the source, is a parameter. The loops over the nodes run on fuel, more than
-- the number of the nodes. `request_record`, a `std::map`, is a list in the order of its keys; its
-- counters, of 64 bits, do not overflow. `release` is a step of its own, by any thread.
--
-- The guards of a semaphore stand on an interface, Semaphore, of the calls that they make; OfSimple
-- fills it for a SimpleSemaphore.
--
-- BlockingLRUCache. A thread that holds the mutex works on the cache that it found when it took it,
-- and writes the result at the end, so that two threads at work would lose a call.
--
-- SpinLock. Each access of the flag is a step. The counter of `lock` is a word of 16 bits, the least
-- that `uint_fast16_t` may have.
--
-- Scope guards. An action is a number, and what has run is a list of them. A guard that is destroyed
-- or assigned to is one that exists, and no guard is moved to itself.
--
-- SharedLock is modelled over the number of shared locks that each mutex has; a try's answer is the
-- mutex's. The callers' uses of any number of lock objects are a step relation. Callers make no call on
-- an object without a mutex, and unlock only shared locks that they have; `lock` and the tries may be
-- called on an object that owns, as the code does not test for it.
--
-- pthread_wrapper. The pthread functions are parameters, each from a handle to a code and a handle;
-- the theorems assume what is documented of them. A call ends with a value, an exception or a failed
-- assertion. The loop of `lock_shared` runs on fuel, more than the number of its retries. A
-- PThreadLocalPtr makes its objects at addresses of their own, and storing one does not fail. The end
-- of a thread passes what it holds to the deleter.
--
-- util/bits. An overload of `invoke` or `make_unique` is a test on the types of the arguments, as its
-- `enable_if` and `decltype` say, and the call is of the one overload for which the test holds.
-- `std::is_base_of` and the type of `*x` are parameters. The clock of `timed_invoke` is a parameter, and
-- its guard may be moved any number of times, as the compiler likes. What a moved variable holds is
-- a value of its own.
--
-- Not modelled: the headers of tests, memory orders weaker than sequential consistency, allocation
-- failure, exception specifications, and the constraints on the keys and values of the caches.
-- `QueuedSemaphore::try_acquire_until` does not compile when it is used.
pub mod Base
pub mod Executor
pub mod FairSpinLock
pub mod Latch
pub mod PthreadWrapper
pub mod Semaphore
pub mod SharedMutex
pub mod SpinLock
pub mod Util
