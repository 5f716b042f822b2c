-- ===== src/Lib.antt =====
-- Verification of the nope libraries: the concurrency tools of shareds/async, the scheduling core of
-- packages/cron, the specifications of packages/specification, the expressions of
-- packages/expression, the caches of shareds/cache, the topics of shareds/common and the
-- results of shareds/error.
--
-- Files and the code that they model:
--   Async/Semaphore     shareds/async/src/concurrency/semaphore.ts: Semaphore, FairSemaphore
--     Conservation      permits are kept
--     Order             order of service
--   Async/Channel       shareds/async/src/concurrency/channel.ts: Channel, select
--     Fifo              the channel as a queue
--     Select            the values that select takes
--   Async/Breaker       shareds/async/src/try/circuit-breaker.ts
--     Window            what each state lets through
--     Transitions       the changes of state
--   Async/Latch         shareds/async/src/concurrency/latch.ts
--   Async/Mutex         shareds/async/src/concurrency/mutex.ts
--   Async/JobQueue      shareds/async/src/concurrency/job-queue.ts
--   Async/PriorityQueue shareds/async/src/concurrency/priority-queue.ts
--     Sifts, Order      one step of each loop, the loops
--     Runs              histories
--   Async/Generators    shareds/async/src/generator/basics.ts and collectors.ts
--     Splits            take and drop, chunks, windows, distinct keys
--   Async/Emitter       shareds/async/src/emitter/event-emitter.ts
--   Async/Outcomes      shareds/async/src/try/collections.ts and wrappers.ts
--   Cron/Store          packages/cron/src/store/memory.ts and interfaces.ts
--     Leases            claims and releases of triggers
--     Order, Due        the order of due triggers, and their selection
--     Agrees            what is listed can be claimed
--     Runs              heartbeats and ends of runs
--   Cron/Scheduler      packages/cron/src/scheduler.ts: the state of SchedulerEngine
--     Dispatch          from a due trigger to a run
--     Finish            the course and the end of a run, stalled runs
--     Starts, Claims    which runs are begun
--     Repeats           the misfire skip over every-plans
--     Ends, Stalls      what the end of a run leaves
--   Cron/Semaphore      packages/cron/src/queue/semaphore.ts
--   Cron/TokenBucket    packages/cron/src/queue/rateLimiter.ts
--   Cron/At, Cron/Every packages/cron/src/planner/at.ts and every.ts
--   Cron/Days           the calendar that packages/cron/src/planner/cron.ts calls
--   Cron/CronPlan       packages/cron/src/planner/cron.ts from the parsed expression on
--     Weekdays, Search, DayFields
--   Cron/Calendars      packages/cron/src/planner/calendars.ts
--     Meaning, Filters  keys and patterns mean the same; what a filter accepts
--   Cron/Expression     packages/cron/src/planner/cron.ts: the parser of expressions
--     Bounds, Whole     the bounds of the fields
--     Steps             the values of a range
--   Cache/Lru           shareds/cache/src/cache.ts: LruTtlCache
--     Sizes, Bounds     its total and its limits
--     Contents          what holds of every entry
--     Runs, Recency     histories; what is evicted, and what is found after a set
--   Cache/FlatCache     shareds/cache/src/cache-flat-array.ts, over Cache/FlatStorage
--     Plain             the cache without slots that it is to be
--     Slots, Held       the slots of the nodes
--     Refines, Runs     each operation, and histories, against the plain cache
--   Cache/Singleflight  shareds/cache/src/cache.ts: Singleflight, and singleflight-optimized.ts
--     Entries, Shares   the map of calls, and what is shared
--     Timers, Variants  the one with timeouts, and the other variants
--   Cache/FlatStorage   shareds/cache/src/flat-storage.ts
--     Slots, Runs       who holds which slot, and what stands in it
--   Spec                packages/specification/src: values and texts
--     Paths             utils/get-path.ts
--     Operators         ops/builtins.ts
--     Tree              core/base-spec.ts, core/evaluate.ts, core/combinators.ts, ops/field-spec.ts
--     Registry          core/registry.ts, ops/factory.ts
--     Ast               ast/schema.ts, ast/serializer.ts
--     Memo              core/memo.ts, and the memoizing methods of core/base-spec.ts
--   Expression          packages/expression/src/expression.ts
--     Analyzer          analyzer/expression.analyzer.ts
--     Recursion         its detectRecursion: Walks (the graph), Detects, Decides
--     Validator         analyzer/expression.validator.ts: WellFormed, Valid
--     Evaluator         evaluator/expression.evaluator.ts, over Cache/Lru: Caching
--   Common/Topics       shareds/common/src/regex/amqp.ts: Match, Decides
--   Results             shareds/error/src/result.ts: the methods of ResultWrapper
--     Plain             the functions on plain results
--   Prelude             shared names, tests on numbers, lists, maps, texts and sorting
--   Tests               concrete runs
--
-- State is passed explicitly: a class is a record of its fields, a method a function from the record
-- (and the time, where the method reads a clock) to the new record and its answer. An operation that
-- throws or rejects gives none, or a constructor that says so. A promise that waits is an entry of the
-- queue that the class keeps; code after an await is an operation of its own, so that interleavings are
-- sequences of operations. Times and counts are natural numbers; subtraction is written where the
-- source compares, or stops at 0 where the source takes a maximum with 0. In the scheduler, plans
-- compute the times that the store keeps, and the store's leases keep two schedulers off one trigger.
--
-- Bounds: the search of CronPlan has the source's own limit of 500000 iterations, and runs on that
-- number; the loops over queues are recursion on the queue or on the number of tokens.
--
-- The scheduler's methods are cut where they wait for a job or for capacity: a run in flight is an
-- entry of the list of active runs, so that any operation can stand between its begin and its end.
--
-- Parameters: the time fields of an instant in a time zone and the calendar filter (CronPlan; the
-- one that the package makes is in Calendars); the
-- order of localeCompare (Store/Due), of which asymmetry and transitivity are asked; the plans and the
-- random ids of the scheduler; floating-point numbers, String(...) and regular expressions (Spec);
-- the engine of json-logic-engine, JSON texts and digits (Expression/Evaluator);
-- Number(...) of a text, of natural numbers only (Expression).
--
-- Not modelled: parsing of durations, the capacity of runs and the workers of the scheduler, the
-- events and statistics of the caches, their memoizer, loader and keyed lock,
-- the other packages (pattern-matching, which is a copy of a library, validator, reactive, and most of
-- common), the recurrence rules of packages/cron, and the wait with a timeout of select.
mod Prelude
pub mod Async
pub mod Cron
pub mod Cache
pub mod Results
pub mod Spec
pub mod Expression
pub mod Common
mod Tests
