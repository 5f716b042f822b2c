-- ===== src/Async.antt =====
-- The package shareds/async: what its source files keep and do, one child for each class.
pub mod PriorityQueue
pub mod Semaphore
pub mod Channel
pub mod Breaker
pub mod Latch
pub mod Mutex
pub mod JobQueue
pub mod Generators
pub mod Emitter
pub mod Outcomes
