-- ===== src/Tests.antt =====
-- Concrete runs of the components, which show that the theorems' hypotheses hold of them.
mod Semaphores
mod Channels
mod Breakers
mod Queues
mod Stores
mod Schedulers
mod Specs
mod Expressions
mod Plans
mod Slots
mod Sources
mod Caches
mod Heaps
mod Logic
mod Topics
mod Flights
mod Calendars
