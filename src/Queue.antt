-- ===== src/Queue.antt =====
-- server/internal/run/queue.go: the bounded queue and its workers. Jobs and log buffers are shared by
-- pointers, so they live in two heaps, and an address is a position. Each function is what the
-- source does between two points where another goroutine may run; `submit`, `cancel` and
-- `Loop.work_one` put them together.
pub mod Defs
pub mod Loop
pub mod Submit
pub mod Cancel
pub mod Work
pub mod Position
pub mod Races
pub mod Steps
pub mod Ownership
pub mod History
pub mod Signals
pub mod Sends
pub mod Halts
pub mod Follows
pub mod Ends
pub mod Rounds
pub mod Drain
