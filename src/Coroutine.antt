-- ===== src/Coroutine.antt =====
-- The coroutine library, co-pro/corotinue-fiber-pool, without its timers.
pub mod IoManager
pub mod Fiber
pub mod FiberPool
pub mod Scheduler
pub mod FdManager
