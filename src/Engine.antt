-- ===== src/Engine.antt =====
-- engine/: lifecycle transitions and quiet timers.
pub mod Lifecycle
pub mod TimerWheel
pub mod TimerWorker
pub mod Dedupe
pub mod ProcessEvent
pub mod SilenceSweeper
