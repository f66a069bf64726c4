-- ===== src/Health.antt =====
-- internal/health: the probe results, how they turn into a backend's health, the scheduler that
-- stores it and the history of probes.
pub mod StateMachine
pub mod Aggregator
pub mod Scheduler
pub mod Engine
