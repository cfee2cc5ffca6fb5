-- ===== src/Worker.antt =====
-- worker.py: decisions of the worker service and of its supervisor, without their tasks and timers.
pub mod Service
pub mod Slots
pub mod Results
pub mod Settlement
pub mod Heartbeat
