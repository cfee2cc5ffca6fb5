-- ===== src/Fake.antt =====
-- testing.py: `FakeTaskQClient`, an in-memory queue with the contract of the SQL one.
pub mod State
pub mod Lifecycle
pub mod Identity
pub mod Enqueue
pub mod Workflow
pub mod Settle
pub mod Claim
pub mod Complete
pub mod Admission
pub mod Schedule
pub mod Presence
pub mod Call
pub mod Trace
