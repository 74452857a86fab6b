-- ===== src/Daemon.antt =====
-- The system daemon (engine/daemon/src/lib.rs): requests, the limits on attempts and connections,
-- the supervision of the worker process and the decision on a request.
pub mod Request
pub mod Wire
pub mod RateLimiter
pub mod Limits
pub mod Ingress
pub mod Permits
pub mod Slots
pub mod Status
pub mod Supervise
pub mod Reports
pub mod Undisturbed
pub mod Answering
pub mod Capture
pub mod Frames
pub mod Worker
pub mod Progress
pub mod Sending
pub mod Acceptance
pub mod Serving
pub mod Children
pub mod Dispatch
pub mod Access
pub mod Denial
pub mod Connection
pub mod Outsiders
pub mod Tests
mod Logins
mod Visits
