-- ===== src/Worker.antt =====
-- The worker node of worker.py: the listeners' handler and the consumer's dispatch.
pub mod Texts
pub mod Messages
pub mod Accounts
pub mod Dispatch
pub mod Consumer
pub mod Traffic
pub mod Resolve
pub mod Setup
pub mod Loading
pub mod Round
pub mod Life
