-- ===== src/Assigner.antt =====
-- app/listener_assigner.py: which account listens to which groups, and which accounts reply there.
pub mod Accounts
pub mod Listeners
pub mod Repliers
pub mod Summary
