-- ===== src/Api.antt =====
-- app/api.py: the endpoints of the dashboard, as functions of the request and the state. Sending
-- the response and the broadcasts that follow a change are left out: they only read.
pub mod Payload
pub mod Desk
pub mod Auth
pub mod Names
pub mod Targets
pub mod Accounts
pub mod Workers
pub mod Sockets
pub mod Startup
