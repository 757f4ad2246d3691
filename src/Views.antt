-- ===== src/Views.antt =====
-- control_plane/delegates/views.py: the HTTP API. A JSON body is a dict of texts, or `none` where it
-- does not parse; the clock, fresh ids and whether Redis answers are arguments.
pub mod State
pub mod Registration
pub mod Revocation
pub mod Executions
pub mod Clients
mod Tests
mod ClientTests
