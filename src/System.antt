-- ===== src/System.antt =====
-- The worker of worker/worker_app/tasks.py and the dispatcher of
-- control_plane/delegates/management/commands/stream_dispatcher.py together.
pub mod Input
pub mod Files
pub mod Created
pub mod Output
pub mod Revocation
pub mod Restart
pub mod Access
pub mod Orphan
pub mod Start
mod Tests
mod CreatedTests
mod ControlTests
mod AccessTests
mod OrphanTests
mod StartTests
