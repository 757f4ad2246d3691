-- ===== src/Dispatcher.antt =====
-- control_plane/delegates/management/commands/stream_dispatcher.py: the dispatcher's handlers, its
-- watchers and its main loop.
pub mod World
pub mod Requests
pub mod Authorization
pub mod Output
pub mod Protocol
pub mod Watch
pub mod Success
pub mod Lifecycle
pub mod Stored
pub mod Cleanup
pub mod Delivery
pub mod Announcements
pub mod Discovery
pub mod Main
pub mod Known
pub mod Poison
mod Tests
mod WatcherTests
mod PoisonTests
