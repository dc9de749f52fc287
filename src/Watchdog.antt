-- ===== src/Watchdog.antt =====
-- ttp/watchdog: the supervision of a session.
pub mod Inotify
pub mod Integrity
pub mod Network
pub mod Unit
pub mod Service
pub mod Supervisor
mod Tests
pub mod Samples
