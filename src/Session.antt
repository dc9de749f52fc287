-- ===== src/Session.antt =====
-- ttp/session_safety.py: emergency containment, and the intent to stop that ends it.
pub mod World
pub mod Request
pub mod Terminate
pub mod Stop
pub mod Machine
mod Tests
pub mod Samples
