-- ===== src/PhoneOfficer.antt =====
-- phone-officer: the functions for preloading, and the `open` that the agent puts in front of the C
-- library's.
pub mod Preload
pub mod Agent
mod Tests
