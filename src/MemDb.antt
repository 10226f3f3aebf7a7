-- ===== src/MemDb.antt =====
-- mem_db/: an in-memory database. The data structures of common, the layouts and
-- the flow manager of the server, the tool for the shared memory, and the allocator of chunks in it.
pub mod Outcome
pub mod Stack
pub mod BitMap
pub mod Layouts
pub mod Flow
pub mod ShmControl
pub mod Allocator
pub mod UnitTests
mod Tests
