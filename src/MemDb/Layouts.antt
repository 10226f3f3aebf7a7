-- ===== src/MemDb/Layouts.antt =====
-- mem_db/server/layouts/inc/layouts.h: tables of fixed rows in a piece of shared memory.
pub mod Memory
pub mod Header
pub mod ArrayLayout
