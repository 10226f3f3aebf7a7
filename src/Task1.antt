-- ===== src/Task1.antt =====
-- task1/: a query server and its client.
pub mod Link
pub mod Package
pub mod Respond
pub mod Stream
pub mod OutStream
pub mod InStream
pub mod Server
pub mod Client
pub mod Exchange
mod Tests
