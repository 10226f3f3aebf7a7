-- ===== src/Nw.antt =====
-- common/nw: a server that waits on its connections with epoll, and the messages that it reads.
pub mod Kernel
pub mod Drain
pub mod Message
pub mod Acceptor
pub mod Client
mod Tests
