-- ===== src/Chat.antt =====
-- practica1: three pairs of a server and a client that send each other lines over one socket.
pub mod Buffers
pub mod Talk
pub mod SimpleServer
pub mod SimpleClient
pub mod PollingServer
pub mod PollingClient
pub mod ThreadServer
pub mod ThreadClient
pub mod Exchange
pub mod Dialogue
mod Tests
