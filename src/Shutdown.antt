-- ===== src/Shutdown.antt =====
-- practica2: three processes that shut down in order under Lamport clocks.
pub mod Types
pub mod Messages
pub mod Client
pub mod Server
pub mod Start
pub mod System
pub mod Loop
pub mod Serving
pub mod Stages
pub mod Order
pub mod Termination
mod Tests
