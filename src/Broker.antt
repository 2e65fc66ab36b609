-- ===== src/Broker.antt =====
-- practica4/proxy_broker.h and practica4/proxy_broker.c: the publish/subscribe broker.
pub mod Types
pub mod Topics
pub mod Clients
pub mod Publish
pub mod Just
pub mod Sessions
pub mod Setup
pub mod Start
pub mod Directory
pub mod Invariant
pub mod Creation
pub mod Counting
pub mod Registration
pub mod Unregistration
pub mod Reachable
pub mod Roundtrip
pub mod Visit
pub mod Served
pub mod Samples
mod Tests
