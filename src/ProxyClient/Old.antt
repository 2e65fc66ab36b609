-- ===== src/ProxyClient/Old.antt =====
-- practica4/Old: the publisher and the subscriber when they were two programs. Their types are those of
-- practica4/proxy_client.h, their sockets are created and connected by the same text, and they have no
-- `client_type`: that field is left as it is.
pub mod Publisher
pub mod Subscriber
pub mod Agreement
pub mod Data
