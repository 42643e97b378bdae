-- ===== src/Server.antt =====
-- mantalon-server: the proxy server, which relays TCP traffic over WebSockets.
pub mod Relay
pub mod Dns
pub mod Handler
pub mod Serving
