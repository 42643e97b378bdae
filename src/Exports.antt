-- ===== src/Exports.antt =====
-- mantalon-client/src/exports.rs: `proxiedFetch`, which puts the parts of the client together, from
-- the JavaScript values that it is called with to the response that it makes.
pub mod Inputs
pub mod Streaming
pub mod Proxied
pub mod Startup
