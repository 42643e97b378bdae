-- ===== src/Tests.antt =====
-- Runs of the model at concrete inputs, and the theorems at inputs that meet their hypotheses.
mod Edits
mod Pages
mod Proxy
mod Connections
mod Orders
mod Sockets
mod Tunnels
mod Manifests
mod CookieStores
mod Bodies
mod Fetches
mod Sessions
mod Clients
mod Serving
mod Startup
