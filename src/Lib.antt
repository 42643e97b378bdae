-- ===== src/Lib.antt =====
-- Mantalon: a proxy that serves a website from another origin. Requests of a page go to a WebAssembly
-- client in its service worker (mantalon-client), which edits them, sends them over HTTP/2 inside
-- TLS inside a websocket, and edits the responses; the server (mantalon-server) turns each websocket
-- into a TCP connection to the host that its path names, and relays bytes.
--
-- The parts, in the order of a request:
-- - RequestEdit, Headers: `ParsedContentEdit::apply_on_request` of mantalon-client/src/manifest.rs. The
--   data of the manifest is in ContentEdit; the four loops on headers, which requests and responses
--   share, are `remove_all`, `insert_all`, `append_all` and `rename_all` of Headers.
-- - Pool: mantalon-client/src/pool.rs. `get_server` gives a request its address; `send_request` sends
--   it over the connection of that address, or opens one by `send_request_new_stream`.
-- - WebSocket: mantalon-client/src/websocket.rs. The listeners and the polls of `WrappedWebSocket` are
--   the functions of one name each on a record of its fields; `step` and `run` put them in a sequence, and
--   `run_life` adds its drop.
-- - Server/Handler, Server/Dns: mantalon-server/src/handler.rs, errors.rs and dns.rs. `http_handler`
--   checks the request, reads the address, resolves its host and opens the connection.
-- - Server/Relay: mantalon-server/src/relay.rs, the two loops behind the upgrade; Server/Relay/Duplex is the
--   `select!` of both, in the task that `http_handler` spawns.
-- - Fetch: mantalon-client/src/lib.rs. `proxied_fetch_with_global_cookies` puts the cookie store and the
--   pool together, and `read_entire_body` reads the body of a page that is to be edited.
-- - Client: the fetches of a page that run side by side, as a step relation on one pool and one cookie store;
--   Client/Runs has a fetch of Fetch as steps of it.
-- - Cookies: mantalon-client/src/cookies.rs. The operations of `CookieStore`, which adds the cookies of
--   a request, takes those of a response, overrides one, saves and loads them.
-- - ResponseEdit, Headers: `ParsedContentEdit::apply_on_response`, with the redirects to the proxy. Iteration
--   is about the order in which both edits iterate over their maps and sets.
-- - Loading: the fetches of manifest.rs, `load_replacement_file` and the start of `update_manifest`.
-- - Setup: `update_manifest` of manifest.rs and `get_content_edit` of mantalon-client/src/exports.rs, which
--   say which edit a request has.
-- - BodyEdit, Substitution: `apply_on_response_body`, `search_haystack` and `replace_in_vec`.
-- - MantalonBody: `MantalonBody` of mantalon-client/src/body.rs, the body of a request, and `poll_frame`.
-- - Exports: the rest of mantalon-client/src/exports.rs. Exports/Inputs reads the arguments of `proxiedFetch`
--   (`from_method`, `from_headers`); Exports/Proxied prepares the request (`prepare`), sends it by Fetch, and
--   makes the response of the page (`finish`); Exports/Streaming is the `pull` of a streamed body; and
--   Exports/Startup is `init` with `open_cookie_storage` of mantalon-client/src/cookies.rs.
-- - Server/Serving: mantalon-server/src/main.rs, the accept loop and the tasks that it spawns, as a step
--   relation on the shared DNS cache.
-- - Tunnel puts the address that the client writes and the one that the server reads together, and
--   Tunnel/Streams the bytes of the client's websocket and those of the relay.
-- Base has what they share, and Tests the runs at concrete inputs. A file under the name of a part has
-- theorems on it, and says which.
--
-- How code becomes definitions:
-- - A `String`, `&str` or `Vec<u8>` is a list of bytes (`Text`). A map is an association list, seen
--   through its lookups. A panic is the `none` of an Option, or the status `panicked` of a relay.
-- - Code of other crates is a parameter. The http crate is the record `Http`, with the documented laws
--   of its header map and its URIs; rustls, hyper and the browser's sockets are the record `Net`; the
--   multiaddr parser, the network and the handshake of soketto are the record `Env`; the DNS client and
--   the clock are the record `Lookup`; URLs and their patterns are the record `Patterns`, the
--   crate cookie is the record `CookieCrate`, and the headers and responses of the browser are the
--   record `Browser`. Http/Toy, Cookies/Toy and Exports/Proxied/Toy are concrete ones that satisfy the
--   laws.
-- - A JavaScript value is the outcomes of the conversions that the program tries on it, and a promise
--   or a stream is what its polls find.
-- - Code that awaits is a function of what it awaits: a relay reads the list of its events; `resolve`
--   takes the cache at its check and at its write; `send_request` takes a function for what other
--   tasks do to the pool while it waits. In Client each wait of a fetch is a state of its own.
--
-- Fuel and bounds: `replace_in_vec` has fuel for one round more than there are bytes and permitted
-- replacements, and its results are shown to be there; the loops that take a suffix or a prefix off
-- (`pop_newlines`, `trim_start_matches`) have a round for each byte; `digits` has as much as the number
-- it prints, which each round divides by ten; `pulls` and `poll_frames` take the number of calls, and all of a
-- body is pulled with one call more than it has chunks. `usize` has 32 bits, as in the client's target. Memory is
-- without a bound: where the program would run out of it, as in `replace_in_vec` with an empty pattern and
-- no `max_replacements`, the model goes on. Ports and
-- times are numbers without a bound, since the code only compares and prints them, or adds 300 to a time.
--
-- Whether a connection is ready is a property of its sender that does not change (`is_ready` of `Net`), so
-- nothing is said about a connection that closes between two requests; a socket that closes takes its
-- connection out of the pool in Client.
--
-- Not modelled: the conversion of a blob into bytes, which is a call of the browser; the IO adapters of
-- compat.rs, which are code of tokio-util; the arguments and the listening socket in main.rs of the server;
-- the panic hook, logging, the texts of the error responses of the server, and `HackTraitOrigin` and the
-- `Display` of `UpdateManifestError` and `MantalonError`, which nothing calls.
pub mod Base
pub mod Http
pub mod ContentEdit
pub mod Loading
pub mod Headers
pub mod BodyEdit
pub mod RequestEdit
pub mod ResponseEdit
pub mod Iteration
pub mod Substitution
pub mod Server
pub mod WebSocket
pub mod Pool
pub mod Tunnel
pub mod Setup
pub mod Cookies
pub mod Fetch
pub mod Client
pub mod MantalonBody
pub mod Exports
mod Tests
