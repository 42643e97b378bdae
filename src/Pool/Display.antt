-- ===== src/Pool/Display.antt =====
-- The texts of the errors of mantalon-client/src/pool.rs, which `proxiedFetch` hands to the page.
use mantalon.Base.{Text, codes, ◌++◌}
use mantalon.Pool.{
  SendRequestError, no_scheme, no_host, unsupported_server_name_type, connection_not_ready,
  unsupported_scheme, server_name_parse_error, websocket, tls_connect, http_handshake, hyper,
}

-- `SendRequestError::fmt`, from the texts of the errors of the libraries, by `{}` and by `{:?}`.
unfoldable pub fmt : {E : Type 0} → (display debug : E → Text) → SendRequestError E → Text
fmt display debug no_scheme = codes "No scheme in URI"
fmt display debug (unsupported_scheme scheme) = codes "Unsupported scheme: " ++ scheme
fmt display debug no_host = codes "No host in URI"
fmt display debug (server_name_parse_error e) = codes "Error parsing server name: " ++ display e
fmt display debug (websocket e) = codes "Error opening websocket: " ++ debug e
fmt display debug unsupported_server_name_type = codes "Unsupported server name type"
fmt display debug (tls_connect e) = codes "Error connecting to TLS server: " ++ display e
fmt display debug connection_not_ready = codes "Connection not ready"
fmt display debug (http_handshake e) = codes "Error in HTTP handshake: " ++ display e
fmt display debug (hyper e) = codes "Hyper error: " ++ display e
