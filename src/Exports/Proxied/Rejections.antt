-- ===== src/Exports/Proxied/Rejections.antt =====
-- The value that the promise of `proxiedFetch` is rejected with.
use mantalon.Base.{
  Option, none, some, Text, codes, starts_with, ◌≡◌, refl, if◌then◌else◌, ap, sym, ◌∙◌,
}
use mantalon.Pool.{
  SendRequestError, no_scheme, no_host, unsupported_server_name_type, connection_not_ready,
  unsupported_scheme, server_name_parse_error, websocket, tls_connect, http_handshake, hyper,
}
use mantalon.Pool.Display.{fmt}
use mantalon.Exports.Proxied.{
  FetchError, invalid_url, no_content_edit_found, unreadable_body, thrown, send_failed,
}

module _ {E : Type 0} (display debug : E → Text) where
  -- The text that the page gets; `none` is an exception of the browser.
  unfoldable pub rejection : FetchError E → Option Text
  unfolding fmt
  rejection invalid_url = some (codes "Invalid URL")
  rejection no_content_edit_found = some (codes "No content edit found")
  rejection unreadable_body = some (codes "Error reading body")
  rejection (send_failed e) = some (fmt display debug e)
  rejection thrown = none

-- Why a fetch failed, without the details.
pub data Reason : Type 0 where
  by_url by_edit by_body by_browser by_scheme by_other_scheme by_host by_server_name by_websocket :
      Reason
  by_name_type by_tls by_not_ready by_handshake by_hyper : Reason

abbrev pub send_reason : {E : Type 0} → SendRequestError E → Reason
send_reason no_scheme = by_scheme
send_reason (unsupported_scheme scheme) = by_other_scheme
send_reason no_host = by_host
send_reason (server_name_parse_error e) = by_server_name
send_reason (websocket e) = by_websocket
send_reason unsupported_server_name_type = by_name_type
send_reason (tls_connect e) = by_tls
send_reason connection_not_ready = by_not_ready
send_reason (http_handshake e) = by_handshake
send_reason (hyper e) = by_hyper

abbrev pub reason : {E : Type 0} → FetchError E → Reason
reason invalid_url = by_url
reason no_content_edit_found = by_edit
reason unreadable_body = by_body
reason (send_failed e) = send_reason e
reason thrown = by_browser

-- The reason that can be read off the text.
reason_of : Text → Reason
reason_of text =
    if starts_with text (codes "Invalid URL")
    then by_url
    else if starts_with text (codes "No content")
    then by_edit
    else if starts_with text (codes "Error reading")
    then by_body
    else if starts_with text (codes "No scheme")
    then by_scheme
    else if starts_with text (codes "Unsupported scheme")
    then by_other_scheme
    else if starts_with text (codes "No host")
    then by_host
    else if starts_with text (codes "Error parsing")
    then by_server_name
    else if starts_with text (codes "Error opening")
    then by_websocket
    else if starts_with text (codes "Unsupported server")
    then by_name_type
    else if starts_with text (codes "Error connecting")
    then by_tls
    else if starts_with text (codes "Connection")
    then by_not_ready
    else if starts_with text (codes "Error in HTTP")
    then by_handshake
    else by_hyper

abbrev reason_of? : Option Text → Reason
reason_of? none = by_browser
reason_of? (some text) = reason_of text

module _ {E : Type 0} (display debug : E → Text) where
  reason_of-fmt : (e : SendRequestError E) → reason_of (fmt display debug e) ≡ send_reason e
  unfolding fmt reason_of
  reason_of-fmt no_scheme = refl
  reason_of-fmt _ = refl

  reason_of-rejection : (e : FetchError E) → reason_of? (rejection display debug e) ≡ reason e
  unfolding rejection reason_of
  reason_of-rejection (send_failed e) = reason_of-fmt e
  reason_of-rejection _ = refl

  -- The page can tell from the text that it gets why its fetch failed, whatever the texts of the
  -- errors of the libraries are: two failures with the same text have the same reason.
  pub rejection-injective :
      (e e' : FetchError E)
      → rejection display debug e ≡ rejection display debug e'
      → reason e ≡ reason e'
  rejection-injective e e' same =
      sym (reason_of-rejection e) ∙ ap reason_of? same ∙ reason_of-rejection e'
