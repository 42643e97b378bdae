-- ===== src/Tests/Fetches.antt =====
-- `proxiedFetch` and the bodies of the client.
use mantalon.Base.{
  ℕ, suc, length, concat, List, [], ◌∷◌, ◌++◌, Option, none, some, Bool, true, false, Text, ok,
  codes, ◌≡◌, ◌↔◌, ◌⊎◌, ◌↔◌, inl, inr, refl, subst, str_replace, trim_start_matches,
}
use mantalon.Http.{Http, Response, get}
use mantalon.Http.Toy.{toy}
use mantalon.ContentEdit.{ParsedContentEdit, ParsedManifest, needs_body_response}
use mantalon.Setup.{get_content_edit, find_edit}
use mantalon.ResponseEdit.{apply_on_response, edit_location}
use mantalon.Headers.{edit_headers}
use mantalon.BodyEdit.{apply_on_response_body, insert_js, insert_css, insert_lock, substitute_all}
use mantalon.Base.Assoc.{lookup}
use mantalon.RequestEdit.{apply_on_request, force_https}
use mantalon.Pool.{
  Net, Pool, Others, dns_name, send_request, send_request_new_stream, dial, ws_url, start_plain,
  is_https, send_when_ready, send_over, store, get_server, get_port, get_address, multiaddr_of,
  hyper,
}
use mantalon.Pool.Provenance.{IsSound}
use mantalon.Cookies.{CookieStore, add_cookies, cookie_list}
use mantalon.Cookies.Toy.{toy_crate}
use mantalon.Fetch.{Chunk, data_, read_entire_body, with_cookies, proxied_fetch_with_global_cookies}
use mantalon.MantalonBody.{MantalonBody}
use mantalon.Exports.Inputs.{Inputs}
use mantalon.Exports.Proxied.{
  Outcome, done, page, append_all, respond_edited, respond_read, respond_page, respond,
  redirect_headers, prepare, with_host, JsResponse, finish, proxied_fetch, send_failed,
}
use mantalon.Exports.Proxied.Toy.{toy_browser}
use mantalon.Exports.Proxied.Requests.{IsResolved, proxied_fetch-IsResolved}
use mantalon.Exports.Proxied.Rejections.{reason, rejection-injective}
use mantalon.Exports.Proxied.Finishing.{finish-null_body}
use mantalon.Tests.Manifests.{prefixes}

abbrev chunks : List Chunk
chunks = data_ (1 ∷ []) ∷ data_ (2 ∷ []) ∷ []

-- The URIs of this crate are at the port 8080, and every host answers with the header that is given.
abbrev pub ported : Http
ported = record toy { authority_port = λ a. some 8080 }

abbrev pub net : Net ported MantalonBody (List Chunk)
net = record {
  Error = Text;
  Socket = Text;
  Stream = Text;
  Sender = Text;
  try_from = λ host. ok (dns_name host);
  open_socket = ok;
  connect_tls = λ name socket. ok socket;
  handshake_tls = ok;
  handshake = ok;
  is_ready = λ sender. true;
  send = λ sender request. ok (record {
    status = 200;
    headers = (codes "location", codes "/next") ∷ [];
    body = data_ sender ∷ [];
  });
}

abbrev edit : Bool → ParsedContentEdit ported Text
edit js_redirect = record {
  matches = codes "/news" ∷ [];
  lock_browsing = false;
  https_only = false;
  rewrite_location = false;
  js_redirect = js_redirect;
  js = [];
  css = [];
  override_uri = none;
  substitute = [];
  append_headers = [];
  insert_headers = [];
  remove_headers = [];
  rename_headers = [];
  append_request_headers = [];
  insert_request_headers = [];
  remove_request_headers = [];
  rename_request_headers = [];
}

abbrev manifest : ParsedManifest ported Text
manifest = record {
  domains = codes "a.org" ∷ [];
  lock_browsing = false;
  https_only = false;
  rewrite_location = false;
  js_redirect = true;
  content_edits = edit true ∷ [];
}

abbrev no_files : Text → Option Text
no_files name = none

abbrev redirect_page : Text
redirect_page = codes "to locationToReplace"

abbrev answer : Response ported (List Chunk)
answer = record { status = 302; headers = (codes "location", codes "/next") ∷ []; body = chunks }

abbrev told : JsResponse (List (Text × Text))
told = record {
  status = 200;
  headers =
      (codes "content-type", codes "text/html")
      ∷ (codes "x-mantalon-location", codes "/next")
      ∷ (codes "content-length", codes "8")
      ∷ [];
  body = page (codes "to /next");
}

finished :
    finish ported prefixes toy_browser Text no_files [] redirect_page
      (codes "a.org" ∷ [])
      []
      (edit true)
      answer
    ≡ done told
unfolding finish respond_edited respond_read respond_page respond redirect_headers append_all
    apply_on_response edit_location edit_headers apply_on_response_body insert_js insert_css
    insert_lock substitute_all read_entire_body needs_body_response str_replace
    mantalon.Headers.remove_all mantalon.Headers.insert_all mantalon.Headers.append_all
    mantalon.Headers.rename_all mantalon.Base.digits
finished = refl

abbrev not_modified : Response ported (List Chunk)
not_modified = record { status = 304; headers = []; body = [] }

finish-null_body_example : ¬ (
    finish ported prefixes toy_browser Text no_files [] redirect_page
      (codes "a.org" ∷ [])
      []
      (edit false)
      not_modified
    ≡ done told)
finish-null_body_example =
    finish-null_body toy_browser redirect_page ported prefixes Text no_files [] (codes "a.org" ∷ [])
      [] (edit false) not_modified told (inr (inr (inr (inr refl)))) refl

abbrev pub alone : Others Text
alone = record { meanwhile = λ pool. pool; holds_lock = false }

abbrev pub empty_pool : Pool Text
empty_pool = record { connections = []; waiting = [] }

abbrev pub no_cookies : CookieStore ported toy_crate
no_cookies = record { cookies = []; has_cache = false; overriden_cookies = [] }

abbrev inputs : Text → Inputs ported
inputs url = record { headers = []; method = get; url = url; body = none }

empty_pool-IsSound : IsSound net (codes "http://m.org") empty_pool
unfolding IsSound
empty_pool-IsSound = (tt, tt)

abbrev fetch :
    Text → CookieStore ported toy_crate × Pool Text × Outcome Text (JsResponse (List (Text × Text)))
fetch url =
    proxied_fetch prefixes toy_browser toy_crate net (codes "http://m.org") no_files []
      redirect_page (λ store. store) alone manifest (inputs url) no_cookies empty_pool

fetched : (fetch (codes "a.org/news")).2 ≡ done told
unfolding proxied_fetch prepare with_host get_content_edit find_edit apply_on_request force_https
    proxied_fetch_with_global_cookies with_cookies add_cookies cookie_list send_request
    send_request_new_stream dial ws_url start_plain is_https send_when_ready send_over store lookup
    mathlib.Core.Option.bind get_server get_port get_address multiaddr_of trim_start_matches finish
    respond_edited respond_read respond_page respond redirect_headers append_all apply_on_response
    edit_location edit_headers apply_on_response_body insert_js insert_css insert_lock
    substitute_all read_entire_body needs_body_response str_replace mantalon.Headers.remove_all
    mantalon.Headers.insert_all mantalon.Headers.append_all mantalon.Headers.rename_all
    mantalon.Base.digits
fetched = refl

proxied_fetch-IsResolved_example :
    IsResolved prefixes toy_browser toy_crate net
      (codes "http://m.org")
      no_files
      []
      redirect_page
      (λ store. store)
      alone
      manifest
      (inputs (codes "a.org/news"))
      no_cookies
      empty_pool
      told
proxied_fetch-IsResolved_example =
    proxied_fetch-IsResolved prefixes toy_browser toy_crate net (codes "http://m.org") no_files []
      redirect_page (λ store. store) alone manifest (inputs (codes "a.org/news")) no_cookies
      empty_pool told empty_pool-IsSound (λ sound. sound) fetched

-- Two errors of the HTTP/2 client with one text.
rejection-injective_example :
    reason {E = Text} (send_failed (hyper [])) ≡ reason {E = Text} (send_failed (hyper []))
rejection-injective_example =
    rejection-injective (λ e. e) (λ e. e) (send_failed (hyper [])) (send_failed (hyper [])) refl
