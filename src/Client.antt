-- ===== src/Client.antt =====
-- The fetches of a page that run side by side in mantalon-client/src/lib.rs and pool.rs, on one pool of
-- connections and one cookie store. A step is what one task does between two of its waits: a fetch
-- takes its cookies and looks for a connection, a new connection stands, a response comes; or a task
-- that waits for the lock has it, a socket closes, a cookie is overridden.
pub mod Safety
pub mod Origins
pub mod Runs
use mantalon.Base.{
  List, [], ◌∷◌, ◌++◌, none, some, Bool, true, false, Text, err, ok, ◌≡◌, ◌||◌, ◌⊎◌,
}
use mantalon.Base.Assoc.{lookup}
use mantalon.Http.{Http, Request, Response}
use mantalon.Pool.{
  ServerName, Net, Pool, SendRequestError, store, run_waiting, on_close, get_server, dial,
}
use mantalon.Cookies.{CookieCrate, CookieStore, store_cookies, override_cookie}
use mantalon.Fetch.{with_cookies}

module _ {http : Http} {Body Incoming : Type 0} (crate_ : CookieCrate)
    (net : Net http Body Incoming) (self_origin : Text) where
  open net use {Sender, Error}

  -- A fetch that waits for its new connection; `reading` tells whether it holds the lock meanwhile.
  pub record Dialling : Type 0 where
    pub uri : http.Uri
    pub sent : Request http Body
    pub multiaddr : Text
    pub name : ServerName
    pub reading : Bool

  -- A fetch that waits for its response.
  pub record Sending : Type 0 where
    pub uri : http.Uri
    pub sent : Request http Body
    pub sender : Sender

  -- A response that has come, with the URI of the fetch and the request that was sent.
  pub record Answer : Type 0 where
    pub uri : http.Uri
    pub sent : Request http Body
    pub response : Response http Incoming

  pub record Client : Type 0 where
    pub pool : Pool Sender
    pub cookies : CookieStore http crate_
    pub dialling : List Dialling
    pub sending : List Sending
    pub answers : List Answer
    pub overrides : List (Text × Text)

  abbrev pub sent_by : Client → Request http Body → Request http Body
  sent_by c request = with_cookies crate_ net self_origin c.cookies request

  -- No connection that is ready is there for the address; the lock is still held when one is there.
  abbrev pub NeedsNew : Pool Sender → Text → Bool → Type 0
  NeedsNew pool multiaddr reading =
      ((lookup multiaddr pool.connections ≡ none) × (reading ≡ false))
      ⊎ ((old : Sender) × (lookup multiaddr pool.connections ≡ some old)
          × (net.is_ready old ≡ false)
          × (reading ≡ true))

  unfoldable pub start_dialling : Request http Body → Text → ServerName → Bool → Client → Client
  start_dialling request multiaddr name reading c = record c {
    dialling =
        c.dialling
        ++ (record {
          uri = request.uri;
          sent = sent_by c request;
          multiaddr = multiaddr;
          name = name;
          reading = reading;
        })
          ∷ [];
  }

  unfoldable pub start_sending : http.Uri → Request http Body → Sender → Client → Client
  start_sending uri sent sender c = record c {
    sending = c.sending ++ (record { uri = uri; sent = sent; sender = sender }) ∷ [];
  }

  -- The new connection of a fetch stands, and is stored.
  unfoldable pub finish_dialling :
      (holds_lock : Bool) → List Dialling → Dialling → Sender → Client → Client
  unfolding start_sending
  finish_dialling holds_lock others d sender c = start_sending d.uri d.sent sender (record c {
    pool = store (d.reading || holds_lock) d.multiaddr sender c.pool;
    dialling = others;
  })

  unfoldable pub finish_sending : List Sending → Sending → Response http Incoming → Client → Client
  finish_sending others p response c = record c {
    cookies = (store_cookies http crate_ p.uri response c.cookies).0;
    sending = others;
    answers = c.answers ++ (record { uri = p.uri; sent = p.sent; response = response }) ∷ [];
  }

  -- `overrideCookie` of the page, with the history of the overrides.
  unfoldable pub finish_override : Text → Text → Client → Client
  finish_override name value c = record c {
    cookies = override_cookie http crate_ name value c.cookies;
    overrides = c.overrides ++ (name, value) ∷ [];
  }

  -- What a fetch itself does.
  pub data FetchStep : Client → Client → Type 0 where
    refused :
        {c : Client} (request : Request http Body) (e : SendRequestError Error)
        → get_server net (sent_by c request).uri ≡ err e
        → FetchStep c c
    reused :
        {c : Client} (request : Request http Body) (multiaddr : Text) (name : ServerName)
        (sender : Sender)
        → get_server net (sent_by c request).uri ≡ ok (multiaddr, name)
        → lookup multiaddr c.pool.connections ≡ some sender
        → net.is_ready sender ≡ true
        → FetchStep c (start_sending request.uri (sent_by c request) sender c)
    dials :
        {c : Client} (request : Request http Body) (multiaddr : Text) (name : ServerName)
        (reading : Bool)
        → get_server net (sent_by c request).uri ≡ ok (multiaddr, name)
        → NeedsNew c.pool multiaddr reading
        → FetchStep c (start_dialling request multiaddr name reading c)
    dialled :
        {c : Client} (before after : List Dialling) (d : Dialling) (sender : Sender)
        (holds_lock : Bool)
        → c.dialling ≡ before ++ d ∷ after
        → dial net self_origin d.multiaddr d.name d.sent.uri ≡ ok sender
        → FetchStep c (finish_dialling holds_lock (before ++ after) d sender c)
    not_dialled :
        {c : Client} (before after : List Dialling) (d : Dialling) (e : SendRequestError Error)
        → c.dialling ≡ before ++ d ∷ after
        → dial net self_origin d.multiaddr d.name d.sent.uri ≡ err e
        → FetchStep c (record c { dialling = before ++ after })
    responded :
        {c : Client} (before after : List Sending) (p : Sending) (response : Response http Incoming)
        → c.sending ≡ before ++ p ∷ after
        → net.is_ready p.sender ≡ true
        → net.send p.sender p.sent ≡ ok response
        → FetchStep c (finish_sending (before ++ after) p response c)
    -- the connection is not ready, or the request fails on it
    failed :
        {c : Client} (before after : List Sending) (p : Sending)
        → c.sending ≡ before ++ p ∷ after
        → FetchStep c (record c { sending = before ++ after })

  pub data Step : Client → Client → Type 0 where
    fetched : {c d : Client} → FetchStep c d → Step c d
    waited : {c : Client} → Step c (record c { pool = run_waiting c.pool })
    closed :
        {c : Client} (multiaddr : Text) → Step c (record c { pool = on_close multiaddr c.pool })
    overridden : {c : Client} (name value : Text) → Step c (finish_override name value c)

  unfoldable pub initial : CookieStore http crate_ → Client
  initial cookies = record {
    pool = record { connections = []; waiting = [] };
    cookies = cookies;
    dialling = [];
    sending = [];
    answers = [];
    overrides = [];
  }

  pub data Steps (c : Client) : Client → Type 0 where
    here : Steps c c
    next : {d e : Client} → Steps c d → Step d e → Steps c e

  -- Steps of fetches only: no task that waited, no socket that closes and no override comes between.
  pub data FetchSteps (c : Client) : Client → Type 0 where
    nothing : FetchSteps c c
    followed : {d e : Client} → FetchSteps c d → FetchStep d e → FetchSteps c e
