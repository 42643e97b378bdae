-- ===== src/Client/Runs.antt =====
-- A fetch that runs alone, as steps of the client: `proxied_fetch_with_global_cookies` of
-- mantalon-client/src/lib.rs, with `send_request` of pool.rs.
use mantalon.Base.{List, [], ◌∷◌, ◌++◌, Bool, Text, Result, err, ok, ◌≡◌}
use mantalon.Http.{Http, Request, Response}
use mantalon.Pool.{Net, Pool, Others, SendRequestError}
use mantalon.Cookies.{CookieCrate, CookieStore, store_cookies}
use mantalon.Client.{Answer, Client, FetchSteps}

module _ {http : Http} {Body Incoming : Type 0} (crate_ : CookieCrate)
    (net : Net http Body Incoming) (self_origin : Text) where
  open net use {Sender, Error}

  abbrev Outcome : Type 0
  Outcome = Result (SendRequestError Error) (Response http Incoming)

  -- The store behind a fetch of a URI with this outcome.
  abbrev cookies_behind : http.Uri → Outcome → CookieStore http crate_ → CookieStore http crate_
  cookies_behind uri (err e) cookies = cookies
  cookies_behind uri (ok response) cookies = (store_cookies http crate_ uri response cookies).0

  -- The answers behind a fetch of a URI by this request, with this outcome.
  abbrev pub answers_behind :
      http.Uri
      → Request http Body
      → Outcome
      → List (Answer crate_ net self_origin)
      → List (Answer crate_ net self_origin)
  answers_behind uri sent (err e) answers = answers
  answers_behind uri sent (ok response) answers =
      answers ++ (record { uri = uri; sent = sent; response = response }) ∷ []

  -- Steps of fetches to a client with this pool, this store and these answers.
  abbrev pub RunsTo :
      Client crate_ net self_origin
      → Pool Sender
      → CookieStore http crate_
      → List (Answer crate_ net self_origin)
      → Type 0
  RunsTo c pool cookies answers =
      (d : Client crate_ net self_origin) × FetchSteps crate_ net self_origin c d
      × (d.pool ≡ pool)
      × (d.cookies ≡ cookies)
      × (d.answers ≡ answers)

  -- What other tasks do while a fetch runs alone; the lock may still be held.
  abbrev pub alone : Bool → Others Sender
  alone holds_lock = record { meanwhile = λ pool. pool; holds_lock = holds_lock }
