-- ===== src/Client/Safety.antt =====
-- Which connections the fetches of a page go over.
use mantalon.Base.{◌++◌, Text, ok, ◌≡◌, ◌||◌, subst, All, All-append, All-without}
use mantalon.Base.Assoc.{lookup-All}
use mantalon.Http.{Http, Request}
use mantalon.Pool.{ServerName, Net, store, get_server}
use mantalon.Pool.Provenance.{
  IsDialled, IsSound, store-IsSound, run_waiting-IsSound, on_close-IsSound, IsAnsweredBy,
}
use mantalon.Cookies.{CookieCrate, CookieStore}
use mantalon.Client.{
  Dialling, Sending, Answer, Client, sent_by, start_dialling, start_sending, finish_dialling,
  finish_sending, finish_override, FetchStep, Step, fetched, refused, reused, dials, dialled,
  not_dialled, responded, failed, waited, closed, overridden, initial, Steps, here, next,
}

module _ {http : Http} {Body Incoming : Type 0} (crate_ : CookieCrate)
    (net : Net http Body Incoming) (self_origin : Text) where
  -- A connection is being opened for the address of the request.
  abbrev pub IsAddressed : Dialling crate_ net self_origin → Type 0
  IsAddressed d = get_server net d.sent.uri ≡ ok (d.multiaddr, d.name)

  -- A request is being sent over a connection that was opened for its address.
  abbrev pub IsRouted : Sending crate_ net self_origin → Type 0
  IsRouted p =
      (m : Text) × (name : ServerName) × ((get_server net p.sent.uri ≡ ok (m, name))
        × IsDialled net self_origin (m, p.sender))

  abbrev pub IsAnswered : Answer crate_ net self_origin → Type 0
  IsAnswered a = IsAnsweredBy net self_origin a.sent a.response

  pub record IsSafe (c : Client crate_ net self_origin) : Type 0 where
    pub pool : IsSound net self_origin c.pool
    pub dialling : All IsAddressed c.dialling
    pub sending : All IsRouted c.sending
    pub answers : All IsAnswered c.answers

  -- One more request on its way.
  start_sending-IsSafe :
      (c : Client crate_ net self_origin) (uri : http.Uri) (sent : Request http Body)
      (sender : net.Sender) (m : Text) (name : ServerName)
      → get_server net sent.uri ≡ ok (m, name)
      → IsDialled net self_origin (m, sender)
      → IsSafe c
      → IsSafe (start_sending crate_ net self_origin uri sent sender c)
  unfolding start_sending
  start_sending-IsSafe c uri sent sender m name at d safe = record {
    pool = safe.pool;
    dialling = safe.dialling;
    sending = All-append IsRouted c.sending _ safe.sending ((m, name, (at, d)), tt);
    answers = safe.answers;
  }

  FetchStep-IsSafe :
      {c d : Client crate_ net self_origin}
      → FetchStep crate_ net self_origin c d
      → IsSafe c
      → IsSafe d
  unfolding start_dialling finish_dialling finish_sending IsSound IsDialled IsAnsweredBy
  FetchStep-IsSafe (refused request e at) safe = safe
  FetchStep-IsSafe {c} (reused request m name sender at found is_ready) safe =
      start_sending-IsSafe c request.uri (sent_by crate_ net self_origin c request) sender m name at
        (lookup-All (IsDialled net self_origin) m sender c.pool.connections safe.pool.0 found) safe
  FetchStep-IsSafe {c} (dials request m name reading at needs) safe = record {
    pool = safe.pool;
    dialling = All-append IsAddressed c.dialling _ safe.dialling (at, tt);
    sending = safe.sending;
    answers = safe.answers;
  }
  FetchStep-IsSafe {c} (dialled before after d sender holds_lock split stands) safe =
      let (at, others) =
        All-without IsAddressed before after d (subst (All IsAddressed) split safe.dialling) in
      let is_dialled : IsDialled net self_origin (d.multiaddr, sender) =
        (d.sent.uri, d.name, (at, stands)) in
      start_sending-IsSafe
        (record c {
          pool = store (d.reading || holds_lock) d.multiaddr sender c.pool;
          dialling = before ++ after;
        })
        d.uri d.sent sender d.multiaddr d.name at is_dialled
        (record {
          pool =
              store-IsSound net self_origin (d.reading || holds_lock) d.multiaddr sender c.pool
                is_dialled safe.pool;
          dialling = others;
          sending = safe.sending;
          answers = safe.answers;
        })
  FetchStep-IsSafe (not_dialled before after d e split fails) safe = record {
    pool = safe.pool;
    dialling =
        (All-without IsAddressed before after d (subst (All IsAddressed) split safe.dialling)).1;
    sending = safe.sending;
    answers = safe.answers;
  }
  FetchStep-IsSafe {c} (responded before after p response split is_ready sends) safe =
      let ((m, name, (at, d)), others) =
        All-without IsRouted before after p (subst (All IsRouted) split safe.sending) in
      record {
        pool = safe.pool;
        dialling = safe.dialling;
        sending = others;
        answers =
            All-append IsAnswered c.answers _ safe.answers
              ((m, name, p.sender, (at, d, is_ready, sends)), tt);
      }
  FetchStep-IsSafe (failed before after p split) safe = record {
    pool = safe.pool;
    dialling = safe.dialling;
    sending = (All-without IsRouted before after p (subst (All IsRouted) split safe.sending)).1;
    answers = safe.answers;
  }

  Step-IsSafe :
      {c d : Client crate_ net self_origin} → Step crate_ net self_origin c d → IsSafe c → IsSafe d
  unfolding finish_override
  Step-IsSafe (fetched step) safe = FetchStep-IsSafe step safe
  Step-IsSafe {c} waited safe = record {
    pool = run_waiting-IsSound net self_origin c.pool safe.pool;
    dialling = safe.dialling;
    sending = safe.sending;
    answers = safe.answers;
  }
  Step-IsSafe {c} (closed m) safe = record {
    pool = on_close-IsSound net self_origin m c.pool safe.pool;
    dialling = safe.dialling;
    sending = safe.sending;
    answers = safe.answers;
  }
  Step-IsSafe (overridden name value) safe = record {
    pool = safe.pool;
    dialling = safe.dialling;
    sending = safe.sending;
    answers = safe.answers;
  }

  initial-IsSafe :
      (cookies : CookieStore http crate_) → IsSafe (initial crate_ net self_origin cookies)
  unfolding initial IsSound
  initial-IsSafe cookies = record { pool = (tt, tt); dialling = tt; sending = tt; answers = tt }

  -- Whatever the order in which the fetches of a page run, each response has come over a connection
  -- that is ready and was opened for the address of the request that was sent, and each connection of the
  -- pool was opened for the address it stands under.
  pub Steps-IsSafe :
      (cookies : CookieStore http crate_) {c : Client crate_ net self_origin}
      → Steps crate_ net self_origin (initial crate_ net self_origin cookies) c
      → IsSafe c
  Steps-IsSafe cookies here = initial-IsSafe cookies
  Steps-IsSafe cookies (next steps step) = Step-IsSafe step (Steps-IsSafe cookies steps)
