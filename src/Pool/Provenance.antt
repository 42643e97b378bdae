-- ===== src/Pool/Provenance.antt =====
-- Which connection answers a request.
use mantalon.Base.{
  ok, Result-cases, List, [], ◌∷◌, refl, subst, Bool, true, false, Text, ◌≡◌, inl, inr,
  Option-cases, Bool-cases, All, All-append, ◌||◌,
}
use mantalon.Base.Assoc.{lookup, All-insert, All-remove, lookup-All}
use mantalon.Http.{Http, Request, Response}
use mantalon.Pool.{
  ServerName, Net, Pool, Others, store, run_waiting, on_close, get_server, dial, send_over,
  send_when_ready, send_request_new_stream, send_request,
}

module _ {http : Http} {Body Incoming : Type 0} (net : Net http Body Incoming)
    (self_origin : Text) where
  open net use {Sender}

  -- The connection was opened for a request with this address.
  unfoldable pub IsDialled : Text × Sender → Type 0
  IsDialled (m, sender) =
      (uri : http.Uri) × (name : ServerName) × ((get_server net uri ≡ ok (m, name))
        × (dial net self_origin m name uri ≡ ok sender))

  -- Each connection in the map, and each that waits to be written there, was opened for its address.
  unfoldable pub IsSound : Pool Sender → Type 0
  unfolding IsDialled
  IsSound pool = All IsDialled pool.connections × All IsDialled pool.waiting

  pub store-IsSound :
      (locked : Bool) (m : Text) (s : Sender) (pool : Pool Sender)
      → IsDialled (m, s)
      → IsSound pool
      → IsSound (store locked m s pool)
  unfolding IsSound store
  store-IsSound true m s pool d (h, w) =
      (h, All-append IsDialled pool.waiting ((m, s) ∷ []) w (d, tt))
  store-IsSound false m s pool d (h, w) = (All-insert IsDialled m s pool.connections d h, w)

  waiting-IsSound :
      (waiting : List (Text × Sender)) (pool : Pool Sender)
      → pool.waiting ≡ waiting
      → IsSound pool
      → IsSound (run_waiting pool)
  unfolding IsSound run_waiting
  waiting-IsSound [] pool e h = rw (e, run_waiting) h
  waiting-IsSound ((m, s) ∷ waiting) pool e (h, w) =
      let (d, ds) = subst (All IsDialled) e w in
      rw (e, run_waiting) (All-insert IsDialled m s pool.connections d h, ds)

  pub run_waiting-IsSound : (pool : Pool Sender) → IsSound pool → IsSound (run_waiting pool)
  run_waiting-IsSound pool h = waiting-IsSound pool.waiting pool refl h

  pub on_close-IsSound : (m : Text) (pool : Pool Sender) → IsSound pool → IsSound (on_close m pool)
  unfolding IsSound on_close
  on_close-IsSound m pool (h, w) = (All-remove IsDialled m pool.connections h, w)

  new_stream-IsSound :
      (reading : Bool) (others : Others Sender) (request : Request http Body) (pool : Pool Sender)
      → IsSound pool
      → (IsSound pool → IsSound (others.meanwhile pool))
      → IsSound (send_request_new_stream net self_origin reading others request pool).0
  unfolding send_request_new_stream IsDialled
  new_stream-IsSound reading others request pool h keep =
      elim (Result-cases (get_server net request.uri)) [
        | inl (e, x) ↦ rw (x, send_request_new_stream) h
        | inr ((m, name), x) ↦ elim (Result-cases (dial net self_origin m name request.uri)) [
          | inl (e, y) ↦ rw (x, y, send_request_new_stream) (keep h)
          | inr (s, y) ↦
              rw (x, y, send_request_new_stream)
                (store-IsSound (reading || others.holds_lock) m s (others.meanwhile pool)
                  (request.uri, name, (x, y)) (keep h))
        ]
      ]

  -- A request keeps the pool sound, on every branch and whether it succeeds or fails, when the
  -- other tasks do so while it waits.
  pub send_request-IsSound :
      (others : Others Sender) (request : Request http Body) (pool : Pool Sender)
      → IsSound pool
      → (IsSound pool → IsSound (others.meanwhile pool))
      → IsSound (send_request net self_origin others request pool).0
  unfolding send_request
  send_request-IsSound others request pool h keep =
      elim (Result-cases (get_server net request.uri)) [
        | inl (e, x) ↦ rw (x, send_request) h
        | inr ((m, name), x) ↦ elim (Option-cases (lookup m pool.connections)) [
          | inl y ↦ rw (x, y, send_request) (new_stream-IsSound false others request pool h keep)
          | inr (s, y) ↦ elim (Bool-cases (net.is_ready s)) [
            | inl z ↦ rw (x, y, z, send_request) h
            | inr z ↦
                rw (x, y, z, send_request) (new_stream-IsSound true others request pool h keep)
          ]
        ]
      ]

  -- What an answer comes from: a connection that is ready and was opened for the address of the
  -- request, over which the request was sent.
  unfoldable pub IsAnsweredBy : Request http Body → Response http Incoming → Type 0
  unfolding IsDialled
  IsAnsweredBy request response =
      (m : Text) × (name : ServerName) × (sender : Sender) × ((get_server net request.uri
          ≡ ok (m, name))
        × (IsDialled (m, sender))
        × (net.is_ready sender ≡ true)
        × (net.send sender request ≡ ok response))

  send_over-ok :
      (sender : Sender) (request : Request http Body) (response : Response http Incoming)
      → send_over net sender request ≡ ok response
      → net.send sender request ≡ ok response
  unfolding send_over
  send_over-ok sender request response = elim (Result-cases (net.send sender request)) [
    | inl (e, x) ↦ rw (x, send_over) (λ h. cc)
    | inr (r, x) ↦ rw (x, send_over) (λ h. cc)
  ]

  send_over-IsAnsweredBy :
      (m : Text) (name : ServerName) (sender : Sender) (request : Request http Body)
      (response : Response http Incoming)
      → get_server net request.uri ≡ ok (m, name)
      → IsDialled (m, sender)
      → net.is_ready sender ≡ true
      → send_over net sender request ≡ ok response
      → IsAnsweredBy request response
  unfolding IsAnsweredBy
  send_over-IsAnsweredBy m name sender request response at dialled is_ready sent =
      (m, name, sender, (at, dialled, is_ready, send_over-ok sender request response sent))

  new_stream-IsAnsweredBy :
      (reading : Bool) (others : Others Sender) (request : Request http Body) (pool : Pool Sender)
      (response : Response http Incoming)
      → (send_request_new_stream net self_origin reading others request pool).1 ≡ ok response
      → IsAnsweredBy request response
  unfolding send_request_new_stream send_when_ready IsDialled
  new_stream-IsAnsweredBy reading others request pool response =
      elim (Result-cases (get_server net request.uri)) [
        | inl (e, x) ↦ rw (x, send_request_new_stream) (λ h. cc)
        | inr ((m, name), x) ↦ elim (Result-cases (dial net self_origin m name request.uri)) [
          | inl (e, y) ↦ rw (x, y, send_request_new_stream) (λ h. cc)
          | inr (s, y) ↦ elim (Bool-cases (net.is_ready s)) [
            | inl z ↦
                rw (x, y, z, send_request_new_stream, send_when_ready)
                  (send_over-IsAnsweredBy m name s request response x (request.uri, name, (x, y)) z)
            | inr z ↦ rw (x, y, z, send_request_new_stream, send_when_ready) (λ h. cc)
          ]
        ]
      ]

  -- With a sound pool, a request is answered only over a connection that was opened for its
  -- address and is ready.
  pub send_request-IsAnsweredBy :
      (others : Others Sender) (request : Request http Body) (pool : Pool Sender)
      (response : Response http Incoming)
      → IsSound pool
      → (send_request net self_origin others request pool).1 ≡ ok response
      → IsAnsweredBy request response
  unfolding send_request IsSound
  send_request-IsAnsweredBy others request pool response h =
      elim (Result-cases (get_server net request.uri)) [
        | inl (e, x) ↦ rw (x, send_request) (λ k. cc)
        | inr ((m, name), x) ↦ elim (Option-cases (lookup m pool.connections)) [
          | inl y ↦
              rw (x, y, send_request) (new_stream-IsAnsweredBy false others request pool response)
          | inr (s, y) ↦ elim (Bool-cases (net.is_ready s)) [
            | inl z ↦
                rw (x, y, z, send_request)
                  (send_over-IsAnsweredBy m name s request response x
                    (lookup-All IsDialled m s pool.connections h.0 y) z)
            | inr z ↦
                rw (x, y, z, send_request)
                  (new_stream-IsAnsweredBy true others request pool response)
          ]
        ]
      ]
