-- ===== src/Pool/Reuse.antt =====
-- The connections of the pool: which a request uses, and which it leaves behind.
use mantalon.Base.{
  ok, List, [], ◌∷◌, ◌++◌, none, some, Bool, true, false, Text, eqb, eqb_refl, if◌then◌else◌, ◌≡◌,
  refl, ap, ◌∙◌, ◌⊎◌, inl, inr, arith,
}
use mantalon.Base.Assoc.{Assoc, lookup, insert, lookup-insert, lookup-remove}
use mantalon.Http.{Http, Request}
use mantalon.Pool.{
  ServerName, Net, Pool, Others, store, run_waiting, on_close, get_server, dial, send_over,
  send_when_ready, send_request_new_stream, send_request, Answered,
}

module _ {Sender : Type 0} where
  insert_waiting : List (Text × Sender) → Assoc Sender → Assoc Sender
  insert_waiting [] m = m
  insert_waiting ((k, s) ∷ waiting) m = insert_waiting waiting (insert k s m)

  insert_waiting-append :
      (waiting : List (Text × Sender)) (k : Text) (s : Sender) (m : Assoc Sender)
      → insert_waiting (waiting ++ (k, s) ∷ []) m ≡ insert k s (insert_waiting waiting m)
  unfolding insert_waiting
  insert_waiting-append [] k s m = refl
  insert_waiting-append ((j, t) ∷ waiting) k s m = insert_waiting-append waiting k s (insert j t m)

  -- What the map comes to when every task that waits for the lock has had it.
  pub settled : Pool Sender → Assoc Sender
  settled pool = insert_waiting pool.waiting pool.connections

  from_waiting :
      (waiting : List (Text × Sender)) (pool : Pool Sender)
      → pool.waiting ≡ waiting
      → settled (run_waiting pool) ≡ insert_waiting waiting pool.connections
  unfolding settled insert_waiting run_waiting
  from_waiting [] pool e = rw (e, run_waiting) (ap (λ l. insert_waiting l pool.connections) e)
  from_waiting ((m, s) ∷ waiting) pool e = rw (e, run_waiting) refl

  -- To let the task that has waited longest write its connection does not change what the pool
  -- comes to.
  settled-run_waiting : (pool : Pool Sender) → settled (run_waiting pool) ≡ settled pool
  unfolding settled insert_waiting run_waiting
  settled-run_waiting pool = from_waiting pool.waiting pool refl

  -- A connection that a request stores is found under its address, and those of the other addresses
  -- stay: at once when nobody holds the lock and no task waits for it, and else when the tasks
  -- have had it.
  lookup-store :
      (locked : Bool) (m j : Text) (s : Sender) (pool : Pool Sender)
      → (locked ≡ true) ⊎ (pool.waiting ≡ [])
      → lookup j (settled (store locked m s pool))
        ≡ (if eqb m j then some s else lookup j (settled pool))
  unfolding settled store insert_waiting
  lookup-store true m j s pool h =
      rw (insert_waiting-append pool.waiting m s pool.connections)
        (lookup-insert m j s (insert_waiting pool.waiting pool.connections))
  lookup-store false m j s pool (inl h) = cc
  lookup-store false m j s pool (inr h) = rw h (lookup-insert m j s pool.connections)

  -- The end of a socket makes the pool forget the connection of its address, and no other; it
  -- forgets it also when it is a newer connection than that of the socket.
  on_close-store :
      (m j : Text) (s : Sender) (pool : Pool Sender)
      → lookup j (on_close m (store false m s pool)).connections
        ≡ (if eqb m j then none else lookup j pool.connections)
  unfolding on_close store
  on_close-store m j s pool =
      lookup-remove m j (insert m s pool.connections)
      ∙ ground (arith, lookup-insert m j s pool.connections)

module _ {http : Http} {Body Incoming : Type 0} (net : Net http Body Incoming) where
  open net use {Sender}

  -- What a request leaves behind when it opens a connection.
  send_request-stored :
      (self_origin m : Text) (name : ServerName) (sender : Sender) (others : Others Sender)
      (request : Request http Body) (pool : Pool Sender)
      → get_server net request.uri ≡ ok (m, name)
      → (lookup m pool.connections ≡ none)
      → dial net self_origin m name request.uri ≡ ok sender
      → send_request net self_origin others request pool ≡ (
        store others.holds_lock m sender (others.meanwhile pool),
        send_when_ready net sender request,
      )
  unfolding send_request send_request_new_stream
  send_request-stored self_origin m name sender others request pool at missing dialled =
      rw (at, missing, send_request) (rw (at, dialled, send_request_new_stream) refl)

  -- A request whose address has no connection in the pool that is ready, and for which one can be
  -- opened, leaves it to the next requests: a request to the same address that follows, when the
  -- tasks that wait for the lock have had it, is sent over that connection, whatever its scheme
  -- and its path, and changes nothing in the pool. The condition is that the connection is
  -- ready, and that the other tasks leave none waiting.
  send_request-send_request :
      (self_origin m : Text) (name name' : ServerName) (sender : Sender)
      (others others' : Others Sender) (request request' : Request http Body)
      (pool pool' : Pool Sender)
      → get_server net request.uri ≡ ok (m, name)
      → get_server net request'.uri ≡ ok (m, name')
      → lookup m pool.connections ≡ none
      → dial net self_origin m name request.uri ≡ ok sender
      → net.is_ready sender ≡ true
      → (others.meanwhile pool).waiting ≡ []
      → pool'.connections ≡ settled (send_request net self_origin others request pool).0
      → send_request net self_origin others' request' pool' ≡ (pool', send_over net sender request')
  unfolding send_request
  send_request-send_request self_origin m name name' sender others others' request request' pool
        pool' at at' missing dialled is_ready free settles =
      let found : lookup m pool'.connections ≡ some sender =
        ap (lookup m) settles
        ∙ ap (λ (r : Answered net). lookup m (settled r.0))
            (send_request-stored self_origin m name sender others request pool at missing dialled)
        ∙ lookup-store others.holds_lock m m sender (others.meanwhile pool) (inr free)
        ∙ rw (eqb_refl m) refl in
      rw (at', found, is_ready, send_request) refl
