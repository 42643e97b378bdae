-- ===== src/Tunnel/Streams.antt =====
-- The bytes of a tunnel, from end to end: `WrappedWebSocket` of mantalon-client/src/websocket.rs on
-- one side, the relay task of mantalon-server/src/handler.rs and relay.rs on the other, and the
-- messages of the websocket between them.
use mantalon.Base.{
  List, [], ◌∷◌, ◌++◌, none, some, true, false, Text, length, take, concat, ◌≡◌, refl, ap, sym, ◌∙◌,
  append_assoc, append-nil, All, take-append_length,
}
use mantalon.WebSocket.{
  WebSocket, Output, Poll, wrote, Event, message, write_polled, step, run, new, ReadyState,
  poll_write,
}
use mantalon.WebSocket.Stream.{delivered, held, arrived, IsInOrder, run-delivered}
use mantalon.Server.Relay.Delivery.{payloads, chunks, IsPrefix, concat-IsPrefix}
use mantalon.Server.Relay.Duplex.{Turn, Duplex, websocket_turns, transport_turns, relay}
use mantalon.Server.Relay.Duplex.Laws.{relay-IsPrefix}

-- What a write is told to have sent, of the bytes that it was given.
abbrev pub acknowledged_by : Event → Poll → Text
acknowledged_by (write_polled sent buf) (wrote n) = take n buf
acknowledged_by _ _ = []

abbrev pub acknowledged : List Event → List Output → Text
acknowledged (e ∷ events) (o ∷ outputs) = acknowledged_by e o.poll ++ acknowledged events outputs
acknowledged _ _ = []

-- The messages that the browser takes from the client, and those that it hands to it.
abbrev pub sent_messages : List Event → List Text
sent_messages [] = []
sent_messages (write_polled true buf ∷ events) = buf ∷ sent_messages events
sent_messages (_ ∷ events) = sent_messages events

abbrev pub received_messages : List Event → List Text
received_messages [] = []
received_messages (message (some blob) ∷ events) = blob ∷ received_messages events
received_messages (_ ∷ events) = received_messages events

take-length : (xs : Text) → take (length xs) xs ≡ xs
take-length xs = ap (take (length xs)) (sym (append-nil xs)) ∙ take-append_length xs []

acknowledged-sent_messages :
    (events : List Event) (ws : WebSocket)
    → acknowledged events (run events ws).1 ≡ concat (sent_messages events)
unfolding run step poll_write
acknowledged-sent_messages [] ws = refl
acknowledged-sent_messages (write_polled true buf ∷ events) ws =
    rw (take-length buf, acknowledged-sent_messages events ws)
acknowledged-sent_messages (write_polled false buf ∷ events) ws =
    acknowledged-sent_messages events ws
acknowledged-sent_messages (e ∷ events) ws = acknowledged-sent_messages events (step e ws).0

arrived-received_messages :
    (events : List Event) → arrived events ≡ concat (received_messages events)
arrived-received_messages [] = refl
arrived-received_messages (message (some blob) ∷ events) =
    ap (λ l. blob ++ l) (arrived-received_messages events)
arrived-received_messages (message none ∷ events) = arrived-received_messages events
arrived-received_messages (e ∷ events) = arrived-received_messages events

-- What a websocket does between its ends: it hands over messages that were sent, from the first
-- on, in order.
pub record IsCarried (uninit : Text) (turns : List Turn) (events : List Event) : Type 0 where
  pub up : IsPrefix (payloads (websocket_turns turns)) (sent_messages events)
  pub down : IsPrefix (received_messages events) (relay uninit turns).to_websocket

module _ (uninit : Text) (turns : List Turn) (events : List Event) (state : ReadyState) where
  to_transport-IsPrefix :
      IsCarried uninit turns events
      → IsPrefix
          (concat (relay uninit turns).to_transport)
          (acknowledged events (run events (new state)).1)
  to_transport-IsPrefix carried =
      let (more, p) = (relay-IsPrefix uninit turns).0 in
      let (rest, q) = concat-IsPrefix _ (sent_messages events) carried.up in
      let sent = concat (relay uninit turns).to_transport in
      (
        more ++ rest,
        acknowledged-sent_messages events (new state)
            ∙ q
            ∙ ap (λ l. l ++ rest) p
            ∙ append_assoc sent more rest,
      )

  -- The bytes of the messages that have arrived are those that were read and those still held.
  read_and_held :
      All IsInOrder events
      → delivered (run events (new state)).1 ++ held (run events (new state)).0
        ≡ concat (received_messages events)
  unfolding new
  read_and_held in_order =
      run-delivered events (new state) in_order ∙ arrived-received_messages events

  delivered-IsPrefix :
      IsCarried uninit turns events
      → All IsInOrder events
      → IsPrefix (delivered (run events (new state)).1) (concat (chunks (transport_turns turns)))
  delivered-IsPrefix carried in_order =
      let (more, p) = (relay-IsPrefix uninit turns).1 in
      let (rest, q) = carried.down in
      let received = received_messages events in
      let read = delivered (run events (new state)).1 in
      let left = held (run events (new state)).0 in
      let (bytes, r) =
        concat-IsPrefix received (chunks (transport_turns turns))
          (rest ++ more, p ∙ ap (λ l. l ++ more) q ∙ append_assoc received rest more) in
      (
        left ++ bytes,
        r ∙ ap (λ l. l ++ bytes) (sym (read_and_held in_order)) ∙ append_assoc read left bytes,
      )

  -- A tunnel carries two streams of bytes, whatever fails at either end, wherever in a message a sending of
  -- the server fails or is dropped, and whichever of its loops ends first: the transport has been sent the first of the bytes that the client's writes were
  -- told to have sent, in order, and the client has read the first of the bytes that the transport
  -- gave. The conditions are that the websocket between them hands over the first of the messages
  -- in order, and that the tasks that read the client's blobs end in order.
  pub streams-IsPrefix :
      IsCarried uninit turns events
      → All IsInOrder events
      → IsPrefix
          (concat (relay uninit turns).to_transport)
          (acknowledged events (run events (new state)).1)
        × IsPrefix (delivered (run events (new state)).1) (concat (chunks (transport_turns turns)))
  streams-IsPrefix carried in_order =
      (to_transport-IsPrefix carried, delivered-IsPrefix carried in_order)
