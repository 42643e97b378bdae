-- ===== src/Server/Relay/Duplex/Laws.antt =====
-- What each end gets from the two loops together.
use mantalon.Base.{
  take, concat, leb, Bool-cases, ℕ, List, [], ◌∷◌, ◌++◌, true, false, Text, length, drop, ◌==◌, ◌≡◌,
  refl, ap, arith, All, append_assoc, take-append_length, inl, inr, ◌⊎◌, ==_iff, ◌∙◌, sym,
}
use mantalon.Server.Relay.{
  waiting, Relayed, ends, Received, binary, text, closed, error, Writes, succeed, unflushed,
  fails_behind, under_way, write_out, write, send_out, relay_websocket_to_transport, Read, got,
  failed, relay_loop,
}
use mantalon.Server.Relay.Delivery.{
  payloads, chunks, IsPrefix, concat-append, concat-IsPrefix, behind-IsPrefix, length-ne,
  relay_websocket_to_transport-IsPrefix, relay_loop-IsPrefix,
}
use mantalon.Server.Relay.Duplex.{
  Turn, from_websocket, from_transport, is_waiting, is_sending, buffer_behind, websocket_turns,
  transport_turns, relay,
}

-- A round brings the payload of its event and goes on, or it is the last of its loop.
abbrev IsRound : (round : Relayed) (here all : List Text) → Type 0
IsRound round here all =
    ((is_waiting round.status ≡ true) × (round.sent ++ here ≡ all))
    ⊎ (is_waiting round.status ≡ false)

write_out-IsRound :
    (message : Text) (w : Writes) (here : List Text)
    → IsRound (write_out message w (ends waiting)) here (message ∷ here)
write_out-IsRound message succeed here = inl (refl, refl)
write_out-IsRound message unflushed here = inr refl
write_out-IsRound message (fails_behind k) here = inr refl
write_out-IsRound message (under_way k) here = inr refl

write-IsRound :
    (n : ℕ) (message : Text) (w : Writes) (here : List Text)
    → IsRound (write n message w (ends waiting)) here (message ∷ here)
write-IsRound n message w here = elim (Bool-cases (n == length message)) [
  | inr wrong ↦ rw wrong (inr refl)
  | inl same ↦ rw same (write_out-IsRound message w here)
]

relay_websocket_to_transport-IsRound :
    (e : Received × Writes) (events : List (Received × Writes))
    → IsRound (relay_websocket_to_transport (e ∷ [])) (payloads events) (payloads (e ∷ events))
unfolding relay_websocket_to_transport
relay_websocket_to_transport-IsRound (binary n message, w) events =
    write-IsRound n message w (payloads events)
relay_websocket_to_transport-IsRound (text n message, w) events =
    write-IsRound n message w (payloads events)
relay_websocket_to_transport-IsRound (closed, w) events = inr refl
relay_websocket_to_transport-IsRound (error, w) events = inr refl

send_out-IsRound :
    (message : Text) (w : Writes) (here : List Text)
    → IsRound (send_out message w (ends waiting)) here (message ∷ here)
send_out-IsRound message succeed here = inl (refl, refl)
send_out-IsRound message unflushed here = inr refl
send_out-IsRound message (fails_behind k) here = elim (Bool-cases (leb (length message) k)) [
  | inl x ↦ rw x (inr refl)
  | inr x ↦ rw x (inr refl)
]
send_out-IsRound message (under_way k) here = elim (Bool-cases (leb (length message) k)) [
  | inl x ↦ rw x (inr refl)
  | inr x ↦ rw x (inr refl)
]

relay_loop-IsRound :
    (buffer : Text) (e : Read × Writes) (events : List (Read × Writes))
    → IsRound (relay_loop buffer (e ∷ [])) (chunks events) (chunks (e ∷ events))
unfolding relay_loop
relay_loop-IsRound buffer (failed, w) events = inr refl
relay_loop-IsRound buffer (got [], w) events = inr refl
relay_loop-IsRound buffer (got (x ∷ xs), w) events =
    let taken : take (length (x ∷ xs)) ((x ∷ xs) ++ drop (length (x ∷ xs)) buffer) ≡ x ∷ xs =
      take-append_length (x ∷ xs) (drop (length (x ∷ xs)) buffer) in
    rw (length-ne x xs, taken) (send_out-IsRound (x ∷ xs) w (chunks events))

-- More events bring more payloads, and more chunks, at the end.
payloads-IsPrefix :
    (e : Received × Writes) (events : List (Received × Writes))
    → IsPrefix (payloads (e ∷ [])) (payloads (e ∷ events))
payloads-IsPrefix (binary n message, w) events = (payloads events, refl)
payloads-IsPrefix (text n message, w) events = (payloads events, refl)
payloads-IsPrefix (closed, w) events = ([], refl)
payloads-IsPrefix (error, w) events = ([], refl)

chunks-IsPrefix :
    (e : Read × Writes) (events : List (Read × Writes))
    → IsPrefix (chunks (e ∷ [])) (chunks (e ∷ events))
chunks-IsPrefix (failed, w) events = ([], refl)
chunks-IsPrefix (got [], w) events = ([], refl)
chunks-IsPrefix (got (x ∷ xs), w) events = (chunks events, refl)

trans-IsPrefix : {A : Type 0} (xs ys zs : List A) → IsPrefix xs ys → IsPrefix ys zs → IsPrefix xs zs
trans-IsPrefix xs ys zs (p, e) (q, f) = (p ++ q, f ∙ ap (λ l. l ++ q) e ∙ append_assoc xs p q)

-- The last round of a loop.
last_up :
    (e : Received × Writes) (events : List (Received × Writes))
    → IsPrefix
        (concat (relay_websocket_to_transport (e ∷ [])).sent)
        (concat (payloads (e ∷ events)))
last_up e events =
    trans-IsPrefix _ (concat (payloads (e ∷ []))) _ (relay_websocket_to_transport-IsPrefix (e ∷ []))
      (concat-IsPrefix _ _ (payloads-IsPrefix e events))

last_down :
    (buffer : Text) (e : Read × Writes) (events : List (Read × Writes))
    → IsPrefix (relay_loop buffer (e ∷ [])).sent (chunks (e ∷ events))
last_down buffer e events =
    trans-IsPrefix _ (chunks (e ∷ [])) _ (relay_loop-IsPrefix buffer (e ∷ []))
      (chunks-IsPrefix e events)

behind_up :
    (sent rest here : List Text) {all : List Text}
    → sent ++ here ≡ all
    → IsPrefix (concat rest) (concat here)
    → IsPrefix (concat (sent ++ rest)) (concat all)
behind_up sent rest here e p =
    let (more, q) =
      behind-IsPrefix (concat sent) (concat rest) (sym (concat-append sent here) ∙ ap concat e) p in
    (more, q ∙ ap (λ l. l ++ more) (sym (concat-append sent rest)))

-- Whatever fails, however much of a message is out when a sending fails or the task ends, and however
-- it ends: the transport has been sent the first of the bytes that the websocket gave, and the
-- websocket the first of the chunks that the transport gave, in order.
pub relay-IsPrefix :
    (buffer : Text) (turns : List Turn)
    → IsPrefix
        (concat (relay buffer turns).to_transport)
        (concat (payloads (websocket_turns turns)))
      × IsPrefix (relay buffer turns).to_websocket (chunks (transport_turns turns))
unfolding relay
relay-IsPrefix buffer [] = (([], refl), ([], refl))
relay-IsPrefix buffer (from_websocket e ∷ turns) =
    let (up, down) = relay-IsPrefix buffer turns in
    let last = last_up e (websocket_turns turns) in
    let round = relay_websocket_to_transport (e ∷ []) in
    elim (relay_websocket_to_transport-IsRound e (websocket_turns turns)) [
      | inl (going, all) ↦
          rw (going, relay)
            (
              behind_up round.sent (relay buffer turns).to_transport
                  (payloads (websocket_turns turns)) all up,
              down,
            )
      | inr over ↦ elim (Bool-cases (is_sending round.status)) [
        | inl busy ↦
            rw (over, busy, relay) (last, relay_loop-IsPrefix buffer (transport_turns turns))
        | inr ended ↦ rw (over, ended, relay) (last, (chunks (transport_turns turns), refl))
      ]
    ]
relay-IsPrefix buffer (from_transport e ∷ turns) =
    let (up, down) = relay-IsPrefix (buffer_behind buffer e.0) turns in
    let last = last_down buffer e (transport_turns turns) in
    let round = relay_loop buffer (e ∷ []) in
    elim (relay_loop-IsRound buffer e (transport_turns turns)) [
      | inl (going, all) ↦ rw (going, relay) (up, behind-IsPrefix _ _ all down)
      | inr over ↦ elim (Bool-cases (is_sending round.status)) [
        | inl busy ↦
            rw (over, busy, relay)
              (relay_websocket_to_transport-IsPrefix (websocket_turns turns), last)
        | inr ended ↦
            rw (over, ended, relay) ((concat (payloads (websocket_turns turns)), refl), last)
      ]
    ]

-- A turn whose sending succeeds, with a payload and its true length.
abbrev pub IsOpen : Turn → Type 0
IsOpen (from_websocket (binary n message, w)) = (n ≡ length message) × (w ≡ succeed)
IsOpen (from_websocket (text n message, w)) = (n ≡ length message) × (w ≡ succeed)
IsOpen (from_transport (got (x ∷ xs), w)) = w ≡ succeed
IsOpen _ = ⊥

-- While every sending succeeds and neither end has ended, each end has been sent all that the other
-- gave, and the task waits for more.
pub relay-IsOpen :
    (buffer : Text) (turns : List Turn)
    → All IsOpen turns
    → relay buffer turns ≡ record {
      to_transport = payloads (websocket_turns turns);
      to_websocket = chunks (transport_turns turns);
      status = waiting;
    }
unfolding relay relay_websocket_to_transport relay_loop
relay-IsOpen buffer [] h = refl
relay-IsOpen buffer (from_websocket (binary n message, w) ∷ turns) (h, hs) =
    ground (arith, relay-IsOpen buffer turns hs, ==_iff n (length message))
relay-IsOpen buffer (from_websocket (text n message, w) ∷ turns) (h, hs) =
    ground (arith, relay-IsOpen buffer turns hs, ==_iff n (length message))
relay-IsOpen buffer (from_websocket (closed, w) ∷ turns) (h, hs) = absurd h
relay-IsOpen buffer (from_websocket (error, w) ∷ turns) (h, hs) = absurd h
relay-IsOpen buffer (from_transport (failed, w) ∷ turns) (h, hs) = absurd h
relay-IsOpen buffer (from_transport (got [], w) ∷ turns) (h, hs) = absurd h
relay-IsOpen buffer (from_transport (got (x ∷ xs), w) ∷ turns) (h, hs) = ground (
  arith,
  relay-IsOpen (buffer_behind buffer (got (x ∷ xs))) turns hs,
  take-append_length xs (drop (length (x ∷ xs)) buffer),
)
