-- ===== src/Server/Relay/Delivery.antt =====
-- What the relay delivers: the payloads, in order, and nothing else.
use mantalon.Base.{
  ℕ, take, take-append-drop, concat, append_assoc, append-nil, sym, ◌∙◌, leb, List, [], ◌∷◌, ◌++◌,
  false, Text, length, drop, ◌==◌, ◌≡◌, refl, ap, arith, All, take-append_length, Bool-cases, inl,
  inr, ==_iff,
}
use mantalon.Server.Relay.{
  Status, waiting, sending, finished, panicked, Relayed, ends, Received, binary, text, closed,
  error, Writes, succeed, unflushed, fails_behind, under_way, write_out, write, if_whole, send_out,
  relay_websocket_to_transport, Read, got, failed, relay_loop, relay_transport_to_websocket,
}

-- The payloads up to the end of the websocket, and those up to the end of the transport.
abbrev pub payloads : List (Received × Writes) → List Text
payloads [] = []
payloads ((binary n message, w) ∷ events) = message ∷ payloads events
payloads ((text n message, w) ∷ events) = message ∷ payloads events
payloads ((closed, w) ∷ events) = []
payloads ((error, w) ∷ events) = []

abbrev pub chunks : List (Read × Writes) → List Text
chunks [] = []
chunks ((failed, w) ∷ events) = []
chunks ((got [], w) ∷ events) = []
chunks ((got (x ∷ xs), w) ∷ events) = (x ∷ xs) ∷ chunks events

-- How a loop over these events ends if no sending fails.
abbrev pub websocket_status : List (Received × Writes) → Status
websocket_status [] = waiting
websocket_status ((binary n message, w) ∷ events) = websocket_status events
websocket_status ((text n message, w) ∷ events) = websocket_status events
websocket_status _ = finished

abbrev pub transport_status : List (Read × Writes) → Status
transport_status [] = waiting
transport_status ((got (x ∷ xs), w) ∷ events) = transport_status events
transport_status _ = finished

-- Every sending succeeds, and `receive_data` reports the length of each message.
abbrev pub AllSucceed : {E : Type 0} → List (E × Writes) → Type 0
AllSucceed events = All (λ e. e.1 ≡ succeed) events

abbrev pub IsReported : Received → Type 0
IsReported (binary n message) = n ≡ length message
IsReported (text n message) = n ≡ length message
IsReported _ = Unit

-- If no sending fails, the transport gets exactly the payloads of the binary and text messages in
-- the order in which they came, until the websocket is closed or fails; then the loop ends, and
-- else it waits for more.
relay_websocket_to_transport-payloads :
    (events : List (Received × Writes))
    → AllSucceed events
    → All (λ e. IsReported e.0) events
    → relay_websocket_to_transport events
      ≡ record { sent = payloads events; status = websocket_status events }
unfolding relay_websocket_to_transport
relay_websocket_to_transport-payloads [] s r = refl
relay_websocket_to_transport-payloads ((binary n message, w) ∷ events) (s, ss) (r, rs) =
    ground (arith, relay_websocket_to_transport-payloads events ss rs, ==_iff n (length message))
relay_websocket_to_transport-payloads ((text n message, w) ∷ events) (s, ss) (r, rs) =
    ground (arith, relay_websocket_to_transport-payloads events ss rs, ==_iff n (length message))
relay_websocket_to_transport-payloads ((closed, w) ∷ events) s r = refl
relay_websocket_to_transport-payloads ((error, w) ∷ events) s r = refl

-- If no sending fails, the websocket gets exactly the chunks that were read from the transport, in
-- order, until the transport ends or fails, and never a byte that was in the buffer before.
relay_transport_to_websocket-chunks :
    (uninit : Text) (events : List (Read × Writes))
    → AllSucceed events
    → relay_transport_to_websocket uninit events
      ≡ record { sent = chunks events; status = transport_status events }
unfolding relay_transport_to_websocket
relay_transport_to_websocket-chunks buffer [] s = refl
relay_transport_to_websocket-chunks buffer ((failed, w) ∷ events) s = refl
relay_transport_to_websocket-chunks buffer ((got [], w) ∷ events) s = refl
relay_transport_to_websocket-chunks buffer ((got (x ∷ xs), w) ∷ events) (s, ss) = ground (
  arith,
  relay_transport_to_websocket-chunks ((x ∷ xs) ++ drop (length (x ∷ xs)) buffer) events ss,
  take-append_length (x ∷ xs) (drop (length (x ∷ xs)) buffer),
)

abbrev pub IsPrefix {ℓ} : {A : Type ℓ} → List A → List A → Type ℓ
IsPrefix {A} xs ys = (rest : List A) × (ys ≡ xs ++ rest)

pub concat-append : (xs ys : List Text) → concat (xs ++ ys) ≡ concat xs ++ concat ys
concat-append [] ys = refl
concat-append (x ∷ xs) ys =
    ap (λ l. x ++ l) (concat-append xs ys) ∙ sym (append_assoc x (concat xs) (concat ys))

pub concat-IsPrefix : (xs ys : List Text) → IsPrefix xs ys → IsPrefix (concat xs) (concat ys)
concat-IsPrefix xs ys (rest, e) = (concat rest, ap concat e ∙ concat-append xs rest)

-- What follows something may be cut short, too.
pub behind-IsPrefix :
    {A : Type 0} (xs rest : List A) {ys all : List A}
    → xs ++ ys ≡ all
    → IsPrefix rest ys
    → IsPrefix (xs ++ rest) all
behind-IsPrefix xs rest e (more, p) =
    (more, sym e ∙ ap (λ l. xs ++ l) p ∙ sym (append_assoc xs rest more))

take-IsPrefix : (k : ℕ) (xs : Text) → IsPrefix (take k xs) xs
take-IsPrefix k xs = (drop k xs, sym (take-append-drop k xs))

-- A part of a message is the first of it and of what follows.
part-IsPrefix : (k : ℕ) (message bytes : Text) → IsPrefix (take k message ++ []) (message ++ bytes)
part-IsPrefix k message bytes =
    let (rest, e) = take-IsPrefix k message in
    (
      rest ++ bytes,
      ap (λ l. l ++ bytes) e
          ∙ append_assoc (take k message) rest bytes
          ∙ ap (λ l. l ++ (rest ++ bytes)) (sym (append-nil (take k message))),
    )

write_out-IsPrefix :
    (message : Text) (w : Writes) (r : Relayed) (bytes : Text)
    → IsPrefix (concat r.sent) bytes
    → IsPrefix (concat (write_out message w r).sent) (message ++ bytes)
write_out-IsPrefix message succeed r bytes p = behind-IsPrefix message (concat r.sent) refl p
write_out-IsPrefix message unflushed r bytes p = behind-IsPrefix message [] refl (bytes, refl)
write_out-IsPrefix message (fails_behind k) r bytes p = part-IsPrefix k message bytes
write_out-IsPrefix message (under_way k) r bytes p = part-IsPrefix k message bytes

pub write-IsPrefix :
    (n : ℕ) (message : Text) (w : Writes) (r : Relayed) (bytes : Text)
    → IsPrefix (concat r.sent) bytes
    → IsPrefix (concat (write n message w r).sent) (message ++ bytes)
write-IsPrefix n message w r bytes p = elim (Bool-cases (n == length message)) [
  | inr wrong ↦ rw wrong (message ++ bytes, refl)
  | inl same ↦ rw same (write_out-IsPrefix message w r bytes p)
]

-- Whatever fails and wherever a write ends, the transport has been sent the first of the bytes of the
-- payloads, in order.
pub relay_websocket_to_transport-IsPrefix :
    (events : List (Received × Writes))
    → IsPrefix (concat (relay_websocket_to_transport events).sent) (concat (payloads events))
unfolding relay_websocket_to_transport
relay_websocket_to_transport-IsPrefix [] = ([], refl)
relay_websocket_to_transport-IsPrefix ((binary n message, w) ∷ events) =
    write-IsPrefix n message w (relay_websocket_to_transport events) (concat (payloads events))
      (relay_websocket_to_transport-IsPrefix events)
relay_websocket_to_transport-IsPrefix ((text n message, w) ∷ events) =
    write-IsPrefix n message w (relay_websocket_to_transport events) (concat (payloads events))
      (relay_websocket_to_transport-IsPrefix events)
relay_websocket_to_transport-IsPrefix ((closed, w) ∷ events) = ([], refl)
relay_websocket_to_transport-IsPrefix ((error, w) ∷ events) = ([], refl)

if_whole-IsPrefix :
    (message : Text) (k : ℕ) (status : Status) (ys : List Text)
    → IsPrefix (if_whole message k (ends status)).sent (message ∷ ys)
if_whole-IsPrefix message k status ys = elim (Bool-cases (leb (length message) k)) [
  | inl x ↦ rw x (ys, refl)
  | inr x ↦ rw x (message ∷ ys, refl)
]

pub send_out-IsPrefix :
    (message : Text) (w : Writes) (r : Relayed) (ys : List Text)
    → IsPrefix r.sent ys
    → IsPrefix (send_out message w r).sent (message ∷ ys)
send_out-IsPrefix message succeed r ys (rest, e) = (rest, ap (λ l. message ∷ l) e)
send_out-IsPrefix message unflushed r ys p = (ys, refl)
send_out-IsPrefix message (fails_behind k) r ys p = if_whole-IsPrefix message k panicked ys
send_out-IsPrefix message (under_way k) r ys p = if_whole-IsPrefix message k sending ys

pub length-ne : (x : ℕ) (xs : Text) → (length (x ∷ xs) == 0) ≡ false
length-ne x xs = ground arith

-- Whatever fails and wherever a sending ends, the websocket has been sent the first of the chunks, in
-- order.
pub relay_loop-IsPrefix :
    (buffer : Text) (events : List (Read × Writes))
    → IsPrefix (relay_loop buffer events).sent (chunks events)
unfolding relay_loop
relay_loop-IsPrefix buffer [] = ([], refl)
relay_loop-IsPrefix buffer ((failed, w) ∷ events) = ([], refl)
relay_loop-IsPrefix buffer ((got [], w) ∷ events) = ([], refl)
relay_loop-IsPrefix buffer ((got (x ∷ xs), w) ∷ events) =
    let buffer' = (x ∷ xs) ++ drop (length (x ∷ xs)) buffer in
    let taken : take (length (x ∷ xs)) buffer' ≡ x ∷ xs =
      take-append_length (x ∷ xs) (drop (length (x ∷ xs)) buffer) in
    rw (length-ne x xs, taken)
      (send_out-IsPrefix (x ∷ xs) w (relay_loop buffer' events) (chunks events)
        (relay_loop-IsPrefix buffer' events))
