-- ===== src/WebSocket/Stream.antt =====
-- The bytes of the stream, from the messages of the browser to the reads.
use mantalon.Base.{
  ℕ, zero, suc, List, [], ◌∷◌, ◌++◌, Option, none, some, true, false, Text, take, drop, concat, ◌≡◌,
  refl, ap, sym, ◌∙◌, append_assoc, append-nil, take-append-drop, All, Bool-cases, inl, inr, ◌⊎◌,
}
use mantalon.WebSocket.{
  WebSocket, Output, Poll, pending, filled, wakes, take_blob, blob_read, poll_read, Event, opened,
  closed_, errored, flush, message, blob_done, ready_polled, read_polled, write_polled,
  shutdown_polled, step, run, new, open_, is_connecting, poll_ready, on_open, on_close, on_error,
  on_message, poll_write, poll_shutdown, poll_flush,
}
use mantalon.WebSocket.Reading.{poll_read_lem}

-- What a message brings, and what the answer of a poll takes.
abbrev pub arriving : Event → Text
arriving (message (some blob)) = blob
arriving _ = []

abbrev pub taken : Poll → Text
taken (filled bytes) = bytes
taken _ = []

abbrev pub arrived : List Event → Text
arrived [] = []
arrived (e ∷ events) = arriving e ++ arrived events

abbrev pub delivered : List Output → Text
delivered [] = []
delivered (o ∷ outputs) = taken o.poll ++ delivered outputs

-- The task that ends is the oldest one.
abbrev pub IsInOrder : Event → Type 0
IsInOrder (blob_done i) = i ≡ 0
IsInOrder _ = Unit

-- What has arrived and has not been read.
abbrev pub held : WebSocket → Text
held ws = ws.buffer ++ concat ws.blobs

concat-append : (xs : List Text) (x : Text) → concat (xs ++ x ∷ []) ≡ concat xs ++ x
concat-append [] x = append-nil x
concat-append (y ∷ xs) x =
    ap (λ l. y ++ l) (concat-append xs x) ∙ sym (append_assoc y (concat xs) x)

taken-take :
    (n : ℕ) (buffer : Text)
    → taken (elim (take n buffer) [ [] ↦ pending | byte ∷ bytes ↦ filled (byte ∷ bytes) ])
      ≡ take n buffer
taken-take zero buffer = refl
taken-take (suc n) [] = refl
taken-take (suc n) (x ∷ buffer) = refl

read-held :
    (waker remaining : ℕ) (ws : WebSocket)
    → taken (poll_read waker remaining ws).1.poll ++ held (poll_read waker remaining ws).0 ≡ held ws
read-held waker remaining ws =
    rw (poll_read_lem waker remaining ws, taken-take remaining ws.buffer)
      (sym (append_assoc (take remaining ws.buffer) (drop remaining ws.buffer) (concat ws.blobs))
        ∙ ap (λ l. l ++ concat ws.blobs) (take-append-drop remaining ws.buffer))

wakes_lem : (waker : Option ℕ) → taken (wakes waker).poll ≡ []
wakes_lem none = refl
wakes_lem (some waker) = refl

take_blob-cases :
    (blobs : List Text)
    → (take_blob 0 blobs ≡ none)
      ⊎ ((blob : Text) × (rest : List Text) × ((take_blob 0 blobs ≡ some (blob, rest))
            × (blobs ≡ blob ∷ rest)))
unfolding take_blob
take_blob-cases [] = inl refl
take_blob-cases (blob ∷ rest) = inr (blob, rest, (refl, refl))

blob-held : (ws : WebSocket) → taken (blob_read 0 ws).1.poll ++ held (blob_read 0 ws).0 ≡ held ws
unfolding blob_read
blob-held ws = elim (take_blob-cases ws.blobs) [
  | inl e ↦ rw (e, blob_read) refl
  | inr (blob, blobs, (taken, e)) ↦
      rw (taken, blob_read)
        (ap (λ l. l ++ ((ws.buffer ++ blob) ++ concat blobs)) (wakes_lem ws.read_waker)
          ∙ append_assoc ws.buffer blob (concat blobs)
          ∙ ap (λ l. ws.buffer ++ concat l) (sym e))
]

step-held :
    (e : Event) (ws : WebSocket)
    → IsInOrder e
    → taken (step e ws).1.poll ++ held (step e ws).0 ≡ held ws ++ arriving e
unfolding step on_open on_close on_message on_error poll_write poll_shutdown poll_flush poll_ready
step-held (read_polled waker remaining) ws h =
    read-held waker remaining ws ∙ sym (append-nil (held ws))
step-held (blob_done i) ws h = rw h (blob-held ws ∙ sym (append-nil (held ws)))
step-held (message none) ws h = sym (append-nil (held ws))
step-held (message (some blob)) ws h =
    ap (λ l. ws.buffer ++ l) (concat-append ws.blobs blob)
    ∙ sym (append_assoc ws.buffer (concat ws.blobs) blob)
step-held (ready_polled waker) ws h = elim (Bool-cases (is_connecting ws.ready_state)) [
  | inl e ↦ rw (e, poll_ready) (sym (append-nil (held ws)))
  | inr e ↦ rw (e, poll_ready) (sym (append-nil (held ws)))
]
step-held (shutdown_polled true) ws h = sym (append-nil (held ws))
step-held (shutdown_polled false) ws h = sym (append-nil (held ws))
step-held (write_polled true buf) ws h = sym (append-nil (held ws))
step-held (write_polled false buf) ws h = sym (append-nil (held ws))
step-held opened ws h =
    ap (λ l. l ++ held ws) (wakes_lem ws.open_waker) ∙ sym (append-nil (held ws))
step-held closed_ ws h = sym (append-nil (held ws))
step-held errored ws h = sym (append-nil (held ws))
step-held flush ws h = sym (append-nil (held ws))

-- When the tasks that read the blobs end in the order in which they were spawned, the stream is in
-- order and complete: what the reads have taken, followed by what is held, is what was held before,
-- followed by the messages in the order of their arrival.
pub run-delivered :
    (events : List Event) (ws : WebSocket)
    → All IsInOrder events
    → delivered (run events ws).1 ++ held (run events ws).0 ≡ held ws ++ arrived events
unfolding run
run-delivered [] ws h = sym (append-nil (held ws))
run-delivered (e ∷ events) ws (h, hs) =
    append_assoc (taken (step e ws).1.poll) (delivered (run events (step e ws).0).1)
      (held (run events (step e ws).0).0)
    ∙ ap (λ l. taken (step e ws).1.poll ++ l) (run-delivered events (step e ws).0 hs)
    ∙ sym (append_assoc (taken (step e ws).1.poll) (held (step e ws).0) (arrived events))
    ∙ ap (λ l. l ++ arrived events) (step-held e ws h)
    ∙ append_assoc (held ws) (arriving e) (arrived events)

-- The tasks may end in another order, and then the stream is not what was sent: of two messages the
-- second stands first if its task ends first.
run-reordered :
    (first second : Text)
    → (run
        (message (some first) ∷ message (some second) ∷ blob_done 1 ∷ blob_done 0 ∷ [])
        (new open_)).0.buffer
      ≡ second ++ first
unfolding run step new on_message blob_read take_blob
run-reordered first second = refl
