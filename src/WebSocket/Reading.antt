-- ===== src/WebSocket/Reading.antt =====
-- One read: which bytes it takes, and who is woken for the next.
use mantalon.Base.{
  ℕ, zero, suc, List, [], ◌∷◌, ◌++◌, none, some, Bool, true, false, Text, length, take, drop,
  if◌then◌else◌, ◌==◌, ◌≡◌, refl, ap, arith, ◌∙◌, All,
}
use mantalon.WebSocket.{
  WebSocket, Output, Poll, pending, filled, quiet, take_blob, blob_read, read_loop, poll_read,
  Event, read_polled, message, blob_done, ready_polled, shutdown_polled, step, run,
}

read_loop_lem :
    (remaining : ℕ) (buffer : Text)
    → read_loop remaining buffer ≡ (take remaining buffer, drop remaining buffer)
unfolding read_loop
read_loop_lem zero buffer = refl
read_loop_lem (suc remaining) [] = refl
read_loop_lem (suc remaining) (byte ∷ buffer) = rw (read_loop_lem remaining buffer) refl

poll_of :
    (bytes : Text)
    → (if length bytes == 0 then pending else filled bytes)
      ≡ elim bytes [ [] ↦ pending | byte ∷ rest ↦ filled (byte ∷ rest) ]
poll_of [] = refl
poll_of (byte ∷ rest) = ground arith

-- A read with room takes as many bytes as it has room for off the front of the buffer, or all, and
-- is pending exactly when there are none; a read with no room is pending. In each case the reader
-- is the one that will be woken, and nothing else changes.
pub poll_read_lem :
    (waker remaining : ℕ) (ws : WebSocket)
    → poll_read waker remaining ws ≡ (
      record ws { read_waker = some waker; buffer = drop remaining ws.buffer },
      quiet
          (elim (take remaining ws.buffer) [ [] ↦ pending | byte ∷ bytes ↦ filled (byte ∷ bytes) ]),
    )
unfolding poll_read
poll_read_lem waker remaining ws =
    rw (read_loop_lem remaining ws.buffer, poll_read)
      (ap
        (λ (poll : Poll).
          (record ws { read_waker = some waker; buffer = drop remaining ws.buffer }, quiet poll))
        (poll_of (take remaining ws.buffer)))

abbrev pub is_read : Event → Bool
is_read (read_polled waker remaining) = true
is_read _ = false

-- Only a read changes who is woken by the bytes of a blob.
step-read_waker :
    (e : Event) (ws : WebSocket) → is_read e ≡ false → (step e ws).0.read_waker ≡ ws.read_waker
unfolding step
step-read_waker (read_polled waker remaining) ws h = cc
step-read_waker (message none) ws h = refl
step-read_waker (message (some blob)) ws h = refl
step-read_waker (blob_done i) ws h = ground arith
step-read_waker (ready_polled waker) ws h = ground arith
step-read_waker (shutdown_polled true) ws h = refl
step-read_waker (shutdown_polled false) ws h = refl
step-read_waker _ ws h = refl

run-read_waker :
    (events : List Event) (ws : WebSocket)
    → All (λ e. is_read e ≡ false) events
    → (run events ws).0.read_waker ≡ ws.read_waker
unfolding run
run-read_waker [] ws h = refl
run-read_waker (e ∷ events) ws (h, hs) =
    run-read_waker events (step e ws).0 hs ∙ step-read_waker e ws h

-- No wake-up of a reader is lost: behind a read, and whatever other events, the next blob whose
-- bytes arrive wakes exactly the task of that read, and its bytes are at the end of the buffer.
pub blob_read-poll_read :
    (waker remaining i : ℕ) (events : List Event) (ws : WebSocket) (blob : Text) (blobs : List Text)
    → All (λ e. is_read e ≡ false) events
    → take_blob i (run events (poll_read waker remaining ws).0).0.blobs ≡ some (blob, blobs)
    → ((blob_read i (run events (poll_read waker remaining ws).0).0).1.woken ≡ waker ∷ [])
      × ((blob_read i (run events (poll_read waker remaining ws).0).0).0.buffer
          ≡ (run events (poll_read waker remaining ws).0).0.buffer ++ blob)
unfolding blob_read
blob_read-poll_read waker remaining i events ws blob blobs quiet_events taken =
    let waits : (run events (poll_read waker remaining ws).0).0.read_waker ≡ some waker =
      run-read_waker events (poll_read waker remaining ws).0 quiet_events
      ∙ ap (λ (r : WebSocket × Output). r.0.read_waker) (poll_read_lem waker remaining ws) in
    (rw (taken, blob_read, waits) refl, rw (taken, blob_read) refl)

drop-nil : (n : ℕ) → drop {A = ℕ} n [] ≡ []
drop-nil zero = refl
drop-nil (suc n) = refl

take-nil : (n : ℕ) → take {A = ℕ} n [] ≡ []
take-nil zero = refl
take-nil (suc n) = refl

-- A read is never answered by the end of the stream, which would be an answer with no byte: with
-- an empty buffer it is pending, also when the socket is closed.
poll_read-empty :
    (waker remaining : ℕ) (ws : WebSocket)
    → ws.buffer ≡ []
    → poll_read waker remaining ws
      ≡ (record ws { read_waker = some waker; buffer = [] }, quiet pending)
poll_read-empty waker remaining ws e =
    poll_read_lem waker remaining ws ∙ rw (e, drop-nil remaining, take-nil remaining) refl
