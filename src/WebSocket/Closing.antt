-- ===== src/WebSocket/Closing.antt =====
-- The end of a connection: the callback of the pool, and the futures that wait.
use mantalon.Base.{
  ℕ, ◌+◌, List, [], ◌∷◌, Option, none, some, Bool, true, false, ◌≡◌, refl, arith, All,
  if◌then◌else◌, ◌&&◌, any, Bool-cases, Option-cases, inl, inr,
}
use mantalon.WebSocket.{
  WebSocket, Output, ready, quiet, take_blob, Event, opened, closed_, message, blob_done,
  ready_polled, shutdown_polled, step, run, on_open, on_close, on_error, on_message, poll_write,
  poll_shutdown, poll_flush, poll_read, blob_read, poll_ready, wakes, is_connecting,
}

abbrev pub is_closed : Event → Bool
is_closed closed_ = true
is_closed _ = false

abbrev pub close_calls : List Output → ℕ
close_calls [] = 0
close_calls (o ∷ outputs) = o.close_calls + close_calls outputs

wakes-close_calls : (waker : Option ℕ) → (wakes waker).close_calls ≡ 0
wakes-close_calls none = refl
wakes-close_calls (some waker) = refl

pub blob_read-close_calls :
    (i : ℕ) (ws : WebSocket)
    → ((blob_read i ws).1.close_calls ≡ 0) × ((blob_read i ws).0.on_close_inner ≡ ws.on_close_inner)
unfolding blob_read
blob_read-close_calls i ws = elim (Option-cases (take_blob i ws.blobs)) [
  | inl e ↦ rw (e, blob_read) (refl, refl)
  | inr ((blob, blobs), e) ↦ rw (e, blob_read) (wakes-close_calls ws.read_waker, refl)
]

pub step-close_calls :
    (e : Event) (ws : WebSocket)
    → ((step e ws).1.close_calls ≡ (if is_closed e && ws.on_close_inner then 1 else 0))
      × ((step e ws).0.on_close_inner ≡ (if is_closed e then false else ws.on_close_inner))
unfolding step on_open on_close on_message on_error poll_write poll_shutdown poll_flush poll_ready
    poll_read
step-close_calls closed_ ws = (refl, refl)
step-close_calls opened ws = (wakes-close_calls ws.open_waker, refl)
step-close_calls (blob_done i) ws = blob_read-close_calls i ws
step-close_calls (ready_polled waker) ws = elim (Bool-cases (is_connecting ws.ready_state)) [
  | inl e ↦ rw (e, poll_ready) (refl, refl)
  | inr e ↦ rw (e, poll_ready) (refl, refl)
]
step-close_calls (message none) ws = (refl, refl)
step-close_calls (message (some blob)) ws = (refl, refl)
step-close_calls (shutdown_polled true) ws = (refl, refl)
step-close_calls (shutdown_polled false) ws = (refl, refl)
step-close_calls _ ws = (refl, refl)

-- The callback that takes the connection out of the pool is called when the socket closes, and at
-- most once, however often the browser says so: in a run from a state that holds the callback, once
-- when there is a close event and never otherwise.
run-close_calls :
    (events : List Event) (ws : WebSocket)
    → close_calls (run events ws).1 ≡ (if any is_closed events && ws.on_close_inner then 1 else 0)
unfolding run
run-close_calls [] ws = refl
run-close_calls (e ∷ events) ws =
    ground (arith, step-close_calls e ws, run-close_calls events (step e ws).0)

-- Without an open event and without the end of a blob's task no task is ever woken.
abbrev pub IsSilent : Event → Type 0
IsSilent opened = ⊥
IsSilent (blob_done i) = ⊥
IsSilent _ = Unit

step-woken : (e : Event) (ws : WebSocket) → IsSilent e → (step e ws).1.woken ≡ []
unfolding step on_open on_close on_message on_error poll_write poll_shutdown poll_flush poll_ready
    poll_read
step-woken opened ws h = absurd h
step-woken (blob_done i) ws h = absurd h
step-woken (ready_polled waker) ws h = elim (Bool-cases (is_connecting ws.ready_state)) [
  | inl e ↦ rw (e, poll_ready) refl
  | inr e ↦ rw (e, poll_ready) refl
]
step-woken (message none) ws h = refl
step-woken (message (some blob)) ws h = refl
step-woken (shutdown_polled true) ws h = refl
step-woken (shutdown_polled false) ws h = refl
step-woken _ ws h = refl

run-silent :
    (events : List Event) (ws : WebSocket)
    → All IsSilent events
    → All (λ (o : Output). o.woken ≡ []) (run events ws).1
unfolding run
run-silent [] ws h = tt
run-silent (e ∷ events) ws (h, hs) = (step-woken e ws h, run-silent events (step e ws).0 hs)

-- A socket that fails to connect leaves the task that waits for it asleep: in a run with neither an
-- open event nor the end of a blob's task no step wakes a task, also when the run has an error and
-- a close event, behind which a poll would be answered.
pub run-woken :
    (events : List Event) (waker : ℕ) (ws : WebSocket)
    → All IsSilent events
    → All (λ (o : Output). o.woken ≡ []) (run events ws).1
      × (poll_ready waker (on_close (run events ws).0).0
          ≡ ((on_close (run events ws).0).0, quiet ready))
unfolding run on_close poll_ready
run-woken events waker ws h = (run-silent events ws h, refl)
