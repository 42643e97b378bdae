-- ===== src/WebSocket.antt =====
-- `WrappedWebSocket` of mantalon-client/src/websocket.rs: the browser's events and the polls of the
-- executor as steps on its state. A waker is the number of the task that it wakes.
pub mod Reading
pub mod Stream
pub mod Closing
pub mod Dropping
use mantalon.Base.{
  ℕ, zero, suc, ◌-◌, List, [], ◌∷◌, ◌++◌, Option, none, some, Bool, true, false, Text, length,
  if◌then◌else◌, ◌==◌,
}

-- `ws.ready_state()`
pub data ReadyState : Type 0 where
  connecting open_ closing closed : ReadyState

pub record WebSocket : Type 0 where
  pub buffer : Text
  pub read_waker : Option ℕ
  pub open_waker : Option ℕ
  -- `on_close_inner` still holds the callback
  pub on_close_inner : Bool
  pub ready_state : ReadyState
  -- the blobs of the tasks that `on_message` has spawned and that still wait for their bytes
  pub blobs : List Text

-- What a step gives: the tasks that it wakes, the calls of the `on_close` callback, and what a poll
-- returns.
pub data Poll : Type 0 where
  no_poll pending ready io_error : Poll
  wrote : ℕ → Poll
  filled : Text → Poll

pub record Output : Type 0 where
  pub woken : List ℕ
  pub close_calls : ℕ
  pub poll : Poll

abbrev pub quiet : Poll → Output
quiet poll = record { woken = []; close_calls = 0; poll = poll }

abbrev pub wakes : Option ℕ → Output
wakes none = quiet no_poll
wakes (some waker) = record { woken = waker ∷ []; close_calls = 0; poll = no_poll }

-- `WrappedWebSocket::new`
unfoldable pub new : ReadyState → WebSocket
new ready_state = record {
  buffer = [];
  read_waker = none;
  open_waker = none;
  on_close_inner = true;
  ready_state = ready_state;
  blobs = [];
}

-- The listeners. The browser has changed the state of the socket before it calls them.
unfoldable pub on_open : WebSocket → WebSocket × Output
on_open ws = (record ws { ready_state = open_ }, wakes ws.open_waker)

unfoldable pub on_close : WebSocket → WebSocket × Output
on_close ws = (
  record ws { ready_state = closed; on_close_inner = false },
  record { woken = []; close_calls = if ws.on_close_inner then 1 else 0; poll = no_poll },
)

unfoldable pub on_error : WebSocket → WebSocket × Output
on_error ws = (record ws { ready_state = closed }, quiet no_poll)

-- `none` is a message that is no blob.
unfoldable pub on_message : Option Text → WebSocket → WebSocket × Output
on_message none ws = (ws, quiet no_poll)
on_message (some blob) ws = (record ws { blobs = ws.blobs ++ blob ∷ [] }, quiet no_poll)

-- The end of a spawned task: the bytes of its blob go into the buffer, and the reader is woken.
-- The browser chooses which of the tasks that wait ends next.
unfoldable pub take_blob : ℕ → List Text → Option (Text × List Text)
take_blob i [] = none
take_blob zero (blob ∷ blobs) = some (blob, blobs)
take_blob (suc i) (blob ∷ blobs) = elim (take_blob i blobs) [
  | none ↦ none
  | some (b, rest) ↦ some (b, blob ∷ rest)
]

unfoldable pub blob_read : ℕ → WebSocket → WebSocket × Output
unfolding take_blob
blob_read i ws = elim (take_blob i ws.blobs) [
  | none ↦ (ws, quiet no_poll)
  | some (blob, blobs) ↦
      (record ws { buffer = ws.buffer ++ blob; blobs = blobs }, wakes ws.read_waker)
]

abbrev pub is_connecting : ReadyState → Bool
is_connecting connecting = true
is_connecting _ = false

-- `WebsocketReadyFut::poll`
unfoldable pub poll_ready : ℕ → WebSocket → WebSocket × Output
poll_ready waker ws =
    if is_connecting ws.ready_state
    then (record ws { open_waker = some waker }, quiet pending)
    else (ws, quiet ready)

-- The loop of `poll_read`: what it puts into the caller's buffer, and what it leaves.
unfoldable pub read_loop : (remaining : ℕ) → Text → Text × Text
read_loop zero buffer = ([], buffer)
read_loop (suc remaining) [] = ([], [])
read_loop (suc remaining) (byte ∷ buffer) =
    let rest = read_loop remaining buffer in (byte ∷ rest.0, rest.1)

unfoldable pub poll_read : (waker remaining : ℕ) → WebSocket → WebSocket × Output
unfolding read_loop
poll_read waker remaining ws =
    let (read, left) = read_loop remaining ws.buffer in
    (
      record ws { read_waker = some waker; buffer = left },
      quiet (if length read == 0 then pending else filled read),
    )

-- The state of a socket behind `ws.close()`.
abbrev pub closing_from : ReadyState → ReadyState
closing_from closed = closed
closing_from _ = closing

-- `sent` and `closes` tell whether the browser takes the call.
unfoldable pub poll_write : Bool → Text → WebSocket → WebSocket × Output
poll_write sent buf ws = (ws, quiet (if sent then wrote (length buf) else io_error))

unfoldable pub poll_flush : WebSocket → WebSocket × Output
poll_flush ws = (ws, quiet ready)

unfoldable pub poll_shutdown : Bool → WebSocket → WebSocket × Output
poll_shutdown true ws = (record ws { ready_state = closing_from ws.ready_state }, quiet ready)
poll_shutdown false ws = (ws, quiet io_error)

pub data Event : Type 0 where
  opened closed_ errored flush : Event
  message : Option Text → Event
  blob_done : ℕ → Event
  ready_polled : ℕ → Event
  read_polled : (waker remaining : ℕ) → Event
  write_polled : Bool → Text → Event
  shutdown_polled : Bool → Event

unfoldable pub step : Event → WebSocket → WebSocket × Output
unfolding on_open on_close on_error on_message blob_read poll_ready poll_read poll_write poll_flush
    poll_shutdown
step opened ws = on_open ws
step closed_ ws = on_close ws
step errored ws = on_error ws
step flush ws = poll_flush ws
step (message blob) ws = on_message blob ws
step (blob_done i) ws = blob_read i ws
step (ready_polled waker) ws = poll_ready waker ws
step (read_polled waker remaining) ws = poll_read waker remaining ws
step (write_polled sent buf) ws = poll_write sent buf ws
step (shutdown_polled closes) ws = poll_shutdown closes ws

-- A run, with the output of each step.
unfoldable pub run : List Event → WebSocket → WebSocket × List Output
run [] ws = (ws, [])
run (event ∷ events) ws =
    let (ws', output) = step event ws in
    let (ws'', outputs) = run events ws' in (ws'', output ∷ outputs)

-- `drop`: the listeners are taken off, and the socket is closed if the browser takes the call.
unfoldable pub drop_socket : Bool → WebSocket → WebSocket
drop_socket true ws = record ws { ready_state = closing_from ws.ready_state }
drop_socket false ws = ws

-- A socket that its owner has, or that was dropped. Behind the drop only the tasks of its blobs run,
-- which hold its buffer and its waker: nobody polls it, and no listener hears the browser.
pub data Life : Type 0 where
  live gone : WebSocket → Life

pub data LifeEvent : Type 0 where
  event : Event → LifeEvent
  dropped : (closes : Bool) → LifeEvent

unfoldable pub step_life : LifeEvent → Life → Life × Output
step_life (event e) (live ws) = let (ws', output) = step e ws in (live ws', output)
step_life (dropped closes) (live ws) = (gone (drop_socket closes ws), quiet no_poll)
step_life (event (blob_done i)) (gone ws) = let (ws', output) = blob_read i ws in (gone ws', output)
step_life _ (gone ws) = (gone ws, quiet no_poll)

unfoldable pub run_life : List LifeEvent → Life → Life × List Output
run_life [] life = (life, [])
run_life (e ∷ events) life =
    let (life', output) = step_life e life in
    let (life'', outputs) = run_life events life' in (life'', output ∷ outputs)
