-- ===== src/Server/Relay.antt =====
-- mantalon-server/src/relay.rs. Each loop reads the list of the events that its peers deliver to
-- it, one for each `await` of its receiving end, beside the outcome of the sending that follows.
pub mod Delivery
pub mod Duplex
use mantalon.Base.{
  ℕ, zero, suc, List, [], ◌∷◌, ◌++◌, Bool, true, false, Text, length, take, drop, ◌==◌, leb,
  if◌then◌else◌, ◌&&◌, replicate,
}

-- Whether a loop waits for the next event, is still in the sending that follows one, has ended, or has
-- panicked in an `unwrap()` or an `assert_eq!`.
pub data Status : Type 0 where
  waiting sending finished panicked : Status

pub record Relayed : Type 0 where
  pub sent : List Text
  pub status : Status

abbrev pub sends : Text → Relayed → Relayed
sends message r = record r { sent = message ∷ r.sent }

abbrev pub ends : Status → Relayed
ends status = record { sent = []; status = status }

-- What `receive_data` makes of the next message. `n` is the number that it reports beside the bytes
-- in the buffer.
pub data Received : Type 0 where
  binary text : (n : ℕ) → (message : Text) → Received
  closed error : Received

-- What comes of the sending of a message and its flush: both succeed; only the flush fails; the sending
-- fails behind so many bytes of the message; or the loop is still in them, with so many bytes out,
-- and takes no further event.
pub data Writes : Type 0 where
  succeed unflushed : Writes
  fails_behind under_way : ℕ → Writes

-- `write_all` and `flush`, whose bytes are out as far as they came.
abbrev pub write_out : Text → Writes → Relayed → Relayed
write_out message succeed rest = sends message rest
write_out message unflushed rest = sends message (ends panicked)
write_out message (fails_behind k) rest = sends (take k message) (ends panicked)
write_out message (under_way k) rest = sends (take k message) (ends sending)

abbrev pub write : ℕ → Text → Writes → Relayed → Relayed
write n message w rest = if n == length message then write_out message w rest else ends panicked

unfoldable pub relay_websocket_to_transport : List (Received × Writes) → Relayed
relay_websocket_to_transport [] = ends waiting
relay_websocket_to_transport ((binary n message, w) ∷ events) =
    write n message w (relay_websocket_to_transport events)
relay_websocket_to_transport ((text n message, w) ∷ events) =
    write n message w (relay_websocket_to_transport events)
relay_websocket_to_transport ((closed, w) ∷ events) = ends finished
relay_websocket_to_transport ((error, w) ∷ events) = ends finished

-- What `reader.read(&mut buffer)` does: it puts bytes at the start of the buffer, and returns how
-- many.
pub data Read : Type 0 where
  got : Text → Read
  failed : Read

abbrev pub capacity : ℕ
capacity = 100000

-- A message of the websocket of which not all bytes are out is none.
abbrev pub if_whole : Text → ℕ → Relayed → Relayed
if_whole message k rest = if leb (length message) k then sends message rest else rest

-- `send_binary` and `flush`.
abbrev pub send_out : Text → Writes → Relayed → Relayed
send_out message succeed rest = sends message rest
send_out message unflushed rest = sends message (ends panicked)
send_out message (fails_behind k) rest = if_whole message k (ends panicked)
send_out message (under_way k) rest = if_whole message k (ends sending)

-- The loop on its buffer, which keeps what it held behind the bytes that are read.
unfoldable pub relay_loop : Text → List (Read × Writes) → Relayed
relay_loop buffer [] = ends waiting
relay_loop buffer ((failed, w) ∷ events) = ends finished
relay_loop buffer ((got chunk, w) ∷ events) =
    let n = length chunk in
    let buffer' = chunk ++ drop n buffer in
    let rest = relay_loop buffer' events in
    if n == 0 then ends finished else send_out (take n buffer') w rest

-- The buffer starts with bytes that nobody has written.
unfoldable pub relay_transport_to_websocket : Text → List (Read × Writes) → Relayed
unfolding relay_loop
relay_transport_to_websocket uninit events = relay_loop uninit events
