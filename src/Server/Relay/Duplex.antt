-- ===== src/Server/Relay/Duplex.antt =====
-- The task that `http_handler` of mantalon-server/src/handler.rs spawns behind the upgrade: the two
-- loops of mantalon-server/src/relay.rs under one `tokio::select!`, which drops the other loop when one
-- ends. A turn is a round of one loop; the schedule chooses whose it is. A loop whose sending is still under
-- way has no further turn: the other loop goes on alone.
pub mod Laws
use mantalon.Base.{List, [], ◌∷◌, ◌++◌, Bool, true, false, Text, length, drop, if◌then◌else◌}
use mantalon.Server.Relay.{
  Status, waiting, sending, finished, panicked, Received, Writes, relay_websocket_to_transport,
  Read, got, failed, relay_loop,
}

pub data Turn : Type 0 where
  from_websocket : Received × Writes → Turn
  from_transport : Read × Writes → Turn

-- What both ends have been sent, and how the task has ended.
pub record Duplex : Type 0 where
  pub to_transport : List Text
  pub to_websocket : List Text
  pub status : Status

abbrev pub is_waiting : Status → Bool
is_waiting waiting = true
is_waiting sending = false
is_waiting finished = false
is_waiting panicked = false

abbrev pub is_sending : Status → Bool
is_sending sending = true
is_sending waiting = false
is_sending finished = false
is_sending panicked = false

-- The status of the task when one loop is in a sending, by that of the other loop.
abbrev pub beside_sending : Status → Status
beside_sending waiting = sending
beside_sending status = status

-- The events of each loop.
abbrev pub websocket_turns : List Turn → List (Received × Writes)
websocket_turns [] = []
websocket_turns (from_websocket e ∷ turns) = e ∷ websocket_turns turns
websocket_turns (from_transport e ∷ turns) = websocket_turns turns

abbrev pub transport_turns : List Turn → List (Read × Writes)
transport_turns [] = []
transport_turns (from_websocket e ∷ turns) = transport_turns turns
transport_turns (from_transport e ∷ turns) = e ∷ transport_turns turns

-- The buffer behind a `read`.
abbrev pub buffer_behind : Text → Read → Text
buffer_behind buffer (got chunk) = chunk ++ drop (length chunk) buffer
buffer_behind buffer failed = buffer

unfoldable pub relay : Text → List Turn → Duplex
relay buffer [] = record { to_transport = []; to_websocket = []; status = waiting }
relay buffer (from_websocket e ∷ turns) =
    let rest = relay buffer turns in
    let round = relay_websocket_to_transport (e ∷ []) in
    let other = relay_loop buffer (transport_turns turns) in
    if is_waiting round.status
    then record rest { to_transport = round.sent ++ rest.to_transport }
    else if is_sending round.status
    then record {
      to_transport = round.sent;
      to_websocket = other.sent;
      status = beside_sending other.status;
    }
    else record { to_transport = round.sent; to_websocket = []; status = round.status }
relay buffer (from_transport e ∷ turns) =
    let rest = relay (buffer_behind buffer e.0) turns in
    let round = relay_loop buffer (e ∷ []) in
    let other = relay_websocket_to_transport (websocket_turns turns) in
    if is_waiting round.status
    then record rest { to_websocket = round.sent ++ rest.to_websocket }
    else if is_sending round.status
    then record {
      to_transport = other.sent;
      to_websocket = round.sent;
      status = beside_sending other.status;
    }
    else record { to_transport = []; to_websocket = round.sent; status = round.status }
