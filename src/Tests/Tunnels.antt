-- ===== src/Tests/Tunnels.antt =====
-- A tunnel, with a message in each direction.
use mantalon.Base.{List, [], ◌∷◌, some, true, Text, ◌≡◌, refl, All, concat}
use mantalon.WebSocket.{
  Event, opened, message, blob_done, read_polled, write_polled, run, new, connecting,
}
use mantalon.WebSocket.Stream.{delivered, IsInOrder}
use mantalon.Server.Relay.{
  binary, got, succeed, under_way, relay_loop, relay_websocket_to_transport,
}
use mantalon.Server.Relay.Delivery.{chunks, IsPrefix}
use mantalon.Server.Relay.Duplex.{Turn, from_websocket, from_transport, transport_turns, relay}
use mantalon.Tunnel.Streams.{IsCarried, acknowledged, streams-IsPrefix}

abbrev turns : List Turn
turns =
    from_websocket (binary 2 (1 ∷ 2 ∷ []), succeed)
    ∷ from_transport (got (3 ∷ 4 ∷ 5 ∷ []), succeed)
    ∷ []

abbrev events : List Event
events =
    opened
    ∷ write_polled true (1 ∷ 2 ∷ [])
    ∷ message (some (3 ∷ 4 ∷ 5 ∷ []))
    ∷ blob_done 0
    ∷ read_polled 7 2
    ∷ read_polled 7 2
    ∷ []

-- What the buffer of the server holds at first.
abbrev uninit : Text
uninit = 9 ∷ 9 ∷ 9 ∷ 9 ∷ []

in_order : All IsInOrder events
in_order = (tt, (tt, (tt, (refl, (tt, (tt, tt))))))

-- The task is dropped when one byte of the message of the client is out.
abbrev cut : List Turn
cut =
    from_websocket (binary 2 (1 ∷ 2 ∷ []), under_way 1)
    ∷ from_transport (got (3 ∷ 4 ∷ 5 ∷ []), succeed)
    ∷ from_transport (got [], succeed)
    ∷ []

is_cut : (relay uninit cut).to_transport ≡ (1 ∷ []) ∷ []
unfolding relay relay_loop relay_websocket_to_transport
is_cut = refl

is_carried : IsCarried uninit cut events
unfolding relay relay_loop relay_websocket_to_transport
is_carried = record { up = ([], refl); down = ([], refl) }

streams-IsPrefix_example :
    IsPrefix
      (concat (relay uninit cut).to_transport)
      (acknowledged events (run events (new connecting)).1)
    × IsPrefix (delivered (run events (new connecting)).1) (concat (chunks (transport_turns cut)))
streams-IsPrefix_example = streams-IsPrefix uninit cut events connecting is_carried in_order
