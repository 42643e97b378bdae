-- ===== src/Tests/Sockets.antt =====
-- The client's websockets.
use mantalon.Base.{List, [], ◌∷◌, ◌++◌, some, true, ◌≡◌, refl, All, ◌&&◌, if◌then◌else◌}
use mantalon.WebSocket.{
  LifeEvent, event, dropped, live, run_life, closed_, Output, new, connecting, open_, Event, opened,
  closed_, errored, message, blob_done, ready_polled, read_polled, run, poll_read, blob_read,
  take_blob, poll_ready, on_close, quiet, ready, step, on_message, read_loop,
}
use mantalon.WebSocket.Reading.{blob_read-poll_read}
use mantalon.WebSocket.Stream.{run-delivered, held, delivered, arrived}
use mantalon.WebSocket.Closing.{run-woken, close_calls}
use mantalon.WebSocket.Dropping.{closes_first, run_life-close_calls}

-- Two messages, and reads in between.
abbrev events : List Event
events =
    opened
    ∷ message (some (1 ∷ 2 ∷ 3 ∷ []))
    ∷ message (some (4 ∷ []))
    ∷ blob_done 0
    ∷ read_polled 7 2
    ∷ blob_done 0
    ∷ closed_
    ∷ closed_
    ∷ read_polled 7 2
    ∷ []

run-delivered_example :
    delivered (run events (new connecting)).1 ++ held (run events (new connecting)).0
    ≡ held (new connecting) ++ arrived events
run-delivered_example =
    run-delivered events (new connecting)
      (tt, (tt, (tt, (refl, (tt, (refl, (tt, (tt, (tt, tt)))))))))

-- The browser closes the socket twice, and then it is dropped.
abbrev lived : List LifeEvent
lived = event opened ∷ event closed_ ∷ event closed_ ∷ dropped true ∷ event closed_ ∷ []

run_life-close_calls_example :
    close_calls (run_life lived (live (new connecting))).1
    ≡ (if closes_first lived && (new connecting).on_close_inner then 1 else 0)
run_life-close_calls_example = run_life-close_calls lived (new connecting)

abbrev between : List Event
between = message (some (1 ∷ [])) ∷ errored ∷ message (some (2 ∷ [])) ∷ []

blob_read-poll_read_example :
    ((blob_read 1 (run between (poll_read 7 2 (new open_)).0).0).1.woken ≡ 7 ∷ [])
    × ((blob_read 1 (run between (poll_read 7 2 (new open_)).0).0).0.buffer
        ≡ (run between (poll_read 7 2 (new open_)).0).0.buffer ++ 2 ∷ [])
unfolding run step poll_read on_message take_blob read_loop new
blob_read-poll_read_example =
    blob_read-poll_read 7 2 1 between (new open_) (2 ∷ []) ((1 ∷ []) ∷ [])
      (refl, (refl, (refl, tt))) refl

abbrev failing : List Event
failing = ready_polled 7 ∷ errored ∷ closed_ ∷ []

run-woken_example :
    All (λ (o : Output). o.woken ≡ []) (run failing (new connecting)).1
    × (poll_ready 7 (on_close (run failing (new connecting)).0).0
        ≡ ((on_close (run failing (new connecting)).0).0, quiet ready))
run-woken_example = run-woken failing 7 (new connecting) (tt, (tt, (tt, tt)))
