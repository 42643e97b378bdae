-- ===== src/WebSocket/Dropping.antt =====
-- The callback of the pool while a socket lives and is dropped.
use mantalon.Base.{List, [], ◌∷◌, Bool, false, ◌≡◌, refl, ap, ◌∙◌, arith, if◌then◌else◌, ◌&&◌, ◌||◌}
use mantalon.WebSocket.{
  WebSocket, blob_done, step, live, gone, LifeEvent, event, dropped, step_life, run_life,
  drop_socket, blob_read,
}
use mantalon.WebSocket.Closing.{is_closed, close_calls, blob_read-close_calls, step-close_calls}

-- The browser says that the socket has closed before it is dropped.
abbrev pub closes_first : List LifeEvent → Bool
closes_first [] = false
closes_first (event e ∷ events) = is_closed e || closes_first events
closes_first (dropped closes ∷ events) = false

step_life-gone :
    (e : LifeEvent) (ws : WebSocket)
    → ((ws' : WebSocket) × ((step_life e (gone ws)).0 ≡ gone ws'))
      × ((step_life e (gone ws)).1.close_calls ≡ 0)
unfolding step_life
step_life-gone (dropped closes) ws = ((ws, refl), refl)
step_life-gone (event (blob_done i)) ws =
    (((blob_read i ws).0, refl), (blob_read-close_calls i ws).0)
step_life-gone (event e) ws = ((ws, refl), refl)

run_life-gone :
    (events : List LifeEvent) (ws : WebSocket) → close_calls (run_life events (gone ws)).1 ≡ 0
unfolding run_life
run_life-gone [] ws = refl
run_life-gone (e ∷ events) ws =
    let ((ws', same), none_here) = step_life-gone e ws in
    let later = run_life-gone events ws' in
    let here : close_calls (run_life events (step_life e (gone ws)).0).1 ≡ 0 =
      ap (λ l. close_calls (run_life events l).1) same ∙ later in
    omega arith

-- The callback that takes the connection out of the pool is called when the browser says that the
-- socket has closed, once however often it says so, but never when the socket is dropped first: in a run
-- from a state that holds the callback, once when a close event comes before any drop, and never
-- otherwise.
pub run_life-close_calls :
    (events : List LifeEvent) (ws : WebSocket)
    → close_calls (run_life events (live ws)).1
      ≡ (if closes_first events && ws.on_close_inner then 1 else 0)
unfolding run_life step_life
run_life-close_calls [] ws = refl
run_life-close_calls (dropped closes ∷ events) ws =
    omega (arith, run_life-gone events (drop_socket closes ws))
run_life-close_calls (event e ∷ events) ws =
    ground (arith, step-close_calls e ws, run_life-close_calls events (step e ws).0)
