-- ===== src/Mobile/Sync/Tests.antt =====
-- A connection that fails once, opens and closes.
use you_tube_gradian_devin.Common.{[], ◌∷◌}
use you_tube_gradian_devin.Mobile.Sync.{
  initial, run, no_connection, timer_event, socket_made, open_event, close_event,
}
use you_tube_gradian_devin.Mobile.Sync.Live.{IsLive, run-IsLive}

run-IsLive_example :
    IsLive (run (no_connection ∷ timer_event ∷ socket_made ∷ open_event ∷ close_event ∷ []) initial)
run-IsLive_example =
    run-IsLive (no_connection ∷ timer_event ∷ socket_made ∷ open_event ∷ close_event ∷ [])
