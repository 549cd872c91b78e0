-- ===== src/Daemon/Flight/Runs.antt =====
-- A run of the flight of pull batches.
use tailsync.Common.{◌≡◌, ◌≤◌, ◌⊎◌, refl, true, false, List, [], ◌∷◌}
use tailsync.Daemon.Flight.{
  PullFlight, Event, schedules, batch_ends, run_events, run_events-served, finish, watch,
}

abbrev idle : PullFlight
idle = record { running = false; pending = false }

-- Two requests during a batch, its end, and one more during the next.
abbrev busy_day : List Event
busy_day = schedules ∷ schedules ∷ schedules ∷ batch_ends ∷ schedules ∷ []

run_events-served_example :
    ((run_events busy_day (watch idle)).batches ≤ 1)
    × (((run_events busy_day (watch idle)).unserved ≡ false)
        ⊎ (((run_events busy_day (watch idle)).batches ≡ 1)
            × ((finish (run_events busy_day (watch idle)).flight).1 ≡ true)))
run_events-served_example = run_events-served busy_day idle refl refl
