-- ===== src/Daemon/Flight.antt =====
-- `pullFlight` of daemon/daemon.go and `schedulePull` of daemon/run.go: one batch of pulls at a time,
-- and one more for what was asked for meanwhile.
mod Runs
use tailsync.Common.{
  ℕ, zero, suc, ◌≤◌, ◌≡◌, ◌⊎◌, refl, sym, ◌∙◌, Bool, true, false, not, List, [], ◌∷◌, if◌then◌else◌,
  arith, Bool-cases, inl, inr,
}

pub record PullFlight : Type 0 where
  pub running : Bool
  pub pending : Bool

unfoldable pub try_start : PullFlight → PullFlight × Bool
try_start f =
    if f.running then (record f { pending = true }, false) else (record f { running = true }, true)

unfoldable pub finish : PullFlight → PullFlight × Bool
finish f =
    if f.pending
    then (record f { pending = false }, true)
    else (record f { running = false }, false)

-- A call of `schedulePull`, and the end of the batch that runs.
pub data Event : Type 0 where
  schedules batch_ends : Event

-- The flight, whether a pull was asked for that no batch has begun since, and how many batches run.
pub record Watched : Type 0 where
  pub flight : PullFlight
  pub unserved : Bool
  pub batches : ℕ

abbrev scheduled : Watched → PullFlight × Bool → Watched
scheduled w (f, true) = record { flight = f; unserved = false; batches = suc w.batches }
scheduled w (f, false) = record { flight = f; unserved = true; batches = w.batches }

-- The worker that ran a batch begins the next one if it has to.
abbrev batch_ended : Watched → ℕ → PullFlight × Bool → Watched
batch_ended w n (f, true) = record { flight = f; unserved = false; batches = suc n }
batch_ended w n (f, false) = record { flight = f; unserved = w.unserved; batches = n }

-- A batch ends only where one runs.
unfoldable pub run_event : Event → Watched → Watched
unfolding try_start finish
run_event schedules w = scheduled w (try_start w.flight)
run_event batch_ends w = elim w.batches [ zero ↦ w | suc n ↦ batch_ended w n (finish w.flight) ]

unfoldable pub run_events : List Event → Watched → Watched
unfolding run_event
run_events [] w = w
run_events (e ∷ es) w = run_events es (run_event e w)

abbrev pub watch : PullFlight → Watched
watch f = record { flight = f; unserved = false; batches = 0 }

-- `pending` says whether something is unserved, and then a batch runs; `running` counts the batches.
abbrev Inv : Watched → Type 0
Inv w =
    (w.unserved ≡ w.flight.pending)
    × ((w.flight.pending ≡ false) ⊎ (w.flight.running ≡ true))
    × (w.batches ≡ (if w.flight.running then 1 else 0))

run_event-Inv : (e : Event) (w : Watched) → Inv w → Inv (run_event e w)
unfolding run_event try_start finish
run_event-Inv schedules w h = ground (arith, h)
run_event-Inv batch_ends w h = ground (arith, h)

run_events-Inv : (es : List Event) (w : Watched) → Inv w → Inv (run_events es w)
unfolding run_events
run_events-Inv [] w h = h
run_events-Inv (e ∷ es) w h = run_events-Inv es (run_event e w) (run_event-Inv e w h)

-- No request for a pull is lost, and one batch runs at a time: after every sequence of requests and
-- batch ends from an idle flight at most one batch runs, and a request that no batch has begun since is
-- pending while a batch runs, whose end begins another one; so where no batch runs, every request has
-- been followed by the beginning of a batch.
pub run_events-served :
    (es : List Event) (f : PullFlight)
    → f.running ≡ false
    → f.pending ≡ false
    → ((run_events es (watch f)).batches ≤ 1)
      × (((run_events es (watch f)).unserved ≡ false)
          ⊎ (((run_events es (watch f)).batches ≡ 1)
              × ((finish (run_events es (watch f)).flight).1 ≡ true)))
unfolding finish
run_events-served es f idle clear =
    let (same, runs, count) =
      run_events-Inv es (watch f) (sym clear, inl clear, ground (arith, idle)) in
    (ground (arith, count), ground (arith, same, runs, count))
