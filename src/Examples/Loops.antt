-- ===== src/Examples/Loops.antt =====
-- A health checker (internal/health) that is started and stopped.
use edge_cdn.Base.{ℕ, ◌≡◌, refl, true, false, ℕ_discrete}
use edge_cdn.Health.Loop.{
  Loops, no_loops, start, stop, leave, uncalled, waiting, over, Moves, Reach, first, started, moved,
  stops, leaves, stop_returns, restart_panics,
}

abbrev running : Loops
running = start no_loops

running-Reach : Reach 1 running
unfolding no_loops
running-Reach = started first refl

abbrev stopping : Loops
stopping = stop 0 running

stopping-Reach : Reach 1 stopping
unfolding start no_loops
stopping-Reach = moved running-Reach (stops 0 refl refl)

waits : stopping.stops 0 ≡ waiting
unfolding start stop no_loops ℕ_discrete
waits = refl

stop_returns_example :
    (t : Loops) × Moves stopping t
    × (t.stops 0 ≡ over)
    × (t.panicked ≡ false)
    × ((i : ℕ) → t.running i ≡ false)
stop_returns_example = stop_returns stopping 0 stopping-Reach waits

abbrev stopped : Loops
stopped = leave 0 stopping

stopped-Reach : Reach 1 stopped
unfolding start stop no_loops ℕ_discrete
stopped-Reach = moved stopping-Reach (leaves 0 refl refl refl)

stopped_closed : stopped.closed ≡ true
unfolding leave
stopped_closed = refl

uncalled_one : stopped.stops 1 ≡ uncalled
unfolding start stop leave no_loops ℕ_discrete
uncalled_one = refl

restart_panics_example : (t : Loops) × Moves (start stopped) t × (t.panicked ≡ true)
restart_panics_example = restart_panics stopped 1 stopped-Reach stopped_closed uncalled_one
