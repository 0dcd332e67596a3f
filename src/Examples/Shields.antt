-- ===== src/Examples/Shields.antt =====
-- The shield (internal/shield) with places for two waiters, where a fetch comes to a number.
use edge_cdn.Base.{ℕ, ◌≤◌, ◌⊎◌, some, ◌≡◌, ◌≢◌, refl, [], ◌∷◌, arith, ℕ_discrete}
use edge_cdn.Base.Text.{Str, str_dec, codes}
use edge_cdn.Base.Int.{pos}
use edge_cdn.Base.Maps.{lookup, insert}
use edge_cdn.Shield.{
  fetching, coalesced, too_many_waiters, leads, waits, returned, Shield, new_shield, join, lead,
  arrive, finish, signalled,
}
use edge_cdn.Shield.Steps.{start, later, arrives, finishes, Step, Reach}
use edge_cdn.Shield.Waiters.{one_leader, waiter_served}
use edge_cdn.Shield.Steps.{here}
use edge_cdn.Shield.Progress.{Moves, weight, IsAnswer, steps_left, shield_ends}
use edge_cdn.Shield.Agreement.{Gets, results_agree}
use edge_cdn.Shield.Steps.{delivers}
use edge_cdn.Shield.{deliver, in_flight_count}
use edge_cdn.Shield.Totals.{total}
use edge_cdn.Shield.Counters.{count_replies, tally, is_coalesced, AreIdle, counted_once}
use edge_cdn.Shield.Peak.{Watched, Seen, watched, unwatched, peak_lost}
use edge_cdn.Shield.Cancelled.{come_and_go, cancelled_refuse}

abbrev p : Str
p = codes "/p"

abbrev led : Shield ℕ
led = arrive 0 p (new_shield (pos 2))

led-Reach : Reach (pos 2) led
unfolding new_shield
led-Reach = later start (arrives 0 p refl)

abbrev joined : Shield ℕ
joined = arrive 1 p led

joined-Reach : Reach (pos 2) joined
unfolding new_shield arrive lead ℕ_discrete
joined-Reach = later led-Reach (arrives 1 p refl)

joined_requests : (joined.requests 0 ≡ leads fetching 0 p) × (joined.requests 1 ≡ waits 0)
unfolding new_shield arrive lead join insert str_dec ℕ_discrete
joined_requests = (refl, refl)

abbrev leader : ℕ
leader = 0

one_leader_example : leader ≡ leader
one_leader_example =
    one_leader (pos 2) joined joined-Reach leader leader 0 0 p joined_requests.0 joined_requests.0

waiter_served_example :
    ((r : ℕ) × ((joined.calls 0).result ≡ some r)
      × Step joined (deliver 1 r joined)
      × ((deliver 1 r joined).requests 1 ≡ returned (coalesced r)))
    ⊎ ((j : ℕ) × (path : Str) × (joined.requests j ≡ leads fetching 0 path)
        × Step joined (finish j 0 path 200 joined)
        × Step (finish j 0 path 200 joined) (deliver 1 200 (finish j 0 path 200 joined))
        × ((deliver 1 200 (finish j 0 path 200 joined)).requests 1 ≡ returned (coalesced 200)))
waiter_served_example = waiter_served (pos 2) joined joined-Reach 1 0 200 joined_requests.1

led_requests : (k : ℕ) → led.requests k ≢ waits 0
unfolding new_shield arrive lead
led_requests k w = ground arith

cancelled_refuse_example :
    let t = come_and_go (1 ∷ 2 ∷ []) p led in
    ((k : ℕ) → t.requests k ≢ waits 0) × ((arrive 3 p t).requests 3 ≡ returned too_many_waiters)
unfolding new_shield arrive lead insert str_dec
cancelled_refuse_example = cancelled_refuse (1 ∷ 2 ∷ []) p 0 3 led refl refl led_requests

-- The leader's fetch is done, and the other request waits for the result to be handed on.
abbrev leader_done : Shield ℕ
leader_done = finish 0 0 p 7 joined

leader_done-Moves : Moves joined 1 leader_done
leader_done-Moves = Moves.then_ Moves.still (finishes 0 0 p 7 joined_requests.0) tt

shield_ends_example :
    (1 ≤ steps_left joined-Reach)
    × ((weight (leader_done.requests 1) ≡ 0)
        ⊎ ((u : Shield ℕ) × (st : Step leader_done u) × IsAnswer st))
shield_ends_example = shield_ends (pos 2) joined leader_done joined-Reach 1 leader_done-Moves 8 1

leader_done_requests :
    (leader_done.requests 0 ≡ leads signalled 0 p)
    × (leader_done.requests 1 ≡ waits 0)
    × ((leader_done.calls 0).result ≡ some 7)
unfolding new_shield arrive lead join finish insert str_dec ℕ_discrete
leader_done_requests = (refl, refl, refl)

leader_done-Reach : Reach (pos 2) leader_done
leader_done-Reach = later joined-Reach (finishes 0 0 p 7 joined_requests.0)

abbrev result : ℕ
result = 7

results_agree_example : result ≡ result
results_agree_example =
    let (led_by, awaits, result_of) = leader_done_requests in
    results_agree (pos 2) leader_done leader_done leader_done-Reach here 0 0 1 result result
      (Gets.leader 0 p led_by result_of) (Gets.waiter 1 awaits result_of)

-- The requests 0 and 1 were made, and the second is handed the result.
abbrev told : Shield ℕ
told = deliver 1 7 leader_done

told-Reach : Reach (pos 2) told
told-Reach =
    let (_, awaits, result_of) = leader_done_requests in
    later leader_done-Reach (delivers 1 0 7 awaits result_of)

told_idle : AreIdle 2 told.requests
unfolding new_shield arrive lead join finish deliver insert
told_idle j h = ground arith

counted_once_example :
    (told.inflight_gauge ≡ in_flight_count told)
    × (count_replies is_coalesced told.fetch_total ≡ total (tally is_coalesced) 2 told.requests)
    × (told.coalesced_total ≡ total (tally is_coalesced) 2 told.requests)
counted_once_example = counted_once (pos 2) told is_coalesced 2 told-Reach told_idle

peak_lost_example :
    (w : Watched ℕ) × Seen (pos 2) w
    × ((c : ℕ) × (d : ℕ) × (c ≢ d)
        × (lookup str_dec (codes "/p") w.shield.inflight ≡ some c)
        × (lookup str_dec (codes "/q") w.shield.inflight ≡ some d))
    × (in_flight_count w.shield ≡ 2)
    × (w.peak ≡ 1)
    × ((i : ℕ) → (w.watch i ≡ watched) ⊎ (w.watch i ≡ unwatched))
peak_lost_example = peak_lost (pos 2) (codes "/p") (codes "/q") (λ e. ground (arith, e))
