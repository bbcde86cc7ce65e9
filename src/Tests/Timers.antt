-- ===== src/Tests/Timers.antt =====
-- src/timer.cpp at small inputs.
use tigerkin.Prelude.{ℕ, ◌≡◌, ◌↔◌, refl, true, false, some, [], ◌∷◌, if◌then◌else◌, ◌==◌}
use tigerkin.Timer.{
  Timer, TimerManager, less, has_cb, cancel, list_expired_cbs, get_next_time, add_timer,
}
use tigerkin.Timer.Order.{In}
use tigerkin.Timer.Invariant.{Inv}
use tigerkin.Timer.Expiry.{Expires, list_expired_cbs-Expires, Waits, get_next_time-Waits}
use tigerkin.Timer.Methods.{here, next, adds, expires, Reach-Inv, cancel_lem}

-- A timer of `ms` milliseconds that recurs, and is due at `due`.
abbrev every : ℕ → ℕ → Timer
every ms due = record { ms = ms; next = due; cb = some ms; recurring = true }

abbrev no_timers : TimerManager
no_timers = record { heap = λ a. every 5 50; timers = []; wakes = 0 }

-- The timers at 1 and 2 are due at 10, the one at 3 at 20.
abbrev three_timers : TimerManager
three_timers = record {
  heap = λ a. if a == 3 then every 7 20 else every 5 10;
  timers = 1 ∷ 2 ∷ 3 ∷ [];
  wakes = 1;
}

three_timers-Inv : Inv three_timers
unfolding less
three_timers-Inv = record {
  sorted = ((refl, (refl, tt)), ((refl, tt), (tt, tt)));
  armed = (refl, (refl, (refl, tt)));
}

Reach-Inv_example : Inv (list_expired_cbs 9 0 (add_timer 4 8 5 (some 1) true no_timers)).0
Reach-Inv_example = Reach-Inv refl (next (next here (adds 4 8 5 1 true (λ i. i))) (expires 9 0))

list_expired_cbs-Expires_example :
    Expires 10 three_timers
      (list_expired_cbs 10 0 three_timers).0
      (list_expired_cbs 10 0 three_timers).1
list_expired_cbs-Expires_example = list_expired_cbs-Expires 10 0 three_timers three_timers-Inv

get_next_time-Waits_example :
    Waits three_timers.heap 8 (1 ∷ 2 ∷ 3 ∷ []) (get_next_time 8 three_timers)
get_next_time-Waits_example = get_next_time-Waits 8 three_timers three_timers-Inv

cancel_lem_example :
    (((cancel 2 three_timers).1 ≡ true) ↔ In 2 (1 ∷ 2 ∷ 3 ∷ []))
    × (¬ In 2 (cancel 2 three_timers).0.timers)
    × (has_cb ((cancel 2 three_timers).0.heap 2) ≡ false)
cancel_lem_example = cancel_lem 2 three_timers three_timers-Inv
