-- ===== src/Timers/Tests.antt =====
-- Runs of the timers, and the theorems on them at concrete data.
use mathlib.Core.Path.{subst}
use iot_app_fw.Common.{ℕ, ◌≤◌, ◌≡◌, ◌≢◌, refl, true, false, some, [], ◌∷◌, All, arith}
use iot_app_fw.Timers.{
  Timer, Loop, insert_timer, insert_at, next_before, next_or, live, unlink, add_timer, mod_timer,
  del_timer, expiry, timer_at, prepare, msecs,
}
use iot_app_fw.Timers.Order.{insert}
use iot_app_fw.Timers.Ops.{IsLoop}
use iot_app_fw.Timers.Reach.{empty, Reachable, start, adds, Reachable-IsLoop}
use iot_app_fw.Timers.Spec.{del_timer-live, mod_timer-live, restarted}
use iot_app_fw.Timers.Poll.{Awaits, prepare-Awaits}

abbrev slow : Timer
slow = record { id = 1; expire = 5000; msecs = 5; deleted = false }

abbrev fast : Timer
fast = record { id = 2; expire = 2000; msecs = 2; deleted = false }

abbrev both : Loop
both = record { timers = fast ∷ slow ∷ []; next = some 2 }

abbrev one : Loop
one = record { timers = slow ∷ []; next = some 1 }

add_one : (add_timer 0 5 true (some 1) empty).1 ≡ one
unfolding add_timer insert_timer insert_at next_before next_or expiry
add_one = refl

add_both : (add_timer 0 2 true (some 2) one).1 ≡ both
unfolding add_timer insert_timer insert_at next_before next_or expiry
add_both = refl

one-Reachable : Reachable one
one-Reachable = subst Reachable add_one (adds empty 0 5 1 start tt)

other : slow.id ≢ 2
other e = absurd (omega (arith, e))

both-Reachable : Reachable both
both-Reachable = subst Reachable add_both (adds one 0 2 2 one-Reachable (other, tt))

Reachable-IsLoop_example : IsLoop both
Reachable-IsLoop_example = Reachable-IsLoop both both-Reachable

del_timer-live_example : live (del_timer 2 both).timers ≡ unlink 2 (live both.timers)
del_timer-live_example = del_timer-live 2 both (Reachable-IsLoop both both-Reachable)

second : timer_at 1 both.timers ≡ some slow
unfolding timer_at
second = refl

mod_timer-live_example :
    live (mod_timer 100 1 1 both).timers
    ≡ insert (restarted 100 1 slow) (unlink 1 (live both.timers))
mod_timer-live_example =
    mod_timer-live 100 1 1 both slow (Reachable-IsLoop both both-Reachable) second refl

live_both : live both.timers ≡ fast ∷ slow ∷ []
unfolding live
live_both = refl

prepare-Awaits_example :
    (m : ℕ) × (prepare 300 true both ≡ some (msecs m))
    × Awaits 300 2000 m
    × All (λ y. 2000 ≤ y.expire) (slow ∷ [])
prepare-Awaits_example =
    prepare-Awaits 300 both fast (slow ∷ []) (Reachable-IsLoop both both-Reachable) live_both
      (omega arith)

live_empty : live empty.timers ≡ []
unfolding live
live_empty = refl
