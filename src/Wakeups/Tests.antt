-- ===== src/Wakeups/Tests.antt =====
-- Runs of a wakeup, and its theorem at a concrete one.
use iot_app_fw.Common.{
  ◌+◌, ◌*◌, ◌%◌, ◌^◌, ◌≡◌, ◌≢◌, refl, true, false, none, some, List, [], ◌∷◌, arith,
}
use iot_app_fw.Wakeups.{
  timer, io, limit, Wakeup, wakeup_cb, forced_wakeup_cb, dispatch, restarted, Step, dispatched,
  expired, step, run, add_wakeup,
}
use iot_app_fw.Wakeups.Spacing.{Spaced, add_wakeup-Spaced}

-- a wakeup of any event, at most every 10 ms, that was added at 1000
abbrev any : Wakeup
any = record {
  on_timer = true;
  on_io = true;
  lpf = 10000;
  next = 11000;
  forced = none;
  deleted = false;
  calls = [];
}

added : add_wakeup true true true true 10 0 1000 1000 ≡ some any
unfolding add_wakeup
added = refl

abbrev steps : List Step
steps =
    dispatched false 0 5000 5001
    ∷ dispatched false 1 12000 12001
    ∷ expired false 21999 21999
    ∷ dispatched true 0 22000 22001
    ∷ dispatched false 0 40000 40000
    ∷ []

-- The first comes too soon, the third is 1 us short of the interval, and the last is after the
-- callback deleted the wakeup.
called_twice : (run steps any).calls ≡ (io, 12000) ∷ (timer, 22000) ∷ []
unfolding run step dispatch forced_wakeup_cb wakeup_cb restarted
called_twice = refl

-- The dispatch that read the clock at 12000 returns at 21999, and another callback may have kept it from
-- this one's call until then; the forced wakeup is called at 22000.
abbrev slow : List Step
slow = dispatched false 1 12000 21999 ∷ expired false 22000 22001 ∷ []

called_close : (run slow any).calls ≡ (io, 12000) ∷ (limit, 22000) ∷ []
unfolding run step dispatch forced_wakeup_cb wakeup_cb restarted
called_close = refl

add_wakeup-Spaced_example : Spaced 10000 (1000 + 10000) (run steps any).calls
add_wakeup-Spaced_example =
    add_wakeup-Spaced true true true true 10 0 1000 1000 any steps added not_zero (omega arith)
      (omega arith, (omega arith, (omega arith, (omega arith, (omega arith, tt)))))
  where
    not_zero : 10 * 1000 % 2 ^ 32 ≢ 0
    not_zero = omega arith
