-- ===== src/Wakeups.antt =====
-- The wakeup notifications of src/common/mainloop.c, one at a time. The timer of forced wakeups is its
-- interval and expiry; a wakeup that is deleted has no callback. Times are in microseconds.
pub mod Spacing
mod Tests
use iot_app_fw.Common.{
  ℕ, ◌+◌, ◌*◌, ◌%◌, ◌^◌, Bool, true, false, Option, none, some, List, [], ◌∷◌, ◌++◌, ◌==◌, ltb,
  if◌then◌else◌, not, ◌&&◌,
}
use iot_app_fw.Timers.{expiry}

-- `iot_wakeup_event_t`
pub data Event : Type 0 where
  timer : Event
  io : Event
  limit : Event

-- `iot_wakeup_t`, with the events that its mask selects and the history of its callback's calls, each
-- with the reading of the clock that it was decided with
pub record Wakeup : Type 0 where
  pub on_timer : Bool
  pub on_io : Bool
  pub lpf : ℕ
  pub next : ℕ
  pub forced : Option (ℕ × ℕ)
  pub deleted : Bool
  pub calls : List (Event × ℕ)

-- `iot_mod_timer(w->timer, IOT_TIMER_RESTART)`
unfoldable pub restarted : (now : ℕ) → Option (ℕ × ℕ) → Option (ℕ × ℕ)
restarted now none = none
restarted now (some (msecs, expire)) = some (msecs, expiry now msecs)

-- `wakeup_cb`; the callback may delete the wakeup, and returns at the time `later`
unfoldable pub wakeup_cb : (deletes : Bool) → Event → (now later : ℕ) → Wakeup → Wakeup
wakeup_cb deletes event now later w = if ltb now w.next then w else record w {
  calls = w.calls ++ (event, now) ∷ [];
  deleted = if deletes then true else w.deleted;
  next = if w.lpf == 0 then w.next else (now + w.lpf) % 2 ^ 64;
  forced = restarted later w.forced;
}

-- `forced_wakeup_cb`
unfoldable pub forced_wakeup_cb : (deletes : Bool) → (now later : ℕ) → Wakeup → Wakeup
forced_wakeup_cb deletes now later w = if w.deleted then w else wakeup_cb deletes limit now later w

-- the event of `dispatch_wakeup`, for the result of the poll
abbrev pub event_of : (poll_result : ℕ) → Event
event_of r = if r == 0 then timer else io

abbrev pub selects : Wakeup → Event → Bool
selects w timer = w.on_timer
selects w io = w.on_io
selects w limit = false

-- a round of the loop of `dispatch_wakeup`
unfoldable pub dispatch : (deletes : Bool) → Event → (now later : ℕ) → Wakeup → Wakeup
dispatch deletes event now later w =
    if not (selects w event)
    then w
    else if w.deleted
    then w
    else wakeup_cb deletes event now later w

-- What happens to a wakeup: the loop dispatches, its timer expires, or it is deleted. A reading of the
-- clock follows, and the time at which the callback, if it is called, returns. `forced_wakeup_cb` reads
-- the clock at the call. `dispatch_wakeup` reads it once, before its loop over all the wakeups, so its
-- reading may be older than the call, by the time that the callbacks before it took.
pub data Step : Type 0 where
  dispatched : (deletes : Bool) → (poll_result now later : ℕ) → Step
  expired : (deletes : Bool) → (now later : ℕ) → Step
  removed : Step

-- `iot_del_wakeup`
unfoldable pub del_wakeup : Wakeup → Wakeup
del_wakeup w = record w { deleted = true }

unfoldable pub step : Step → Wakeup → Wakeup
step (dispatched deletes r now later) w = dispatch deletes (event_of r) now later w
step (expired deletes now later) w = forced_wakeup_cb deletes now later w
step removed w = del_wakeup w

unfoldable pub run : List Step → Wakeup → Wakeup
run [] w = w
run (s ∷ ss) w = run ss (step s w)

-- `iot_add_wakeup`, with a callback; `granted` and `timed` are the allocations of the wakeup and its
-- timer, `now` and `later` the two readings of the clock. 0 stands for no filter; the -1 that mainloop.h
-- names is an interval like others.
unfoldable pub add_wakeup :
    (granted timed on_timer on_io : Bool) → (lpf_msecs force_msecs now later : ℕ) → Option Wakeup
add_wakeup granted timed on_timer on_io lpf_msecs force_msecs now later =
    let lpf : ℕ = lpf_msecs * 1000 % 2 ^ 32 in
    let w : Wakeup = record {
      on_timer = on_timer;
      on_io = on_io;
      lpf = lpf;
      next = if lpf_msecs == 0 then 0 else (now + lpf) % 2 ^ 64;
      forced = if force_msecs == 0 then none else some (force_msecs, expiry later force_msecs);
      deleted = false;
      calls = [];
    } in
    if ltb force_msecs lpf_msecs && not (force_msecs == 0)
    then none
    else if not granted
    then none
    else if not (force_msecs == 0) && not timed
    then none
    else some w
