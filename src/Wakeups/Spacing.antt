-- ===== src/Wakeups/Spacing.antt =====
-- With which readings of the clock a wakeup of src/common/mainloop.c is notified.
use mathlib.Core.Path.{subst}
use mathlib.Core.Option.{none-ne-some}
use iot_app_fw.Common.{
  ℕ, ◌+◌, ◌*◌, ◌%◌, ◌^◌, ◌<◌, ◌≤◌, ◌≡◌, ◌≢◌, refl, sym, ap, ◌∙◌, Bool, true, false, not, none, some,
  List, [], ◌∷◌, ◌++◌, ◌==◌, ltb, if◌then◌else◌, ◌&&◌, eq_of_some, arith,
}
use iot_app_fw.Wakeups.{
  Event, limit, Wakeup, restarted, wakeup_cb, forced_wakeup_cb, event_of, selects, dispatch, Step,
  dispatched, expired, removed, del_wakeup, step, run, add_wakeup,
}
use iot_app_fw.Timers.{expiry}

-- The reading of each call is at least an interval after that of the one before it, and that of the first
-- not before a time.
abbrev pub Spaced : ℕ → ℕ → List (Event × ℕ) → Type 0
Spaced gap from [] = Unit
Spaced gap from ((event, now) ∷ calls) = (from ≤ now) × Spaced gap (now + gap) calls

-- the first time at which a further call keeps the distance
abbrev pub end_of : ℕ → ℕ → List (Event × ℕ) → ℕ
end_of gap from [] = from
end_of gap from ((event, now) ∷ calls) = end_of gap (now + gap) calls

Spaced-append :
    (gap from : ℕ) (calls : List (Event × ℕ)) (event : Event) (now : ℕ)
    → Spaced gap from calls
    → end_of gap from calls ≤ now
    → Spaced gap from (calls ++ (event, now) ∷ [])
Spaced-append gap from [] event now s h = (h, tt)
Spaced-append gap from ((e, n) ∷ calls) event now s h =
    (s.0, Spaced-append gap (n + gap) calls event now s.1 h)

end_of-append :
    (gap from : ℕ) (calls : List (Event × ℕ)) (event : Event) (now : ℕ)
    → end_of gap from (calls ++ (event, now) ∷ []) ≡ now + gap
end_of-append gap from [] event now = refl
end_of-append gap from ((e, n) ∷ calls) event now = end_of-append gap (n + gap) calls event now

-- the times of a step at which the clock plus the interval does not overflow
abbrev pub InTime : ℕ → Step → Type 0
InTime gap (dispatched deletes r now later) = now + gap < 2 ^ 64
InTime gap (expired deletes now later) = now + gap < 2 ^ 64
InTime gap removed = Unit

abbrev pub AllInTime : ℕ → List Step → Type 0
AllInTime gap [] = Unit
AllInTime gap (s ∷ ss) = InTime gap s × AllInTime gap ss

-- The calls so far are apart, and the filter knows when the next may be.
record Filtered (gap from : ℕ) (w : Wakeup) : Type 0 where
  lpf : w.lpf ≡ gap
  spaced : Spaced gap from w.calls
  next : end_of gap from w.calls ≡ w.next

wakeup_cb-Filtered :
    (gap from : ℕ) (deletes : Bool) (event : Event) (now later : ℕ) (w : Wakeup)
    → gap ≢ 0
    → now + gap < 2 ^ 64
    → Filtered gap from w
    → Filtered gap from (wakeup_cb deletes event now later w)
unfolding wakeup_cb
wakeup_cb-Filtered gap from deletes event now later w n h f = at (ltb now w.next) refl
  where
    called : Wakeup
    called = record w {
      calls = w.calls ++ (event, now) ∷ [];
      deleted = if deletes then true else w.deleted;
      next = if w.lpf == 0 then w.next else (now + w.lpf) % 2 ^ 64;
      forced = restarted later w.forced;
    }

    nonzero : (w.lpf == 0) ≡ false
    nonzero = ground (arith, n, f.lpf)

    sum : now + gap ≡ (now + w.lpf) % 2 ^ 64
    sum = omega (arith, h, f.lpf)

    at : (b : Bool) → ltb now w.next ≡ b → Filtered gap from (if b then w else called)
    at true e = f
    at false e = record {
      lpf = f.lpf;
      spaced = Spaced-append gap from w.calls event now f.spaced (ground (arith, e, f.next));
      next =
          end_of-append gap from w.calls event now
          ∙ sum
          ∙ sym (ap (λ b. if b then w.next else (now + w.lpf) % 2 ^ 64) nonzero);
    }

either : {A : Type 0} (P : A → Type 0) (b : Bool) (x y : A) → P x → P y → P (if b then x else y)
either P true x y p q = p
either P false x y p q = q

step-Filtered :
    (gap from : ℕ) (s : Step) (w : Wakeup)
    → gap ≢ 0
    → InTime gap s
    → Filtered gap from w
    → Filtered gap from (step s w)
unfolding step dispatch forced_wakeup_cb del_wakeup
step-Filtered gap from (dispatched deletes r now later) w n h f =
    either (Filtered gap from) (not (selects w (event_of r))) w _ f (
      either (Filtered gap from) w.deleted w _ f
        (wakeup_cb-Filtered gap from deletes (event_of r) now later w n h f))
step-Filtered gap from (expired deletes now later) w n h f =
    either (Filtered gap from) w.deleted w _ f
      (wakeup_cb-Filtered gap from deletes limit now later w n h f)
step-Filtered gap from removed w n h f = record { lpf = f.lpf; spaced = f.spaced; next = f.next }

run-Filtered :
    (gap from : ℕ) (ss : List Step) (w : Wakeup)
    → gap ≢ 0
    → AllInTime gap ss
    → Filtered gap from w
    → Filtered gap from (run ss w)
unfolding run
run-Filtered gap from [] w n h f = f
run-Filtered gap from (s ∷ ss) w n h f =
    run-Filtered gap from ss (step s w) n h.1 (step-Filtered gap from s w n h.0 f)

run-Spaced :
    (ss : List Step) (w : Wakeup) (added : ℕ)
    → w.lpf ≢ 0
    → w.calls ≡ []
    → w.next ≡ added + w.lpf
    → AllInTime w.lpf ss
    → Spaced w.lpf (added + w.lpf) (run ss w).calls
run-Spaced ss w added n c e h =
    (run-Filtered w.lpf (added + w.lpf) ss w n h (record {
      lpf = refl;
      spaced = subst (Spaced w.lpf (added + w.lpf)) (sym c) tt;
      next = ap (end_of w.lpf (added + w.lpf)) c ∙ sym e;
    })).spaced

added-fields :
    (granted timed on_timer on_io : Bool) (lpf_msecs force_msecs now later : ℕ) (w : Wakeup)
    → add_wakeup granted timed on_timer on_io lpf_msecs force_msecs now later ≡ some w
    → lpf_msecs * 1000 % 2 ^ 32 ≢ 0
    → (w.lpf ≡ lpf_msecs * 1000 % 2 ^ 32) × (w.calls ≡ []) × (w.next ≡ (now + w.lpf) % 2 ^ 64)
unfolding add_wakeup
added-fields granted timed on_timer on_io lpf_msecs force_msecs now later w h n =
    at (ltb force_msecs lpf_msecs && not (force_msecs == 0)) (not granted)
      (not (force_msecs == 0) && not timed) h
  where
    new : Wakeup
    new = record {
      on_timer = on_timer;
      on_io = on_io;
      lpf = lpf_msecs * 1000 % 2 ^ 32;
      next = if lpf_msecs == 0 then 0 else (now + lpf_msecs * 1000 % 2 ^ 32) % 2 ^ 64;
      forced = if force_msecs == 0 then none else some (force_msecs, expiry later force_msecs);
      deleted = false;
      calls = [];
    }

    Fields : Wakeup → Type 0
    Fields w =
        (w.lpf ≡ lpf_msecs * 1000 % 2 ^ 32) × (w.calls ≡ []) × (w.next ≡ (now + w.lpf) % 2 ^ 64)

    filtered : (lpf_msecs == 0) ≡ false
    filtered = ground (arith, n)

    at :
        (a b c : Bool)
        → (if a then none else if b then none else if c then none else some new) ≡ some w
        → Fields w
    at true b c e = absurd (none-ne-some w e)
    at false true c e = absurd (none-ne-some w e)
    at false false true e = absurd (none-ne-some w e)
    at false false false e =
        subst Fields (eq_of_some e) (
          refl,
          refl,
          ap (λ b. if b then 0 else (now + lpf_msecs * 1000 % 2 ^ 32) % 2 ^ 64) filtered,
        )

-- Whatever the loop, the timer of forced wakeups and deletions do to a wakeup that was added with a
-- low-pass filter, the readings of the clock that its calls are decided with are at least the interval
-- of the filter apart, and the first is at least the interval after the reading at its creation. The
-- reading is that of `forced_wakeup_cb` at the call, or that of `dispatch_wakeup` before its loop over
-- all the wakeups, which can be older than the call: the calls themselves can be closer. The interval,
-- which is computed with 32 bits (also that of -1), is not 0, and the clock stays below 2 ^ 64
-- microseconds.
pub add_wakeup-Spaced :
    (granted timed on_timer on_io : Bool) (lpf_msecs force_msecs now later : ℕ) (w : Wakeup)
    (ss : List Step)
    → add_wakeup granted timed on_timer on_io lpf_msecs force_msecs now later ≡ some w
    → lpf_msecs * 1000 % 2 ^ 32 ≢ 0
    → now + w.lpf < 2 ^ 64
    → AllInTime w.lpf ss
    → Spaced w.lpf (now + w.lpf) (run ss w).calls
add_wakeup-Spaced granted timed on_timer on_io lpf_msecs force_msecs now later w ss h n k t =
    let (lpf, calls, next) =
      added-fields granted timed on_timer on_io lpf_msecs force_msecs now later w h n in
    run-Spaced ss w now (λ e. n (sym lpf ∙ e)) calls (next ∙ omega (arith, k)) t
