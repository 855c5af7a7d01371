-- ===== src/Timers/Spec.antt =====
-- The timers of src/common/mainloop.c against a list that holds the live timers alone, in order.
use mathlib.Core.Path.{subst}
use iot_app_fw.Common.{
  sym, ℕ, ◌≡◌, refl, ap, ◌∙◌, true, false, some, List, [], ◌∷◌, arith, Bool, if◌then◌else◌, ◌==◌,
  inl, inr, Bool-cases, ◌≢◌,
}
use iot_app_fw.Timers.{
  Timer, Loop, mod_timer, del_timer, mark_timer, is_marked, live, unlink, mark_deleted, expiry,
  timer_at, insert_timer, rearm_timer, mod_timer_at, timer_restart, find_next_timer, is_next,
}
use iot_app_fw.Timers.Order.{insert, live-insert_at, All-live}
use iot_app_fw.Timers.Ops.{Absent, Unique, IsLoop, ==→eq}

unlink-Absent : (i : ℕ) (ts : List Timer) → Absent i ts → unlink i ts ≡ ts
unfolding unlink
unlink-Absent i [] a = refl
unlink-Absent i (x ∷ xs) a = ground (arith, a.0, unlink-Absent i xs a.1)

live-Absent : (i : ℕ) (ts : List Timer) → Absent i ts → Absent i (live ts)
live-Absent i ts a = All-live (λ y. y.id ≢ i) ts a

live-unlink : (i : ℕ) (ts : List Timer) → Unique ts → live (unlink i ts) ≡ unlink i (live ts)
unfolding live unlink
live-unlink i [] u = refl
live-unlink i (x ∷ xs) u = elim (Bool-cases (x.id == i)) [
  | inl e ↦
      let a : Absent i (live xs) =
        live-Absent i xs (subst (λ j. Absent j xs) (==→eq x.id i e) u.0) in
      ground (arith, e, unlink-Absent i (live xs) a)
  | inr e ↦ ground (arith, e, live-unlink i xs u.1)
]

live-mark : (i : ℕ) (ts : List Timer) → Unique ts → live (mark_deleted i ts) ≡ unlink i (live ts)
unfolding live unlink mark_deleted
live-mark i [] u = refl
live-mark i (x ∷ xs) u = elim (Bool-cases (x.id == i)) [
  | inl e ↦
      let a : Absent i (live xs) =
        live-Absent i xs (subst (λ j. Absent j xs) (==→eq x.id i e) u.0) in
      ground (arith, e, unlink-Absent i (live xs) a)
  | inr e ↦ ground (arith, e, live-mark i xs u.1)
]

unlink-marked :
    (i : ℕ) (ts : List Timer) → Unique ts → is_marked i ts ≡ true → unlink i (live ts) ≡ live ts
unfolding live unlink is_marked
unlink-marked i [] u h = refl
unlink-marked i (x ∷ xs) u h = elim (Bool-cases (x.id == i)) [
  | inl e ↦
      let a : Absent i (live xs) =
        live-Absent i xs (subst (λ j. Absent j xs) (==→eq x.id i e) u.0) in
      ground (arith, e, unlink-Absent i (live xs) a)
  | inr e ↦ ground (arith, e, unlink-marked i xs u.1)
]

mark_timer-live :
    (id : ℕ) (l : Loop) → IsLoop l → live (mark_timer id l).timers ≡ unlink id (live l.timers)
unfolding mark_timer find_next_timer
mark_timer-live id l v = elim (Bool-cases (is_next id l.next)) [
  | inl e ↦ rw e (live-mark id l.timers v.unique)
  | inr e ↦ rw e (live-mark id l.timers v.unique)
]

-- Deleting a timer takes it out of the live timers, and no other.
pub del_timer-live :
    (id : ℕ) (l : Loop) → IsLoop l → live (del_timer id l).timers ≡ unlink id (live l.timers)
unfolding del_timer
del_timer-live id l v = elim (Bool-cases (is_marked id l.timers)) [
  | inl e ↦ rw e (sym (unlink-marked id l.timers v.unique e))
  | inr e ↦ rw e (mark_timer-live id l v)
]

-- the timer as `iot_mod_timer` sets it
abbrev pub restarted : (now msecs : ℕ) → Timer → Timer
restarted now msecs t =
    let m : ℕ = if msecs == timer_restart then t.msecs else msecs in
    record t { expire = expiry now m; msecs = m }

timer_at-id : (i : ℕ) (ts : List Timer) (t : Timer) → timer_at i ts ≡ some t → t.id ≡ i
unfolding timer_at
timer_at-id i [] t h = absurd (cc)
timer_at-id i (x ∷ xs) t h = elim (Bool-cases (x.id == i)) [
  | inl e ↦ ground (arith, ==→eq x.id i e)
  | inr e ↦ timer_at-id i xs t (ground (arith, e))
]

rearmed :
    (now : ℕ) (t : Timer) (l : Loop)
    → IsLoop l
    → t.deleted ≡ false
    → live (rearm_timer now t l).timers
      ≡ insert (record t { expire = expiry now t.msecs }) (unlink t.id (live l.timers))
unfolding rearm_timer insert_timer
rearmed now t l v h =
    live-insert_at (record t { expire = expiry now t.msecs }) (unlink t.id l.timers) h
    ∙ ap (insert (record t { expire = expiry now t.msecs })) (live-unlink t.id l.timers v.unique)

modified :
    (now msecs : ℕ) (t : Timer) (l : Loop)
    → IsLoop l
    → t.deleted ≡ false
    → live (mod_timer_at now msecs (some t) l).timers
      ≡ insert (restarted now msecs t) (unlink t.id (live l.timers))
unfolding mod_timer_at
modified now msecs t l v h =
    ap
      (λ d.
        live
          (if d
            then l
            else rearm_timer now (if msecs == timer_restart then t else record t { msecs = msecs })
                l).timers)
      h
    ∙ chosen (msecs == timer_restart)
  where
    chosen :
        (b : Bool)
        → live (rearm_timer now (if b then t else record t { msecs = msecs }) l).timers
          ≡ insert
              (record t {
                expire = expiry now (if b then t.msecs else msecs);
                msecs = if b then t.msecs else msecs;
              })
              (unlink t.id (live l.timers))
    chosen true = rearmed now t l v h
    chosen false = rearmed now (record t { msecs = msecs }) l v h

-- Setting or restarting a live timer takes it from its place among the live timers and inserts it,
-- with its new interval and expiry, before the first that expires no sooner.
pub mod_timer-live :
    (now id msecs : ℕ) (l : Loop) (t : Timer)
    → IsLoop l
    → timer_at id l.timers ≡ some t
    → t.deleted ≡ false
    → live (mod_timer now id msecs l).timers
      ≡ insert (restarted now msecs t) (unlink id (live l.timers))
unfolding mod_timer
mod_timer-live now id msecs l t v e h =
    ap (λ o. live (mod_timer_at now msecs o l).timers) e
    ∙ modified now msecs t l v h
    ∙ ap (λ i. insert (restarted now msecs t) (unlink i (live l.timers)))
        (timer_at-id id l.timers t e)
