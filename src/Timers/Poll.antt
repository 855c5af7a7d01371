-- ===== src/Timers/Poll.antt =====
-- How long the loop of src/common/mainloop.c sleeps, and when its timers expire.
use mathlib.Core.Path.{subst}
use iot_app_fw.Common.{
  ℕ, ◌+◌, ◌*◌, ◌-◌, ◌/◌, ◌%◌, ◌^◌, ◌≤◌, ◌<◌, ◌≡◌, ◌≢◌, refl, sym, ap, ◌∙◌, true, Option, none, some,
  List, [], ◌∷◌, arith, leb, if◌then◌else◌, All, inl, inr, Bool-cases,
}
use iot_app_fw.Timers.{
  Timer, Loop, live, timer_at, expiry, usecs_to_msecs, Timeout, forever, msecs, timeout_at, prepare,
  prepare_at,
}
use iot_app_fw.Timers.Order.{Sorted, head_id, first_live-live, All-live}
use iot_app_fw.Timers.Ops.{Unique, IsLoop}

timer_at-first :
    (ts : List Timer) (t : Timer) (rest : List Timer)
    → Unique ts
    → live ts ≡ t ∷ rest
    → timer_at t.id ts ≡ some t
unfolding timer_at live
timer_at-first [] t rest u e = absurd (cc)
timer_at-first (x ∷ xs) t rest u e = elim (Bool-cases x.deleted) [
  | inl d ↦
      let later : live xs ≡ t ∷ rest = ap (λ b. if b then live xs else x ∷ live xs) (sym d) ∙ e in
      let other : All (λ y. y.id ≢ x.id) (t ∷ rest) =
        subst (All (λ y. y.id ≢ x.id)) later (All-live (λ y. y.id ≢ x.id) xs u.0) in
      ground (arith, other.0, timer_at-first xs t rest u.1 later)
  | inr d ↦
      let here : x ∷ live xs ≡ t ∷ rest =
        ap (λ b. if b then live xs else x ∷ live xs) (sym d) ∙ e in
      let same : x ≡ t = head_eq x t (live xs) rest here in
      subst (λ y. timer_at y.id (x ∷ xs) ≡ some y) same (ground arith)
]
  where
    head_eq : (x t : Timer) (xs ts : List Timer) → x ∷ xs ≡ t ∷ ts → x ≡ t
    head_eq x t xs ts e = cc

-- Without timers or deferred callbacks the loop sleeps until something happens.
pub prepare_idle :
    (now : ℕ) (l : Loop) → IsLoop l → live l.timers ≡ [] → prepare now true l ≡ some forever
unfolding prepare prepare_at
prepare_idle now l v e =
    ap (prepare_at now l.timers) (v.next ∙ first_live-live l.timers ∙ ap head_id e)

-- The timeout `m` is over no sooner than the time `expire`, and less than a millisecond after it.
pub record Awaits (now expire m : ℕ) : Type 0 where
  pub reached : expire ≤ now + m * 1000
  pub prompt : m * 1000 < expire - now + 1000
  pub small : m ≤ 4294968

Awaits-timeout_at :
    (now : ℕ) (t : Timer)
    → t.expire ≤ now + 2 ^ 32
    → (m : ℕ) × (timeout_at now t ≡ msecs m) × Awaits now t.expire m
unfolding timeout_at usecs_to_msecs
Awaits-timeout_at now t h = elim (Bool-cases (leb t.expire now)) [
  | inl e ↦
      rw e (0, refl, record { reached = ground arith; prompt = omega arith; small = omega arith })
  | inr e ↦
      let d : ℕ = t.expire - now in
      let late : now < t.expire = ground arith in
      let whole : (d + 1000 - 1) % 2 ^ 64 ≡ d + 1000 - 1 = omega arith in
      rw e (
        (d + 1000 - 1) % 2 ^ 64 / 1000,
        refl,
        record {
          reached = omega (arith, whole);
          prompt = omega (arith, whole);
          small = omega (arith, whole);
        },
      )
]

-- With timers, and no deferred callback, the loop sleeps until the first of them expires, and less
-- than a millisecond longer, where that is at most 2 ^ 32 microseconds away; none of the others
-- expires before the first.
pub prepare-Awaits :
    (now : ℕ) (l : Loop) (t : Timer) (rest : List Timer)
    → IsLoop l
    → live l.timers ≡ t ∷ rest
    → t.expire ≤ now + 2 ^ 32
    → (m : ℕ) × (prepare now true l ≡ some (msecs m))
      × Awaits now t.expire m
      × All (λ y. t.expire ≤ y.expire) rest
unfolding prepare prepare_at
prepare-Awaits now l t rest v e h =
    let (m, is, good) = Awaits-timeout_at now t h in
    let next : l.next ≡ some t.id = v.next ∙ first_live-live l.timers ∙ ap head_id e in
    let found : timer_at t.id l.timers ≡ some t = timer_at-first l.timers t rest v.unique e in
    (
      m,
      ap (prepare_at now l.timers) next
          ∙ ap
              (λ o. elim o as (λ x. Option Timeout) [
                | none ↦ none
                | some t ↦ some (timeout_at now t)
              ])
              found
          ∙ ap some is,
      good,
      (subst Sorted e v.sorted).0,
    )

-- An interval of less than 2 ^ 32 microseconds expires when it is over.
pub expiry_short :
    (now m : ℕ) → m * 1000 < 2 ^ 32 → now + 2 ^ 32 ≤ 2 ^ 64 → expiry now m ≡ now + m * 1000
unfolding expiry
expiry_short now m h k = omega arith

-- An interval of 2 ^ 32 microseconds or more expires before it is over, and less than 2 ^ 32
-- microseconds from now, unless the clock is about to overflow.
pub expiry_long :
    (now m : ℕ)
    → 2 ^ 32 ≤ m * 1000
    → now + 2 ^ 32 ≤ 2 ^ 64
    → (expiry now m < now + m * 1000) × (expiry now m < now + 2 ^ 32)
unfolding expiry
expiry_long now m h k = (omega arith, omega arith)
