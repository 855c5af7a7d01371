-- ===== src/Timers/Ops.antt =====
-- The operations on the timers of src/common/mainloop.c: what they make of the timers that are not
-- marked deleted, and the invariant that they keep.
use mathlib.Core.Path.{subst}
use iot_app_fw.Common.{
  ℕ, ◌≡◌, ◌≢◌, refl, sym, ap, ◌∙◌, Bool, true, false, Option, none, some, List, [], ◌∷◌, arith, leb,
  ◌==◌, if◌then◌else◌, not, ◌&&◌, All, inl, inr, Bool-cases,
}
use iot_app_fw.Timers.{
  Timer, Loop, insert_at, insert_timer, unlink, first_live, live, timer_at, mark_deleted,
  rearm_timer, find_next_timer, add_timer, timer_restart, mod_timer, mod_timer_at, del_timer,
  mark_timer, is_marked, is_next, purge_deleted,
}
use iot_app_fw.Timers.Order.{
  Sorted, head_id, first_live-live, live-insert_at, next_before-live, Sorted-insert, Sorted-unlink,
  Sorted-mark_deleted, live_again, All-live,
}

-- no timer has this name
abbrev pub Absent : ℕ → List Timer → Type 0
Absent i ts = All (λ y. y.id ≢ i) ts

abbrev pub Unique : List Timer → Type 0
Unique [] = Unit
Unique (x ∷ xs) = Absent x.id xs × Unique xs

-- The live timers are sorted, `next_timer` is the first of them, and no two timers are one.
pub record IsLoop (l : Loop) : Type 0 where
  pub sorted : Sorted (live l.timers)
  pub next : l.next ≡ first_live l.timers
  pub unique : Unique l.timers

-- Properties of names.
module _ (P : ℕ → Type 0) where
  All-insert_at :
      (t : Timer) (ts : List Timer)
      → P t.id
      → All (λ y. P y.id) ts
      → All (λ y. P y.id) (insert_at t ts)
  unfolding insert_at
  All-insert_at t [] h a = (h, tt)
  All-insert_at t (x ∷ xs) h a = elim (Bool-cases (not x.deleted && leb t.expire x.expire)) [
    | inl e ↦ rw e (h, a)
    | inr e ↦ rw e (a.0, All-insert_at t xs h a.1)
  ]

  All-unlink : (i : ℕ) (ts : List Timer) → All (λ y. P y.id) ts → All (λ y. P y.id) (unlink i ts)
  unfolding unlink
  All-unlink i [] a = tt
  All-unlink i (x ∷ xs) a = elim (Bool-cases (x.id == i)) [
    | inl e ↦ rw e a.1
    | inr e ↦ rw e (a.0, All-unlink i xs a.1)
  ]

  All-mark :
      (i : ℕ) (ts : List Timer) → All (λ y. P y.id) ts → All (λ y. P y.id) (mark_deleted i ts)
  unfolding mark_deleted
  All-mark i [] a = tt
  All-mark i (x ∷ xs) a = elim (Bool-cases (x.id == i)) [
    | inl e ↦ rw e a
    | inr e ↦ rw e (a.0, All-mark i xs a.1)
  ]

Unique-insert_at :
    (t : Timer) (ts : List Timer) → Absent t.id ts → Unique ts → Unique (insert_at t ts)
unfolding insert_at
Unique-insert_at t [] h u = (tt, tt)
Unique-insert_at t (x ∷ xs) h u = elim (Bool-cases (not x.deleted && leb t.expire x.expire)) [
  | inl e ↦ rw e (h, u)
  | inr e ↦
      rw e
        (All-insert_at (λ i. i ≢ x.id) t xs (λ e. h.0 (sym e)) u.0, Unique-insert_at t xs h.1 u.1)
]

Unique-unlink : (i : ℕ) (ts : List Timer) → Unique ts → Unique (unlink i ts)
unfolding unlink
Unique-unlink i [] u = tt
Unique-unlink i (x ∷ xs) u = elim (Bool-cases (x.id == i)) [
  | inl e ↦ rw e u.1
  | inr e ↦ rw e (All-unlink (λ j. j ≢ x.id) i xs u.0, Unique-unlink i xs u.1)
]

pub ==→eq : (a b : ℕ) → (a == b) ≡ true → a ≡ b
==→eq a b h = ground arith

==→ne : (a b : ℕ) → (a == b) ≡ false → a ≢ b
==→ne a b h e = ground arith

Absent-unlink : (i : ℕ) (ts : List Timer) → Unique ts → Absent i (unlink i ts)
unfolding unlink
Absent-unlink i [] u = tt
Absent-unlink i (x ∷ xs) u = elim (Bool-cases (x.id == i)) [
  | inl e ↦ rw e (subst (λ j. Absent j xs) (==→eq x.id i e) u.0)
  | inr e ↦ rw e (==→ne x.id i e, Absent-unlink i xs u.1)
]

Unique-mark : (i : ℕ) (ts : List Timer) → Unique ts → Unique (mark_deleted i ts)
unfolding mark_deleted
Unique-mark i [] u = tt
Unique-mark i (x ∷ xs) u = elim (Bool-cases (x.id == i)) [
  | inl e ↦ rw e u
  | inr e ↦ rw e (All-mark (λ j. j ≢ x.id) i xs u.0, Unique-mark i xs u.1)
]

Unique-add :
    (d : Bool) (x : Timer) (ys : List Timer)
    → Absent x.id ys
    → Unique ys
    → Unique (if d then ys else x ∷ ys)
Unique-add true x ys a u = u
Unique-add false x ys a u = (a, u)

Unique-live : (ts : List Timer) → Unique ts → Unique (live ts)
unfolding live
Unique-live [] u = tt
Unique-live (x ∷ xs) u =
    Unique-add x.deleted x (live xs) (All-live (λ y. y.id ≢ x.id) xs u.0) (Unique-live xs u.1)

-- What an insertion makes of a loop's list.
insert_timer-IsLoop :
    (t : Timer) (l : Loop)
    → t.deleted ≡ false
    → Absent t.id l.timers
    → Sorted (live l.timers)
    → Unique l.timers
    → IsLoop (insert_timer t l)
unfolding insert_timer
insert_timer-IsLoop t l h a s u = record {
  sorted = rw (live-insert_at t l.timers h) (Sorted-insert t (live l.timers) s);
  next =
      next_before-live t l.timers
      ∙ ap head_id (sym (live-insert_at t l.timers h))
      ∙ sym (first_live-live (insert_at t l.timers));
  unique = Unique-insert_at t l.timers a u;
}

pub add_timer-IsLoop :
    (now msecs : ℕ) (id : ℕ) (l : Loop)
    → Absent id l.timers
    → IsLoop l
    → IsLoop (add_timer now msecs true (some id) l).1
unfolding add_timer
add_timer-IsLoop now msecs id l a v = insert_timer-IsLoop _ l refl a v.sorted v.unique

rearm_timer-IsLoop :
    (now : ℕ) (t : Timer) (l : Loop) → t.deleted ≡ false → IsLoop l → IsLoop (rearm_timer now t l)
unfolding rearm_timer
rearm_timer-IsLoop now t l h v =
    insert_timer-IsLoop _ _ h (Absent-unlink t.id l.timers v.unique)
      (Sorted-unlink t.id l.timers v.sorted) (Unique-unlink t.id l.timers v.unique)

mod_timer_at-IsLoop :
    (now msecs : ℕ) (o : Option Timer) (l : Loop) → IsLoop l → IsLoop (mod_timer_at now msecs o l)
unfolding mod_timer_at
mod_timer_at-IsLoop now msecs none l v = v
mod_timer_at-IsLoop now msecs (some t) l v = elim (Bool-cases t.deleted) [
  | inl e ↦ subst (λ d. IsLoop (if d then l else rearmed)) (sym e) v
  | inr e ↦
      subst (λ d. IsLoop (if d then l else rearmed)) (sym e)
        (rearm_timer-IsLoop now new l (live_new (msecs == timer_restart) e) v)
]
  where
    new : Timer
    new = if msecs == timer_restart then t else record t { msecs = msecs }

    rearmed : Loop
    rearmed = rearm_timer now new l

    live_new :
        (b : Bool)
        → t.deleted ≡ false
        → (if b then t else record t { msecs = msecs }).deleted ≡ false
    live_new true e = e
    live_new false e = e

pub mod_timer-IsLoop : (now id msecs : ℕ) (l : Loop) → IsLoop l → IsLoop (mod_timer now id msecs l)
unfolding mod_timer
mod_timer-IsLoop now id msecs l v = mod_timer_at-IsLoop now msecs (timer_at id l.timers) l v

first_live-mark :
    (i : ℕ) (ts : List Timer)
    → is_next i (first_live ts) ≡ false
    → first_live (mark_deleted i ts) ≡ first_live ts
unfolding first_live mark_deleted is_next
first_live-mark i [] h = refl
first_live-mark i (x ∷ xs) h = ground (arith, first_live-mark i xs)

mark_timer-IsLoop : (id : ℕ) (l : Loop) → IsLoop l → IsLoop (mark_timer id l)
unfolding mark_timer find_next_timer
mark_timer-IsLoop id l v = elim (Bool-cases (is_next id l.next)) [
  | inl e ↦ rw e (record { sorted = sorted; next = refl; unique = unique })
  | inr e ↦
      let kept = first_live-mark id l.timers (ap (is_next id) (sym v.next) ∙ e) in
      rw e (record { sorted = sorted; next = v.next ∙ sym kept; unique = unique })
]
  where
    sorted : Sorted (live (mark_deleted id l.timers))
    sorted = Sorted-mark_deleted id l.timers v.sorted

    unique : Unique (mark_deleted id l.timers)
    unique = Unique-mark id l.timers v.unique

pub del_timer-IsLoop : (id : ℕ) (l : Loop) → IsLoop l → IsLoop (del_timer id l)
unfolding del_timer
del_timer-IsLoop id l v = chosen (is_marked id l.timers)
  where
    chosen : (b : Bool) → IsLoop (if b then l else mark_timer id l)
    chosen true = v
    chosen false = mark_timer-IsLoop id l v

pub purge_deleted-IsLoop : (l : Loop) → IsLoop l → IsLoop (purge_deleted l)
unfolding purge_deleted
purge_deleted-IsLoop l v = record {
  sorted = rw (live_again l.timers) v.sorted;
  next =
      v.next
      ∙ first_live-live l.timers
      ∙ ap head_id (sym (live_again l.timers))
      ∙ sym (first_live-live (live l.timers));
  unique = Unique-live l.timers v.unique;
}
