-- ===== src/Timers/Order.antt =====
-- The order of the timers of src/common/mainloop.c.
use iot_app_fw.Common.{
  ℕ, ◌≤◌, ◌≡◌, refl, Bool, true, false, Option, none, some, List, [], ◌∷◌, arith, leb, ◌==◌,
  if◌then◌else◌, All, inl, inr, Bool-cases,
}
use iot_app_fw.Timers.{
  Timer, insert_at, next_before, next_or, unlink, first_live, live, mark_deleted,
}

abbrev pub Sorted : List Timer → Type 0
Sorted [] = Unit
Sorted (x ∷ xs) = All (λ y. x.expire ≤ y.expire) xs × Sorted xs

-- insertion in a list with no deleted timers
abbrev pub insert : Timer → List Timer → List Timer
insert t [] = t ∷ []
insert t (x ∷ xs) = if leb t.expire x.expire then t ∷ x ∷ xs else x ∷ insert t xs

abbrev pub head_id : List Timer → Option ℕ
head_id [] = none
head_id (x ∷ xs) = some x.id

pub first_live-live : (ts : List Timer) → first_live ts ≡ head_id (live ts)
unfolding first_live live
first_live-live [] = refl
first_live-live (x ∷ xs) = ground (arith, first_live-live xs)

-- Among the live timers, `insert_timer` is insertion before the first that expires no sooner.
pub live-insert_at :
    (t : Timer) (ts : List Timer) → t.deleted ≡ false → live (insert_at t ts) ≡ insert t (live ts)
unfolding live insert_at
live-insert_at t [] h = rw h refl
live-insert_at t (x ∷ xs) h = ground (arith, live-insert_at t xs h)

pub next_before-live :
    (t : Timer) (ts : List Timer) → next_or t.id (next_before t ts) ≡ head_id (insert t (live ts))
unfolding live next_before next_or
next_before-live t [] = refl
next_before-live t (x ∷ xs) = ground (arith, next_before-live t xs)

All-insert :
    (P : Timer → Type 0) (t : Timer) (ts : List Timer) → P t → All P ts → All P (insert t ts)
All-insert P t [] h a = (h, tt)
All-insert P t (x ∷ xs) h a = elim (Bool-cases (leb t.expire x.expire)) [
  | inl e ↦ rw e (h, a)
  | inr e ↦ rw e (a.0, All-insert P t xs h a.1)
]

All-weaken :
    (k j : ℕ) (ts : List Timer) → j ≤ k → All (λ y. k ≤ y.expire) ts → All (λ y. j ≤ y.expire) ts
All-weaken k j [] h a = tt
All-weaken k j (x ∷ xs) h a = (omega (arith, a.0), All-weaken k j xs h a.1)

pub Sorted-insert : (t : Timer) (ts : List Timer) → Sorted ts → Sorted (insert t ts)
Sorted-insert t [] s = (tt, tt)
Sorted-insert t (x ∷ xs) s = elim (Bool-cases (leb t.expire x.expire)) [
  | inl e ↦
      let le : t.expire ≤ x.expire = ground arith in
      rw e ((le, All-weaken x.expire t.expire xs le s.0), s)
  | inr e ↦
      let le : x.expire ≤ t.expire = ground arith in
      rw e (All-insert _ t xs le s.0, Sorted-insert t xs s.1)
]

-- What is left of a sorted list is sorted.
module _ (P : Timer → Type 0) where
  All-add :
      (d : Bool) (x : Timer) (ys : List Timer) → P x → All P ys → All P (if d then ys else x ∷ ys)
  All-add true x ys h a = a
  All-add false x ys h a = (h, a)

  pub All-live : (ts : List Timer) → All P ts → All P (live ts)
  unfolding live
  All-live [] a = tt
  All-live (x ∷ xs) a = All-add x.deleted x (live xs) a.0 (All-live xs a.1)

  All-tail : (d : Bool) (x : Timer) (ys : List Timer) → All P (if d then ys else x ∷ ys) → All P ys
  All-tail true x ys a = a
  All-tail false x ys a = a.1

  All-if :
      (d : Bool) (x : Timer) (ys zs : List Timer)
      → (All P ys → All P zs)
      → All P (if d then ys else x ∷ ys)
      → All P (if d then zs else x ∷ zs)
  All-if true x ys zs f a = f a
  All-if false x ys zs f a = (a.0, f a.1)

  pub All-live_unlink : (i : ℕ) (ts : List Timer) → All P (live ts) → All P (live (unlink i ts))
  unfolding live unlink
  All-live_unlink i [] a = tt
  All-live_unlink i (x ∷ xs) a = elim (Bool-cases (x.id == i)) [
    | inl e ↦ rw e (All-tail x.deleted x (live xs) a)
    | inr e ↦ rw e (All-if x.deleted x (live xs) (live (unlink i xs)) (All-live_unlink i xs) a)
  ]

  pub All-live_mark : (i : ℕ) (ts : List Timer) → All P (live ts) → All P (live (mark_deleted i ts))
  unfolding live mark_deleted
  All-live_mark i [] a = tt
  All-live_mark i (x ∷ xs) a = elim (Bool-cases (x.id == i)) [
    | inl e ↦ rw e (All-tail x.deleted x (live xs) a)
    | inr e ↦ rw e (All-if x.deleted x (live xs) (live (mark_deleted i xs)) (All-live_mark i xs) a)
  ]

Sorted-tail :
    (d : Bool) (x : Timer) (ys : List Timer) → Sorted (if d then ys else x ∷ ys) → Sorted ys
Sorted-tail true x ys s = s
Sorted-tail false x ys s = s.1

Sorted-if :
    (d : Bool) (x : Timer) (ys zs : List Timer)
    → (All (λ y. x.expire ≤ y.expire) ys → All (λ y. x.expire ≤ y.expire) zs)
    → (Sorted ys → Sorted zs)
    → Sorted (if d then ys else x ∷ ys)
    → Sorted (if d then zs else x ∷ zs)
Sorted-if true x ys zs f g s = g s
Sorted-if false x ys zs f g s = (f s.0, g s.1)

pub Sorted-unlink : (i : ℕ) (ts : List Timer) → Sorted (live ts) → Sorted (live (unlink i ts))
unfolding live unlink
Sorted-unlink i [] s = tt
Sorted-unlink i (x ∷ xs) s = elim (Bool-cases (x.id == i)) [
  | inl e ↦ rw e (Sorted-tail x.deleted x (live xs) s)
  | inr e ↦ rw e (
      Sorted-if x.deleted x (live xs) (live (unlink i xs)) (All-live_unlink _ i xs)
        (Sorted-unlink i xs) s)
]

pub Sorted-mark_deleted :
    (i : ℕ) (ts : List Timer) → Sorted (live ts) → Sorted (live (mark_deleted i ts))
unfolding live mark_deleted
Sorted-mark_deleted i [] s = tt
Sorted-mark_deleted i (x ∷ xs) s = elim (Bool-cases (x.id == i)) [
  | inl e ↦ rw e (Sorted-tail x.deleted x (live xs) s)
  | inr e ↦ rw e (
      Sorted-if x.deleted x (live xs) (live (mark_deleted i xs)) (All-live_mark _ i xs)
        (Sorted-mark_deleted i xs) s)
]

pub live_again : (ts : List Timer) → live (live ts) ≡ live ts
unfolding live
live_again [] = refl
live_again (x ∷ xs) = ground (arith, live_again xs)
