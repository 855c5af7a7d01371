-- ===== src/Timers.antt =====
-- The timers of src/common/mainloop.c. A timer is named by a number for its address, and the list
-- `ml->timers` is a List. A timer that is marked deleted has no callback; it stays in the list until
-- the loop purges it. Times are in microseconds.
pub mod Order
pub mod Ops
pub mod Reach
pub mod Spec
pub mod Poll
mod Tests
use iot_app_fw.Common.{
  ℕ, ◌+◌, ◌*◌, ◌-◌, ◌/◌, ◌%◌, ◌^◌, Bool, true, false, Option, none, some, List, [], ◌∷◌, leb, ◌==◌,
  if◌then◌else◌, not, ◌&&◌,
}

-- `iot_timer_t`, with `is_deleted`
pub record Timer : Type 0 where
  pub id : ℕ
  pub expire : ℕ
  pub msecs : ℕ
  pub deleted : Bool

-- `timers` and `next_timer` of `iot_mainloop_t`
pub record Loop : Type 0 where
  pub timers : List Timer
  pub next : Option ℕ

-- `now + msecs * USECS_PER_MSEC`; the product is one of 32-bit unsigned numbers, the sum of 64-bit
-- ones.
unfoldable pub expiry : (now msecs : ℕ) → ℕ
expiry now msecs = (now + msecs * 1000 % 2 ^ 32) % 2 ^ 64

-- `usecs_to_msecs`, of a result in the range of `int`
unfoldable pub usecs_to_msecs : ℕ → ℕ
usecs_to_msecs usecs = (usecs + 1000 - 1) % 2 ^ 64 / 1000

-- where the loop of `insert_timer` puts a timer
unfoldable pub insert_at : Timer → List Timer → List Timer
insert_at t [] = t ∷ []
insert_at t (x ∷ xs) =
    if not x.deleted && leb t.expire x.expire then t ∷ x ∷ xs else x ∷ insert_at t xs

-- `next` after the loop of `insert_timer`
unfoldable pub next_before : Timer → List Timer → Option ℕ
next_before t [] = none
next_before t (x ∷ xs) =
    if x.deleted then next_before t xs else if leb t.expire x.expire then none else some x.id

unfoldable pub next_or : ℕ → Option ℕ → Option ℕ
next_or i none = some i
next_or i (some j) = some j

-- `insert_timer`
unfoldable pub insert_timer : Timer → Loop → Loop
insert_timer t l = record {
  timers = insert_at t l.timers;
  next = next_or t.id (next_before t l.timers);
}

-- `iot_list_delete` of the timer's hook
unfoldable pub unlink : ℕ → List Timer → List Timer
unlink i [] = []
unlink i (x ∷ xs) = if x.id == i then xs else x ∷ unlink i xs

-- `rearm_timer`
unfoldable pub rearm_timer : (now : ℕ) → Timer → Loop → Loop
rearm_timer now t l =
    insert_timer (record t { expire = expiry now t.msecs })
      (record l { timers = unlink t.id l.timers })

-- the loop of `find_next_timer`
unfoldable pub first_live : List Timer → Option ℕ
first_live [] = none
first_live (x ∷ xs) = if x.deleted then first_live xs else some x.id

-- `find_next_timer`
unfoldable pub find_next_timer : Loop → Loop
find_next_timer l = record l { next = first_live l.timers }

-- `iot_add_timer`: the timer's name, or NULL, and the loop. `id` is the address that the allocation
-- gives, or `none` where it fails.
unfoldable pub add_timer :
    (now msecs : ℕ) → (has_callback : Bool) → (id : Option ℕ) → Loop → Option ℕ × Loop
add_timer now msecs false id l = (none, l)
add_timer now msecs true none l = (none, l)
add_timer now msecs true (some i) l = (
  some i,
  insert_timer (record { id = i; expire = expiry now msecs; msecs = msecs; deleted = false }) l,
)

-- the timer behind a pointer
unfoldable pub timer_at : ℕ → List Timer → Option Timer
timer_at i [] = none
timer_at i (x ∷ xs) = if x.id == i then some x else timer_at i xs

-- `IOT_TIMER_RESTART`
abbrev pub timer_restart : ℕ
timer_restart = 2 ^ 32 - 1

-- `iot_mod_timer`, of the timer behind the pointer, or NULL
unfoldable pub mod_timer_at : (now msecs : ℕ) → Option Timer → Loop → Loop
mod_timer_at now msecs none l = l
mod_timer_at now msecs (some t) l =
    if t.deleted
    then l
    else rearm_timer now (if msecs == timer_restart then t else record t { msecs = msecs }) l

unfoldable pub mod_timer : (now : ℕ) → (id msecs : ℕ) → Loop → Loop
mod_timer now id msecs l = mod_timer_at now msecs (timer_at id l.timers) l

-- `mark_deleted`
unfoldable pub mark_deleted : ℕ → List Timer → List Timer
mark_deleted i [] = []
mark_deleted i (x ∷ xs) =
    if x.id == i then record x { deleted = true } ∷ xs else x ∷ mark_deleted i xs

unfoldable pub is_next : ℕ → Option ℕ → Bool
is_next i none = false
is_next i (some j) = j == i

-- whether the timer behind a pointer is marked already
unfoldable pub is_marked : ℕ → List Timer → Bool
is_marked i [] = false
is_marked i (x ∷ xs) = if x.id == i then x.deleted else is_marked i xs

-- what `iot_del_timer` does with a timer that is not
unfoldable pub mark_timer : ℕ → Loop → Loop
mark_timer i l =
    let l' : Loop = record l { timers = mark_deleted i l.timers } in
    if is_next i l.next then find_next_timer l' else l'

-- `iot_del_timer`
unfoldable pub del_timer : ℕ → Loop → Loop
del_timer i l = if is_marked i l.timers then l else mark_timer i l

-- what `purge_deleted` leaves of the list
unfoldable pub live : List Timer → List Timer
live [] = []
live (x ∷ xs) = if x.deleted then live xs else x ∷ live xs

unfoldable pub purge_deleted : Loop → Loop
purge_deleted l = record l { timers = live l.timers }

-- the -1 of `poll_timeout`, or a number of milliseconds
pub data Timeout : Type 0 where
  forever : Timeout
  msecs : ℕ → Timeout

unfoldable pub timeout_at : (now : ℕ) → Timer → Timeout
timeout_at now t = if leb t.expire now then msecs 0 else msecs (usecs_to_msecs (t.expire - now))

-- The timeout of `iot_mainloop_prepare`; `none` where `next_timer` points to no timer.
unfoldable pub prepare_at : (now : ℕ) → List Timer → Option ℕ → Option Timeout
prepare_at now ts none = some forever
prepare_at now ts (some i) = elim (timer_at i ts) [ none ↦ none | some t ↦ some (timeout_at now t) ]

unfoldable pub prepare : (now : ℕ) → (deferred_empty : Bool) → Loop → Option Timeout
prepare now false l = some (msecs 0)
prepare now true l = prepare_at now l.timers l.next
