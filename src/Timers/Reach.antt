-- ===== src/Timers/Reach.antt =====
-- The timers of a loop of src/common/mainloop.c, whatever its callers do with them.
use iot_app_fw.Common.{ℕ, refl, true, some, [], none}
use iot_app_fw.Timers.{Loop, add_timer, mod_timer, del_timer, purge_deleted, first_live, live}
use iot_app_fw.Timers.Ops.{
  Absent, IsLoop, add_timer-IsLoop, mod_timer-IsLoop, del_timer-IsLoop, purge_deleted-IsLoop,
}

abbrev pub empty : Loop
empty = record { timers = []; next = none }

-- What the loop's operations make of a loop. A new timer's address is not that of another one.
pub data Reachable : Loop → Type 0 where
  start : Reachable empty
  adds :
      (l : Loop) (now msecs id : ℕ)
      → Reachable l
      → Absent id l.timers
      → Reachable (add_timer now msecs true (some id) l).1
  modifies : (l : Loop) (now id msecs : ℕ) → Reachable l → Reachable (mod_timer now id msecs l)
  deletes : (l : Loop) (id : ℕ) → Reachable l → Reachable (del_timer id l)
  purges : (l : Loop) → Reachable l → Reachable (purge_deleted l)

empty-IsLoop : IsLoop empty
unfolding first_live live
empty-IsLoop = record { sorted = tt; next = refl; unique = tt }

-- Whatever timers are added, restarted, deleted and purged, and in whatever order, the timers that
-- are not deleted stay in the order of their expiry, `next_timer` is the first of them, or NULL
-- when there is none, and no timer is in the list twice.
pub Reachable-IsLoop : (l : Loop) → Reachable l → IsLoop l
Reachable-IsLoop _ start = empty-IsLoop
Reachable-IsLoop _ (adds l now msecs id r a) =
    add_timer-IsLoop now msecs id l a (Reachable-IsLoop l r)
Reachable-IsLoop _ (modifies l now id msecs r) =
    mod_timer-IsLoop now id msecs l (Reachable-IsLoop l r)
Reachable-IsLoop _ (deletes l id r) = del_timer-IsLoop id l (Reachable-IsLoop l r)
Reachable-IsLoop _ (purges l r) = purge_deleted-IsLoop l (Reachable-IsLoop l r)
