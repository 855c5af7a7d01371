-- ===== src/Deferreds.antt =====
-- The deferred callbacks of src/common/mainloop.c: the queue that is run and the queue of inactive
-- ones. A callback's address is a number; one that is marked deleted stays in its queue until it is
-- purged.
pub mod Total
mod Tests
use iot_app_fw.Common.{
  ℕ, ◌+◌, Bool, true, false, Option, none, some, List, [], ◌∷◌, ◌++◌, ◌==◌, if◌then◌else◌,
}

-- `iot_deferred_t`, with `is_deleted`
pub record Deferred : Type 0 where
  pub id : ℕ
  pub inactive : Bool
  pub deleted : Bool

-- `deferred` and `inactive_deferred` of `iot_mainloop_t`
pub record Queues : Type 0 where
  pub active : List Deferred
  pub idle : List Deferred

unfoldable pub find : ℕ → List Deferred → Option Deferred
find i [] = none
find i (d ∷ ds) = if d.id == i then some d else find i ds

unfoldable pub remove : ℕ → List Deferred → List Deferred
remove i [] = []
remove i (d ∷ ds) = if d.id == i then ds else d ∷ remove i ds

unfoldable pub or_else : Option Deferred → Option Deferred → Option Deferred
or_else none d = d
or_else (some x) d = some x

-- the callback behind a pointer
unfoldable pub behind : ℕ → Queues → Option Deferred
behind i q = or_else (find i q.active) (find i q.idle)

-- `iot_list_delete(&d->hook)`, from the queue that it is in
unfoldable pub detach_at : ℕ → Queues → Option Deferred → Queues
detach_at i q (some d) = record q { active = remove i q.active }
detach_at i q none = record q { idle = remove i q.idle }

unfoldable pub detach : ℕ → Queues → Queues
detach i q = detach_at i q (find i q.active)

-- `iot_add_deferred`: the callback's address, or NULL, and the queues. `id` is the address that the
-- allocation gives, or `none` where it fails.
unfoldable pub add_deferred : (has_callback : Bool) → (id : Option ℕ) → Queues → Option ℕ × Queues
add_deferred false id q = (none, q)
add_deferred true none q = (none, q)
add_deferred true (some i) q = (
  some i,
  record q { active = q.active ++ record { id = i; inactive = false; deleted = false } ∷ [] },
)

-- a change of the callback behind a pointer
unfoldable pub update : (Deferred → Deferred) → ℕ → List Deferred → List Deferred
update f i [] = []
update f i (d ∷ ds) = if d.id == i then f d ∷ ds else d ∷ update f i ds

unfoldable pub update_both : (Deferred → Deferred) → ℕ → Queues → Queues
update_both f i q = record { active = update f i q.active; idle = update f i q.idle }

-- `iot_del_deferred`; marking twice is marking once
unfoldable pub del_deferred : ℕ → Queues → Queues
del_deferred i q = update_both (λ d. record d { deleted = true }) i q

-- `iot_disable_deferred`
unfoldable pub set_inactive : ℕ → Queues → Queues
set_inactive i q = update_both (λ d. record d { inactive = true }) i q

-- `disable_deferred`, which the dispatch of an inactive callback calls
unfoldable pub disable_at : ℕ → Queues → Option Deferred → Queues
disable_at i q none = q
disable_at i q (some d) =
    let q' : Queues = detach i q in if d.inactive then record q' { idle = q'.idle ++ d ∷ [] } else q

unfoldable pub disable_deferred : ℕ → Queues → Queues
disable_deferred i q = disable_at i q (behind i q)

-- `iot_enable_deferred`
unfoldable pub enable_at : ℕ → Queues → Option Deferred → Queues
enable_at i q none = q
enable_at i q (some d) =
    let q' : Queues = detach i q in
    let on : Queues = record q' { active = q'.active ++ record d { inactive = false } ∷ [] } in
    if d.deleted then q else on

unfoldable pub enable_deferred : ℕ → Queues → Queues
enable_deferred i q = enable_at i q (behind i q)
