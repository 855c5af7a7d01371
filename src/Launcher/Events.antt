-- ===== src/Launcher/Events.antt =====
-- src/launcher/daemon/event.c: the registry of event names, and sending and routing events.
pub mod Names
pub mod Route
use iot_app_fw.Common.{
  ℕ, zero, suc, ◌+◌, ◌<◌, ◌≤◌, ◌≡◌, Bool, true, false, Option, none, some, List, [], ◌∷◌, ◌++◌,
  Bytes, same, leb, ltb, ◌==◌, if◌then◌else◌, length, not, ◌&&◌, ◌||◌,
}
use iot_app_fw.Mask.{Mask, test}
use iot_app_fw.Launcher.{
  Client, Errno, enoent, enospc, enomem, einval, eperm, Status, ok, error, no_uid, no_gid, no_pid,
}
use iot_app_fw.Launcher.Privilege.{
  Security, Verdict, is_allowed, privilege_check, send_event_privilege,
}

-- `event_t`
pub record Event : Type 0 where
  pub name : Bytes
  pub id : ℕ

-- the static `events` and `nevent`
pub record Registry : Type 0 where
  pub events : List Event
  pub nevent : ℕ

-- `MAX_EVENTS`
abbrev pub max_events : ℕ
max_events = 1024

-- the search of `event_id`
unfoldable pub find_name : Bytes → List Event → Option ℕ
find_name n [] = none
find_name n (e ∷ es) = if same e.name n then some e.id else find_name n es

-- the search of `event_name`
unfoldable pub find_id : ℕ → List Event → Option Bytes
find_id i [] = none
find_id i (e ∷ es) = if e.id == i then some e.name else find_id i es

-- an id, or the -1 with `errno`
pub data Found : Type 0 where
  found : ℕ → Found
  missing : Errno → Found

-- What `event_id` does with a name that the search did not find. `granted` is whether the two
-- allocations succeed.
unfoldable pub add_event :
    (granted : Bool) → Bytes → (register_missing : Bool) → Registry → Found × Registry
add_event granted n register_missing r =
    let r' : Registry = record {
      events = r.events ++ record { name = n; id = r.nevent } ∷ [];
      nevent = r.nevent + 1;
    } in
    if not register_missing
    then (missing enoent, r)
    else if leb max_events r.nevent
    then (missing enospc, r)
    else if not granted
    then (missing enomem, r)
    else (found r.nevent, r')

unfoldable pub event_id_at :
    (granted : Bool) → Bytes → Bool → Registry → Option ℕ → Found × Registry
event_id_at granted n register_missing r (some i) = (found i, r)
event_id_at granted n register_missing r none = add_event granted n register_missing r

-- `event_id`
unfoldable pub event_id :
    (granted : Bool) → Bytes → (register_missing : Bool) → Registry → Found × Registry
event_id granted n register_missing r =
    event_id_at granted n register_missing r (find_name n r.events)

-- `event_lookup` and `event_register`
unfoldable pub event_lookup : Bytes → Registry → Found
event_lookup n r = (event_id true n false r).0

unfoldable pub event_register : (granted : Bool) → Bytes → Registry → Found × Registry
event_register granted n r = event_id granted n true r

-- `event_name`, of an id that is not negative
unfoldable pub event_name : ℕ → Registry → Option Bytes
event_name i r = if leb r.nevent i then none else find_id i r.events

-- An event message on its way to a client. The payload is JSON, which is not looked at here.
pub record Sent (D : Type 0) : Type 0 where
  pub conn : ℕ
  pub event : Bytes
  pub payload : D

abbrev pub message : {D : Type 0} → Client → Bytes → D → Sent D
message t event d = record { conn = t.conn; event = event; payload = d }

-- `event_send`: the first client of the process, or `ENOENT`; `made` is whether the message can be
-- created.
unfoldable pub event_send :
    {D : Type 0}
    → (made : Bool) → (pid : ℕ) → Bytes
    → D
    → List Client
    → List (Sent D) × Option Errno
event_send made pid event d [] = ([], some enoent)
event_send {D} made pid event d (t ∷ ts) =
    let rest : List (Sent D) × Option Errno = event_send made pid event d ts in
    if not (t.pid == pid)
    then rest
    else if made
    then (message t event d ∷ [], none)
    else ([], some enomem)

-- A "send-event" request: `none` for a field that is missing or of another type. The fields "label"
-- and "appid" are read, and not used.
pub record Request (D : Type 0) : Type 0 where
  pub event : Option Bytes
  pub label : Option Bytes
  pub appid : Option Bytes
  pub user : Option ℕ
  pub group : Option ℕ
  pub process : Option ℕ
  pub payload : Option D

-- the `identity_t` that a request names
pub record Target : Type 0 where
  pub uid : ℕ
  pub gid : ℕ
  pub pid : ℕ

abbrev pub or_else : Option ℕ → ℕ → ℕ
or_else none d = d
or_else (some x) d = x

unfoldable pub target_of : {D : Type 0} → Request D → Target
target_of q = record {
  uid = or_else q.user no_uid;
  gid = or_else q.group no_gid;
  pid = or_else q.process no_pid;
}

-- the test that skips a client
unfoldable pub fits : Target → Client → Bool
fits dst t =
    (dst.uid == no_uid || dst.uid == t.uid)
    && ((dst.gid == no_gid || dst.gid == t.gid) && (dst.pid == no_pid || dst.pid == t.pid))

-- The messages sent; or none, as the message could not be created; or a read of the variable `data`
-- that nothing was assigned to.
pub data Routed (D : Type 0) : Type 0 where
  sends : List (Sent D) → Routed D
  not_made : Routed D
  undefined : Routed D

abbrev pub add_sent : {D : Type 0} → Sent D → Routed D → Routed D
add_sent s (sends ss) = sends (s ∷ ss)
add_sent s not_made = not_made
add_sent s undefined = undefined

-- The loop of `event_route` over the clients. The message is created for the first that it goes to;
-- `made` is whether that succeeds.
unfoldable pub deliver :
    {D : Type 0}
    → (made : Bool) → (id : ℕ) → Target
    → (event : Bytes) → Option D
    → List Client
    → Routed D
deliver made id dst event payload [] = sends []
deliver {D} made id dst event payload (t ∷ ts) =
    let rest : Routed D = deliver made id dst event payload ts in
    if not (test t.mask id) then rest else if not (fits dst t) then rest else (elim payload [
      | none ↦ undefined
      | some d ↦ if made then add_sent (message t event d) rest else not_made
    ])

-- the reply to a request, and the messages sent; `none` for a run that is undefined
abbrev pub Answer : Type 0 → Type 0
Answer D = Option (Status × List (Sent D))

unfoldable pub answer_of : {D : Type 0} → Routed D → Answer D
answer_of (sends ss) = some (ok, ss)
answer_of not_made = some (error einval, [])
answer_of undefined = none

-- `event_route`, from the result of `event_lookup` on
unfoldable pub route_found :
    {D : Type 0}
    → Security
    → (made : Bool) → List Client
    → Client
    → Request D
    → Bytes
    → Found
    → Answer D
route_found security made clients c q event (missing e) = some (error einval, [])
route_found security made clients c q event (found id) =
    if not (is_allowed (privilege_check security c.label c.uid send_event_privilege))
    then some (error eperm, [])
    else answer_of (deliver made id (target_of q) event q.payload clients)

-- `event_route`, from the test of the result of `iot_json_get_string` on
unfoldable pub route_named :
    {D : Type 0}
    → Security
    → (made : Bool) → Registry
    → List Client
    → Client
    → Request D
    → Option Bytes
    → Answer D
route_named security made r clients c q none = some (error einval, [])
route_named security made r clients c q (some event) =
    route_found security made clients c q event (event_lookup event r)

-- `event_route`
unfoldable pub event_route :
    {D : Type 0} → Security → (made : Bool) → Registry → List Client → Client → Request D → Answer D
event_route security made r clients c q = route_named security made r clients c q q.event
