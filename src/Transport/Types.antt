-- ===== src/Transport/Types.antt =====
-- The registered types of src/common/transport.c, and the creation of transports of a type.
use mathlib.Core.Path.{subst}
use mathlib.Core.Option.{none-ne-some}
use iot_app_fw.Common.{
  eq_of_some, ℕ, ◌/◌, ◌%◌, ◌≡◌, refl, sym, ap, ◌∙◌, Bool, true, false, Option, none, some, List, [],
  ◌∷◌, ◌++◌, Bytes, same, if◌then◌else◌, not, ◌&&◌, ◌||◌, ◌==◌, ltb, arith, inl, inr, Bool-cases,
}
use iot_app_fw.Transport.{Requests, Transport, Body, busy_section, set_connected}

-- `iot_transport_descr_t`, at an address. `fits` is whether its size is that of a transport at least.
pub record Descr : Type 0 where
  pub id : ℕ
  pub name : Bytes
  pub fits : Bool
  pub req : Requests

-- `check_request_callbacks`
unfoldable pub check_request_callbacks : Requests → Bool
check_request_callbacks r =
    if not (r.opens && r.close)
    then false
    else if (if r.accept then not (r.sendraw && r.sendjson) else not (r.sendrawto && r.sendjsonto))
    then false
    else not ((r.connect && not r.disconnect) || (not r.connect && r.disconnect))

-- `iot_transport_register`
unfoldable pub register : Descr → List Descr → Bool × List Descr
register d ds =
    if not (check_request_callbacks d.req)
    then (false, ds)
    else if d.fits
    then (true, ds ++ d ∷ [])
    else (false, ds)

-- `iot_transport_unregister`
unfoldable pub unregister : ℕ → List Descr → List Descr
unregister i [] = []
unregister i (d ∷ ds) = if d.id == i then ds else d ∷ unregister i ds

-- `find_transport`
unfoldable pub find_transport : Bytes → List Descr → Option Descr
find_transport type [] = none
find_transport type (d ∷ ds) = if same d.name type then some d else find_transport type ds

-- The callbacks of `iot_transport_evt_t`; `recv` is `recvraw` and `recvjson`, which share their
-- memory, and so `recvfrom`.
pub record Callbacks : Type 0 where
  pub connection : Bool
  pub closed : Bool
  pub recv : Bool
  pub recvfrom : Bool

-- `check_event_callbacks`
unfoldable pub check_event_callbacks : Callbacks → Bool
check_event_callbacks e =
    if e.connection
    then (if not e.recv || not e.closed then false else true)
    else if not e.recv && not e.recvfrom
    then false
    else true

-- a transport as `iot_allocz` and the assignments leave it; the mode is the low bits of the flags
unfoldable pub allocated : (flags : ℕ) → (connected listened : Bool) → Transport
allocated flags connected listened = record {
  mode = flags % 16;
  busy = 0;
  connected = connected;
  listened = listened;
  destroyed = false;
  freed = false;
}

-- What the type answers to its request, and what it makes of the transport. A transport that is
-- refused is freed, and its memory not looked at again.
unfoldable pub opened : Bool → Transport → Option Transport
opened ok t = if ok then some t else none

unfoldable pub create_type : (granted ok : Bool) → (flags : ℕ) → Option Descr → Option Transport
create_type granted ok flags none = none
create_type granted ok flags (some d) =
    if not granted then none else opened ok (allocated flags false false)

-- `iot_transport_create`; `ok` is the result of the type's `open`.
unfoldable pub create :
    (granted ok : Bool) → List Descr → (type : Bytes) → Callbacks → (flags : ℕ) → Option Transport
create granted ok ds type evt flags =
    if not (check_event_callbacks evt)
    then none
    else create_type granted ok flags (find_transport type ds)

-- `!!(state & IOT_TRANSPORT_CONNECTED)` and `!!(state & IOT_TRANSPORT_LISTENED)`
abbrev pub is_connected : ℕ → Bool
is_connected state = state / 128 % 2 == 1

abbrev pub is_listened : ℕ → Bool
is_listened state = state % 2 == 1

unfoldable pub create_type_from :
    (granted ok : Bool) → (flags state : ℕ) → Option Descr → Option Transport
create_type_from granted ok flags state none = none
create_type_from granted ok flags state (some d) =
    if not granted
    then none
    else if is_connected state && is_listened state
    then none
    else opened ok (allocated flags (is_connected state) (is_listened state))

-- `iot_transport_create_from`; `ok` is the result of the type's `createfrom`.
unfoldable pub create_from :
    (granted ok : Bool)
    → List Descr
    → (type : Bytes) → Callbacks
    → (flags state : ℕ) → Option Transport
create_from granted ok ds type evt flags state =
    if not (check_event_callbacks evt)
    then none
    else create_type_from granted ok flags state (find_transport type ds)

unfoldable pub accepted : Bool → Option Transport → Option (Option Transport)
accepted ok none = none
accepted ok (some t) = some (if ok then some t else none)

-- `iot_transport_accept`: the new transport, or NULL; `none` for an access to freed memory in the
-- calls that the type makes. `ok` is the type's answer.
unfoldable pub accept :
    (granted ok : Bool) → (inside : Body) → (listening : Transport) → Option (Option Transport)
accept granted ok inside lt =
    let t : Transport = allocated lt.mode false false in
    if not granted then some none else accepted ok (busy_section inside (set_connected true ok) t)

-- the loop of `iot_transport_resolve` without a transport; `resolve` gives the length that a type's
-- `resolve` returns.
unfoldable pub resolve_any : (resolve : Descr → ℕ) → List Descr → ℕ
resolve_any resolve [] = 0
resolve_any resolve (d ∷ ds) = if ltb 0 (resolve d) then resolve d else resolve_any resolve ds

-- `iot_transport_resolve`
unfoldable pub resolve_with : (resolve : Descr → ℕ) → (own : Option Descr) → List Descr → ℕ
resolve_with resolve none ds = resolve_any resolve ds
resolve_with resolve (some d) ds = resolve d

-- `iot_transport_bind`: whether the type has the request, and its answer
unfoldable pub bind_with : Requests → (ok : Bool) → Bool
bind_with d ok = if d.bind then ok else true

-- `type_matches`, of two C strings; `none` where it reads behind the end of both.
unfoldable pub type_matches : Bytes → Bytes → Option Bool
type_matches [] [] = none
type_matches [] (y ∷ addr) = some (y == b':')
type_matches (x ∷ type) [] = some false
type_matches (x ∷ type) (y ∷ addr) = if x == y then type_matches type addr else some false

-- A transport that was created is unused, not destroyed and in memory; it is connected or listens,
-- but not both, and its mode is one of sixteen.
pub record IsNew (t : Transport) : Type 0 where
  pub live : t.freed ≡ false
  pub wanted : t.destroyed ≡ false
  pub unused : t.busy ≡ 0
  pub exclusive : (t.connected && t.listened) ≡ false
  pub mode : t.mode ≡ t.mode % 16

allocated-IsNew :
    (flags : ℕ) (c l ok : Bool) (t : Transport)
    → (c && l) ≡ false
    → opened ok (allocated flags c l) ≡ some t
    → IsNew t
unfolding opened allocated
allocated-IsNew flags c l false t h e = absurd (cc)
allocated-IsNew flags c l true t h e =
    subst IsNew (eq_of_some e)
      (record { live = refl; wanted = refl; unused = refl; exclusive = h; mode = omega arith })

create_type_from-IsNew :
    (granted ok : Bool) (flags state : ℕ) (o : Option Descr) (t : Transport)
    → create_type_from granted ok flags state o ≡ some t
    → IsNew t
unfolding create_type_from
create_type_from-IsNew granted ok flags state none t e = absurd (cc)
create_type_from-IsNew false ok flags state (some d) t e = absurd (cc)
create_type_from-IsNew true ok flags state (some d) t e =
    elim (Bool-cases (is_connected state && is_listened state)) [
      | inl h ↦ absurd (none-ne-some t (sym (ap (λ b. if b then none else new) h) ∙ e))
      | inr h ↦ allocated-IsNew flags _ _ ok t h (sym (ap (λ b. if b then none else new) h) ∙ e)
    ]
  where
    new : Option Transport
    new = opened ok (allocated flags (is_connected state) (is_listened state))

-- What `iot_transport_create_from` makes of a connection, whatever the state that it is told to be
-- in, is such a transport, and its callbacks were checked.
pub create_from-IsNew :
    (granted ok : Bool) (ds : List Descr) (type : Bytes) (evt : Callbacks) (flags state : ℕ)
    (t : Transport)
    → create_from granted ok ds type evt flags state ≡ some t
    → IsNew t × (check_event_callbacks evt ≡ true)
unfolding create_from
create_from-IsNew granted ok ds type evt flags state t e =
    elim (Bool-cases (check_event_callbacks evt)) [
      | inl h ↦ (
        create_type_from-IsNew granted ok flags state (find_transport type ds) t
            (sym (ap (λ b. if not b then none else new) h) ∙ e),
        h,
      )
      | inr h ↦ absurd (none-ne-some t (sym (ap (λ b. if not b then none else new) h) ∙ e))
    ]
  where
    new : Option Transport
    new = create_type_from granted ok flags state (find_transport type ds)

abbrev pub or_else : Option Descr → Option Descr → Option Descr
or_else none d = d
or_else (some x) d = some x

find_transport-append :
    (type : Bytes) (ds : List Descr) (d : Descr)
    → find_transport type (ds ++ d ∷ [])
      ≡ or_else (find_transport type ds) (if same d.name type then some d else none)
unfolding find_transport
find_transport-append type [] d = refl
find_transport-append type (x ∷ ds) d = ground (arith, find_transport-append type ds d)

-- A type that is registered is found under its name, unless an older one has that name; every other
-- name is found as before. It has the callbacks that its kind of transport needs: to open and close
-- always, and to connect and disconnect either both or none.
pub find_transport-register :
    (d : Descr) (ds ds' : List Descr)
    → register d ds ≡ (true, ds')
    → ((type : Bytes)
        → find_transport type ds'
          ≡ or_else (find_transport type ds) (if same d.name type then some d else none))
      × ((d.req.opens && d.req.close) ≡ true)
      × (d.req.connect ≡ d.req.disconnect)
unfolding register check_request_callbacks
find_transport-register d ds ds' e = (
  λ type. ap (find_transport type) (sym added) ∙ find_transport-append type ds d,
  ground arith,
  ground arith,
)
  where
    added : ds ++ d ∷ [] ≡ ds'
    added = ground arith
