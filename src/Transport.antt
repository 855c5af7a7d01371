-- ===== src/Transport.antt =====
-- The transport core of src/common/transport.c: the registry of transport types, the creation of
-- transports, and the calls that keep a transport in memory while it is in use.
pub mod Sections
pub mod Life
pub mod Types
mod Tests
use iot_app_fw.Common.{
  ℕ, ◌+◌, ◌-◌, ◌==◌, Bool, true, false, Option, none, some, if◌then◌else◌, not, ◌&&◌, ◌||◌,
}

-- `iot_transport_req_t`: whether each callback is given
pub record Requests : Type 0 where
  pub opens : Bool
  pub close : Bool
  pub bind : Bool
  pub listen : Bool
  pub accept : Bool
  pub connect : Bool
  pub disconnect : Bool
  pub sendraw : Bool
  pub sendjson : Bool
  pub sendrawto : Bool
  pub sendjsonto : Bool

-- The state of `iot_transport_t`, and whether its memory was freed. The modes are numbers.
pub record Transport : Type 0 where
  pub mode : ℕ
  pub busy : ℕ
  pub connected : Bool
  pub listened : Bool
  pub destroyed : Bool
  pub freed : Bool

-- `IOT_TRANSPORT_MODE_RAW` and `IOT_TRANSPORT_MODE_JSON`
abbrev pub mode_raw : ℕ
mode_raw = 0

abbrev pub mode_json : ℕ
mode_json = 1

-- `purge_destroyed`, and `check_destroy`, with their result; `none` for an access to freed memory
unfoldable pub purge_destroyed : Transport → Option (Bool × Transport)
purge_destroyed t =
    if t.freed
    then none
    else if t.destroyed && (t.busy == 0)
    then some (true, record t { freed = true })
    else some (false, t)

-- the end of a function whose work left the transport, with a purge and without
unfoldable pub with_result : Bool → Option (Bool × Transport) → Option (Bool × Transport)
with_result result none = none
with_result result (some (purged, t)) = some (result, t)

unfoldable pub purge_after : Bool → Option Transport → Option (Bool × Transport)
purge_after result none = none
purge_after result (some t) = with_result result (purge_destroyed t)

unfoldable pub without_purge : Bool → Option Transport → Option (Bool × Transport)
without_purge result none = none
without_purge result (some t) = some (result, t)

-- the end of a block of `IOT_TRANSPORT_BUSY`, with what the block does last
unfoldable pub leave : (Transport → Transport) → Option Transport → Option Transport
leave last none = none
leave last (some t) = if t.freed then none else some (last (record t { busy = t.busy - 1 }))

-- `IOT_TRANSPORT_BUSY`
unfoldable pub busy_section :
    (body : Transport → Option Transport)
    → (last : Transport → Transport) → Transport
    → Option Transport
busy_section body last t =
    if t.freed then none else leave last (body (record t { busy = t.busy + 1 }))

abbrev pub unchanged : Transport → Transport
unchanged t = t

abbrev pub set_connected : Bool → Bool → Transport → Transport
set_connected value true t = record t { connected = value }
set_connected value false t = t

abbrev pub set_listened : Bool → Transport → Transport
set_listened true t = record t { listened = true }
set_listened false t = t

-- what is sent
pub data Message : Type 0 where
  raw : Message
  raw_to : Message
  json : Message
  json_to : Message

-- the test with which each of the sending functions begins
unfoldable pub sendable : Requests → Message → Transport → Bool
sendable d raw t = t.connected && ((t.mode == mode_raw) && d.sendraw)
sendable d raw_to t = (t.mode == mode_raw) && d.sendrawto
sendable d json t = (t.mode == mode_json) && d.sendjson
sendable d json_to t = (t.mode == mode_json) && d.sendjsonto

-- The calls on one transport. A call enters the transport's type, or a callback of its owner, which
-- in turn makes calls on it: those are the calls inside. A Boolean is the type's answer.
mutual
  pub data Call : Type 0 where
    destroy : (on_disconnect on_close : Calls) → Call
    disconnect : (inside : Calls) → Bool → Call
    connect : (inside : Calls) → Bool → Call
    listen : (inside : Calls) → Bool → Call
    send : Message → (inside : Calls) → Bool → Call
    recv_data : (inside : Calls) → Call
    check_destroy : Call

  pub data Calls : Type 0 where
    done : Calls
    next : Call → Calls → Calls

-- What a call does, given what the calls inside it do. The result is the function's, and the
-- transport; `none` is an access to freed memory, or the call of a callback that is not given.
abbrev pub Run : Type 0
Run = Transport → Option (Bool × Transport)

abbrev pub Body : Type 0
Body = Transport → Option Transport

unfoldable pub and_then : Option Transport → Body → Option Transport
and_then none k = none
and_then (some t) k = k t

unfoldable pub ignore_result : Option (Bool × Transport) → Option Transport
ignore_result none = none
ignore_result (some (result, t)) = some t

-- `iot_transport_destroy`
unfoldable pub destroy_with : Requests → (on_disconnect on_close : Body) → Run
destroy_with d on_disconnect on_close t =
    let both : Body = λ t. and_then (on_disconnect t) on_close in
    if t.freed
    then none
    else if not (d.disconnect && d.close)
    then none
    else purge_after true (busy_section both unchanged (record t { destroyed = true }))

-- `iot_transport_disconnect`, which returns TRUE also where the type refuses
unfoldable pub disconnect_with : Requests → (inside : Body) → Bool → Run
disconnect_with d inside ok t =
    if t.freed
    then none
    else if not t.connected
    then some (false, t)
    else if not d.disconnect
    then none
    else purge_after true (busy_section inside (set_connected false ok) t)

-- `iot_transport_connect`; `recv` is whether there is a callback for data of a connection.
unfoldable pub connect_with : Requests → (recv : Bool) → (inside : Body) → Bool → Run
connect_with d recv inside ok t =
    if t.freed
    then none
    else if t.connected
    then some (false, t)
    else if not recv
    then some (false, t)
    else if not d.connect
    then none
    else purge_after ok (busy_section inside (set_connected true ok) t)

-- `iot_transport_listen`; a type that succeeds marks the transport, as `strm_listen` does.
unfoldable pub listen_with : Requests → (inside : Body) → Bool → Run
listen_with d inside ok t =
    if t.freed
    then none
    else if not d.listen
    then some (false, t)
    else purge_after ok (busy_section inside (set_listened ok) t)

-- `iot_transport_sendraw`, `iot_transport_sendrawto`, `iot_transport_sendjson` and
-- `iot_transport_sendjsonto`
unfoldable pub send_with : Requests → Message → (inside : Body) → Bool → Run
send_with d m inside ok t =
    if t.freed
    then none
    else if not (sendable d m t)
    then some (false, t)
    else purge_after ok (busy_section inside unchanged t)

-- what `recv_data` does: calls a callback, finds none that it could call, or crashes
pub data Delivery : Type 0 where
  delivers : Delivery
  ignores : Delivery
  refuses : Delivery
  crashes : Delivery

-- `recv` and `recvfrom` are the callbacks for data with and without a connection, which the
-- two modes share.
unfoldable pub delivery : (recv recvfrom : Bool) → Transport → Delivery
delivery recv recvfrom t =
    let given : Bool = if t.connected then recv else recvfrom in
    if t.mode == mode_raw
    then (if given then delivers else crashes)
    else if t.mode == mode_json
    then (if given then delivers else ignores)
    else refuses

unfoldable pub deliver_with : Delivery → (inside : Body) → Run
deliver_with delivers inside t = without_purge true (busy_section inside unchanged t)
deliver_with ignores inside t = some (true, t)
deliver_with refuses inside t = some (false, t)
deliver_with crashes inside t = none

-- `recv_data`
unfoldable pub recv_with : (recv recvfrom : Bool) → (inside : Body) → Run
recv_with recv recvfrom inside t =
    if t.freed then none else deliver_with (delivery recv recvfrom t) inside t

-- A run of a call, and of one call after the other.
module _ (d : Requests) (recv recvfrom : Bool) where
  unfoldable mutual
    pub run : Call → Run
    run (destroy a b) t = destroy_with d (run_calls a) (run_calls b) t
    run (disconnect a ok) t = disconnect_with d (run_calls a) ok t
    run (connect a ok) t = connect_with d recv (run_calls a) ok t
    run (listen a ok) t = listen_with d (run_calls a) ok t
    run (send m a ok) t = send_with d m (run_calls a) ok t
    run (recv_data a) t = recv_with recv recvfrom (run_calls a) t
    run check_destroy t = purge_destroyed t

    pub run_calls : Calls → Body
    run_calls done t = some t
    run_calls (next c cs) t = and_then (ignore_result (run c t)) (run_calls cs)
