-- ===== src/Requests.antt =====
-- src/app/app.c: the library of an IoT application. It sends requests to the launcher, keeps them until
-- the reply comes, and calls the application back. The callbacks do not call the library here.
pub mod Replies
pub mod Conserved
pub mod Once
pub mod Completed
pub mod Messages
pub mod Delivery
pub mod Listed
mod Tests
use iot_app_fw.Common.{
  ℕ, ◌+◌, ◌-◌, ◌^◌, Bool, true, false, Option, none, some, List, [], ◌∷◌, ◌++◌, Bytes, ◌==◌, not,
  ◌&&◌, if◌then◌else◌,
}

-- `iot_app_id_t`
pub record Target : Type 0 where
  pub label : Option Bytes
  pub appid : Option Bytes
  pub binary : Option Bytes
  pub user : ℕ
  pub process : ℕ

-- What follows the type and the sequence number in a request: the events of a "subscribe-events"; the
-- event, the payload and the target of a "send-event"; or whether a "list" is of the running
-- applications.
pub data Body : Type 0 where
  subscribes : List Bytes → Body
  sends : Bytes → Option Bytes → Target → Body
  lists : (running : Bool) → Body

-- `pending_t` with the request; `called` is whether it has a callback
pub record Pending : Type 0 where
  pub seqno : ℕ
  pub body : Body
  pub called : Bool

-- `iot_app_info_t`
pub record Info : Type 0 where
  pub appid : Bytes
  pub description : Bytes
  pub desktop : Bytes
  pub user : ℕ
  pub argv : List Bytes

-- What became of a pending request: its number, and the status and the applications that its callback
-- was called with, if it has one.
pub record Done : Type 0 where
  pub seqno : ℕ
  pub called : Bool
  pub status : ℕ
  pub infos : List Info

-- `iot_app_t`, with the requests that it handed to the transport and the pending requests that were
-- completed, the first one first. `listens` is whether it has an event callback, and `seen` are the
-- events that it was called with.
pub record Library : Type 0 where
  pub connected : Bool
  pub seqno : ℕ
  pub pendq : List Pending
  pub listens : Bool
  pub sent : List ℕ
  pub done : List Done
  pub seen : List Bytes

-- `iot_app_create`, of a main loop that is not NULL
abbrev pub created : Library
created = record {
  connected = false;
  seqno = 1;
  pendq = [];
  listens = false;
  sent = [];
  done = [];
  seen = [];
}

-- `iot_app_event_set_handler`
unfoldable pub set_handler : (listens : Bool) → Library → Library
set_handler listens l = record l { listens = listens }

-- What the calls below a request answer: whether the transport can be connected, the payload created
-- before a number is taken, the message created from there on, the pending request allocated, and the
-- message sent.
pub record Answers : Type 0 where
  pub connects : Bool
  pub prepared : Bool
  pub made : Bool
  pub granted : Bool
  pub sends : Bool

-- `transport_connect`: the 0 or -1, and whether there is a transport then
unfoldable pub transport_connect : Answers → Library → Bool × Library
transport_connect w l =
    if l.connected
    then (true, l)
    else if w.connects
    then (true, record l { connected = true })
    else (false, record l { connected = false })

-- `pending_enq`
unfoldable pub pending_enq : Answers → Pending → Library → Bool × Library
pending_enq w p l =
    if not w.granted
    then (false, l)
    else if not w.sends
    then (false, l)
    else (true, record l { pendq = l.pendq ++ p ∷ []; sent = l.sent ++ p.seqno ∷ [] })

-- The requests from the creation of the message on: the number, or `none` for -1.
unfoldable pub request : Answers → Body → (called : Bool) → Library → Option ℕ × Library
request w body called l =
    let l' : Library = record l { seqno = l.seqno + 1 } in
    let (b, m) = pending_enq w (record { seqno = l.seqno; body = body; called = called }) l' in
    if not w.prepared
    then (none, l)
    else if not w.made
    then (none, l')
    else if b
    then (some l.seqno, m)
    else (none, m)

-- A request from the call of `transport_connect` on.
unfoldable pub connect_and : Answers → Body → (called : Bool) → Library → Option ℕ × Library
connect_and w body called l =
    let (b, m) = transport_connect w l in if b then request w body called m else (none, m)

-- `iot_app_event_subscribe`
unfoldable pub iot_app_event_subscribe :
    Answers → List Bytes → (called : Bool) → Library → Option ℕ × Library
iot_app_event_subscribe w events called l =
    if not l.listens then (none, l) else connect_and w (subscribes events) called l

-- `iot_app_event_send`: no event, an empty name, and no target are invalid
unfoldable pub iot_app_event_send :
    Answers
    → Option Bytes
    → Option Bytes
    → Option Target
    → (called : Bool) → Library
    → Option ℕ × Library
iot_app_event_send w none payload target called l = (none, l)
iot_app_event_send w (some []) payload target called l = (none, l)
iot_app_event_send w (some (c ∷ name)) payload none called l = (none, l)
iot_app_event_send w (some (c ∷ name)) payload (some t) called l =
    connect_and w (sends (c ∷ name) payload t) called l

-- `app_list`, which `iot_app_list_running` and `iot_app_list_all` call
unfoldable pub app_list :
    Answers → (running : Bool) → (called : Bool) → Library → Option ℕ × Library
app_list w running called l = connect_and w (lists running) called l

-- `iot_app_destroy`: the pending requests are freed, and no callback is called.
unfoldable pub iot_app_destroy : Library → Library
iot_app_destroy l = record l { connected = false; pendq = [] }
