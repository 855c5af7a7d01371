-- ===== src/Launcher/Dispatch.antt =====
-- src/launcher/daemon/transport.c: the requests of a client, from their arrival over their handlers to
-- the reply.
pub mod Replying
pub mod Samples
mod Speaking
mod Tests
use iot_app_fw.Common.{
  ℕ, ℤ, Bool, Option, none, some, List, [], ◌∷◌, Bytes, codes, same, ◌==◌, if◌then◌else◌,
}
use iot_app_fw.Mask.{Mask}
use iot_app_fw.Manifest.{Manifest}
use iot_app_fw.Launcher.{Client, Status, error}
use iot_app_fw.Launcher.Privilege.{Security}
use iot_app_fw.Launcher.Events as Events
use iot_app_fw.Launcher.Apps as Apps
use iot_app_fw.Launcher.Apps.Setup as Setup
use iot_app_fw.Launcher.Apps.Listing as Listing
use iot_app_fw.Launcher.Subscribe as Subscribe

-- The object of a request, as each handler reads the fields that it looks for.
pub record Object : Type 0 where
  pub setup : Setup.SetupRequest
  pub cgroup : Option Bytes
  pub which : Option Bytes
  pub app : Option Bytes
  pub send : Events.Request Bytes
  pub events : Option (List (Option Bytes))

-- A message: `none` for a field that is missing or of another type. Its number is an `int`. The object is the field that the
-- type names.
pub record Message : Type 0 where
  pub type : Option Bytes
  pub seqno : Option ℤ
  pub object : Option Object

-- what a reply says
pub data Answer : Type 0 where
  status : Status → Answer
  applications : List Listing.Entry → Answer

-- What leaves the launcher: a reply with its number to a connection, or an event.
pub data Out : Type 0 where
  replies : ℕ → ℤ → Answer → Out
  emits : Events.Sent Bytes → Out

-- `launcher_t` with the registry of events, and what left, the last first. The event of a cleanup is in
-- the log of the applications' part.
pub record World : Type 0 where
  pub daemon : Apps.Daemon
  pub registry : Events.Registry
  pub clients : List Client
  pub out : List Out

-- What the handlers and `lnc_recv` call: see the handlers. `made` is whether the events and the reply
-- can be created.
pub record Host : Type 0 where
  pub read : Bytes → Option Manifest
  pub mkdir : ℕ → Bytes → ℕ → Option Bytes
  pub hooks : List Apps.Hook
  pub security : Security
  pub cache : Option (List Manifest)
  pub memory : Setup.Memory
  pub timer : Bool
  pub listing : ℕ → Bool
  pub granted : ℕ → Bool
  pub room : ℕ → Bool
  pub made : Bool

abbrev env_of : Host → World → Apps.Env
env_of h w = record { read = h.read; mkdir = h.mkdir; hooks = h.hooks; clients = w.clients }

-- A handler's reply, `none` for NULL, or a run that C leaves undefined.
pub data Result : Type 0 where
  gives : Option Answer → World → Result
  undefined : Result

unfoldable pub of_handled : World → Apps.Handled → Result
of_handled w (Apps.Handled.replies s d) = gives (some (status s)) (record w { daemon = d })
of_handled w (Apps.Handled.silent d) = gives none (record w { daemon = d })
of_handled w Apps.Handled.undefined = undefined

unfoldable pub of_listing : World → Listing.Listing → Result
of_listing w (Listing.listed es) = gives (some (applications es)) w
of_listing w (Listing.refused e) = gives (some (status (error e))) w
of_listing w Listing.silent = gives none w
of_listing w Listing.undefined = undefined

abbrev emitted : List (Events.Sent Bytes) → List Out → List Out
emitted [] out = out
emitted (s ∷ ss) out = emitted ss (emits s ∷ out)

unfoldable pub of_route : World → Events.Answer Bytes → Result
of_route w none = undefined
of_route w (some (s, ss)) = gives (some (status s)) (record w { out = emitted ss w.out })

-- the write of a client's mask
unfoldable pub set_mask : ℕ → Mask → List Client → List Client
set_mask conn m [] = []
set_mask conn m (c ∷ cs) =
    if c.conn == conn then record c { mask = m } ∷ cs else c ∷ set_mask conn m cs

unfoldable pub of_subscribed : Client → World → Subscribe.Subscribed → Result
of_subscribed c w (Subscribe.subscribed s m r) =
    gives (some (status s)) (record w { registry = r; clients = set_mask c.conn m w.clients })
of_subscribed c w Subscribe.undefined = undefined

-- the functions of the table
pub data Handler : Type 0 where
  setup cleanup list stop send_event subscribe_events : Handler

-- `request_handler`
unfoldable pub request_handler : Bytes → Option Handler
request_handler type =
    if same (codes "setup") type
    then some setup
    else if same (codes "cleanup") type
    then some cleanup
    else if same (codes "list") type
    then some list
    else if same (codes "stop") type
    then some stop
    else if same (codes "send-event") type
    then some send_event
    else if same (codes "subscribe-events") type
    then some subscribe_events
    else none

-- the call of a handler
unfoldable pub call : Host → Handler → Client → Object → World → Result
call h setup c o w = of_handled w (Setup.application_setup (env_of h w) h.memory c o.setup w.daemon)
call h cleanup c o w = of_handled w (Apps.application_cleanup h.made (env_of h w) o.cgroup w.daemon)
call h list c o w =
    of_listing w (Listing.application_list h.security h.listing h.cache w.daemon.apps c o.which)
call h stop c o w = of_handled w (Apps.application_stop h.timer c o.app w.daemon)
call h send_event c o w =
    of_route w (Events.event_route h.security h.made w.registry w.clients c o.send)
call h subscribe_events c o w =
    of_subscribed c w (Subscribe.client_subscribe h.granted h.room c w.registry o.events)

-- `lnc_recv` from the result of the handler on; `none` for an undefined run
unfoldable pub reply_with : Host → Client → ℤ → Result → Option World
reply_with h c seqno undefined = none
reply_with h c seqno (gives none w) = some w
reply_with h c seqno (gives (some a) w) =
    if h.made then some (record w { out = replies c.conn seqno a ∷ w.out }) else some w

unfoldable pub handle_with : Host → Client → ℤ → Object → World → Option Handler → Option World
handle_with h c seqno o w none = some w
handle_with h c seqno o w (some f) = reply_with h c seqno (call h f c o w)

-- `lnc_recv`
unfoldable pub lnc_recv : Host → Client → Message → World → Option World
lnc_recv h c m w = elim m.type [
  | none ↦ some w
  | some type ↦ elim m.seqno [
    | none ↦ some w
    | some seqno ↦ elim m.object [
      | none ↦ some w
      | some o ↦ handle_with h c seqno o w (request_handler type)
    ]
  ]
]
