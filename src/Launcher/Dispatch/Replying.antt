-- ===== src/Launcher/Dispatch/Replying.antt =====
-- The replies of src/launcher/daemon/transport.c to the requests of a client.
use iot_app_fw.Common.{
  ℕ, ℤ, ◌≡◌, refl, sym, ap, true, Option, none, some, List, [], ◌∷◌, Bytes, codes, if◌then◌else◌,
}
use mathlib.Core.Path.{subst}
use iot_app_fw.Launcher.{Client}
use iot_app_fw.Launcher.Events as Events
use iot_app_fw.Launcher.Apps as Apps
use iot_app_fw.Launcher.Apps.Setup as Setup
use iot_app_fw.Launcher.Apps.Listing as Listing
use iot_app_fw.Launcher.Subscribe as Subscribe
use iot_app_fw.Launcher.Dispatch.Speaking.{Strings, full, Speaks, Speaks-call}
use iot_app_fw.Launcher.Dispatch.{
  Object, Out, replies, emits, World, Host, env_of, Result, gives, undefined, of_handled,
  of_listing, emitted, of_route, of_subscribed, Handler, setup, cleanup, list, stop, send_event,
  subscribe_events, request_handler, call, reply_with, handle_with, lnc_recv,
}

-- The connections and numbers of the replies that left, the last first.
abbrev pub answers : List Out → List (ℕ × ℤ)
answers [] = []
answers (replies conn seqno a ∷ out) = (conn, seqno) ∷ answers out
answers (emits s ∷ out) = answers out

-- A handler sends no reply itself.
abbrev Quiet : World → Result → Type 0
Quiet w (gives a w') = answers w'.out ≡ answers w.out
Quiet w undefined = Unit

answers-emitted :
    (ss : List (Events.Sent Bytes)) (out : List Out) → answers (emitted ss out) ≡ answers out
answers-emitted [] out = refl
answers-emitted (s ∷ ss) out = answers-emitted ss (emits s ∷ out)

Quiet-of_handled : (w : World) (x : Apps.Handled) → Quiet w (of_handled w x)
unfolding of_handled
Quiet-of_handled w (Apps.Handled.replies s d) = refl
Quiet-of_handled w (Apps.Handled.silent d) = refl
Quiet-of_handled w Apps.Handled.undefined = tt

Quiet-of_listing : (w : World) (x : Listing.Listing) → Quiet w (of_listing w x)
unfolding of_listing
Quiet-of_listing w (Listing.listed es) = refl
Quiet-of_listing w (Listing.refused e) = refl
Quiet-of_listing w Listing.silent = refl
Quiet-of_listing w Listing.undefined = tt

Quiet-of_route : (w : World) (x : Events.Answer Bytes) → Quiet w (of_route w x)
unfolding of_route
Quiet-of_route w none = tt
Quiet-of_route w (some (s, ss)) = answers-emitted ss w.out

Quiet-of_subscribed :
    (c : Client) (w : World) (x : Subscribe.Subscribed) → Quiet w (of_subscribed c w x)
unfolding of_subscribed
Quiet-of_subscribed c w (Subscribe.subscribed s m r) = refl
Quiet-of_subscribed c w Subscribe.undefined = tt

Quiet-call :
    (h : Host) (f : Handler) (c : Client) (o : Object) (w : World) → Quiet w (call h f c o w)
unfolding call
Quiet-call h setup c o w =
    Quiet-of_handled w (Setup.application_setup (env_of h w) h.memory c o.setup w.daemon)
Quiet-call h cleanup c o w =
    Quiet-of_handled w (Apps.application_cleanup h.made (env_of h w) o.cgroup w.daemon)
Quiet-call h list c o w =
    Quiet-of_listing w
      (Listing.application_list h.security h.listing h.cache w.daemon.apps c o.which)
Quiet-call h stop c o w = Quiet-of_handled w (Apps.application_stop h.timer c o.app w.daemon)
Quiet-call h send_event c o w =
    Quiet-of_route w (Events.event_route h.security h.made w.registry w.clients c o.send)
Quiet-call h subscribe_events c o w =
    Quiet-of_subscribed c w (Subscribe.client_subscribe h.granted h.room c w.registry o.events)

-- the types of the requests in src/common and src/app/app.c that the launcher handles
abbrev pub type_of : Handler → Bytes
type_of setup = codes "setup"
type_of cleanup = codes "cleanup"
type_of list = codes "list"
type_of stop = codes "stop"
type_of send_event = codes "send-event"
type_of subscribe_events = codes "subscribe-events"

request_handler-type_of : (f : Handler) → request_handler (type_of f) ≡ some f
unfolding request_handler
request_handler-type_of setup = refl
request_handler-type_of cleanup = refl
request_handler-type_of list = refl
request_handler-type_of stop = refl
request_handler-type_of send_event = refl
request_handler-type_of subscribe_events = refl

-- C defines the run.
abbrev pub Runs : Result → Type 0
Runs (gives a w) = Unit
Runs undefined = ⊥

-- After the run, the launcher has sent one reply more, to the client and with the number.
abbrev pub Replied : Client → ℤ → World → Option World → Type 0
Replied c k w none = ⊥
Replied c k w (some w') = answers w'.out ≡ (c.conn, k) ∷ answers w.out

reply_with-Replied :
    (h : Host) (c : Client) (k : ℤ) (w : World) (r : Result)
    → h.made ≡ true
    → Quiet w r
    → Speaks r
    → Runs r
    → Replied c k w (reply_with h c k r)
unfolding reply_with
reply_with-Replied h c k w undefined m q s u = u
reply_with-Replied h c k w (gives none w') m q s u = absurd s
reply_with-Replied h c k w (gives (some a) w') m q s u =
    subst
      (λ b.
        Replied c k w
          (if b then some (record w' { out = replies c.conn k a ∷ w'.out }) else some w'))
      (sym m) (ap (λ xs. (c.conn, k) ∷ xs) q)

-- A client asks for one of the six things that the launcher handles: "setup", "cleanup", "list",
-- "stop", "send-event" or "subscribe-events". The message has an object and a number, which may be
-- negative; the arguments of a setup are strings; what the launcher has to create can be created; and C
-- defines the run of the handler. Then, whatever the handler decides, `lnc_recv` hands the transport
-- exactly one reply, to this client and with the number of the message.
pub lnc_recv-Replied :
    (h : Host) (c : Client) (f : Handler) (k : ℤ) (o : Object) (w : World)
    → h.memory ≡ full
    → ((i : ℕ) → h.listing i ≡ true)
    → h.made ≡ true
    → (f ≡ setup → Strings o.setup.exec)
    → Runs (call h f c o w)
    → Replied c k w
        (lnc_recv h c (record { type = some (type_of f); seqno = some k; object = some o }) w)
unfolding lnc_recv handle_with
lnc_recv-Replied h c f k o w m l g s u =
    subst (λ x. Replied c k w (handle_with h c k o w x)) (sym (request_handler-type_of f))
      (reply_with-Replied h c k w (call h f c o w) g (Quiet-call h f c o w)
        (Speaks-call h f c o w m l s) u)
