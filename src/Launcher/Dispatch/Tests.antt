-- ===== src/Launcher/Dispatch/Tests.antt =====
-- Messages to the launcher, and the theorem on its replies at a concrete message.
use iot_app_fw.Common.{pos, negsuc, ◌≡◌, refl, none, some, [], ◌∷◌, Bytes, codes}
use iot_app_fw.Mask.{init}
use iot_app_fw.Launcher.{Client, Status, Errno}
use iot_app_fw.Launcher.Apps as Apps
use iot_app_fw.Launcher.Dispatch.{
  Object, cleanup, Message, World, status, replies, request_handler, call, of_handled, reply_with,
  handle_with, lnc_recv,
}
use iot_app_fw.Launcher.Dispatch.Samples.{host, nothing}
use iot_app_fw.Launcher.Dispatch.Replying.{Runs, Replied, lnc_recv-Replied}

abbrev client : Client
client = record { conn = 4; label = none; uid = 5; gid = 6; pid = 7; mask = init }

abbrev world : World
world = record {
  daemon = record { apps = []; timers = []; fresh = 1; log = [] };
  registry = record { events = []; nevent = 0 };
  clients = client ∷ [];
  out = [];
}

abbrev ask : Bytes → Message
ask type = record { type = some type; seqno = some (pos 9); object = some nothing }

-- A request that is malformed for its handler is answered, and one of an unknown type is not.
answers_invalid :
    lnc_recv host client (ask (codes "stop")) world
    ≡ some (record world { out = replies 4 (pos 9) (status (Status.error Errno.einval)) ∷ [] })
unfolding lnc_recv handle_with request_handler call of_handled reply_with Apps.application_stop
answers_invalid = refl

answers_nothing : lnc_recv host client (ask (codes "query")) world ≡ some world
unfolding lnc_recv handle_with request_handler
answers_nothing = refl

-- A number may be negative.
answers_negative :
    lnc_recv host client
      (record { type = some (codes "stop"); seqno = some (negsuc 1); object = some nothing })
      world
    ≡ some (record world { out = replies 4 (negsuc 1) (status (Status.error Errno.einval)) ∷ [] })
unfolding lnc_recv handle_with request_handler call of_handled reply_with Apps.application_stop
answers_negative = refl

abbrev cleaning : Object
cleaning = record nothing { cgroup = some (codes "/a") }

cleaning-Runs : Runs (call host cleanup client cleaning world)
unfolding call of_handled Apps.application_cleanup
cleaning-Runs = tt

lnc_recv-Replied_example : Replied client (negsuc 1) world (
    lnc_recv host client
      (record { type = some (codes "cleanup"); seqno = some (negsuc 1); object = some cleaning })
      world)
lnc_recv-Replied_example =
    lnc_recv-Replied host client cleanup (negsuc 1) cleaning world refl (λ i. refl) refl (λ e. tt)
      cleaning-Runs
