-- ===== src/Launcher/Apps/Ending.antt =====
-- The cleanup of an application of src/launcher/daemon/application.c whose cgroup is empty.
use iot_app_fw.Common.{
  ℕ, ◌≡◌, refl, ap, Bool, true, false, Option, none, some, List, [], ◌∷◌, ◌++◌, Bytes, ◌==◌, not,
  if◌then◌else◌, All, map,
}
use iot_app_fw.Launcher.{Client, ok}
use iot_app_fw.Launcher.Events.{Sent, message, event_send}
use iot_app_fw.Launcher.Apps.{
  App, sends, removes, Daemon, Env, replies, application_for_cgroup, application_cleanup,
  cleanup_found, send_stopped_event, stopped_event, print_appid, del_timer,
}
use iot_app_fw.Launcher.Apps.Objects.{app_of, Unused, In, In-app_of, app_of-del_other}
use iot_app_fw.Launcher.Apps.Stores.{In-application_for_cgroup, All-weaken, Unused-del}
use iot_app_fw.Launcher.Apps.Tracked.{Owned, Tracked, ended_daemon, survivors}

-- The first client of a process.
unfoldable pub client_of : ℕ → List Client → Option Client
client_of pid [] = none
client_of pid (t ∷ ts) =
    let rest : Option Client = client_of pid ts in if t.pid == pid then some t else rest

-- The one message to a client, if there is a client.
abbrev pub told : Option Client → Bytes → Bytes → List (Sent Bytes)
told none event text = []
told (some t) event text = message t event text ∷ []

pub event_send-told :
    (pid : ℕ) (event text : Bytes) (cs : List Client)
    → (event_send true pid event text cs).0 ≡ told (client_of pid cs) event text
unfolding event_send client_of
event_send-told pid event text [] = refl
event_send-told pid event text (t ∷ ts) = at (t.pid == pid) (event_send-told pid event text ts)
  where
    at :
        (b : Bool)
        → (event_send true pid event text ts).0 ≡ told (client_of pid ts) event text
        → (if not b then event_send true pid event text ts else (message t event text ∷ [], none)).0
          ≡ told (if b then some t else client_of pid ts) event text
    at true h = refl
    at false h = h

-- What a cleanup has done with the application `a`.
pub record Ended (e : Env) (g : Bytes) (a : App) (d d' : Daemon) : Type 0 where
  pub forgotten : Unused a.id d'.apps
  pub disarmed : All (λ k. (k.app == a.id) ≡ false) d'.timers
  pub others : (i : ℕ) → (i == a.id) ≡ false → app_of i d'.apps ≡ app_of i d.apps
  pub done :
      d'.log
      ≡ removes g
        ∷ (map sends
              (told (client_of a.killer e.clients) stopped_event (print_appid 256 a.manifest a.app))
            ++ d.log)

Ended-daemon :
    (e : Env) (g : Bytes) (a : App) (d : Daemon)
    → Tracked d
    → In a d.apps
    → Ended e g a d (ended_daemon g (send_stopped_event true e.clients a) a d)
unfolding send_stopped_event
Ended-daemon e g a d t h = record {
  forgotten = Unused-del a.id d.apps t.distinct;
  disarmed =
      All-weaken (λ k. Owned d.apps d.log k × ((k.app == a.id) ≡ false))
        (λ k. (k.app == a.id) ≡ false) (del_timer a.stop d.timers) (λ k (o, n). n)
        (survivors a d.apps d.log d.timers (In-app_of a d.apps t.distinct h) t.owned);
  others = λ i n. app_of-del_other i a.id d.apps n;
  done =
      ap (λ ss. removes g ∷ (map sends ss ++ d.log))
        (event_send-told a.killer stopped_event (print_appid 256 a.manifest a.app) e.clients);
}

-- The answer to a cleanup request, and the state that it leaves.
abbrev pub CleansUp : Env → ℕ → Bytes → App → Daemon → Type 0
CleansUp e ch g a d =
    (d' : Daemon) × (application_cleanup true e (some (ch ∷ g)) d ≡ replies ok d')
    × Ended e g a d d'

-- In a state that keeps the invariant, a cleanup request for the cgroup of an application is answered
-- OK: no application with its name and no timer of it is left, the other applications are found as
-- before, the client that asked to stop it, if one is connected with that process id, is sent one
-- `stopped` event with the identifier, and then the cgroup is removed. The event can be created here.
pub application_cleanup-Ended :
    (e : Env) (ch : ℕ) (g : Bytes) (a : App) (d : Daemon)
    → Tracked d
    → application_for_cgroup g d.apps ≡ some a
    → CleansUp e ch g a d
unfolding application_cleanup cleanup_found
application_cleanup-Ended e ch g a d t h =
    let d' : Daemon = ended_daemon g (send_stopped_event true e.clients a) a d in
    (
      d',
      ap (λ o. replies ok (cleanup_found true e g d o)) h,
      Ended-daemon e g a d t (In-application_for_cgroup g d.apps a h).0,
    )
