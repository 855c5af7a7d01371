-- ===== src/Launcher/Apps/Signals.antt =====
-- The states that the handlers of src/launcher/daemon/application.c and its timers reach, from a
-- launcher that tracks no application.
use mathlib.Core.Path.{subst}
use iot_app_fw.Common.{
  ◌≡◌, refl, sym, Bool, true, false, Option, none, some, List, [], ◌∷◌, Bytes, ◌⊎◌, inl, inr, ◌==◌,
  if◌then◌else◌, All,
}
use iot_app_fw.AppId.{Outcome, parse}
use iot_app_fw.Manifest.{Manifest}
use iot_app_fw.Launcher.{Client, Status, Errno}
use iot_app_fw.Launcher.Apps.{
  App, Kill, Effect, Daemon, Env, Handled, replies, silent, undefined, hook_trigger, startup,
  find_app, stop_found, stop_parsed, application_stop, text_of, application_sigkill,
  application_for_cgroup, send_stopped_event, cleanup_found, application_cleanup,
}
use iot_app_fw.Launcher.Apps.Setup.{
  Memory, SetupRequest, SetupFields, tracking, new_app, setup_hooks, setup_dir, setup_copied,
  setup_read, setup_fields, application_setup, fields_of, copy_arguments, base_name,
}
use iot_app_fw.Launcher.Apps.Objects.{app_of, In-app_of}
use iot_app_fw.Launcher.Apps.Stores.{Stoppable-find_app, In-application_for_cgroup}
use iot_app_fw.Launcher.Apps.Tracked.{
  Asked, Owned, Tracked, tracking-Tracked, application_sigkill-Tracked, ended_daemon-Tracked,
}
use iot_app_fw.Launcher.Apps.Stopped.{stopped_daemon, stopped_daemon-Tracked}

-- The state that a handler leaves.
abbrev pub Leaves : Handled → Daemon → Type 0
Leaves (replies s d) d' = d ≡ d'
Leaves (silent d) d' = d ≡ d'
Leaves undefined d' = ⊥

-- Whatever a handler leaves is tracked.
abbrev pub Keeps : Handled → Type 0
Keeps (replies s d) = Tracked d
Keeps (silent d) = Tracked d
Keeps undefined = Unit

abbrev Pending : Kill → List Kill → Type 0
Pending k [] = ⊥
Pending k (j ∷ js) = (k ≡ j) ⊎ Pending k js

-- One request of some client, or one timer that fires. The kernel gives every peer a process id that
-- is not 0.
pub data Step : Daemon → Daemon → Type 0 where
  sets_up :
      (d d' : Daemon) (e : Env) (mem : Memory) (c : Client) (q : SetupRequest)
      → Leaves (application_setup e mem c q d) d'
      → Step d d'
  stops :
      (d d' : Daemon) (granted : Bool) (c : Client) (appid : Option Bytes)
      → (c.pid == 0) ≡ false
      → Leaves (application_stop granted c appid d) d'
      → Step d d'
  cleans_up :
      (d d' : Daemon) (e : Env) (made : Bool) (cgroup : Option Bytes)
      → Leaves (application_cleanup made e cgroup d) d'
      → Step d d'
  kills : (d : Daemon) (k : Kill) → Pending k d.timers → Step d (application_sigkill k d)

abbrev pub no_apps : Daemon
no_apps = record { apps = []; timers = []; fresh = 1; log = [] }

pub data Reachable : Daemon → Type 0 where
  booted : Reachable no_apps
  stepped : (d d' : Daemon) → Reachable d → Step d d' → Reachable d'

Keeps-if : (b : Bool) (x y : Handled) → Keeps x → Keeps y → Keeps (if b then x else y)
Keeps-if true x y hx hy = hx
Keeps-if false x y hx hy = hy

application_setup-Keeps :
    (e : Env) (mem : Memory) (c : Client) (q : SetupRequest) (d : Daemon)
    → Tracked d
    → Keeps (application_setup e mem c q d)
unfolding application_setup setup_fields setup_read setup_copied setup_dir setup_hooks new_app
application_setup-Keeps e mem c q d t = fields (fields_of q)
  where
    dir : (a : App) → a.id ≡ d.fresh → (o : Option Bytes) → Keeps (setup_dir e mem a d o)
    dir a i none = t
    dir a i (some g) =
        let a' : App = record a { cgrp = g } in
        Keeps-if mem.path (setup_hooks e a' d) (silent d)
          (Keeps-if (hook_trigger e.hooks a' startup) (replies Status.ok (tracking a' d))
            (replies (Status.error Errno.of_call) d) (tracking-Tracked a' d i t) t)
          t

    copied :
        (f : SetupFields) (m : Manifest) (o : Option (List Bytes))
        → Keeps (setup_copied e mem c f m d o)
    copied f m none = t
    copied f m (some []) = Keeps-if mem.copies undefined (silent d) tt t
    copied f m (some (s ∷ ss)) =
        let a : App = new_app c f m (s ∷ ss) d in
        Keeps-if mem.copies (setup_dir e mem a d (e.mkdir a.uid (base_name s) a.pid)) (silent d)
          (dir a refl (e.mkdir a.uid (base_name s) a.pid)) t

    reads : (f : SetupFields) (o : Option Manifest) → Keeps (setup_read e mem c f d o)
    reads f none = t
    reads f (some m) =
        Keeps-if mem.object (setup_copied e mem c f m d (copy_arguments f.exec)) (silent d)
          (copied f m (copy_arguments f.exec)) t

    fields : (o : Option SetupFields) → Keeps (setup_fields e mem c d o)
    fields none = t
    fields (some f) = reads f (e.read f.manifest)

application_stop-Keeps :
    (granted : Bool) (c : Client) (appid : Option Bytes) (d : Daemon)
    → (c.pid == 0) ≡ false
    → Tracked d
    → Keeps (application_stop granted c appid d)
unfolding application_stop stop_parsed stop_found
application_stop-Keeps granted c none d p t = t
application_stop-Keeps granted c (some s) d p t =
    let o : Outcome = parse s none (some 128) (some 128) in
    let pkg : Bytes = text_of o.bufs.pkg_text in
    let id : Bytes = text_of o.bufs.app_text in
    Keeps-if o.ok (stop_found granted c d (find_app c pkg id d.apps))
      (replies (Status.error Errno.einval) d)
      (at (find_app c pkg id d.apps)
        (λ a e. In-app_of a d.apps t.distinct (Stoppable-find_app c pkg id d.apps a e).tracked))
      t
  where
    at :
        (o : Option App)
        → ((a : App) → o ≡ some a → app_of a.id d.apps ≡ some a)
        → Keeps (stop_found granted c d o)
    at none k = t
    at (some a) k = go (a.killer == 0) refl
      where
        go :
            (b : Bool)
            → (a.killer == 0) ≡ b
            → Keeps (
                if b
                then replies Status.signalled (stopped_daemon granted c.pid a d)
                else replies (Status.error Errno.ebusy) d)
        go true z = stopped_daemon-Tracked granted c.pid a d p (k a refl) z t
        go false z = t

application_cleanup-Keeps :
    (made : Bool) (e : Env) (cgroup : Option Bytes) (d : Daemon)
    → Tracked d
    → Keeps (application_cleanup made e cgroup d)
unfolding application_cleanup cleanup_found
application_cleanup-Keeps made e none d t = t
application_cleanup-Keeps made e (some []) d t = tt
application_cleanup-Keeps made e (some (ch ∷ g)) d t =
    at (application_for_cgroup g d.apps)
      (λ a q. In-app_of a d.apps t.distinct (In-application_for_cgroup g d.apps a q).0)
  where
    at :
        (o : Option App)
        → ((a : App) → o ≡ some a → app_of a.id d.apps ≡ some a)
        → Tracked (cleanup_found made e g d o)
    at none k = t
    at (some a) k = ended_daemon-Tracked g (send_stopped_event made e.clients a) a d (k a refl) t

Asked-Pending :
    (xs : List App) (log : List Effect) (k : Kill) (ks : List Kill)
    → Pending k ks
    → All (Owned xs log) ks
    → Asked k.cgrp log
Asked-Pending xs log k [] p h = elim p [ ]
Asked-Pending xs log k (j ∷ js) (inl e) (o, h) = subst (λ x. Asked x.cgrp log) (sym e) o.asked
Asked-Pending xs log k (j ∷ js) (inr p) (o, h) = Asked-Pending xs log k js p h

Tracked-Leaves : (h : Handled) (d : Daemon) → Keeps h → Leaves h d → Tracked d
Tracked-Leaves (replies s d') d k e = subst Tracked e k
Tracked-Leaves (silent d') d k e = subst Tracked e k
Tracked-Leaves undefined d k e = elim e [ ]

Step-Tracked : (d d' : Daemon) → Step d d' → Tracked d → Tracked d'
Step-Tracked d d' (sets_up _ _ e mem c q l) t =
    Tracked-Leaves (application_setup e mem c q d) d' (application_setup-Keeps e mem c q d t) l
Step-Tracked d d' (stops _ _ granted c appid p l) t =
    Tracked-Leaves (application_stop granted c appid d) d'
      (application_stop-Keeps granted c appid d p t) l
Step-Tracked d d' (cleans_up _ _ e made cgroup l) t =
    Tracked-Leaves (application_cleanup made e cgroup d) d'
      (application_cleanup-Keeps made e cgroup d t) l
Step-Tracked d _ (kills _ k p) t =
    application_sigkill-Tracked k d (Asked-Pending d.apps d.log k d.timers p t.owned) t

-- In every state that requests of clients with a process id and firing timers lead to: each pending
-- kill timer belongs to a tracked application that a client asked to stop, whose field holds that
-- timer and whose cgroup is the one the timer will signal; no two applications share an object; and
-- each SIGKILL sent so far was sent to a cgroup that had been sent SIGTERM before.
pub Reachable-Tracked : (d : Daemon) → Reachable d → Tracked d
Reachable-Tracked _ booted = record { owned = tt; distinct = tt; below = tt; warned = tt }
Reachable-Tracked _ (stepped d d' r s) = Step-Tracked d d' s (Reachable-Tracked d r)
