-- ===== src/Launcher/Apps.antt =====
-- src/launcher/daemon/application.c: the applications that the launcher tracks, from their setup over
-- the stop request to the cleanup when their cgroup is empty.
pub mod Setup
pub mod Listing
pub mod Objects
pub mod Stores
pub mod Tracked
pub mod Stopped
pub mod Signals
pub mod Stopping
pub mod Sparing
pub mod Ending
mod Tests
use iot_app_fw.Common.{
  ℕ, ◌+◌, ◌-◌, Bool, true, false, Option, none, some, List, [], ◌∷◌, ◌++◌, Bytes, same, ◌==◌, not,
  ◌&&◌, if◌then◌else◌, take, map, codes,
}
use iot_app_fw.AppId.{colon, Outcome, parse}
use iot_app_fw.Manifest.{Manifest}
use iot_app_fw.Launcher.{
  no_uid, no_gid, Errno, einval, enoent, ebusy, of_call, Status, ok, signalled, error, Client,
}
use iot_app_fw.Launcher.Events.{Sent, event_send}

-- `application_t`, with its `identity_t`. `id` names the object; a list `argv` is never empty here.
pub record App : Type 0 where
  pub id : ℕ
  pub manifest : Manifest
  pub app : Bytes
  pub uid : ℕ
  pub gid : ℕ
  pub pid : ℕ
  pub argv : List Bytes
  pub cgrp : Bytes
  pub stop : Option ℕ
  pub killer : ℕ

-- A pending timer of `application_sigkill`: its handle, and of the application that it is called with
-- the name and the cgroup, which is never changed once the application is set up.
pub record Kill : Type 0 where
  pub handle : ℕ
  pub app : ℕ
  pub cgrp : Bytes

pub data Signal : Type 0 where
  sigterm sigkill : Signal

-- What the handlers do outside of the launcher's own data: a call of `cgroup_signal`, an event message
-- to a client, and a call of `cgroup_rmdir`.
pub data Effect : Type 0 where
  signals : Bytes → Signal → Effect
  sends : Sent Bytes → Effect
  removes : Bytes → Effect

-- `launcher_t`: the applications, the pending timers, the next name of an object or a timer, and what
-- was done, the last first.
pub record Daemon : Type 0 where
  pub apps : List App
  pub timers : List Kill
  pub fresh : ℕ
  pub log : List Effect

-- `app_hook_t`: whether its callbacks succeed.
pub record Hook : Type 0 where
  pub setup : App → Bool
  pub cleanup : App → Bool

pub data HookEvent : Type 0 where
  startup cleaned_up : HookEvent

abbrev pub call_hook : HookEvent → Hook → App → Bool
call_hook startup h a = h.setup a
call_hook cleaned_up h a = h.cleanup a

-- `hook_trigger` on a startup or a cleanup: the first hook that fails ends it.
unfoldable pub hook_trigger : List Hook → App → HookEvent → Bool
hook_trigger [] a e = true
hook_trigger (h ∷ hs) a e =
    let rest : Bool = hook_trigger hs a e in if call_hook e h a then rest else false

-- What the handlers call: `iot_manifest_read`, `cgroup_mkdir` with a user, a name and a process, the
-- registered hooks, and the clients that are connected.
pub record Env : Type 0 where
  pub read : Bytes → Option Manifest
  pub mkdir : ℕ → Bytes → ℕ → Option Bytes
  pub hooks : List Hook
  pub clients : List Client

-- A handler's reply, NULL, or a run that C leaves undefined.
pub data Handled : Type 0 where
  replies : Status → Daemon → Handled
  silent : Daemon → Handled
  undefined : Handled

-- the write of fields of the object with a name
unfoldable pub set_app : ℕ → (App → App) → List App → List App
set_app i f [] = []
set_app i f (a ∷ xs) = if a.id == i then f a ∷ xs else a ∷ set_app i f xs

-- `application_sigterm`: the timer, and the first signal; `granted` is whether the timer can be
-- created.
unfoldable pub application_sigterm : (granted : Bool) → App → Daemon → Daemon
application_sigterm granted a d =
    if granted
    then record {
      apps = set_app a.id (λ b. record b { stop = some d.fresh }) d.apps;
      timers = record { handle = d.fresh; app = a.id; cgrp = a.cgrp } ∷ d.timers;
      fresh = d.fresh + 1;
      log = signals a.cgrp sigterm ∷ d.log;
    }
    else record d {
      apps = set_app a.id (λ b. record b { stop = none }) d.apps;
      log = signals a.cgrp sigterm ∷ d.log;
    }

-- the test that skips an application of another user
abbrev pub owns : Client → App → Bool
owns c a = not (not (c.uid == a.uid) && not (c.uid == 0))

-- the test that ends the search
abbrev pub is_named : Bytes → Bytes → App → Bool
is_named pkg id a = same a.manifest.pkg pkg && same a.app id

-- the search of `application_stop`
unfoldable pub find_app : Client → (pkg id : Bytes) → List App → Option App
find_app c pkg id [] = none
find_app c pkg id (a ∷ xs) =
    let rest : Option App = find_app c pkg id xs in
    if owns c a then if is_named pkg id a then some a else rest else rest

unfoldable pub stop_found : (granted : Bool) → Client → Daemon → Option App → Handled
stop_found granted c d none = replies (error enoent) d
stop_found granted c d (some a) =
    if a.killer == 0
    then replies signalled (
        application_sigterm granted a
          (record d { apps = set_app a.id (λ b. record b { killer = c.pid }) d.apps }))
    else replies (error ebusy) d

abbrev pub text_of : Option Bytes → Bytes
text_of none = []
text_of (some s) = s

-- `application_stop` from the test of `iot_appid_parse` on
unfoldable pub stop_parsed : (granted : Bool) → Client → Daemon → Outcome → Handled
stop_parsed granted c d o =
    if o.ok
    then stop_found granted c d
        (find_app c (text_of o.bufs.pkg_text) (text_of o.bufs.app_text) d.apps)
    else replies (error einval) d

-- `application_stop`, with the field "app" of the request
unfoldable pub application_stop : (granted : Bool) → Client → Option Bytes → Daemon → Handled
application_stop granted c none d = replies (error einval) d
application_stop granted c (some appid) d =
    stop_parsed granted c d (parse appid none (some 128) (some 128))

-- `application_sigkill`, the callback of a pending timer
unfoldable pub application_sigkill : Kill → Daemon → Daemon
application_sigkill k d = record d { log = signals k.cgrp sigkill ∷ d.log }

-- `application_for_cgroup`
unfoldable pub application_for_cgroup : Bytes → List App → Option App
application_for_cgroup g [] = none
application_for_cgroup g (a ∷ xs) =
    let rest : Option App = application_for_cgroup g xs in if same a.cgrp g then some a else rest

-- `iot_timer_del` of a handle, or of NULL
unfoldable pub del_timer : Option ℕ → List Kill → List Kill
del_timer none ks = ks
del_timer (some t) [] = []
del_timer (some t) (k ∷ ks) =
    if k.handle == t then del_timer (some t) ks else k ∷ del_timer (some t) ks

-- `iot_list_delete` of an application's hook
unfoldable pub del_app : ℕ → List App → List App
del_app i [] = []
del_app i (a ∷ xs) = if a.id == i then xs else a ∷ del_app i xs

-- `"%s:%s"` of the package and the application, printed into a buffer
abbrev pub print_appid : (size : ℕ) → Manifest → Bytes → Bytes
print_appid size m app = take (size - 1) (m.pkg ++ colon ∷ app)

-- `STOPPED_EVENT`
abbrev pub stopped_event : Bytes
stopped_event = codes "stopped"

-- `send_stopped_event`: the messages that leave. `made` is whether the event and its message can be
-- created.
unfoldable pub send_stopped_event : (made : Bool) → List Client → App → List (Sent Bytes)
send_stopped_event made cs a =
    (event_send made a.killer stopped_event (print_appid 256 a.manifest a.app) cs).0

-- `application_cleanup` of the application with the cgroup, if there is one. What the cleanup hooks
-- return is not looked at.
unfoldable pub cleanup_found : (made : Bool) → Env → Bytes → Daemon → Option App → Daemon
cleanup_found made e cgrp d none = d
cleanup_found made e cgrp d (some a) = record d {
  apps = del_app a.id d.apps;
  timers = del_timer a.stop d.timers;
  log = removes cgrp ∷ (map sends (send_stopped_event made e.clients a) ++ d.log);
}

-- `application_cleanup`, with the field "cgroup" of the request. Its first character is skipped; of an
-- empty text that is the terminator, and what follows it is read.
unfoldable pub application_cleanup : (made : Bool) → Env → Option Bytes → Daemon → Handled
application_cleanup made e none d = replies (error einval) d
application_cleanup made e (some []) d = undefined
application_cleanup made e (some (c ∷ cgrp)) d =
    replies ok (cleanup_found made e cgrp d (application_for_cgroup cgrp d.apps))
