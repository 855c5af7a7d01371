-- ===== src/Launcher/Apps/Tests.antt =====
-- Runs of the launcher's application handlers, and the theorems on them at concrete data.
use iot_app_fw.Common.{◌≡◌, refl, sym, true, none, some, [], ◌∷◌, ◌++◌, inl, arith, Bytes, codes}
use mathlib.Core.Path.{subst}
use iot_app_fw.AppId.{strchr, snprintf, fill, locate, locate_pkg, locate_app, parse}
use iot_app_fw.Mask.{init}
use iot_app_fw.Manifest.{description, desktop_path, app_data, find_app}
use iot_app_fw.Manifest.Samples.{tools}
use iot_app_fw.Launcher.{Client, Errno, no_uid, no_gid, ok, signalled, error}
use iot_app_fw.Launcher.Apps.{
  App, Kill, sigterm, sigkill, signals, sends, removes, Daemon, Env, replies, hook_trigger, set_app,
  application_sigterm, stop_found, stop_parsed, application_stop, application_sigkill,
  application_for_cgroup, del_timer, del_app, send_stopped_event, cleanup_found,
  application_cleanup,
}
use iot_app_fw.Launcher.Apps.Setup.{
  Memory, SetupRequest, fields_of, copy_arguments, after_slash, base_name, new_app, setup_hooks,
  setup_dir, setup_copied, setup_read, setup_fields, application_setup,
}
use iot_app_fw.Launcher.Apps.Listing.{Entry, listed, running_entry, running_from, list_running}
use iot_app_fw.Launcher.Apps.Tracked.{Tracked}
use iot_app_fw.Launcher.Apps.Signals.{
  Leaves, Reachable, booted, stepped, sets_up, stops, kills, no_apps, Reachable-Tracked,
}
use iot_app_fw.Launcher.Apps.Stopping.{Plain, Stops, list_running-Stops}
use iot_app_fw.Launcher.Apps.Sparing.{Spares, application_stop-Spares}
use iot_app_fw.Launcher.Apps.Ending.{CleansUp, application_cleanup-Ended}

abbrev user_7 : Client
user_7 = record { conn = 1; label = none; uid = 7; gid = 7; pid = 70; mask = init }

abbrev user_8 : Client
user_8 = record { conn = 2; label = none; uid = 8; gid = 8; pid = 80; mask = init }

abbrev env : Env
env = record {
  read = λ path. some tools;
  mkdir = λ uid base pid. some (codes "user-7/" ++ base);
  hooks = record { setup = λ a. true; cleanup = λ a. true } ∷ [];
  clients = user_8 ∷ user_7 ∷ [];
}

abbrev memory : Memory
memory = record { object = true; copies = true; path = true }

abbrev set_up : SetupRequest
set_up = record {
  manifest = some (codes "tools.manifest");
  app = some (codes "clock");
  user = some no_uid;
  group = some no_gid;
  exec = some (some (codes "/bin/clock") ∷ []);
}

abbrev running : App
running = record {
  id = 1;
  manifest = tools;
  app = codes "clock";
  uid = 7;
  gid = 7;
  pid = 70;
  argv = codes "/bin/clock" ∷ [];
  cgrp = codes "user-7/clock";
  stop = none;
  killer = 0;
}

abbrev one_app : Daemon
one_app = record { apps = running ∷ []; timers = []; fresh = 2; log = [] }

sets_clock_up : application_setup env memory user_7 set_up no_apps ≡ replies ok one_app
unfolding application_setup fields_of setup_fields setup_read copy_arguments setup_copied new_app
    base_name after_slash setup_dir setup_hooks hook_trigger
sets_clock_up = refl

abbrev stop_timer : Kill
stop_timer = record { handle = 2; app = 1; cgrp = codes "user-7/clock" }

abbrev stopping_app : Daemon
stopping_app = record {
  apps = record running { stop = some 2; killer = 70 } ∷ [];
  timers = stop_timer ∷ [];
  fresh = 3;
  log = signals (codes "user-7/clock") sigterm ∷ [];
}

abbrev clock_id : Bytes
clock_id = codes "tools:clock"

stops_clock : application_stop true user_7 (some clock_id) one_app ≡ replies signalled stopping_app
unfolding application_stop stop_parsed iot_app_fw.Launcher.Apps.find_app stop_found
    application_sigterm set_app parse locate strchr locate_pkg locate_app fill snprintf
stops_clock = refl

-- The manifest and the application of another user.
refuses_user_8 :
    application_stop true user_8 (some clock_id) one_app ≡ replies (error Errno.enoent) one_app
unfolding application_stop stop_parsed iot_app_fw.Launcher.Apps.find_app stop_found parse locate
    strchr locate_pkg locate_app fill snprintf
refuses_user_8 = refl

was_asked : Reachable stopping_app
was_asked =
    let set =
      sets_up no_apps one_app env memory user_7 set_up
        (subst (λ h. Leaves h one_app) (sym sets_clock_up) refl) in
    let stop =
      stops one_app stopping_app true user_7 (some clock_id) refl
        (subst (λ h. Leaves h stopping_app) (sym stops_clock) refl) in
    stepped one_app stopping_app (stepped no_apps one_app booted set) stop

was_killed : Reachable (application_sigkill stop_timer stopping_app)
was_killed =
    stepped stopping_app (application_sigkill stop_timer stopping_app) was_asked
      (kills stopping_app stop_timer (inl refl))

Reachable-Tracked_example : Tracked (application_sigkill stop_timer stopping_app)
Reachable-Tracked_example =
    Reachable-Tracked (application_sigkill stop_timer stopping_app) was_killed

abbrev clock_entry : Entry
clock_entry = record {
  app = clock_id;
  description = codes "shows the time";
  desktop = [];
  user = 7;
  argv = codes "/bin/clock" ∷ [];
}

lists_clock : list_running (λ i. true) user_7 (running ∷ []) ≡ listed (clock_entry ∷ [])
unfolding list_running running_from running_entry description desktop_path app_data find_app
lists_clock = refl

running-Plain : Plain running
running-Plain = record {
  pkg_clean = (refl, (refl, (refl, (refl, (refl, tt)))));
  app_clean = (refl, (refl, (refl, (refl, (refl, tt)))));
  pkg_short = omega arith;
  app_short = omega arith;
}

list_running-Stops_example : Stops true user_7 clock_id one_app
list_running-Stops_example =
    list_running-Stops true (λ i. true) user_7 one_app (clock_entry ∷ []) 0 clock_entry
      (running-Plain, tt) lists_clock refl

application_stop-Spares_example :
    Spares user_8 one_app (application_stop true user_8 (some clock_id) one_app)
application_stop-Spares_example =
    application_stop-Spares true user_8 (some clock_id) one_app (tt, tt)

stopping-Tracked : Tracked stopping_app
stopping-Tracked = Reachable-Tracked stopping_app was_asked

finds_clock :
    application_for_cgroup (codes "user-7/clock") stopping_app.apps
    ≡ some (record running { stop = some 2; killer = 70 })
unfolding application_for_cgroup
finds_clock = refl

application_cleanup-Ended_example :
    CleansUp env b'/'
      (codes "user-7/clock")
      (record running { stop = some 2; killer = 70 })
      stopping_app
application_cleanup-Ended_example =
    application_cleanup-Ended env b'/' (codes "user-7/clock")
      (record running { stop = some 2; killer = 70 }) stopping_app stopping-Tracked finds_clock
