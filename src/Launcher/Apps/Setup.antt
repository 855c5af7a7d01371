-- ===== src/Launcher/Apps/Setup.antt =====
-- `application_setup` of src/launcher/daemon/application.c: an application that is about to be started is
-- tracked.
use iot_app_fw.Common.{
  ℕ, ◌+◌, Bool, Option, none, some, List, [], ◌∷◌, ◌++◌, Bytes, ◌==◌, not, if◌then◌else◌,
}
use iot_app_fw.Manifest.{Manifest}
use iot_app_fw.Launcher.{no_uid, no_gid, einval, of_call, ok, error, Client}
use iot_app_fw.Launcher.Apps.{
  App, Daemon, Env, Handled, replies, silent, undefined, hook_trigger, startup,
}

-- A "setup" request: `none` for a field that is missing or of another type, and for an argument that
-- is not a string. A user or a group is the unsigned value of the integer.
pub record SetupRequest : Type 0 where
  pub manifest : Option Bytes
  pub app : Option Bytes
  pub user : Option ℕ
  pub group : Option ℕ
  pub exec : Option (List (Option Bytes))

pub record SetupFields : Type 0 where
  pub manifest : Bytes
  pub app : Bytes
  pub user : ℕ
  pub group : ℕ
  pub exec : List (Option Bytes)

-- the test of the five fields
unfoldable pub fields_of : SetupRequest → Option SetupFields
fields_of q = elim q.manifest [
  | none ↦ none
  | some m ↦ elim q.app [
    | none ↦ none
    | some a ↦ elim q.user [
      | none ↦ none
      | some u ↦ elim q.group [
        | none ↦ none
        | some g ↦ elim q.exec [
          | none ↦ none
          | some x ↦ some (record { manifest = m; app = a; user = u; group = g; exec = x })
        ]
      ]
    ]
  ]
]

abbrev pub push : Bytes → Option (List Bytes) → Option (List Bytes)
push s none = none
push s (some ss) = some (s ∷ ss)

-- `copy_arguments` when its allocations succeed: `none` for the -1 on an argument that is no string.
unfoldable pub copy_arguments : List (Option Bytes) → Option (List Bytes)
copy_arguments [] = some []
copy_arguments (none ∷ ss) = none
copy_arguments (some s ∷ ss) = push s (copy_arguments ss)

abbrev slash : ℕ
slash = b'/'

-- what follows the last slash, `none` where `strrchr` finds no slash
unfoldable pub after_slash : Bytes → Option Bytes
after_slash [] = none
after_slash (c ∷ s) =
    let rest : Option Bytes = after_slash s in
    elim rest [ none ↦ if c == slash then some s else none | some t ↦ some t ]

-- `base` of the first argument
unfoldable pub base_name : Bytes → Bytes
base_name s = elim (after_slash s) [ none ↦ s | some t ↦ t ]

-- Which of the allocations of a setup succeed: the object, the copies of the name and the arguments,
-- and the copy of the cgroup's path.
pub record Memory : Type 0 where
  pub object : Bool
  pub copies : Bool
  pub path : Bool

-- the object as it is when its cgroup is to be created
unfoldable pub new_app : Client → SetupFields → Manifest → List Bytes → Daemon → App
new_app c f m argv d = record {
  id = d.fresh;
  manifest = m;
  app = f.app;
  uid = if not (f.user == no_uid) then f.user else c.uid;
  gid = if not (f.group == no_gid) then f.group else c.gid;
  pid = c.pid;
  argv = argv;
  cgrp = [];
  stop = none;
  killer = 0;
}

abbrev pub tracking : App → Daemon → Daemon
tracking a d = record d { apps = d.apps ++ a ∷ []; fresh = d.fresh + 1 }

-- `application_setup` from the call of the hooks on
unfoldable pub setup_hooks : Env → App → Daemon → Handled
setup_hooks e a d =
    if hook_trigger e.hooks a startup then replies ok (tracking a d) else replies (error of_call) d

-- `application_setup` from the test of the result of `cgroup_mkdir` on
unfoldable pub setup_dir : Env → Memory → App → Daemon → Option Bytes → Handled
setup_dir e mem a d none = replies (error of_call) d
setup_dir e mem a d (some dir) =
    if mem.path then setup_hooks e (record a { cgrp = dir }) d else silent d

-- `application_setup` from the test of the copies on. Without an argument `argv` is NULL, and its
-- first entry is read.
unfoldable pub setup_copied :
    Env → Memory → Client → SetupFields → Manifest → Daemon → Option (List Bytes) → Handled
setup_copied e mem c f m d none = silent d
setup_copied e mem c f m d (some []) = if mem.copies then undefined else silent d
setup_copied e mem c f m d (some (s ∷ ss)) =
    let a : App = new_app c f m (s ∷ ss) d in
    if mem.copies then setup_dir e mem a d (e.mkdir a.uid (base_name s) a.pid) else silent d

-- `application_setup` from the test of the manifest on
unfoldable pub setup_read : Env → Memory → Client → SetupFields → Daemon → Option Manifest → Handled
setup_read e mem c f d none = replies (error einval) d
setup_read e mem c f d (some m) =
    if mem.object then setup_copied e mem c f m d (copy_arguments f.exec) else silent d

unfoldable pub setup_fields : Env → Memory → Client → Daemon → Option SetupFields → Handled
setup_fields e mem c d none = replies (error einval) d
setup_fields e mem c d (some f) = setup_read e mem c f d (e.read f.manifest)

-- `application_setup`
unfoldable pub application_setup : Env → Memory → Client → SetupRequest → Daemon → Handled
application_setup e mem c q d = setup_fields e mem c d (fields_of q)
