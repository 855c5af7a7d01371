-- ===== src/Launcher/Apps/Listing.antt =====
-- The "list" requests of src/launcher/daemon/application.c: the running and the installed
-- applications.
use iot_app_fw.Common.{
  ℕ, suc, ◌-◌, ◌^◌, Bool, Option, none, some, List, [], ◌∷◌, Bytes, codes, same, ltb, ◌==◌, not,
  ◌&&◌, if◌then◌else◌,
}
use iot_app_fw.Manifest.{Manifest, Filled, applications, description, desktop_path, arguments}
use iot_app_fw.Launcher.{Client, Errno, einval, eperm}
use iot_app_fw.Launcher.Privilege.{Security, is_allowed, privilege_check, list_apps_privilege}
use iot_app_fw.Launcher.Apps.{App, owns, print_appid, text_of}

-- The object of one application in the reply.
pub record Entry : Type 0 where
  pub app : Bytes
  pub description : Bytes
  pub desktop : Bytes
  pub user : ℕ
  pub argv : List Bytes

-- The array in a status that is OK; an error status; NULL; or a run that C leaves undefined.
pub data Listing : Type 0 where
  listed : List Entry → Listing
  refused : Errno → Listing
  silent : Listing
  undefined : Listing

abbrev pub add_entry : Entry → Listing → Listing
add_entry x (listed xs) = listed (x ∷ xs)
add_entry x (refused e) = refused e
add_entry x silent = silent
add_entry x undefined = undefined

-- the object of a tracked application; a string without a description is made of NULL
unfoldable pub running_entry : App → Option Bytes → Listing → Listing
running_entry a none rest = undefined
running_entry a (some descr) rest =
    add_entry
      (record {
        app = print_appid 1024 a.manifest a.app;
        description = descr;
        desktop = text_of (desktop_path a.manifest a.app);
        user = a.uid;
        argv = a.argv;
      })
      rest

-- The loop of `list_running`; `made` is whether the object at a place can be created.
unfoldable pub running_from : (made : ℕ → Bool) → ℕ → Client → List App → Listing
running_from made i c [] = listed []
running_from made i c (a ∷ xs) =
    let skipped : Listing = running_from made i c xs in
    let rest : Listing = running_from made (suc i) c xs in
    if owns c a
    then if made i then running_entry a (description a.manifest a.app) rest else silent
    else skipped

-- `list_running`; the first creation is that of the array
unfoldable pub list_running : (made : ℕ → Bool) → Client → List App → Listing
list_running made c xs = if made 0 then running_from made 1 c xs else silent

-- The result of the loops of `list_installed`, `none` for an undefined run and `some none` for the
-- jump to `fail`.
abbrev pub Collected : Type 0
Collected = Option (Option (List Entry))

abbrev pub collect : Entry → Collected → Collected
collect x none = none
collect x (some none) = some none
collect x (some (some xs)) = some (some (x ∷ xs))

-- The object of an installed application. Of `argc` arguments 64 at most were written; with more, and
-- with -1, the array is read where nothing was written.
unfoldable pub installed_entry : Manifest → Bytes → Filled → Option Bytes → Collected → Collected
installed_entry m a args none rest = none
installed_entry m a args (some descr) rest = elim args.count [
  | none ↦ none
  | some n ↦
      if ltb 64 n
      then none
      else collect
          (record {
            app = print_appid 1024 m a;
            description = descr;
            desktop = text_of (desktop_path m a);
            user = m.usr;
            argv = args.buf;
          })
          rest
]

-- The loop over the names that a manifest lists; `made` is whether the objects can be created, and
-- `after` is what the manifests that follow give.
unfoldable pub names_collected :
    (made : Bool) → Manifest → List Bytes → (after : Collected) → Collected
names_collected made m [] after = after
names_collected made m (a ∷ names) after =
    let rest : Collected = names_collected made m names after in
    if made then installed_entry m a (arguments m a 64) (description m a) rest else some none

-- the test that skips the manifest of another user
abbrev pub hides : Client → Manifest → Bool
hides c m = not (m.usr == 2 ^ 32 - 1) && (not (c.uid == 0) && not (c.uid == m.usr))

-- One manifest of which `iot_manifest_applications` filled `mapps`; -1 makes the loop over the names
-- do nothing.
unfoldable pub manifest_collected :
    (made : Bool) → Manifest → Filled → (after : Collected) → Collected
manifest_collected made m names after = elim names.count [
  | none ↦ after
  | some n ↦ if ltb 64 n then some none else names_collected made m names.buf after
]

-- The loop of `list_installed` over the manifests of the cache.
unfoldable pub installed_from : (made : Bool) → Client → List Manifest → Collected
installed_from made c [] = some (some [])
installed_from made c (m ∷ ms) =
    let rest : Collected = installed_from made c ms in
    if hides c m then rest else manifest_collected made m (applications m 64) rest

unfoldable pub installed_of : Collected → Listing
installed_of none = undefined
installed_of (some none) = refused einval
installed_of (some (some xs)) = listed xs

-- `list_installed`, with the manifests that `iot_manifest_populate_cache` finds, or `none` where it
-- fails.
unfoldable pub list_installed : (made : Bool) → Client → Option (List Manifest) → Listing
list_installed made c none = refused einval
list_installed made c (some ms) =
    if made then installed_of (installed_from made c ms) else refused einval

-- `application_list`, with the field "type" of the request
unfoldable pub application_list :
    Security
    → (made : ℕ → Bool) → Option (List Manifest)
    → List App
    → Client
    → Option Bytes
    → Listing
application_list security made cache xs c none = refused einval
application_list security made cache xs c (some which) =
    if is_allowed (privilege_check security c.label c.uid list_apps_privilege)
    then if same which (codes "running")
      then list_running made c xs
      else if same which (codes "installed")
      then list_installed (made 0) c cache
      else refused einval
    else refused eperm
