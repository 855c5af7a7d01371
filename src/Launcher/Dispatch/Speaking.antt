-- ===== src/Launcher/Dispatch/Speaking.antt =====
-- src/launcher/daemon: where nothing that a handler creates is refused, it gives a reply.
use mathlib.Core.Path.{subst}
use iot_app_fw.Common.{
  ℕ, suc, ◌≡◌, refl, sym, ap, Bool, true, false, Option, none, some, List, [], ◌∷◌, Bytes, codes,
  same, ◌==◌, if◌then◌else◌,
}
use iot_app_fw.AppId.{Outcome, parse}
use iot_app_fw.Manifest.{Manifest, description}
use iot_app_fw.Launcher.{Client, signalled, error, ebusy, einval, eperm}
use iot_app_fw.Launcher.Privilege.{Security, is_allowed, privilege_check, list_apps_privilege}
use iot_app_fw.Launcher.Events as Events
use iot_app_fw.Launcher.Apps as Apps
use iot_app_fw.Launcher.Apps.Setup as Setup
use iot_app_fw.Launcher.Apps.Listing as Listing
use iot_app_fw.Launcher.Subscribe as Subscribe
use iot_app_fw.Launcher.Dispatch.{
  Object, World, Host, env_of, Result, gives, undefined, of_handled, of_listing, of_route,
  of_subscribed, Handler, setup, cleanup, list, stop, send_event, subscribe_events, call,
}

-- Every allocation of a setup succeeds.
abbrev pub full : Setup.Memory
full = record { object = true; copies = true; path = true }

abbrev pub AreStrings : List (Option Bytes) → Type 0
AreStrings [] = Unit
AreStrings (none ∷ xs) = ⊥
AreStrings (some x ∷ xs) = AreStrings xs

-- The arguments of a request are strings, if there are any.
abbrev pub Strings : Option (List (Option Bytes)) → Type 0
Strings none = Unit
Strings (some xs) = AreStrings xs

-- A reply is given.
abbrev pub Speaks : Result → Type 0
Speaks (gives none w) = ⊥
Speaks (gives (some a) w) = Unit
Speaks undefined = Unit

-- The same of the results of the applications' part.
abbrev Says : Apps.Handled → Type 0
Says (Apps.Handled.replies s d) = Unit
Says (Apps.Handled.silent d) = ⊥
Says Apps.Handled.undefined = Unit

Says-if : (b : Bool) (x y : Apps.Handled) → Says x → Says y → Says (if b then x else y)
Says-if true x y p q = p
Says-if false x y p q = q

copy_arguments-strings :
    (xs : List (Option Bytes))
    → AreStrings xs
    → (ss : List Bytes) × (Setup.copy_arguments xs ≡ some ss)
unfolding Setup.copy_arguments
copy_arguments-strings [] a = ([], refl)
copy_arguments-strings (none ∷ xs) a = absurd a
copy_arguments-strings (some x ∷ xs) a =
    let r = copy_arguments-strings xs a in (x ∷ r.0, ap (Setup.push x) (r.1))

setup_copied-Says :
    (e : Apps.Env) (c : Client) (f : Setup.SetupFields) (m : Manifest) (d : Apps.Daemon)
    (ss : List Bytes)
    → Says (Setup.setup_copied e full c f m d (some ss))
unfolding Setup.setup_copied Setup.setup_dir Setup.setup_hooks
setup_copied-Says e c f m d [] = tt
setup_copied-Says e c f m d (s ∷ ss) =
    let a = Setup.new_app c f m (s ∷ ss) d in at a (e.mkdir a.uid (Setup.base_name s) a.pid)
  where
    at : (a : Apps.App) (o : Option Bytes) → Says (Setup.setup_dir e full a d o)
    at a none = tt
    at a (some dir) =
        let b = record a { cgrp = dir } in
        Says-if (Apps.hook_trigger e.hooks b Apps.startup) _ _ tt tt

application_setup-Says :
    (e : Apps.Env) (c : Client) (q : Setup.SetupRequest) (d : Apps.Daemon)
    → Strings q.exec
    → Says (Setup.application_setup e full c q d)
unfolding Setup.application_setup Setup.fields_of Setup.setup_fields Setup.setup_read
application_setup-Says e c q d = at q.manifest q.app q.user q.group q.exec
  where
    read :
        (f : Setup.SetupFields) (o : Option Manifest)
        → AreStrings f.exec
        → Says (Setup.setup_read e full c f d o)
    read f none a = tt
    read f (some m) a =
        let r = copy_arguments-strings f.exec a in
        subst (λ x. Says (Setup.setup_copied e full c f m d x)) (sym (r.1))
          (setup_copied-Says e c f m d (r.0))

    at :
        (m a : Option Bytes) (u g : Option ℕ) (x : Option (List (Option Bytes)))
        → Strings x
        → Says (
            Setup.application_setup e full c
              (record { manifest = m; app = a; user = u; group = g; exec = x })
              d)
    at none a u g x s = tt
    at (some m) none u g x s = tt
    at (some m) (some a) none g x s = tt
    at (some m) (some a) (some u) none x s = tt
    at (some m) (some a) (some u) (some g) none s = tt
    at (some m) (some a) (some u) (some g) (some x) s =
        read (record { manifest = m; app = a; user = u; group = g; exec = x }) (e.read m) s

application_cleanup-Says :
    (made : Bool) (e : Apps.Env) (cgrp : Option Bytes) (d : Apps.Daemon)
    → Says (Apps.application_cleanup made e cgrp d)
unfolding Apps.application_cleanup
application_cleanup-Says made e none d = tt
application_cleanup-Says made e (some []) d = tt
application_cleanup-Says made e (some (x ∷ cgrp)) d = tt

application_stop-Says :
    (granted : Bool) (c : Client) (app : Option Bytes) (d : Apps.Daemon)
    → Says (Apps.application_stop granted c app d)
unfolding Apps.application_stop Apps.stop_parsed Apps.stop_found
application_stop-Says granted c none d = tt
application_stop-Says granted c (some appid) d = parsed (parse appid none (some 128) (some 128))
  where
    found : (o : Option Apps.App) → Says (Apps.stop_found granted c d o)
    found none = tt
    found (some a) =
        Says-if (a.killer == 0)
          (Apps.Handled.replies signalled (
            Apps.application_sigterm granted a
              (record d { apps = Apps.set_app a.id (λ b. record b { killer = c.pid }) d.apps })))
          (Apps.Handled.replies (error ebusy) d) tt tt

    parsed : (o : Outcome) → Says (Apps.stop_parsed granted c d o)
    parsed o =
        let a =
          Apps.find_app c (Apps.text_of o.bufs.pkg_text) (Apps.text_of o.bufs.app_text) d.apps in
        Says-if o.ok (Apps.stop_found granted c d a) (Apps.Handled.replies (error einval) d)
          (found a) tt

-- The same of a list.
abbrev Lists : Listing.Listing → Type 0
Lists (Listing.listed es) = Unit
Lists (Listing.refused e) = Unit
Lists Listing.silent = ⊥
Lists Listing.undefined = Unit

Lists-if : (b : Bool) (x y : Listing.Listing) → Lists x → Lists y → Lists (if b then x else y)
Lists-if true x y p q = p
Lists-if false x y p q = q

Lists-add_entry :
    (x : Listing.Entry) (l : Listing.Listing) → Lists l → Lists (Listing.add_entry x l)
Lists-add_entry x (Listing.listed es) p = tt
Lists-add_entry x (Listing.refused e) p = tt
Lists-add_entry x Listing.silent p = p
Lists-add_entry x Listing.undefined p = tt

running_entry-Lists :
    (a : Apps.App) (descr : Option Bytes) (rest : Listing.Listing)
    → Lists rest
    → Lists (Listing.running_entry a descr rest)
unfolding Listing.running_entry
running_entry-Lists a none rest p = tt
running_entry-Lists a (some descr) rest p = Lists-add_entry _ rest p

running_from-Lists :
    (made : ℕ → Bool) (i : ℕ) (c : Client) (xs : List Apps.App)
    → ((j : ℕ) → made j ≡ true)
    → Lists (Listing.running_from made i c xs)
unfolding Listing.running_from
running_from-Lists made i c [] g = tt
running_from-Lists made i c (a ∷ xs) g =
    Lists-if (Apps.owns c a) _ _
      (subst
        (λ b. Lists (
          if b
          then Listing.running_entry a (description a.manifest a.app)
              (Listing.running_from made (suc i) c xs)
          else Listing.silent))
        (sym (g i))
        (running_entry-Lists a (description a.manifest a.app)
          (Listing.running_from made (suc i) c xs) (running_from-Lists made (suc i) c xs g)))
      (running_from-Lists made i c xs g)

application_list-Lists :
    (s : Security) (made : ℕ → Bool) (cache : Option (List Manifest)) (xs : List Apps.App)
    (c : Client) (which : Option Bytes)
    → ((j : ℕ) → made j ≡ true)
    → Lists (Listing.application_list s made cache xs c which)
unfolding Listing.application_list Listing.list_running Listing.list_installed Listing.installed_of
application_list-Lists s made cache xs c none g = tt
application_list-Lists s made cache xs c (some which) g =
    let other =
      if same which (codes "installed")
      then Listing.list_installed (made 0) c cache
      else Listing.refused einval in
    let granted = if same which (codes "running") then Listing.list_running made c xs else other in
    Lists-if (is_allowed (privilege_check s c.label c.uid list_apps_privilege)) granted
      (Listing.refused eperm)
      (Lists-if (same which (codes "running")) (Listing.list_running made c xs) other running (
        Lists-if (same which (codes "installed")) (Listing.list_installed (made 0) c cache)
          (Listing.refused einval) (installed cache) tt))
      tt
  where
    running : Lists (Listing.list_running made c xs)
    running =
        subst (λ b. Lists (if b then Listing.running_from made 1 c xs else Listing.silent))
          (sym (g 0)) (running_from-Lists made 1 c xs g)

    collected : (x : Listing.Collected) → Lists (Listing.installed_of x)
    collected none = tt
    collected (some none) = tt
    collected (some (some xs)) = tt

    installed : (o : Option (List Manifest)) → Lists (Listing.list_installed (made 0) c o)
    installed none = tt
    installed (some ms) =
        Lists-if (made 0) (Listing.installed_of (Listing.installed_from (made 0) c ms))
          (Listing.refused einval) (collected (Listing.installed_from (made 0) c ms)) tt

Speaks-of_handled : (w : World) (x : Apps.Handled) → Says x → Speaks (of_handled w x)
unfolding of_handled
Speaks-of_handled w (Apps.Handled.replies s d) p = tt
Speaks-of_handled w (Apps.Handled.silent d) p = p
Speaks-of_handled w Apps.Handled.undefined p = tt

Speaks-of_listing : (w : World) (x : Listing.Listing) → Lists x → Speaks (of_listing w x)
unfolding of_listing
Speaks-of_listing w (Listing.listed es) p = tt
Speaks-of_listing w (Listing.refused e) p = tt
Speaks-of_listing w Listing.silent p = p
Speaks-of_listing w Listing.undefined p = tt

Speaks-of_route : (w : World) (x : Events.Answer Bytes) → Speaks (of_route w x)
unfolding of_route
Speaks-of_route w none = tt
Speaks-of_route w (some (s, ss)) = tt

Speaks-of_subscribed :
    (c : Client) (w : World) (x : Subscribe.Subscribed) → Speaks (of_subscribed c w x)
unfolding of_subscribed
Speaks-of_subscribed c w (Subscribe.subscribed s m r) = tt
Speaks-of_subscribed c w Subscribe.undefined = tt

pub Speaks-call :
    (h : Host) (f : Handler) (c : Client) (o : Object) (w : World)
    → h.memory ≡ full
    → ((i : ℕ) → h.listing i ≡ true)
    → (f ≡ setup → Strings o.setup.exec)
    → Speaks (call h f c o w)
unfolding call
Speaks-call h setup c o w m l s = Speaks-of_handled w _ (
    subst (λ x. Says (Setup.application_setup (env_of h w) x c o.setup w.daemon)) (sym m)
      (application_setup-Says (env_of h w) c o.setup w.daemon (s refl)))
Speaks-call h cleanup c o w m l s =
    Speaks-of_handled w _ (application_cleanup-Says h.made (env_of h w) o.cgroup w.daemon)
Speaks-call h list c o w m l s =
    Speaks-of_listing w _
      (application_list-Lists h.security h.listing h.cache w.daemon.apps c o.which l)
Speaks-call h stop c o w m l s =
    Speaks-of_handled w _ (application_stop-Says h.timer c o.app w.daemon)
Speaks-call h send_event c o w m l s =
    Speaks-of_route w (Events.event_route h.security h.made w.registry w.clients c o.send)
Speaks-call h subscribe_events c o w m l s =
    Speaks-of_subscribed c w (Subscribe.client_subscribe h.granted h.room c w.registry o.events)
