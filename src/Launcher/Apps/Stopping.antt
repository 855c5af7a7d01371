-- ===== src/Launcher/Apps/Stopping.antt =====
-- A client that lists the running applications of src/launcher/daemon/application.c and asks to stop
-- one of them by the identifier in the list.
use mathlib.Core.Path.{subst}
use iot_app_fw.Common.{
  ℕ, zero, suc, get_elem?, ◌-◌, ◌<◌, ◌≤◌, ◌≡◌, refl, sym, ap, ◌∙◌, Bool, true, false, Option, none,
  some, List, [], ◌∷◌, ◌++◌, Bytes, inl, inr, ◌==◌, ◌&&◌, if◌then◌else◌, All, arith, eq_of_some,
  same, same→eq, same_refl, length, length-append, take_all,
}
use iot_app_fw.AppId.{colon, parse}
use iot_app_fw.AppId.Parse.{NoColon, locate_two}
use iot_app_fw.AppId.Buffers.{parse-stored}
use iot_app_fw.Manifest.{description, desktop_path}
use iot_app_fw.Launcher.{Client, ebusy, signalled, error}
use iot_app_fw.Launcher.Apps.{
  App, Daemon, replies, owns, is_named, find_app, stop_found, stop_parsed, application_stop,
  print_appid, text_of,
}
use iot_app_fw.Launcher.Apps.Objects.{In}
use iot_app_fw.Launcher.Apps.Stores.{Stoppable-find_app, All-weaken}
use iot_app_fw.Launcher.Apps.Stopped.{stopped_daemon}
use iot_app_fw.Launcher.Apps.Listing.{
  Entry, Listing, listed, refused, silent, undefined, add_entry, running_entry, running_from,
  list_running,
}

-- Names that `iot_appid_parse` can tell apart in the buffers of `application_stop`.
pub record Plain (a : App) : Type 0 where
  pub pkg_clean : NoColon a.manifest.pkg
  pub app_clean : NoColon a.app
  pub pkg_short : length a.manifest.pkg < 128
  pub app_short : length a.app < 128

print_appid-Plain :
    (size : ℕ) (a : App)
    → 256 ≤ size
    → Plain a
    → print_appid size a.manifest a.app ≡ a.manifest.pkg ++ colon ∷ a.app
print_appid-Plain size a h p =
    take_all (size - 1) (a.manifest.pkg ++ colon ∷ a.app)
      (omega (arith, h, length-append a.manifest.pkg (colon ∷ a.app), p.pkg_short, p.app_short))

parse-Plain :
    (a : App)
    → Plain a
    → parse (a.manifest.pkg ++ colon ∷ a.app) none (some 128) (some 128) ≡ record {
      ok = true;
      bufs = record { usr_text = none; pkg_text = some a.manifest.pkg; app_text = some a.app };
    }
parse-Plain a p =
    parse-stored (a.manifest.pkg ++ colon ∷ a.app) none a.manifest.pkg a.app
      (locate_two a.manifest.pkg a.app p.pkg_clean p.app_clean) none (some 128) (some 128) tt
      (omega arith) (omega arith) tt p.pkg_short p.app_short

-- What a listed entry says of the applications.
pub record Runs (c : Client) (xs : List App) (x : Entry) : Type 0 where
  pub source : App
  pub tracked : In source xs
  pub visible : owns c source ≡ true
  pub labelled : x.app ≡ print_appid 1024 source.manifest source.app
  pub started : x.argv ≡ source.argv

Runs-later : (c : Client) (a : App) (xs : List App) (x : Entry) → Runs c xs x → Runs c (a ∷ xs) x
Runs-later c a xs x r = record {
  source = r.source;
  tracked = inr r.tracked;
  visible = r.visible;
  labelled = r.labelled;
  started = r.started;
}

-- Each entry of a listing is one of a tracked application.
abbrev pub AllRun : Client → List App → Listing → Type 0
AllRun c xs (listed es) = All (Runs c xs) es
AllRun c xs (refused e) = Unit
AllRun c xs silent = Unit
AllRun c xs undefined = Unit

AllRun-later :
    (c : Client) (a : App) (xs : List App) (l : Listing) → AllRun c xs l → AllRun c (a ∷ xs) l
AllRun-later c a xs (listed es) h =
    All-weaken (Runs c xs) (Runs c (a ∷ xs)) es (Runs-later c a xs) h
AllRun-later c a xs (refused e) h = tt
AllRun-later c a xs silent h = tt
AllRun-later c a xs undefined h = tt

AllRun-add :
    (c : Client) (xs : List App) (x : Entry) (l : Listing)
    → Runs c xs x
    → AllRun c xs l
    → AllRun c xs (add_entry x l)
AllRun-add c xs x (listed es) r h = (r, h)
AllRun-add c xs x (refused e) r h = tt
AllRun-add c xs x silent r h = tt
AllRun-add c xs x undefined r h = tt

running_from-AllRun :
    (made : ℕ → Bool) (i : ℕ) (c : Client) (xs : List App) → AllRun c xs (running_from made i c xs)
unfolding running_from running_entry
running_from-AllRun made i c [] = tt
running_from-AllRun made i c (a ∷ xs) =
    at (owns c a) refl (made i) (AllRun-later c a xs skipped (running_from-AllRun made i c xs))
      (AllRun-later c a xs rest (running_from-AllRun made (suc i) c xs))
  where
    skipped : Listing
    skipped = running_from made i c xs

    rest : Listing
    rest = running_from made (suc i) c xs

    entry :
        owns c a ≡ true
        → (o : Option Bytes) → AllRun c (a ∷ xs) rest
        → AllRun c (a ∷ xs) (running_entry a o rest)
    entry e none h = tt
    entry e (some descr) h =
        let x : Entry = record {
          app = print_appid 1024 a.manifest a.app;
          description = descr;
          desktop = text_of (desktop_path a.manifest a.app);
          user = a.uid;
          argv = a.argv;
        } in
        AllRun-add c (a ∷ xs) x rest
          (record { source = a; tracked = inl refl; visible = e; labelled = refl; started = refl })
          h

    at :
        (o : Bool)
        → owns c a ≡ o
        → (m : Bool) → AllRun c (a ∷ xs) skipped
        → AllRun c (a ∷ xs) rest
        → AllRun c (a ∷ xs) (
            if o
            then if m then running_entry a (description a.manifest a.app) rest else silent
            else skipped)
    at true e true s r = entry e (description a.manifest a.app) r
    at true e false s r = tt
    at false e m s r = s

-- The search finds an application where one is there.
find_app-finds :
    (c : Client) (a : App) (xs : List App)
    → In a xs
    → owns c a ≡ true
    → (b : App) × (find_app c a.manifest.pkg a.app xs ≡ some b)
unfolding find_app
find_app-finds c a [] h o = elim h [ ]
find_app-finds c a (x ∷ xs) (inl e) o = (
  x,
  ap
        (λ y.
          if owns c y
          then if is_named a.manifest.pkg a.app y
            then some x
            else find_app c a.manifest.pkg a.app xs
          else find_app c a.manifest.pkg a.app xs)
        (sym e)
      ∙ rw (o, same_refl a.manifest.pkg, same_refl a.app) refl,
)
find_app-finds c a (x ∷ xs) (inr h) o =
    at (owns c x) (is_named a.manifest.pkg a.app x) (find_app-finds c a xs h o)
  where
    rest : Option App
    rest = find_app c a.manifest.pkg a.app xs

    at :
        (p q : Bool)
        → (b : App) × (rest ≡ some b)
        → (b : App) × ((if p then if q then some x else rest else rest) ≡ some b)
    at true true r = (x, refl)
    at true false r = r
    at false q r = r

-- The answer to a stop request with the identifier of a tracked application of the client's user, or
-- of any user where the client is root: the first such application is signalled, unless somebody asked
-- to stop it before.
pub record Stops (granted : Bool) (c : Client) (appid : Bytes) (d : Daemon) : Type 0 where
  pub target : App
  pub tracked : In target d.apps
  pub permitted : owns c target ≡ true
  pub identified : target.manifest.pkg ++ colon ∷ target.app ≡ appid
  pub answered : application_stop granted c (some appid) d ≡ (
      if target.killer == 0
      then replies signalled (stopped_daemon granted c.pid target d)
      else replies (error ebusy) d)

both : (p q : Bool) → (p && q) ≡ true → (p ≡ true) × (q ≡ true)
both true q h = (refl, h)
both false q h = absurd (cc)

same_appid :
    (a b : App)
    → is_named a.manifest.pkg a.app b ≡ true
    → b.manifest.pkg ++ colon ∷ b.app ≡ a.manifest.pkg ++ colon ∷ a.app
same_appid a b h =
    let (p, q) = both (same b.manifest.pkg a.manifest.pkg) (same b.app a.app) h in
    ap (λ s. s ++ colon ∷ b.app) (same→eq b.manifest.pkg a.manifest.pkg p)
    ∙ ap (λ s. a.manifest.pkg ++ colon ∷ s) (same→eq b.app a.app q)

pub Stops-tracked :
    (granted : Bool) (c : Client) (d : Daemon) (a : App)
    → In a d.apps
    → owns c a ≡ true
    → Plain a
    → Stops granted c (a.manifest.pkg ++ colon ∷ a.app) d
unfolding application_stop stop_parsed stop_found
Stops-tracked granted c d a h o p =
    let (b, e) = find_app-finds c a d.apps h o in
    let s = Stoppable-find_app c a.manifest.pkg a.app d.apps b e in
    record {
      target = b;
      tracked = s.tracked;
      permitted = s.owned;
      identified = same_appid a b s.named;
      answered = ap (stop_parsed granted c d) (parse-Plain a p) ∙ ap (stop_found granted c d) e;
    }

pub All-In : (P : App → Type 0) (a : App) (xs : List App) → All P xs → In a xs → P a
All-In P a [] h i = elim i [ ]
All-In P a (x ∷ xs) (p, h) (inl e) = subst P (sym e) p
All-In P a (x ∷ xs) (p, h) (inr i) = All-In P a xs h i

All-get :
    {A : Type 0} (P : A → Type 0) (i : ℕ) (x : A) (xs : List A)
    → get_elem? xs i ≡ some x
    → All P xs
    → P x
All-get P i x [] e h = absurd (cc)
All-get P zero x (y ∷ ys) e (p, h) = subst P (eq_of_some e) p
All-get P (suc i) x (y ∷ ys) e (p, h) = All-get P i x ys e h

pub AllRun-list_running :
    (made : ℕ → Bool) (c : Client) (xs : List App) → AllRun c xs (list_running made c xs)
unfolding list_running
AllRun-list_running made c xs = at (made 0)
  where
    at : (b : Bool) → AllRun c xs (if b then running_from made 1 c xs else silent)
    at true = running_from-AllRun made 1 c xs
    at false = tt

-- Where the names of the tracked applications have no colon and fewer than 128 bytes, a client that
-- lists the running applications can stop each one by the identifier it is listed with: the request
-- finds an application with that identifier which the client may stop, and signals it, unless a
-- client asked to stop it before, in which case the reply is `EBUSY`.
pub list_running-Stops :
    (granted : Bool) (made : ℕ → Bool) (c : Client) (d : Daemon) (es : List Entry) (i : ℕ)
    (x : Entry)
    → All Plain d.apps
    → list_running made c d.apps ≡ listed es
    → get_elem? es i ≡ some x
    → Stops granted c x.app d
list_running-Stops granted made c d es i x p l e =
    let h : All (Runs c d.apps) es =
      subst (AllRun c d.apps) l (AllRun-list_running made c d.apps) in
    let r = All-get (Runs c d.apps) i x es e h in
    let q = All-In Plain r.source d.apps p r.tracked in
    subst (λ s. Stops granted c s d)
      (sym (r.labelled ∙ print_appid-Plain 1024 r.source (omega arith) q))
      (Stops-tracked granted c d r.source r.tracked r.visible q)
