-- ===== src/Requests/Delivery.antt =====
-- The library of src/app/app.c and the launcher of src/launcher/daemon together: whom an event reaches
-- that an application sends, and which applications it sees listed.
use mathlib.Core.Path.{subst}
use iot_app_fw.Common.{
  ℕ, ◌≡◌, ◌≢◌, refl, sym, ap, ◌∙◌, Bool, true, false, none, some, List, [], ◌∷◌, Bytes, ◌==◌, not,
  ◌&&◌, ◌||◌, if◌then◌else◌, map, All, arith,
}
use iot_app_fw.Mask.{test}
use iot_app_fw.Launcher.{Client, ok, no_uid, no_gid, no_pid}
use iot_app_fw.Launcher.Privilege.{Security, is_allowed, privilege_check, send_event_privilege}
use iot_app_fw.Launcher.Events.{
  Registry, found, event_lookup, message, Target, target_of, fits, event_route, or_else,
}
use iot_app_fw.Launcher.Events.Route.{audience, event_route-audience}
use iot_app_fw.Launcher.Apps.{App}
use iot_app_fw.Launcher.Apps.Stores.{All-weaken}
use iot_app_fw.Launcher.Apps.Stopping.{Runs, AllRun, AllRun-list_running, All-In}
use iot_app_fw.Launcher.Apps.Listing.{Entry, listed, list_running}
use iot_app_fw.Requests.{Info}
use iot_app_fw.Requests.Replies.{
  WireFields, wire_fields, strings_of, Extracted, extracted, extract_argv, extract_fields, is_last,
  extract_from, extract_applist, consed, add_info,
}
use iot_app_fw.Requests.Messages.{send_payload, wire_entry}
use iot_app_fw.Requests as Library

-- The clients that an application means by a target, of those that subscribed to the event.
abbrev pub recipients : (id : ℕ) → (user process : ℕ) → List Client → List Client
recipients id user process [] = []
recipients id user process (c ∷ cs) =
    if test c.mask id
      && ((user == no_uid || user == c.uid) && (process == no_pid || process == c.pid))
    then c ∷ recipients id user process cs
    else recipients id user process cs

abbrev meant : (user process : ℕ) → Target
meant user process = record { uid = user; gid = no_gid; pid = process }

fits-meant :
    (user process : ℕ) (c : Client)
    → fits (meant user process) c
      ≡ ((user == no_uid || user == c.uid) && (process == no_pid || process == c.pid))
unfolding fits
fits-meant user process c = refl

audience-meant :
    (id user process : ℕ) (cs : List Client)
    → audience id (meant user process) cs ≡ recipients id user process cs
audience-meant id user process [] = refl
audience-meant id user process (c ∷ cs) =
    ap
      (λ b.
        if test c.mask id && b
        then c ∷ audience id (meant user process) cs
        else audience id (meant user process) cs)
      (fits-meant user process c)
    ∙ ap
        (λ t.
          if test c.mask id
            && ((user == no_uid || user == c.uid) && (process == no_pid || process == c.pid))
          then c ∷ t
          else t)
        (audience-meant id user process cs)

written : (n d : ℕ) → or_else (if not (n == d) then some n else none) d ≡ n
written n d = at (n == d) refl
  where
    at : (b : Bool) → (n == d) ≡ b → or_else (if not b then some n else none) d ≡ n
    at true e = ground (arith, e)
    at false e = refl

target_of-send_payload :
    (event d : Bytes) (t : Library.Target)
    → target_of (send_payload event (some d) t) ≡ meant t.user t.process
unfolding target_of send_payload
target_of-send_payload event d t =
    ap
      (λ n. record {
        uid = n;
        gid = no_gid;
        pid = or_else (if not (t.process == no_pid) then some t.process else none) no_pid;
      })
      (written t.user no_uid)
    ∙ ap (λ n. meant t.user n) (written t.process no_pid)

-- Where the launcher grants the application the privilege and knows the event, an event that an
-- application sends with data to a target is sent once, with this data, to each client that subscribed
-- to the event and has the target's user (-1 stands for every user) and process (0 stands for every
-- process), in the order of the clients, and to no other; and the reply is OK. The label, the
-- application and the binary of the target select nobody: the launcher does not look at them. The
-- message is one that can be created.
pub send_payload-recipients :
    (security : Security) (r : Registry) (clients : List Client) (c : Client) (event d : Bytes)
    (t : Library.Target) (id : ℕ)
    → event_lookup event r ≡ found id
    → is_allowed (privilege_check security c.label c.uid send_event_privilege) ≡ true
    → event_route security true r clients c (send_payload event (some d) t)
      ≡ some (ok, map (λ x. message x event d) (recipients id t.user t.process clients))
unfolding send_payload
send_payload-recipients security r clients c event d t id known allowed =
    event_route-audience security r clients c (send_payload event (some d) t) event id d refl known
      allowed refl
    ∙ ap (λ k. some (ok, map (λ x. message x event d) (audience id k clients)))
        (target_of-send_payload event d t)
    ∙ ap (λ xs. some (ok, map (λ x. message x event d) xs))
        (audience-meant id t.user t.process clients)

-- What the library reads of an entry.
abbrev pub info_of : Entry → Info
info_of x = record {
  appid = x.app;
  description = x.description;
  desktop = x.desktop;
  user = x.user;
  argv = x.argv;
}

strings_of-some : (ss : List Bytes) → strings_of (map some ss) ≡ some ss
unfolding strings_of
strings_of-some [] = refl
strings_of-some (s ∷ ss) = ap (consed s) (strings_of-some ss)

extract_argv-Entry :
    (left : ℕ) (f : WireFields) (last : Bool) (argv : List Bytes) (rest : Extracted)
    → argv ≢ []
    → extract_argv left f last (some argv) rest
      ≡ add_info
          (record {
            appid = f.app;
            description = f.description;
            desktop = f.desktop;
            user = f.user;
            argv = argv;
          })
          rest
unfolding extract_argv
extract_argv-Entry left f last [] rest h = absurd (h refl)
extract_argv-Entry left f last (a ∷ argv) rest h = refl

extract_from-wire :
    (left : ℕ) (es : List Entry)
    → All (λ x. x.argv ≢ []) es
    → extract_from left (map wire_entry es) ≡ extracted (map info_of es)
unfolding extract_from extract_fields wire_fields wire_entry
extract_from-wire left [] h = refl
extract_from-wire left (x ∷ xs) (h, hs) =
    let f : WireFields = record {
      app = x.app;
      description = x.description;
      desktop = x.desktop;
      user = x.user;
      argv = map some x.argv;
    } in
    let last : Bool = is_last (map wire_entry xs) in
    ap (extract_fields left last (some f)) (extract_from-wire left xs hs)
    ∙ ap (λ o. extract_argv left f last o (extracted (map info_of xs))) (strings_of-some x.argv)
    ∙ extract_argv-Entry left f last x.argv (extracted (map info_of xs)) h

-- Every application was started with some argument.
abbrev pub Started : List App → Type 0
Started = All (λ a. a.argv ≢ [])

-- Where the tracked applications have an argument list that is not empty, an application that asks for
-- the running applications and gets a list reads of it exactly the entries that the launcher listed.
pub list_running-extracted :
    (left : ℕ) (made : ℕ → Bool) (c : Client) (xs : List App) (es : List Entry)
    → Started xs
    → list_running made c xs ≡ listed es
    → extract_applist left (some (map wire_entry es)) ≡ extracted (map info_of es)
unfolding extract_applist
list_running-extracted left made c xs es h l =
    let runs : All (Runs c xs) es = subst (AllRun c xs) l (AllRun-list_running made c xs) in
    extract_from-wire left es (
      All-weaken (Runs c xs) (λ x. x.argv ≢ []) es
        (λ x r e. All-In (λ a. a.argv ≢ []) r.source xs h r.tracked (sym r.started ∙ e)) runs)
