-- ===== src/Launcher/Apps/Sparing.antt =====
-- What a stop request of src/launcher/daemon/application.c may do to the applications of other users.
use iot_app_fw.Common.{
  ℕ, ◌≡◌, refl, sym, ap, ◌∙◌, Bool, true, false, Option, none, some, ◌∷◌, Bytes, ◌⊎◌, inl, inr,
  ◌==◌, if◌then◌else◌, arith, eq_of_some,
}
use iot_app_fw.AppId.{Outcome, parse}
use iot_app_fw.Launcher.{Client, signalled, error, einval, ebusy}
use iot_app_fw.Launcher.Apps.{
  App, sigterm, signals, Daemon, Handled, replies, silent, undefined, owns, find_app, stop_found,
  stop_parsed, application_stop, application_sigterm, text_of,
}
use iot_app_fw.Launcher.Apps.Objects.{app_of, Distinct, In, In-app_of}
use iot_app_fw.Launcher.Apps.Stores.{Stoppable-find_app}
use iot_app_fw.Launcher.Apps.Stopped.{stopped_daemon, stopped_apps, stopped_apps-other}

-- A reply is given, the applications that the client may not stop are as before, and at most one
-- signal was sent: a SIGTERM to the cgroup of an application that the client may stop.
abbrev pub Spares : Client → Daemon → Handled → Type 0
Spares c d (replies s d') =
    ((b : App) → In b d.apps → owns c b ≡ false → app_of b.id d'.apps ≡ some b)
    × ((d'.log ≡ d.log)
        ⊎ ((a : App) × In a d.apps × (owns c a ≡ true) × (d'.log ≡ signals a.cgrp sigterm ∷ d.log)))
Spares c d (silent d') = ⊥
Spares c d undefined = ⊥

unchanged : (c : Client) (d : Daemon) → Distinct d.apps → Spares c d (replies signalled d)
unchanged c d u = (λ b h o. In-app_of b d.apps u h, inl refl)

-- Two tracked applications of which the client may stop one have different names.
apart :
    (c : Client) (d : Daemon) (a b : App)
    → Distinct d.apps
    → In a d.apps
    → owns c a ≡ true
    → In b d.apps
    → owns c b ≡ false
    → (b.id == a.id) ≡ false
apart c d a b u ha oa hb ob = at (b.id == a.id) refl
  where
    at : (t : Bool) → (b.id == a.id) ≡ t → t ≡ false
    at true e =
        let i : b.id ≡ a.id = ground (arith, e) in
        let q : b ≡ a =
          eq_of_some (
            sym (In-app_of b d.apps u hb)
            ∙ ap (λ j. app_of j d.apps) i
            ∙ In-app_of a d.apps u ha) in
        absurd (cc (sym ob ∙ ap (owns c) q ∙ oa))
    at false e = refl

stopped-Spares :
    (granted : Bool) (c : Client) (a : App) (d : Daemon)
    → Distinct d.apps
    → In a d.apps
    → owns c a ≡ true
    → Spares c d (replies signalled (stopped_daemon granted c.pid a d))
unfolding application_sigterm
stopped-Spares granted c a d u h o = at granted
  where
    others :
        (s : Option ℕ) (b : App)
        → In b d.apps
        → owns c b ≡ false
        → app_of b.id (stopped_apps a.id c.pid s d.apps) ≡ some b
    others s b hb ob =
        stopped_apps-other b.id a.id c.pid s d.apps (apart c d a b u h o hb ob)
        ∙ In-app_of b d.apps u hb

    at : (g : Bool) → Spares c d (replies signalled (stopped_daemon g c.pid a d))
    at true = (others (some d.fresh), inr (a, h, o, refl))
    at false = (others none, inr (a, h, o, refl))

-- For every stop request to a launcher whose applications are distinct objects: it is answered, each
-- application of another user is left as it was (unless the client is root), and at most one SIGTERM is
-- sent, to the cgroup of an application which the client may stop.
pub application_stop-Spares :
    (granted : Bool) (c : Client) (appid : Option Bytes) (d : Daemon)
    → Distinct d.apps
    → Spares c d (application_stop granted c appid d)
unfolding application_stop stop_parsed stop_found
application_stop-Spares granted c none d u = unchanged c d u
application_stop-Spares granted c (some s) d u = parsed (parse s none (some 128) (some 128))
  where
    found :
        (o : Option App)
        → ((a : App) → o ≡ some a → In a d.apps × (owns c a ≡ true))
        → Spares c d (stop_found granted c d o)
    found none k = unchanged c d u
    found (some a) k = go (a.killer == 0)
      where
        go :
            (b : Bool)
            → Spares c d (
                if b
                then replies signalled (stopped_daemon granted c.pid a d)
                else replies (error ebusy) d)
        go true = stopped-Spares granted c a d u (k a refl).0 (k a refl).1
        go false = unchanged c d u

    parsed : (o : Outcome) → Spares c d (stop_parsed granted c d o)
    parsed o =
        let pkg : Bytes = text_of o.bufs.pkg_text in
        let id : Bytes = text_of o.bufs.app_text in
        at o.ok (stop_found granted c d (find_app c pkg id d.apps)) (
          found (find_app c pkg id d.apps)
            (λ a e. let r = Stoppable-find_app c pkg id d.apps a e in (r.tracked, r.owned)))
      where
        at :
            (b : Bool) (h : Handled)
            → Spares c d h
            → Spares c d (if b then h else replies (error einval) d)
        at true h r = r
        at false h r = unchanged c d u
