-- ===== src/Launcher/Apps/Stopped.antt =====
-- A stop request of src/launcher/daemon/application.c that signals an application keeps the invariant.
use iot_app_fw.Common.{
  ℕ, ◌≡◌, refl, sym, ap, ◌∙◌, Bool, true, false, Option, none, some, List, ◌∷◌, inl, inr, ◌==◌, All,
  arith, eq_of_some, ◌<◌,
}
use iot_app_fw.Launcher.Apps.{
  App, Kill, sigterm, Effect, signals, Daemon, set_app, application_sigterm,
}
use iot_app_fw.Launcher.Apps.Objects.{app_of, Distinct, app_of-set_same, app_of-set_other}
use iot_app_fw.Launcher.Apps.Stores.{All-weaken, All-set, Distinct-set, Below, Below-mono}
use iot_app_fw.Launcher.Apps.Tracked.{Owned, Tracked, kept}

-- The writes of a stop request to the application.
abbrev pub stopping : (pid : ℕ) → Option ℕ → App → App
stopping pid s a = record a { killer = pid; stop = s }

-- The list after the two writes of a stop request, of which the second is that of the timer.
abbrev pub stopped_apps : ℕ → (pid : ℕ) → Option ℕ → List App → List App
stopped_apps i pid s xs =
    set_app i (λ b. record b { stop = s }) (set_app i (λ b. record b { killer = pid }) xs)

pub stopped_apps-other :
    (i j pid : ℕ) (s : Option ℕ) (xs : List App)
    → (i == j) ≡ false
    → app_of i (stopped_apps j pid s xs) ≡ app_of i xs
stopped_apps-other i j pid s xs h =
    app_of-set_other (λ b. record b { stop = s }) i j
      (set_app j (λ b. record b { killer = pid }) xs) (λ b. refl) h
    ∙ app_of-set_other (λ b. record b { killer = pid }) i j xs (λ b. refl) h

pub stopped_apps-same :
    (i pid : ℕ) (s : Option ℕ) (a : App) (xs : List App)
    → app_of i xs ≡ some a
    → app_of i (stopped_apps i pid s xs) ≡ some (stopping pid s a)
stopped_apps-same i pid s a xs h =
    app_of-set_same (λ b. record b { stop = s }) i (record a { killer = pid })
      (set_app i (λ b. record b { killer = pid }) xs) (λ b. refl)
      (app_of-set_same (λ b. record b { killer = pid }) i a xs (λ b. refl) h)

Distinct-stopped :
    (i pid : ℕ) (s : Option ℕ) (xs : List App) → Distinct xs → Distinct (stopped_apps i pid s xs)
Distinct-stopped i pid s xs h =
    Distinct-set (λ b. record b { stop = s }) i (set_app i (λ b. record b { killer = pid }) xs)
      (λ b. refl) (Distinct-set (λ b. record b { killer = pid }) i xs (λ b. refl) h)

Below-stopped :
    (n i pid : ℕ) (s : Option ℕ) (xs : List App) → Below n xs → Below n (stopped_apps i pid s xs)
Below-stopped n i pid s xs h =
    All-set (λ a. a.id < n) (λ b. record b { stop = s }) i
      (set_app i (λ b. record b { killer = pid }) xs) (λ a p. p)
      (All-set (λ a. a.id < n) (λ b. record b { killer = pid }) i xs (λ a p. p) h)

-- No pending timer belongs to an application that nobody asked to stop.
unowned :
    (a : App) (xs : List App) (log : List Effect) (k : Kill)
    → app_of a.id xs ≡ some a
    → (a.killer == 0) ≡ true
    → Owned xs log k
    → (k.app == a.id) ≡ false
unowned a xs log k f z o = at (k.app == a.id) refl
  where
    at : (b : Bool) → (k.app == a.id) ≡ b → b ≡ false
    at true e =
        let i : k.app ≡ a.id = ground (arith, e) in
        let q : o.owner ≡ a = eq_of_some (sym o.tracked ∙ ap (λ j. app_of j xs) i ∙ f) in
        absurd (cc (sym o.stopped ∙ ap (λ x. x.killer == 0) q ∙ z))
    at false e = refl

-- the state that `application_stop` leaves when it signals an application
abbrev pub stopped_daemon : (granted : Bool) → (pid : ℕ) → App → Daemon → Daemon
stopped_daemon granted pid a d =
    application_sigterm granted a
      (record d { apps = set_app a.id (λ b. record b { killer = pid }) d.apps })

pub stopped_daemon-Tracked :
    (granted : Bool) (pid : ℕ) (a : App) (d : Daemon)
    → (pid == 0) ≡ false
    → app_of a.id d.apps ≡ some a
    → (a.killer == 0) ≡ true
    → Tracked d
    → Tracked (stopped_daemon granted pid a d)
unfolding application_sigterm
stopped_daemon-Tracked granted pid a d p f z t = at granted
  where
    log : List Effect
    log = signals a.cgrp sigterm ∷ d.log

    old : (s : Option ℕ) → All (Owned (stopped_apps a.id pid s d.apps) log) d.timers
    old s =
        All-weaken (Owned d.apps d.log) (Owned (stopped_apps a.id pid s d.apps) log) d.timers
          (λ k o.
            kept d.apps (stopped_apps a.id pid s d.apps) d.log log k o
              (stopped_apps-other k.app a.id pid s d.apps (unowned a d.apps d.log k f z o)
                ∙ o.tracked)
              (λ w. inr w))
          t.owned

    at : (g : Bool) → Tracked (stopped_daemon g pid a d)
    at true = record {
      owned = (
        record {
          owner = stopping pid (some d.fresh) a;
          tracked = stopped_apps-same a.id pid (some d.fresh) a d.apps f;
          armed = refl;
          stopped = p;
          placed = refl;
          asked = inl refl;
        },
        old (some d.fresh),
      );
      distinct = Distinct-stopped a.id pid (some d.fresh) d.apps t.distinct;
      below =
          Below-mono d.fresh (stopped_apps a.id pid (some d.fresh) d.apps)
            (Below-stopped d.fresh a.id pid (some d.fresh) d.apps t.below);
      warned = t.warned;
    }
    at false = record {
      owned = old none;
      distinct = Distinct-stopped a.id pid none d.apps t.distinct;
      below = Below-stopped d.fresh a.id pid none d.apps t.below;
      warned = t.warned;
    }
