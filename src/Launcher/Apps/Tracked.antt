-- ===== src/Launcher/Apps/Tracked.antt =====
-- The tracked applications of src/launcher/daemon/application.c and their kill timers: the invariant
-- that the handlers and the timers keep.
use iot_app_fw.Common.{
  ℕ, ◌≡◌, refl, sym, ap, ◌∙◌, Bool, true, false, Option, none, some, List, [], ◌∷◌, ◌++◌, Bytes,
  ◌⊎◌, inr, ◌==◌, if◌then◌else◌, All, arith, eq_of_some, ◌<◌, ◌+◌, map, ◌≢◌,
}
use iot_app_fw.Launcher.Events.{Sent}
use iot_app_fw.Launcher.Apps.{
  App, Kill, sigterm, sigkill, Effect, signals, sends, removes, Daemon, del_app, del_timer,
  application_sigkill,
}
use iot_app_fw.Launcher.Apps.Setup.{tracking}
use iot_app_fw.Launcher.Apps.Objects.{app_of, Distinct, app_of-del_other, app_of-append}
use iot_app_fw.Launcher.Apps.Stores.{
  All-append, All-weaken, All-del, Distinct-del, Below, Below-mono, Distinct-append,
}

-- The cgroup was sent SIGTERM.
abbrev pub Asked : Bytes → List Effect → Type 0
Asked g [] = ⊥
Asked g (e ∷ log) = (e ≡ signals g sigterm) ⊎ Asked g log

-- Every SIGKILL follows a SIGTERM to the same cgroup.
abbrev pub Warned : List Effect → Type 0
Warned [] = Unit
Warned (signals g sigkill ∷ log) = Asked g log × Warned log
Warned (signals g sigterm ∷ log) = Warned log
Warned (sends s ∷ log) = Warned log
Warned (removes g ∷ log) = Warned log

-- A pending timer's application is tracked, a client asked to stop it, its field holds that very timer,
-- and its processes were sent SIGTERM.
pub record Owned (xs : List App) (log : List Effect) (k : Kill) : Type 0 where
  pub owner : App
  pub tracked : app_of k.app xs ≡ some owner
  pub armed : owner.stop ≡ some k.handle
  pub stopped : (owner.killer == 0) ≡ false
  pub placed : owner.cgrp ≡ k.cgrp
  pub asked : Asked k.cgrp log

pub record Tracked (d : Daemon) : Type 0 where
  pub owned : All (Owned d.apps d.log) d.timers
  pub distinct : Distinct d.apps
  pub below : Below d.fresh d.apps
  pub warned : Warned d.log

-- A log that has grown by effects without SIGKILL.
pub Asked-events :
    (g : Bytes) (ss : List (Sent Bytes)) (log : List Effect)
    → Asked g log
    → Asked g (map sends ss ++ log)
Asked-events g [] log h = h
Asked-events g (s ∷ ss) log h = inr (Asked-events g ss log h)

Warned-events :
    (ss : List (Sent Bytes)) (log : List Effect) → Warned log → Warned (map sends ss ++ log)
Warned-events [] log h = h
Warned-events (s ∷ ss) log h = Warned-events ss log h

-- The timers stay owned where the applications they belong to are found as before.
pub kept :
    (xs ys : List App) (l m : List Effect) (k : Kill) (o : Owned xs l k)
    → app_of k.app ys ≡ some o.owner
    → (Asked k.cgrp l → Asked k.cgrp m)
    → Owned ys m k
kept xs ys l m k o e w = record {
  owner = o.owner;
  tracked = e;
  armed = o.armed;
  stopped = o.stopped;
  placed = o.placed;
  asked = w o.asked;
}

pub tracking-Tracked : (a : App) (d : Daemon) → a.id ≡ d.fresh → Tracked d → Tracked (tracking a d)
tracking-Tracked a d e t = record {
  owned =
      All-weaken (Owned d.apps d.log) (Owned (d.apps ++ a ∷ []) d.log) d.timers
        (λ k o.
          kept d.apps (d.apps ++ a ∷ []) d.log d.log k o
            (app_of-append k.app o.owner a d.apps o.tracked) (λ w. w))
        t.owned;
  distinct = Distinct-append d.fresh a d.apps e t.below t.distinct;
  below =
      All-append (λ x. x.id < d.fresh + 1) d.apps a (Below-mono d.fresh d.apps t.below)
        (omega (arith, e));
  warned = t.warned;
}

pub application_sigkill-Tracked :
    (k : Kill) (d : Daemon) → Asked k.cgrp d.log → Tracked d → Tracked (application_sigkill k d)
unfolding application_sigkill
application_sigkill-Tracked k d w t = record {
  owned =
      All-weaken (Owned d.apps d.log) (Owned d.apps (signals k.cgrp sigkill ∷ d.log)) d.timers
        (λ j o.
          kept d.apps d.apps d.log (signals k.cgrp sigkill ∷ d.log) j o o.tracked (λ h. inr h))
        t.owned;
  distinct = t.distinct;
  below = t.below;
  warned = (w, t.warned);
}

-- the state that `application_cleanup` leaves when an application has the cgroup
abbrev pub ended_daemon : Bytes → List (Sent Bytes) → App → Daemon → Daemon
ended_daemon g ss a d = record d {
  apps = del_app a.id d.apps;
  timers = del_timer a.stop d.timers;
  log = removes g ∷ (map sends ss ++ d.log);
}

-- A timer that is left belongs to another application.
pub survivors :
    (a : App) (xs : List App) (log : List Effect) (ks : List Kill)
    → app_of a.id xs ≡ some a
    → All (Owned xs log) ks
    → All (λ k. Owned xs log k × ((k.app == a.id) ≡ false)) (del_timer a.stop ks)
unfolding del_timer
survivors a xs log ks f h = at a.stop refl ks h
  where
    other :
        (s : Option ℕ)
        → a.stop ≡ s
        → (k : Kill) → (s ≢ some k.handle)
        → Owned xs log k
        → (k.app == a.id) ≡ false
    other s e k n o = to (k.app == a.id) refl
      where
        to : (b : Bool) → (k.app == a.id) ≡ b → b ≡ false
        to true g =
            let i : k.app ≡ a.id = ground (arith, g) in
            let q : o.owner ≡ a = eq_of_some (sym o.tracked ∙ ap (λ j. app_of j xs) i ∙ f) in
            absurd (n (sym e ∙ ap (λ x. x.stop) (sym q) ∙ o.armed))
        to false g = refl

    at :
        (s : Option ℕ)
        → a.stop ≡ s
        → (js : List Kill) → All (Owned xs log) js
        → All (λ k. Owned xs log k × ((k.app == a.id) ≡ false)) (del_timer s js)
    at none e [] u = tt
    at none e (j ∷ js) (o, u) = ((o, other none e j (λ x. cc) o), at none e js u)
    at (some s) e [] u = tt
    at (some s) e (j ∷ js) (o, u) = go (j.handle == s) refl (at (some s) e js u)
      where
        go :
            (b : Bool)
            → (j.handle == s) ≡ b
            → All (λ k. Owned xs log k × ((k.app == a.id) ≡ false)) (del_timer (some s) js)
            → All
                (λ k. Owned xs log k × ((k.app == a.id) ≡ false))
                (if b then del_timer (some s) js else j ∷ del_timer (some s) js)
        go true g r = r
        go false g r =
            ((o, other (some s) e j (λ x. absurd (ground (arith, g, eq_of_some x))) o), r)

pub ended_daemon-Tracked :
    (g : Bytes) (ss : List (Sent Bytes)) (a : App) (d : Daemon)
    → app_of a.id d.apps ≡ some a
    → Tracked d
    → Tracked (ended_daemon g ss a d)
ended_daemon-Tracked g ss a d f t = record {
  owned =
      All-weaken (λ k. Owned d.apps d.log k × ((k.app == a.id) ≡ false))
        (Owned (del_app a.id d.apps) (removes g ∷ (map sends ss ++ d.log)))
        (del_timer a.stop d.timers)
        (λ k (o, n).
          kept d.apps (del_app a.id d.apps) d.log (removes g ∷ (map sends ss ++ d.log)) k o
            (app_of-del_other k.app a.id d.apps n ∙ o.tracked)
            (λ w. inr (Asked-events k.cgrp ss d.log w)))
        (survivors a d.apps d.log d.timers f t.owned);
  distinct = Distinct-del a.id d.apps t.distinct;
  below = All-del (λ x. x.id < d.fresh) a.id d.apps t.below;
  warned = Warned-events ss d.log t.warned;
}
