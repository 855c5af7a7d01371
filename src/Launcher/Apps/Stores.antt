-- ===== src/Launcher/Apps/Stores.antt =====
-- Properties of all the tracked applications of src/launcher/daemon/application.c that a write, an
-- append and a deletion keep, and what the two searches find.
use iot_app_fw.Common.{
  ℕ, ◌≡◌, refl, sym, ap, ◌∙◌, Bool, true, false, some, List, [], ◌∷◌, ◌++◌, Bytes, same, same→eq,
  inl, inr, ◌==◌, if◌then◌else◌, All, arith, eq_of_some, ◌<◌, ◌+◌,
}
use iot_app_fw.Launcher.{Client}
use iot_app_fw.Launcher.Apps.{
  App, set_app, del_app, find_app, application_for_cgroup, owns, is_named,
}
use iot_app_fw.Launcher.Apps.Objects.{Unused, Distinct, In, Named}

pub All-append :
    {A : Type 0} (P : A → Type 0) (xs : List A) (y : A) → All P xs → P y → All P (xs ++ y ∷ [])
All-append P [] y h p = (p, tt)
All-append P (x ∷ xs) y (q, h) p = (q, All-append P xs y h p)

pub All-weaken :
    {A : Type 0} (P Q : A → Type 0) (xs : List A) → ((x : A) → P x → Q x) → All P xs → All Q xs
All-weaken P Q [] f h = tt
All-weaken P Q (x ∷ xs) f (p, h) = (f x p, All-weaken P Q xs f h)

pub All-set :
    (P : App → Type 0) (f : App → App) (i : ℕ) (xs : List App)
    → ((a : App) → P a → P (f a))
    → All P xs
    → All P (set_app i f xs)
unfolding set_app
All-set P f i [] k h = tt
All-set P f i (x ∷ xs) k (p, h) = at (x.id == i) (All-set P f i xs k h)
  where
    at : (b : Bool) → All P (set_app i f xs) → All P (if b then f x ∷ xs else x ∷ set_app i f xs)
    at true r = (k x p, h)
    at false r = (p, r)

pub All-del : (P : App → Type 0) (i : ℕ) (xs : List App) → All P xs → All P (del_app i xs)
unfolding del_app
All-del P i [] h = tt
All-del P i (x ∷ xs) (p, h) = at (x.id == i) (All-del P i xs h)
  where
    at : (b : Bool) → All P (del_app i xs) → All P (if b then xs else x ∷ del_app i xs)
    at true r = h
    at false r = (p, r)

pub Distinct-set :
    (f : App → App) (i : ℕ) (xs : List App) → Named f → Distinct xs → Distinct (set_app i f xs)
unfolding set_app
Distinct-set f i [] n h = tt
Distinct-set f i (x ∷ xs) n (u, h) = at (x.id == i) (Distinct-set f i xs n h)
  where
    at :
        (b : Bool)
        → Distinct (set_app i f xs)
        → Distinct (if b then f x ∷ xs else x ∷ set_app i f xs)
    at true r = (
      All-weaken (λ a. (a.id == x.id) ≡ false) (λ a. (a.id == (f x).id) ≡ false) xs
          (λ a e. ap (λ j. a.id == j) (n x) ∙ e) u,
      h,
    )
    at false r =
        (All-set (λ a. (a.id == x.id) ≡ false) f i xs (λ a e. ap (λ j. j == x.id) (n a) ∙ e) u, r)

pub Distinct-del : (i : ℕ) (xs : List App) → Distinct xs → Distinct (del_app i xs)
unfolding del_app
Distinct-del i [] h = tt
Distinct-del i (x ∷ xs) (u, h) = at (x.id == i) (Distinct-del i xs h)
  where
    at : (b : Bool) → Distinct (del_app i xs) → Distinct (if b then xs else x ∷ del_app i xs)
    at true r = h
    at false r = (All-del (λ a. (a.id == x.id) ≡ false) i xs u, r)

-- The names in use are below a bound.
abbrev pub Below : ℕ → List App → Type 0
Below n = All (λ a. a.id < n)

pub Below-mono : (n : ℕ) (xs : List App) → Below n xs → Below (n + 1) xs
Below-mono n xs h = All-weaken (λ a. a.id < n) (λ a. a.id < n + 1) xs (λ a p. omega (arith, p)) h

pub Unused-Below : (n : ℕ) (xs : List App) → Below n xs → Unused n xs
Unused-Below n xs h =
    All-weaken (λ a. a.id < n) (λ a. (a.id == n) ≡ false) xs (λ a p. ground (arith, p)) h

pub Distinct-append :
    (n : ℕ) (a : App) (xs : List App)
    → a.id ≡ n
    → Below n xs
    → Distinct xs
    → Distinct (xs ++ a ∷ [])
Distinct-append n a [] e b h = (tt, tt)
Distinct-append n a (x ∷ xs) e (p, b) (u, h) = (
  All-append (λ y. (y.id == x.id) ≡ false) xs a u (ground (arith, e, p)),
  Distinct-append n a xs e b h,
)

pub Unused-del : (i : ℕ) (xs : List App) → Distinct xs → Unused i (del_app i xs)
unfolding del_app
Unused-del i [] d = tt
Unused-del i (x ∷ xs) (u, d) = at (x.id == i) refl (Unused-del i xs d)
  where
    at :
        (b : Bool)
        → (x.id == i) ≡ b
        → Unused i (del_app i xs)
        → Unused i (if b then xs else x ∷ del_app i xs)
    at true e r =
        let q : x.id ≡ i = ground arith in
        All-weaken (λ a. (a.id == x.id) ≡ false) (λ a. (a.id == i) ≡ false) xs
          (λ a h. ap (λ j. a.id == j) (sym q) ∙ h) u
    at false e r = (e, r)

-- What the search of `application_stop` finds.
pub record Stoppable (c : Client) (pkg id : Bytes) (xs : List App) (a : App) : Type 0 where
  pub tracked : In a xs
  pub owned : owns c a ≡ true
  pub named : is_named pkg id a ≡ true

pub Stoppable-find_app :
    (c : Client) (pkg id : Bytes) (xs : List App) (a : App)
    → find_app c pkg id xs ≡ some a
    → Stoppable c pkg id xs a
unfolding find_app
Stoppable-find_app c pkg id [] a h = absurd (cc)
Stoppable-find_app c pkg id (x ∷ xs) a h =
    at (owns c x) refl (is_named pkg id x) refl (λ e. later (Stoppable-find_app c pkg id xs a e)) h
  where
    later : Stoppable c pkg id xs a → Stoppable c pkg id (x ∷ xs) a
    later s = record { tracked = inr s.tracked; owned = s.owned; named = s.named }

    at :
        (o : Bool)
        → owns c x ≡ o
        → (n : Bool) → is_named pkg id x ≡ n
        → (find_app c pkg id xs ≡ some a → Stoppable c pkg id (x ∷ xs) a)
        → (if o then if n then some x else find_app c pkg id xs else find_app c pkg id xs) ≡ some a
        → Stoppable c pkg id (x ∷ xs) a
    at true eo true en k h =
        let e : x ≡ a = eq_of_some h in
        record {
          tracked = inl (sym e);
          owned = ap (owns c) (sym e) ∙ eo;
          named = ap (is_named pkg id) (sym e) ∙ en;
        }
    at true eo false en k h = k h
    at false eo n en k h = k h

pub In-application_for_cgroup :
    (g : Bytes) (xs : List App) (a : App)
    → application_for_cgroup g xs ≡ some a
    → In a xs × (a.cgrp ≡ g)
unfolding application_for_cgroup
In-application_for_cgroup g [] a h = absurd (cc)
In-application_for_cgroup g (x ∷ xs) a h =
    at (same x.cgrp g) refl (In-application_for_cgroup g xs a) h
  where
    at :
        (b : Bool)
        → same x.cgrp g ≡ b
        → (application_for_cgroup g xs ≡ some a → In a xs × (a.cgrp ≡ g))
        → (if b then some x else application_for_cgroup g xs) ≡ some a
        → In a (x ∷ xs) × (a.cgrp ≡ g)
    at true e k h =
        let q : x ≡ a = eq_of_some h in (inl (sym q), ap (λ y. y.cgrp) (sym q) ∙ same→eq x.cgrp g e)
    at false e k h = (inr (k h).0, (k h).1)
