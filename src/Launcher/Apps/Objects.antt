-- ===== src/Launcher/Apps/Objects.antt =====
-- The list of tracked applications of src/launcher/daemon/application.c as a store of objects: what a
-- lookup by name finds after a write, an append and a deletion.
use iot_app_fw.Common.{
  ℕ, ◌≡◌, refl, sym, ap, ◌∙◌, Bool, true, false, Option, none, some, List, [], ◌∷◌, ◌++◌, ◌⊎◌, inl,
  inr, ◌==◌, ==_refl, if◌then◌else◌, All, arith, eq_of_some,
}
use iot_app_fw.Launcher.Apps.{App, set_app, del_app}

-- The first application with a name.
unfoldable pub app_of : ℕ → List App → Option App
app_of i [] = none
app_of i (a ∷ xs) = let rest : Option App = app_of i xs in if a.id == i then some a else rest

-- No application of a list has the name.
abbrev pub Unused : ℕ → List App → Type 0
Unused i = All (λ a. (a.id == i) ≡ false)

-- No two applications have the same name.
abbrev pub Distinct : List App → Type 0
Distinct [] = Unit
Distinct (a ∷ xs) = Unused a.id xs × Distinct xs

abbrev pub In : App → List App → Type 0
In a [] = ⊥
In a (x ∷ xs) = (a ≡ x) ⊎ In a xs

Unused-In : (a : App) (i : ℕ) (xs : List App) → Unused i xs → In a xs → (a.id == i) ≡ false
Unused-In a i [] u h = elim h [ ]
Unused-In a i (x ∷ xs) (e, u) (inl h) = ap (λ y. y.id == i) h ∙ e
Unused-In a i (x ∷ xs) (e, u) (inr h) = Unused-In a i xs u h

swapped : (i j : ℕ) → (i == j) ≡ false → (j == i) ≡ false
swapped i j h = ground arith

pub In-app_of : (a : App) (xs : List App) → Distinct xs → In a xs → app_of a.id xs ≡ some a
unfolding app_of
In-app_of a [] d h = elim h [ ]
In-app_of a (x ∷ xs) (u, d) (inl h) = rw (sym h, ==_refl a.id) refl
In-app_of a (x ∷ xs) (u, d) (inr h) =
    rw (swapped a.id x.id (Unused-In a x.id xs u h)) (In-app_of a xs d h)

pub In-of_app_of : (i : ℕ) (a : App) (xs : List App) → app_of i xs ≡ some a → In a xs × (a.id ≡ i)
unfolding app_of
In-of_app_of i a [] h = absurd (cc)
In-of_app_of i a (x ∷ xs) h = at (x.id == i) refl (In-of_app_of i a xs) h
  where
    at :
        (b : Bool)
        → (x.id == i) ≡ b
        → (app_of i xs ≡ some a → In a xs × (a.id ≡ i))
        → (if b then some x else app_of i xs) ≡ some a
        → In a (x ∷ xs) × (a.id ≡ i)
    at true e k h =
        (inl (sym (eq_of_some h)), ap (λ y. y.id) (sym (eq_of_some h)) ∙ ground (arith, e))
    at false e k h = (inr (k h).0, (k h).1)

-- A write that keeps the name.
abbrev pub Named : (App → App) → Type 0
Named f = (a : App) → (f a).id ≡ a.id

pub app_of-set_same :
    (f : App → App) (i : ℕ) (a : App) (xs : List App)
    → Named f
    → app_of i xs ≡ some a
    → app_of i (set_app i f xs) ≡ some (f a)
unfolding app_of set_app
app_of-set_same f i a [] n h = absurd (cc)
app_of-set_same f i a (x ∷ xs) n h = at (x.id == i) refl (app_of-set_same f i a xs n) h
  where
    at :
        (b : Bool)
        → (x.id == i) ≡ b
        → (app_of i xs ≡ some a → app_of i (set_app i f xs) ≡ some (f a))
        → (if b then some x else app_of i xs) ≡ some a
        → app_of i (if b then f x ∷ xs else x ∷ set_app i f xs) ≡ some (f a)
    at true e k h =
        ap (λ j. if j == i then some (f x) else app_of i xs) (n x)
        ∙ ap (λ b. if b then some (f x) else app_of i xs) e
        ∙ ap (λ y. some (f y)) (eq_of_some h)
    at false e k h = ap (λ b. if b then some x else app_of i (set_app i f xs)) e ∙ k h

pub app_of-set_other :
    (f : App → App) (i j : ℕ) (xs : List App)
    → Named f
    → (i == j) ≡ false
    → app_of i (set_app j f xs) ≡ app_of i xs
unfolding app_of set_app
app_of-set_other f i j [] n h = refl
app_of-set_other f i j (x ∷ xs) n h = at (x.id == j) refl (app_of-set_other f i j xs n h)
  where
    at :
        (b : Bool)
        → (x.id == j) ≡ b
        → app_of i (set_app j f xs) ≡ app_of i xs
        → app_of i (if b then f x ∷ xs else x ∷ set_app j f xs)
          ≡ (if x.id == i then some x else app_of i xs)
    at true e k =
        let ne : (x.id == i) ≡ false = ground arith in
        ap (λ q. if q == i then some (f x) else app_of i xs) (n x)
        ∙ ap (λ b. if b then some (f x) else app_of i xs) ne
        ∙ sym (ap (λ b. if b then some x else app_of i xs) ne)
    at false e k = ap (λ r. if x.id == i then some x else r) k

pub app_of-del_other :
    (i j : ℕ) (xs : List App) → (i == j) ≡ false → app_of i (del_app j xs) ≡ app_of i xs
unfolding app_of del_app
app_of-del_other i j [] h = refl
app_of-del_other i j (x ∷ xs) h = at (x.id == j) refl (app_of-del_other i j xs h)
  where
    at :
        (b : Bool)
        → (x.id == j) ≡ b
        → app_of i (del_app j xs) ≡ app_of i xs
        → app_of i (if b then xs else x ∷ del_app j xs)
          ≡ (if x.id == i then some x else app_of i xs)
    at true e k =
        let ne : (x.id == i) ≡ false = ground arith in
        sym (ap (λ b. if b then some x else app_of i xs) ne)
    at false e k = ap (λ r. if x.id == i then some x else r) k

pub app_of-append :
    (i : ℕ) (a b : App) (xs : List App) → app_of i xs ≡ some a → app_of i (xs ++ b ∷ []) ≡ some a
unfolding app_of
app_of-append i a b [] h = absurd (cc)
app_of-append i a b (x ∷ xs) h = at (x.id == i) (app_of-append i a b xs) h
  where
    at :
        (t : Bool)
        → (app_of i xs ≡ some a → app_of i (xs ++ b ∷ []) ≡ some a)
        → (if t then some x else app_of i xs) ≡ some a
        → (if t then some x else app_of i (xs ++ b ∷ [])) ≡ some a
    at true k h = h
    at false k h = k h
