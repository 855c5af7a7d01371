-- ===== src/Hash/Bindings.antt =====
-- The keys and objects on a bucket's list of a hash table of src/common/hash-table.c, and what its
-- operations are on lists of these.
use mathlib.Core.Path.{subst}
use iot_app_fw.Common.{
  ◌&&◌, ℕ, ◌≡◌, ◌≢◌, refl, sym, ap, ◌∙◌, Bool, true, false, Option, eq_of_some, none, some, List,
  [], ◌∷◌, ◌++◌, ◌==◌, if◌then◌else◌, arith, inl, inr, ◌⊎◌, ==_refl,
}
use iot_app_fw.Hash.{Entry, at_slot, remove}
use iot_app_fw.Hash.Ops.{hash_entry}
use mathlib.Core.Option.{none-ne-some}

abbrev pub In : ℕ → List ℕ → Type 0
In s [] = ⊥
In s (x ∷ xs) = (x ≡ s) ⊎ In s xs

abbrev pub Unique : List ℕ → Type 0
Unique [] = Unit
Unique (x ∷ xs) = ¬ In x xs × Unique xs

-- what the entries of a list bind
abbrev pub binding : (ℕ → Entry) → List ℕ → List (ℕ × ℕ)
binding e [] = []
binding e (s ∷ ss) = ((e s).key, (e s).object) ∷ binding e ss

pub at_slot-ne : (e : ℕ → Entry) (s i : ℕ) (x : Entry) → i ≢ s → at_slot e s x i ≡ e i
at_slot-ne e s i x h = at (i == s) refl
  where
    at : (b : Bool) → (i == s) ≡ b → (if b then x else e i) ≡ e i
    at true k = absurd (h (ground (arith, k)))
    at false k = refl

pub at_slot-eq : (e : ℕ → Entry) (s : ℕ) (x : Entry) → at_slot e s x s ≡ x
at_slot-eq e s x = ap (λ b. if b then x else e s) (==_refl s)

-- An entry that is not on the list does not matter.
pub binding-at_slot :
    (e : ℕ → Entry) (s : ℕ) (x : Entry) (ss : List ℕ)
    → ¬ In s ss
    → binding (at_slot e s x) ss ≡ binding e ss
binding-at_slot e s x [] h = refl
binding-at_slot e s x (i ∷ ss) h =
    ap (λ y. (y.key, y.object) ∷ binding (at_slot e s x) ss) (at_slot-ne e s i x (λ k. h (inl k)))
    ∙ ap (λ l. ((e i).key, (e i).object) ∷ l) (binding-at_slot e s x ss (λ k. h (inr k)))

pub binding-append :
    (e : ℕ → Entry) (ss : List ℕ) (s : ℕ)
    → binding e (ss ++ s ∷ []) ≡ binding e ss ++ ((e s).key, (e s).object) ∷ []
binding-append e [] s = refl
binding-append e (x ∷ ss) s = ap (λ l. ((e x).key, (e x).object) ∷ l) (binding-append e ss s)

pub In-append : (x : ℕ) (ss : List ℕ) (s : ℕ) → In x (ss ++ s ∷ []) → In x ss ⊎ (s ≡ x)
In-append x [] s (inl e) = inr e
In-append x [] s (inr h) = elim h [ ]
In-append x (y ∷ ss) s (inl e) = inl (inl e)
In-append x (y ∷ ss) s (inr h) = elim (In-append x ss s h) [ inl k ↦ inl (inr k) | inr k ↦ inr k ]

pub Unique-append : (ss : List ℕ) (s : ℕ) → ¬ In s ss → Unique ss → Unique (ss ++ s ∷ [])
Unique-append [] s h u = (λ k. k, tt)
Unique-append (x ∷ ss) s h u = (
  λ k. elim (In-append x ss s k) [ inl i ↦ u.0 i | inr e ↦ h (inl (sym e)) ],
  Unique-append ss s (λ k. h (inr k)) u.1,
)

pub In-remove : (x s : ℕ) (ss : List ℕ) → In x (remove s ss) → In x ss
unfolding remove
In-remove x s [] h = elim h [ ]
In-remove x s (y ∷ ss) h = at (y == s) h (In-remove x s ss)
  where
    at :
        (b : Bool)
        → In x (if b then ss else y ∷ remove s ss)
        → (In x (remove s ss) → In x ss)
        → In x (y ∷ ss)
    at true h f = inr h
    at false (inl e) f = inl e
    at false (inr h) f = inr (f h)

pub In-remove_ne : (s : ℕ) (ss : List ℕ) (x : ℕ) → Unique ss → In x (remove s ss) → x ≢ s
unfolding remove
In-remove_ne s [] x u h = elim h [ ]
In-remove_ne s (y ∷ ss) x u h = at (y == s) refl h (In-remove_ne s ss x u.1)
  where
    at :
        (b : Bool)
        → (y == s) ≡ b
        → In x (if b then ss else y ∷ remove s ss)
        → (In x (remove s ss) → x ≢ s)
        → x ≢ s
    at true k h f = λ e. u.0 (subst (λ z. In z ss) (e ∙ same k) h)
      where
        same : (y == s) ≡ true → s ≡ y
        same k = ground (arith, k)
    at false k (inl e) f = ground (arith, k, e)
    at false k (inr h) f = f h

pub Unique-remove : (s : ℕ) (ss : List ℕ) → Unique ss → Unique (remove s ss)
unfolding remove
Unique-remove s [] u = tt
Unique-remove s (y ∷ ss) u = at (y == s) (Unique-remove s ss u.1)
  where
    at : (b : Bool) → Unique (remove s ss) → Unique (if b then ss else y ∷ remove s ss)
    at true v = u.1
    at false v = (λ h. u.0 (In-remove y s ss h), v)

pub remove_absent : (s : ℕ) (ss : List ℕ) → ¬ In s ss → remove s ss ≡ ss
unfolding remove
remove_absent s [] h = refl
remove_absent s (y ∷ ss) h = at (y == s) refl (remove_absent s ss (λ k. h (inr k)))
  where
    at : (b : Bool) → (y == s) ≡ b → remove s ss ≡ ss → (if b then ss else y ∷ remove s ss) ≡ y ∷ ss
    at true k e = absurd (h (inl (ground (arith, k))))
    at false k e = ap (λ l. y ∷ l) e

-- The operations on lists of keys and objects, for a test whether keys are equal: the first object
-- under a key, the list without it, and the list with another key and object in its place.
module _ (equal : ℕ → ℕ → Bool) where
  abbrev pub find_key : ℕ → List (ℕ × ℕ) → Option ℕ
  find_key key [] = none
  find_key key ((k, o) ∷ l) = if equal key k then some o else find_key key l

  abbrev pub erase : ℕ → List (ℕ × ℕ) → List (ℕ × ℕ)
  erase key [] = []
  erase key ((k, o) ∷ l) = if equal key k then l else (k, o) ∷ erase key l

  abbrev pub exchange : ℕ → ℕ → List (ℕ × ℕ) → List (ℕ × ℕ)
  exchange key obj [] = []
  exchange key obj ((k, o) ∷ l) =
      if equal key k then (key, obj) ∷ l else (k, o) ∷ exchange key obj l

-- What `hash_entry` finds on a list, without a cookie.
module _ (hash : ℕ → ℕ) (equal : ℕ → ℕ → Bool) (e : ℕ → Entry) (key : ℕ) where
  abbrev found : List ℕ → Option ℕ
  found ss = hash_entry hash equal e key 0 ss

  found-cons :
      (s : ℕ) (ss : List ℕ) → found (s ∷ ss) ≡ (if equal key (e s).key then some s else found ss)
  unfolding hash_entry
  found-cons s ss = at (equal key (e s).key)
    where
      at : (b : Bool) → (if b && true then some s else found ss) ≡ (if b then some s else found ss)
      at true = refl
      at false = refl

  pub found-none : (ss : List ℕ) → found ss ≡ none → find_key equal key (binding e ss) ≡ none
  found-none [] h = refl
  found-none (s ∷ ss) h = at (equal key (e s).key) (sym (found-cons s ss) ∙ h) (found-none ss)
    where
      at :
          (b : Bool)
          → (if b then some s else found ss) ≡ none
          → (found ss ≡ none → find_key equal key (binding e ss) ≡ none)
          → (if b then some (e s).object else find_key equal key (binding e ss)) ≡ none
      at true h f = absurd (none-ne-some s (sym h))
      at false h f = f h

  pub found-In : (s : ℕ) (ss : List ℕ) → found ss ≡ some s → In s ss
  unfolding hash_entry
  found-In s [] h = absurd (none-ne-some s h)
  found-In s (x ∷ ss) h = at (equal key (e x).key) (sym (found-cons x ss) ∙ h) (found-In s ss)
    where
      at :
          (b : Bool)
          → (if b then some x else found ss) ≡ some s
          → (found ss ≡ some s → In s ss)
          → In s (x ∷ ss)
      at true h f = inl (eq_of_some h)
      at false h f = inr (f h)

  pub found-find_key :
      (s : ℕ) (ss : List ℕ)
      → found ss ≡ some s
      → find_key equal key (binding e ss) ≡ some (e s).object
  unfolding hash_entry
  found-find_key s [] h = absurd (none-ne-some s h)
  found-find_key s (x ∷ ss) h =
      at (equal key (e x).key) (sym (found-cons x ss) ∙ h) (found-find_key s ss)
    where
      at :
          (b : Bool)
          → (if b then some x else found ss) ≡ some s
          → (found ss ≡ some s → find_key equal key (binding e ss) ≡ some (e s).object)
          → (if b then some (e x).object else find_key equal key (binding e ss)) ≡ some (e s).object
      at true h f = ap (λ i. some (e i).object) (eq_of_some h)
      at false h f = f h

  pub found-erase :
      (s : ℕ) (y : Entry) (ss : List ℕ)
      → Unique ss
      → found ss ≡ some s
      → binding (at_slot e s y) (remove s ss) ≡ erase equal key (binding e ss)
  unfolding hash_entry remove
  found-erase s y [] u h = absurd (none-ne-some s h)
  found-erase s y (x ∷ ss) u h =
      at (equal key (e x).key) (sym (found-cons x ss) ∙ h) (found-erase s y ss u.1)
    where
      at :
          (b : Bool)
          → (if b then some x else found ss) ≡ some s
          → (found ss ≡ some s
              → binding (at_slot e s y) (remove s ss) ≡ erase equal key (binding e ss))
          → binding (at_slot e s y) (if x == s then ss else x ∷ remove s ss) ≡ (
              if b
              then binding e ss
              else ((e x).key, (e x).object) ∷ erase equal key (binding e ss))
      at true h f =
          ap (λ b. binding (at_slot e s y) (if b then ss else x ∷ remove s ss))
            (ap (λ i. x == i) (sym (eq_of_some h)) ∙ ==_refl x)
          ∙ binding-at_slot e s y ss (λ k. u.0 (subst (λ i. In i ss) (sym (eq_of_some h)) k))
      at false h f =
          ap (λ b. binding (at_slot e s y) (if b then ss else x ∷ remove s ss))
            (other (λ k. u.0 (subst (λ i. In i ss) (sym k) (found-In s ss h))))
          ∙ ap (λ z. (z.key, z.object) ∷ binding (at_slot e s y) (remove s ss))
              (at_slot-ne e s x y (λ k. u.0 (subst (λ i. In i ss) (sym k) (found-In s ss h))))
          ∙ ap (λ l. ((e x).key, (e x).object) ∷ l) (f h)
        where
          other : x ≢ s → (x == s) ≡ false
          other k = ground (arith, k)

  pub found-exchange :
      (s obj : ℕ) (ss : List ℕ)
      → Unique ss
      → found ss ≡ some s
      → binding (at_slot e s (record (e s) { key = key; object = obj })) ss
        ≡ exchange equal key obj (binding e ss)
  unfolding hash_entry
  found-exchange s obj [] u h = absurd (none-ne-some s h)
  found-exchange s obj (x ∷ ss) u h =
      at (equal key (e x).key) (sym (found-cons x ss) ∙ h) (found-exchange s obj ss u.1)
    where
      y : Entry
      y = record (e s) { key = key; object = obj }

      at :
          (b : Bool)
          → (if b then some x else found ss) ≡ some s
          → (found ss ≡ some s → binding (at_slot e s y) ss ≡ exchange equal key obj (binding e ss))
          → binding (at_slot e s y) (x ∷ ss) ≡ (
              if b
              then (key, obj) ∷ binding e ss
              else ((e x).key, (e x).object) ∷ exchange equal key obj (binding e ss))
      at true h f =
          ap (λ z. (z.key, z.object) ∷ binding (at_slot e s y) ss)
            (ap (at_slot e s y) (eq_of_some h) ∙ at_slot-eq e s y)
          ∙ ap (λ l. (key, obj) ∷ l)
              (binding-at_slot e s y ss (λ k. u.0 (subst (λ i. In i ss) (sym (eq_of_some h)) k)))
      at false h f =
          ap (λ z. (z.key, z.object) ∷ binding (at_slot e s y) ss)
            (at_slot-ne e s x y (λ k. u.0 (subst (λ i. In i ss) (sym k) (found-In s ss h))))
          ∙ ap (λ l. ((e x).key, (e x).object) ∷ l) (f h)
