-- ===== src/Launcher/Events/Names.antt =====
-- The event registry of src/launcher/daemon/event.c: ids and names are one to one, and stay so.
use mathlib.Core.Path.{subst}
use iot_app_fw.Common.{
  ℕ, suc, ◌+◌, ◌≤◌, ◌<◌, ◌≡◌, ◌≢◌, refl, sym, ap, ◌∙◌, Bool, true, false, Option, none, some, List,
  [], ◌∷◌, ◌++◌, inl, inr, arith, Bytes, same, same→eq, same_refl, leb, lt→leb, if◌then◌else◌,
  length, length-append, Bool-cases, eq_of_some,
}
use iot_app_fw.Launcher.{enoent}
use iot_app_fw.Launcher.Events.{
  Event, Registry, max_events, find_name, find_id, Found, found, missing, add_event, event_id_at,
  event_id, event_lookup, event_register, event_name,
}

-- the entries' ids count up from `k`
abbrev pub Numbered : ℕ → List Event → Type 0
Numbered k [] = Unit
Numbered k (e ∷ es) = (e.id ≡ k) × Numbered (suc k) es

-- no name stands in two entries
abbrev pub Distinct : List Event → Type 0
Distinct [] = Unit
Distinct (e ∷ es) = (find_name e.name es ≡ none) × Distinct es

-- A registry as `event_id` makes it from the empty one.
pub record IsRegistry (r : Registry) : Type 0 where
  pub numbered : Numbered 0 r.events
  pub distinct : Distinct r.events
  pub counted : length r.events ≡ r.nevent
  pub bounded : r.nevent ≤ max_events

abbrev pub no_events : Registry
no_events = record { events = []; nevent = 0 }

find_name-range :
    (k : ℕ) (es : List Event) (n : Bytes) (i : ℕ)
    → Numbered k es
    → find_name n es ≡ some i
    → (k ≤ i) × (i < k + length es)
unfolding find_name
find_name-range k [] n i h e = absurd (cc)
find_name-range k (x ∷ es) n i h e = elim (Bool-cases (same x.name n)) [
  | inl t ↦ let at : x.id ≡ i = ground arith in (omega (arith, h.0), omega (arith, h.0))
  | inr t ↦
      let (lo, hi) = find_name-range (suc k) es n i h.1 (ground arith) in (omega arith, omega arith)
]

-- Searching by the id that the search by name gave leads back to the name.
find_id-find_name :
    (k : ℕ) (es : List Event) (n : Bytes) (i : ℕ)
    → Numbered k es
    → find_name n es ≡ some i
    → find_id i es ≡ some n
unfolding find_name find_id
find_id-find_name k [] n i h e = absurd (cc)
find_id-find_name k (x ∷ es) n i h e = elim (Bool-cases (same x.name n)) [
  | inl t ↦ ground (arith, same→eq x.name n)
  | inr t ↦
      let later : find_name n es ≡ some i = ground arith in
      let (lo, hi) = find_name-range (suc k) es n i h.1 later in
      ground (arith, find_id-find_name (suc k) es n i h.1)
]

find_name-append :
    (es : List Event) (e : Event) (n : Bytes)
    → find_name n (es ++ e ∷ []) ≡ (elim (find_name n es) [
      | some i ↦ some i
      | none ↦ if same e.name n then some e.id else none
    ])
unfolding find_name
find_name-append [] e n = refl
find_name-append (x ∷ es) e n = ground (arith, find_name-append es e n)

Numbered-append :
    (k : ℕ) (es : List Event) (e : Event)
    → Numbered k es
    → e.id ≡ k + length es
    → Numbered k (es ++ e ∷ [])
Numbered-append k [] e h a = (omega arith, tt)
Numbered-append k (x ∷ es) e h a = (h.0, Numbered-append (suc k) es e h.1 (omega arith))

Distinct-append :
    (es : List Event) (e : Event)
    → Distinct es
    → find_name e.name es ≡ none
    → Distinct (es ++ e ∷ [])
unfolding find_name
Distinct-append [] e d h = (refl, tt)
Distinct-append (x ∷ es) e d h =
    let other : same e.name x.name ≡ false =
      ground (arith, same→eq e.name x.name, same_refl x.name) in
    (
      find_name-append es e x.name ∙ ground (arith, other, d.0),
      Distinct-append es e d.1 (ground arith),
    )

abbrev extended : Registry → Bytes → Registry
extended r n = record {
  events = r.events ++ record { name = n; id = r.nevent } ∷ [];
  nevent = r.nevent + 1;
}

extended-IsRegistry :
    (r : Registry) (n : Bytes)
    → IsRegistry r
    → find_name n r.events ≡ none
    → r.nevent < max_events
    → IsRegistry (extended r n)
extended-IsRegistry r n v e h = record {
  numbered = Numbered-append 0 r.events _ v.numbered (omega (arith, v.counted));
  distinct = Distinct-append r.events _ v.distinct e;
  counted = length-append r.events _ ∙ omega (arith, v.counted);
  bounded = omega arith;
}

-- What holds of a registration of `n` that gave the id `i` and the registry `r'`.
pub record Registered (r r' : Registry) (n : Bytes) (i : ℕ) : Type 0 where
  pub valid : IsRegistry r'
  pub known : event_lookup n r' ≡ found i
  pub named : event_name i r' ≡ some n
  pub kept : (m : Bytes) (j : ℕ) → event_lookup m r ≡ found j → event_lookup m r' ≡ found j
  pub others : (m : Bytes) → m ≢ n → event_lookup m r' ≡ event_lookup m r

lookup_at : Option ℕ → Found
lookup_at none = missing enoent
lookup_at (some i) = found i

lookup-find : (n : Bytes) (r : Registry) → event_lookup n r ≡ lookup_at (find_name n r.events)
unfolding event_lookup event_id event_id_at add_event lookup_at
lookup-find n r = ground arith

name-find :
    (r : Registry) (n : Bytes) (i : ℕ)
    → IsRegistry r
    → find_name n r.events ≡ some i
    → event_name i r ≡ some n
unfolding event_name
name-find r n i v e =
    let (lo, hi) = find_name-range 0 r.events n i v.numbered e in
    let low : leb r.nevent i ≡ false = lt→leb r.nevent i (omega (arith, v.counted)) in
    rw low (find_id-find_name 0 r.events n i v.numbered e)

old-Registered :
    (r : Registry) (n : Bytes) (i : ℕ)
    → IsRegistry r
    → find_name n r.events ≡ some i
    → Registered r r n i
unfolding lookup_at
old-Registered r n i v e = record {
  valid = v;
  known = lookup-find n r ∙ ap lookup_at e;
  named = name-find r n i v e;
  kept = λ m j h. h;
  others = λ m h. refl;
}

new-Registered :
    (r : Registry) (n : Bytes)
    → IsRegistry r
    → find_name n r.events ≡ none
    → r.nevent < max_events
    → Registered r (extended r n) n r.nevent
unfolding lookup_at
new-Registered r n v e h =
    let valid = extended-IsRegistry r n v e h in
    let added = λ (m : Bytes). find_name-append r.events (record { name = n; id = r.nevent }) m in
    let here : find_name n (extended r n).events ≡ some r.nevent =
      added n ∙ ground (arith, e, same_refl n) in
    record {
      valid = valid;
      known = lookup-find n (extended r n) ∙ ap lookup_at here;
      named = name-find (extended r n) n r.nevent valid here;
      kept = λ m j l.
          lookup-find m (extended r n)
          ∙ ap lookup_at (added m)
          ∙ ground (arith, sym (lookup-find m r) ∙ l);
      others = λ m l.
          lookup-find m (extended r n)
          ∙ ap lookup_at (added m)
          ∙ ground (arith, l, lookup-find m r, same→eq n m);
    }

-- what `event_id` does with a name that it adds
add_event-found :
    (granted : Bool) (n : Bytes) (r r' : Registry) (i : ℕ)
    → add_event granted n true r ≡ (found i, r')
    → (r.nevent < max_events) × ((r.nevent ≡ i) × (extended r n ≡ r'))
unfolding add_event
add_event-found granted n r r' i e = (ground arith, (ground arith, ground arith))

injective : (j i : ℕ) → found j ≡ found i → j ≡ i
injective j i e = cc

register-at :
    (granted : Bool) (n : Bytes) (r r' : Registry) (i : ℕ)
    → IsRegistry r
    → (o : Option ℕ) → find_name n r.events ≡ o
    → event_id_at granted n true r o ≡ (found i, r')
    → Registered r r' n i
unfolding event_id_at
register-at granted n r r' i v (some j) f e =
    let e' : (found j, r) ≡ (found i, r') = e in
    subst (λ k. Registered r r' n k) (injective j i (ap (λ p. p.0) e'))
      (subst (λ q. Registered r q n j) (ap (λ p. p.1) e') (old-Registered r n j v f))
register-at granted n r r' i v none f e =
    let (small, (id, whole)) = add_event-found granted n r r' i e in
    subst (λ k. Registered r r' n k) id
      (subst (λ q. Registered r q n r.nevent) whole (new-Registered r n v f small))

-- Where `event_register` gives an id, the registry that it leaves is valid, finds the name under
-- that id and the id under that name, keeps the id of every name that had one, and knows no other
-- name than before.
pub event_register-Registered :
    (granted : Bool) (n : Bytes) (r r' : Registry) (i : ℕ)
    → IsRegistry r
    → event_register granted n r ≡ (found i, r')
    → Registered r r' n i
unfolding event_register event_id
event_register-Registered granted n r r' i v e =
    register-at granted n r r' i v (find_name n r.events) refl e

-- Two names never have one id.
pub event_lookup_injective :
    (r : Registry) (n m : Bytes) (i : ℕ)
    → IsRegistry r
    → event_lookup n r ≡ found i
    → event_lookup m r ≡ found i
    → n ≡ m
unfolding lookup_at
event_lookup_injective r n m i v e f =
    let a : find_name n r.events ≡ some i = ground (arith, sym (lookup-find n r) ∙ e) in
    let b : find_name m r.events ≡ some i = ground (arith, sym (lookup-find m r) ∙ f) in
    eq_of_some (
      sym (find_id-find_name 0 r.events n i v.numbered a)
      ∙ find_id-find_name 0 r.events m i v.numbered b)
