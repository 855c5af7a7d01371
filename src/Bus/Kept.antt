-- ===== src/Bus/Kept.antt =====
-- What the callbacks of an event bus of src/common/mainloop.c may do to a bus that is busy.
use mathlib.Core.Path.{subst}
use iot_app_fw.Common.{
  ℕ, ◌+◌, ◌<◌, ◌≡◌, refl, sym, ap, ◌∙◌, Bool, true, false, Option, none, some, List, [], ◌∷◌, ◌++◌,
  ◌==◌, ltb, if◌then◌else◌, ◌&&◌, All, arith, inl, inr, Bool-cases, lt→ltb,
}
use iot_app_fw.Mask.{Mask}
use iot_app_fw.Bus.{
  Watch, Bus, Action, add, del, emit, queue, Run, done, fault, no_fuel, and_then, watch_at,
  append_at, append_watch, mark_dead, remove, del_at, del_watch, live, act,
}

abbrev pub Has : ℕ → List Watch → Type 0
Has i ws = (w : Watch) × (watch_at i ws ≡ some w)

abbrev pub AllLive : List Watch → Type 0
AllLive ws = All (λ w. w.dead ≡ false) ws

-- The counter of dead watches is not 0 if there is one.
abbrev pub Tracks : Bus → Type 0
Tracks b = b.dead ≡ 0 → AllLive b.watches

-- what a callback may make of a bus that is busy
pub record Grows (b b' : Bus) : Type 0 where
  pub named : b'.named ≡ b.named
  pub busy : b'.busy ≡ b.busy
  pub kept : (i : ℕ) → Has i b.watches → Has i b'.watches
  pub tracks : Tracks b → Tracks b'

pub Grows-refl : (b : Bus) → Grows b b
Grows-refl b = record { named = refl; busy = refl; kept = λ i h. h; tracks = λ h. h }

pub Grows-trans : {a b c : Bus} → Grows a b → Grows b c → Grows a c
Grows-trans g h = record {
  named = h.named ∙ g.named;
  busy = h.busy ∙ g.busy;
  kept = λ i k. h.kept i (g.kept i k);
  tracks = λ k. h.tracks (g.tracks k);
}

Has-append : (i : ℕ) (ws vs : List Watch) → Has i ws → Has i (ws ++ vs)
unfolding watch_at
Has-append i [] vs (w, e) = absurd (cc)
Has-append i (x ∷ ws) vs (w, e) = elim (Bool-cases (x.id == i)) [
  | inl h ↦ (x, rw h refl)
  | inr h ↦ let (v, f) = Has-append i ws vs (w, ground (arith, h)) in (v, rw h f)
]

Has-mark_dead : (i j : ℕ) (ws : List Watch) → Has j ws → Has j (mark_dead i ws)
unfolding watch_at mark_dead
Has-mark_dead i j [] (w, e) = absurd (cc)
Has-mark_dead i j (x ∷ ws) (w, e) = elim (Bool-cases (x.id == i)) [
  | inl h ↦ rw h (marked (x.id == j) e)
  | inr h ↦ rw h (later (Has-mark_dead i j ws) (x.id == j) e)
]
  where
    marked :
        (b : Bool)
        → (if b then some x else watch_at j ws) ≡ some w
        → (v : Watch) × ((if b then some (record x { dead = true }) else watch_at j ws) ≡ some v)
    marked true e = (record x { dead = true }, refl)
    marked false e = (w, e)

    later :
        (Has j ws → Has j (mark_dead i ws))
        → (b : Bool) → (if b then some x else watch_at j ws) ≡ some w
        → (v : Watch) × ((if b then some x else watch_at j (mark_dead i ws)) ≡ some v)
    later k true e = (x, refl)
    later k false e = k (w, e)

AllLive-append :
    (ws : List Watch) (w : Watch) → w.dead ≡ false → AllLive ws → AllLive (ws ++ w ∷ [])
AllLive-append [] w h a = (h, tt)
AllLive-append (x ∷ ws) w h a = (a.0, AllLive-append ws w h a.1)

pub AllLive-live : (ws : List Watch) → AllLive (live ws)
unfolding live
AllLive-live [] = tt
AllLive-live (x ∷ ws) = kept x.dead refl (AllLive-live ws)
  where
    kept :
        (d : Bool) → x.dead ≡ d → AllLive (live ws) → AllLive (if d then live ws else x ∷ live ws)
    kept true e a = a
    kept false e a = (e, a)

append_watch-Grows : (i : ℕ) (m : Mask) (b : Bus) → Grows b (append_watch i m b)
unfolding append_watch append_at
append_watch-Grows i m b = at (watch_at i b.watches)
  where
    at : (o : Option Watch) → Grows b (append_at o i m b)
    at (some w) = Grows-refl b
    at none = record {
      named = refl;
      busy = refl;
      kept = λ j h. Has-append j b.watches _ h;
      tracks = λ h e. AllLive-append b.watches _ refl (h e);
    }

del_watch-Grows : (i : ℕ) (b : Bus) → b.named ≡ true → 0 < b.busy → Grows b (del_watch i b)
unfolding del_watch del_at
del_watch-Grows i b n h = at (watch_at i b.watches)
  where
    marked : Bus
    marked = record b { watches = mark_dead i b.watches; dead = b.dead + 1 }

    removed : Bus
    removed = record b { watches = remove i b.watches }

    busy : (b.named && ltb 0 b.busy) ≡ true
    busy = ap (λ x. x && ltb 0 b.busy) n ∙ lt→ltb 0 b.busy h

    at : (o : Option Watch) → Grows b (del_at o i b)
    at none = Grows-refl b
    at (some w) =
        subst (λ t. Grows b (if t then marked else removed)) (sym busy)
          (record {
            named = refl;
            busy = refl;
            kept = λ j k. Has-mark_dead i j b.watches k;
            tracks = λ k e. absurd (omega arith);
          })

-- A run on a busy bus reaches no freed watch, and leaves the watches that there are in the list.
abbrev pub Fine : Bus → Run → Type 0
Fine b (done b') = Grows b b'
Fine b fault = ⊥
Fine b no_fuel = Unit

pub weaken : (b c : Bus) (r : Run) → Grows b c → Fine c r → Fine b r
weaken b c (done d) g h = Grows-trans g h
weaken b c fault g h = elim h [ ]
weaken b c no_fuel g h = tt

pub and_then-Fine :
    (b : Bus) (r : Run) (k : Bus → Run)
    → Fine b r
    → ((b' : Bus) → Grows b b' → Fine b' (k b'))
    → Fine b (and_then r k)
unfolding and_then
and_then-Fine b (done b1) k h f = weaken b b1 (k b1) h (f b1 h)
and_then-Fine b fault k h f = elim h [ ]
and_then-Fine b no_fuel k h f = tt

abbrev pub Busy : Bus → Type 0
Busy b = (b.named ≡ true) × (0 < b.busy)

pub Busy-Grows : (b b' : Bus) → Busy b → Grows b b' → Busy b'
Busy-Grows b b' h g = (g.named ∙ h.0, omega (arith, g.busy, h.1))

pub act-Fine :
    (again : ℕ → Bus → Run) (acts : List Action) (b : Bus)
    → ((e : ℕ) (b : Bus) → Busy b → Fine b (again e b))
    → Busy b
    → Fine b (act again acts b)
unfolding act
act-Fine again [] b f h = Grows-refl b
act-Fine again (add i m ∷ acts) b f h =
    let g = append_watch-Grows i m b in
    weaken b (append_watch i m b) _ g
      (act-Fine again acts (append_watch i m b) f (Busy-Grows b _ h g))
act-Fine again (del i ∷ acts) b f h =
    let g = del_watch-Grows i b h.0 h.1 in
    weaken b (del_watch i b) _ g (act-Fine again acts (del_watch i b) f (Busy-Grows b _ h g))
act-Fine again (emit e ∷ acts) b f h =
    and_then-Fine b (again e b) (act again acts) (f e b h)
      (λ b' g. act-Fine again acts b' f (Busy-Grows b b' h g))
act-Fine again (queue e ∷ acts) b f h =
    weaken b _ _ (record { named = refl; busy = refl; kept = λ i k. k; tracks = λ k. k })
      (act-Fine again acts (record b { queue = b.queue ++ e ∷ [] }) f h)
