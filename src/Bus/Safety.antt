-- ===== src/Bus/Safety.antt =====
-- Emission on a bus of src/common/mainloop.c while the callbacks add and delete watches and emit
-- events on the same bus.
use mathlib.Core.Path.{subst}
use iot_app_fw.Common.{
  ℕ, zero, suc, ◌+◌, ◌-◌, ◌<◌, ◌≡◌, refl, sym, ap, ◌∙◌, Bool, true, false, Option, none, some, List,
  [], ◌∷◌, ◌==◌, if◌then◌else◌, not, arith, inl, inr, Bool-cases,
}
use iot_app_fw.Mask.{test}
use iot_app_fw.Bus.{
  Watch, Bus, Action, Run, done, fault, no_fuel, and_then, watch_at, first, next_of, live,
  purge_dead, leave, enter, note, act, visit, round_at, round, loop, emit_event,
}
use iot_app_fw.Bus.Kept.{
  Has, AllLive, Tracks, Grows, Grows-refl, AllLive-live, Fine, weaken, and_then-Fine, Busy,
  Busy-Grows, act-Fine,
}

Has-first : (ws : List Watch) (j : ℕ) → first ws ≡ some j → Has j ws
unfolding first watch_at
Has-first [] j h = absurd (cc)
Has-first (w ∷ ws) j h = (w, at (w.id == j) (ground (arith, h)))
  where
    at : (b : Bool) → b ≡ true → (if b then some w else watch_at j ws) ≡ some w
    at b e = rw e refl

Has-later : (x : Watch) (ws : List Watch) (j : ℕ) → Has j ws → Has j (x ∷ ws)
unfolding watch_at
Has-later x ws j (w, e) = elim (Bool-cases (x.id == j)) [
  | inl h ↦ (x, rw h refl)
  | inr h ↦ (w, rw h e)
]

Has-next_of : (i : ℕ) (ws : List Watch) (j : ℕ) → next_of i ws ≡ some j → Has j ws
unfolding next_of
Has-next_of i [] j h = absurd (cc)
Has-next_of i (x ∷ ws) j h = Has-later x ws j (at (x.id == i) (Has-next_of i ws j) h)
  where
    at :
        (b : Bool)
        → (next_of i ws ≡ some j → Has j ws)
        → (if b then first ws else next_of i ws) ≡ some j
        → Has j ws
    at true k h = Has-first ws j h
    at false k h = k h

-- A place in the list that is a watch, or the list's head.
abbrev pub Placed : Option ℕ → Bus → Type 0
Placed p b = (i : ℕ) → p ≡ some i → Has i b.watches

-- A call of `emit_event` ends with the bus as busy as before; what it did to a busy bus a callback may
-- do, and a bus that is not busy has no dead watch in its list.
abbrev pub Settles : Bus → Run → Type 0
Settles b (done b') =
    (b'.busy ≡ b.busy)
    × (0 < b.busy → Grows b b')
    × (b.busy ≡ 0 → Tracks b → (b'.dead ≡ 0) × AllLive b'.watches)
Settles b fault = ⊥
Settles b no_fuel = Unit

Fine-Settles : (b : Bus) (r : Run) → Busy b → Settles b r → Fine b r
Fine-Settles b (done b') h s = s.1 h.1
Fine-Settles b fault h s = elim s [ ]
Fine-Settles b no_fuel h s = tt

abbrev entered : Bus → Bus
entered b = record b { busy = b.busy + 1 }

enter-named : (b : Bus) → b.named ≡ true → enter b ≡ entered b
unfolding enter
enter-named b n = ap (λ t. if t then record b { busy = b.busy + 1 } else b) n

purge_dead-busy : (b : Bus) → (purge_dead b).busy ≡ b.busy
unfolding purge_dead
purge_dead-busy b = at (b.dead == 0)
  where
    at :
        (t : Bool)
        → (if t then b else record b { watches = live b.watches; dead = 0 }).busy ≡ b.busy
    at true = refl
    at false = refl

purge_dead-AllLive :
    (b : Bus) → Tracks b → ((purge_dead b).dead ≡ 0) × AllLive (purge_dead b).watches
unfolding purge_dead
purge_dead-AllLive b h = elim (Bool-cases (b.dead == 0)) [
  | inl e ↦ rw e (ground (arith, e), h (ground (arith, e)))
  | inr e ↦ rw e (refl, AllLive-live b.watches)
]

abbrev left : Bus → Bus
left b = record b { busy = b.busy - 1 }

leave-named :
    (b : Bus) → b.named ≡ true → leave b ≡ (if b.busy - 1 == 0 then purge_dead (left b) else left b)
unfolding leave
leave-named b n =
    ap (λ t. if not t then b else if b.busy - 1 == 0 then purge_dead (left b) else left b) n

left-Settles :
    (b b1 : Bus)
    → b.named ≡ true
    → Grows (entered b) b1
    → (idle : Bool) → (b1.busy - 1 == 0) ≡ idle
    → Settles b (done (if idle then purge_dead (left b1) else left b1))
left-Settles b b1 n g true e = (
  purge_dead-busy (left b1) ∙ omega (arith, g.busy),
  λ h. absurd (ground (arith, e, h, g.busy)),
  λ h t. purge_dead-AllLive (left b1) (g.tracks t),
)
left-Settles b b1 n g false e = (
  omega (arith, g.busy),
  λ h. record { named = g.named; busy = omega (arith, g.busy); kept = g.kept; tracks = g.tracks },
  λ h t. absurd (ground (arith, e, h, g.busy)),
)

leave-Settles :
    (b : Bus) (r : Run)
    → b.named ≡ true
    → Fine (entered b) r
    → Settles b (and_then r (λ b'. done (leave b')))
unfolding and_then
leave-Settles b (done b1) n g =
    subst (λ c. Settles b (done c)) (sym (leave-named b1 (g.named ∙ n)))
      (left-Settles b b1 n g (b1.busy - 1 == 0) refl)
leave-Settles b fault n h = elim h [ ]
leave-Settles b no_fuel n h = tt

module _ (react : ℕ → ℕ → List Action) where
  visit-Fine :
      (again : ℕ → Bus → Run) (event : ℕ) (w : Watch) (b : Bus)
      → ((e : ℕ) (b : Bus) → Busy b → Fine b (again e b))
      → Busy b
      → Fine b (visit react again event w b)
  unfolding visit
  visit-Fine again event w b f h = at w.dead (test w.mask event)
    where
      called : Fine b (act again (react w.id event) (note w.id event b))
      called =
          weaken b (note w.id event b) (act again (react w.id event) (note w.id event b))
            (record { named = refl; busy = refl; kept = λ i k. k; tracks = λ k. k })
            (act-Fine again (react w.id event) (note w.id event b) f h)

      at :
          (d t : Bool)
          → Fine b (
              if d
              then done b
              else if t
              then act again (react w.id event) (note w.id event b)
              else done b)
      at true t = Grows-refl b
      at false true = called
      at false false = Grows-refl b

  round-Fine :
      (again : ℕ → Bus → Run) (rest : Option ℕ → Bus → Run) (event : ℕ) (p : Option ℕ) (b : Bus)
      → ((e : ℕ) (b : Bus) → Busy b → Fine b (again e b))
      → ((p : Option ℕ) (b : Bus) → Busy b → Placed p b → Fine b (rest p b))
      → Busy b
      → Placed p b
      → Fine b (round react again rest event p b)
  unfolding round round_at
  round-Fine again rest event none b f k h place = Grows-refl b
  round-Fine again rest event (some i) b f k h place = at (watch_at i b.watches) (place i refl)
    where
      at :
          (o : Option Watch)
          → ((w : Watch) × (o ≡ some w))
          → Fine b (round_at react again rest event i b o)
      at none (w, e) = absurd (cc)
      at (some w) e =
          and_then-Fine b (visit react again event w b) (rest (next_of i b.watches))
            (visit-Fine again event w b f h)
            (λ b' g.
              k (next_of i b.watches) b' (Busy-Grows b b' h g)
                (λ j e. g.kept j (Has-next_of i b.watches j e)))

  enter-Busy : (b : Bus) → b.named ≡ true → Busy (entered b)
  enter-Busy b n = (n, omega arith)

  mutual
    unfolding loop emit_event

    loop-Fine :
        (fuel event : ℕ) (p : Option ℕ) (b : Bus)
        → Busy b
        → Placed p b
        → Fine b (loop react fuel event p b)
    loop-Fine zero event p b h place = tt
    loop-Fine (suc fuel) event p b h place =
        round-Fine (emit_event react fuel) (loop react fuel event) event p b
          (λ e b h. Fine-Settles b (emit_event react fuel e b) h (emit_event-Safe fuel e b h.0))
          (loop-Fine fuel event) h place

    emit_event-Safe :
        (fuel event : ℕ) (b : Bus) → b.named ≡ true → Settles b (emit_event react fuel event b)
    emit_event-Safe zero event b n = tt
    emit_event-Safe (suc fuel) event b n =
        subst
          (λ c.
            Settles b
              (and_then (loop react fuel event (first b.watches) c) (λ b'. done (leave b'))))
          (sym (enter-named b n))
          (leave-Settles b (loop react fuel event (first b.watches) (entered b)) n (
            loop-Fine fuel event (first b.watches) (entered b) (enter-Busy b n)
              (λ i e. Has-first b.watches i e)))

  -- Whatever the callbacks do, an event that is emitted on a bus that has a name, by a caller or by a
  -- callback, never reaches a watch that was freed, and if it ends, the bus is as busy as before. A
  -- bus that was busy then still has every watch in its list; a bus that was not has no dead one
  -- left, if before none was dead or they were counted.
  pub emit_event-Settles :
      (fuel event : ℕ) (b : Bus) → b.named ≡ true → Settles b (emit_event react fuel event b)
  emit_event-Settles fuel event b n = emit_event-Safe fuel event b n
