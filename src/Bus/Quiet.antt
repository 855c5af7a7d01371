-- ===== src/Bus/Quiet.antt =====
-- Emission on a bus of src/common/mainloop.c to callbacks that only queue events.
use mathlib.Core.List.{append-nil, append_assoc, map-append}
use iot_app_fw.Common.{
  ℕ, zero, suc, ◌+◌, ◌-◌, ◌<◌, ◌≡◌, refl, sym, ap, ◌∙◌, Bool, true, false, Option, none, some, List,
  [], ◌∷◌, ◌++◌, ◌==◌, if◌then◌else◌, map, length, All, arith, ==_refl,
}
use iot_app_fw.Mask.{test}
use iot_app_fw.Bus.{
  Watch, Bus, Action, queue, Run, done, and_then, watch_at, first, next_of, live, purge_dead, leave,
  enter, note, act, visit, round_at, round, loop, emit_event,
}

-- Every watch has its own address: none of the watches before it has it.
abbrev pub Distinct : List Watch → List Watch → Type 0
Distinct pre [] = Unit
Distinct pre (w ∷ ws) = (watch_at w.id pre ≡ none) × Distinct (pre ++ w ∷ []) ws

-- a watch whose callback is called, or not
abbrev pub heard : ℕ → Watch → List ℕ
heard event w = if w.dead then [] else if test w.mask event then w.id ∷ [] else []

-- the watches that a callback is called for, in their order
abbrev pub listeners : ℕ → List Watch → List ℕ
listeners event [] = []
listeners event (w ∷ ws) = heard event w ++ listeners event ws

-- what their callbacks queue
abbrev pub queued : (queues : ℕ → ℕ → List ℕ) → ℕ → List ℕ → List ℕ
queued queues event [] = []
queued queues event (i ∷ is) = queues i event ++ queued queues event is

-- callbacks that only queue events
abbrev pub quiet : (queues : ℕ → ℕ → List ℕ) → ℕ → ℕ → List Action
quiet queues i event = map queue (queues i event)

-- the bus after the calls
abbrev pub called : (queues : ℕ → ℕ → List ℕ) → ℕ → List ℕ → Bus → Bus
called queues event is b = record b {
  log = b.log ++ map (λ i. (i, event)) is;
  queue = b.queue ++ queued queues event is;
}

watch_at-append :
    (w : Watch) (pre post : List Watch)
    → watch_at w.id pre ≡ none
    → watch_at w.id (pre ++ w ∷ post) ≡ some w
unfolding watch_at
watch_at-append w [] post h = ap (λ t. if t then some w else watch_at w.id post) (==_refl w.id)
watch_at-append w (x ∷ pre) post h = at (x.id == w.id) h (watch_at-append w pre post)
  where
    at :
        (t : Bool)
        → (if t then some x else watch_at w.id pre) ≡ none
        → (watch_at w.id pre ≡ none → watch_at w.id (pre ++ w ∷ post) ≡ some w)
        → (if t then some x else watch_at w.id (pre ++ w ∷ post)) ≡ some w
    at true e k = absurd (cc)
    at false e k = k e

next_of-append :
    (w : Watch) (pre post : List Watch)
    → watch_at w.id pre ≡ none
    → next_of w.id (pre ++ w ∷ post) ≡ first post
unfolding watch_at next_of
next_of-append w [] post h = ap (λ t. if t then first post else next_of w.id post) (==_refl w.id)
next_of-append w (x ∷ pre) post h = at (x.id == w.id) h (next_of-append w pre post)
  where
    at :
        (t : Bool)
        → (if t then some x else watch_at w.id pre) ≡ none
        → (watch_at w.id pre ≡ none → next_of w.id (pre ++ w ∷ post) ≡ first post)
        → (if t then first (pre ++ w ∷ post) else next_of w.id (pre ++ w ∷ post)) ≡ first post
    at true e k = absurd (cc)
    at false e k = k e

act-queue :
    (again : ℕ → Bus → Run) (es : List ℕ) (b : Bus)
    → act again (map queue es) b ≡ done (record b { queue = b.queue ++ es })
unfolding act
act-queue again [] b = ap (λ q. done (record b { queue = q })) (sym (append-nil b.queue))
act-queue again (e ∷ es) b =
    act-queue again es (record b { queue = b.queue ++ e ∷ [] })
    ∙ ap (λ q. done (record b { queue = q })) (append_assoc b.queue (e ∷ []) es)

pub All-append : (P : ℕ → Type 0) (xs ys : List ℕ) → All P xs → All P ys → All P (xs ++ ys)
All-append P [] ys a b = b
All-append P (x ∷ xs) ys a b = (a.0, All-append P xs ys a.1 b)

pub All-mono : (P Q : ℕ → Type 0) (xs : List ℕ) → ((x : ℕ) → P x → Q x) → All P xs → All Q xs
All-mono P Q [] f a = tt
All-mono P Q (x ∷ xs) f a = (f x a.0, All-mono P Q xs f a.1)

pub suc_add : (m n : ℕ) → suc m + n ≡ suc (m + n)
suc_add m n = omega arith

pub zero_add : (n : ℕ) → 0 + n ≡ n
zero_add n = omega arith

-- the sum of the events bounds each
abbrev pub sum : List ℕ → ℕ
sum [] = 0
sum (x ∷ xs) = x + sum xs

pub below_sum : (xs : List ℕ) → All (λ x. x < suc (sum xs)) xs
below_sum [] = tt
below_sum (x ∷ xs) = (
  omega arith,
  All-mono (λ y. y < suc (sum xs)) (λ y. y < suc (x + sum xs)) xs (λ y h. omega arith)
      (below_sum xs),
)

pub below_zero : (xs : List ℕ) → All (λ x. x < 0) xs → xs ≡ []
below_zero [] a = refl
below_zero (x ∷ xs) a = absurd (omega (arith, a.0))

module _ (queues : ℕ → ℕ → List ℕ) where
  queued-append :
      (event : ℕ) (is js : List ℕ)
      → queued queues event (is ++ js) ≡ queued queues event is ++ queued queues event js
  queued-append event [] js = refl
  queued-append event (i ∷ is) js =
      ap (λ l. queues i event ++ l) (queued-append event is js)
      ∙ sym (append_assoc (queues i event) (queued queues event is) (queued queues event js))

  called-none : (event : ℕ) (b : Bus) → called queues event [] b ≡ b
  called-none event b =
      ap (λ q. record b { log = b.log ++ []; queue = q }) (append-nil b.queue)
      ∙ ap (λ l. record b { log = l }) (append-nil b.log)

  called-append :
      (event : ℕ) (is js : List ℕ) (b : Bus)
      → called queues event js (called queues event is b) ≡ called queues event (is ++ js) b
  called-append event is js b =
      ap (λ q. record b { log = b.log ++ calls is ++ calls js; queue = q })
        (append_assoc b.queue (queued queues event is) (queued queues event js)
          ∙ ap (λ l. b.queue ++ l) (sym (queued-append event is js)))
      ∙ ap (λ l. record b { log = l; queue = b.queue ++ queued queues event (is ++ js) })
          (append_assoc b.log (calls is) (calls js)
            ∙ ap (λ l. b.log ++ l) (sym (map-append (λ i. (i, event)) is js)))
    where
      calls : List ℕ → List (ℕ × ℕ)
      calls is = map (λ i. (i, event)) is

  visit-quiet :
      (again : ℕ → Bus → Run) (event : ℕ) (w : Watch) (b : Bus)
      → visit (quiet queues) again event w b ≡ done (called queues event (heard event w) b)
  unfolding visit
  visit-quiet again event w b = at w.dead (test w.mask event)
    where
      at :
          (d t : Bool)
          → (if d
              then done b
              else if t
              then act again (quiet queues w.id event) (note w.id event b)
              else done b)
            ≡ done (called queues event (if d then [] else if t then w.id ∷ [] else []) b)
      at true t = ap done (sym (called-none event b))
      at false true =
          act-queue again (queues w.id event) (note w.id event b)
          ∙ ap (λ q. done (record (note w.id event b) { queue = b.queue ++ q }))
              (sym (append-nil (queues w.id event)))
      at false false = ap done (sym (called-none event b))

  loop-quiet :
      (fuel event : ℕ) (pre post : List Watch) (b : Bus)
      → b.watches ≡ pre ++ post
      → Distinct pre post
      → length post < fuel
      → loop (quiet queues) fuel event (first post) b
        ≡ done (called queues event (listeners event post) b)
  unfolding loop round round_at first and_then
  loop-quiet zero event pre post b e d h = absurd (omega arith)
  loop-quiet (suc fuel) event pre [] b e d h = ap done (sym (called-none event b))
  loop-quiet (suc fuel) event pre (w ∷ post) b e d h =
      ap at (ap (watch_at w.id) e ∙ watch_at-append w pre post d.0)
      ∙ ap
          (λ p.
            and_then (visit (quiet queues) (emit_event (quiet queues) fuel) event w b)
              (loop (quiet queues) fuel event p))
          (ap (next_of w.id) e ∙ next_of-append w pre post d.0)
      ∙ ap (λ r. and_then r (loop (quiet queues) fuel event (first post)))
          (visit-quiet (emit_event (quiet queues) fuel) event w b)
      ∙ loop-quiet fuel event (pre ++ w ∷ []) post (called queues event (heard event w) b)
          (e ∙ sym (append_assoc pre (w ∷ []) post)) d.1 (omega arith)
      ∙ ap done (called-append event (heard event w) (listeners event post) b)
    where
      at : Option Watch → Run
      at =
          round_at (quiet queues) (emit_event (quiet queues) fuel) (loop (quiet queues) fuel event)
            event w.id b

  enter-watches : (b : Bus) → (enter b).watches ≡ b.watches
  unfolding enter
  enter-watches b = at b.named
    where
      at : (n : Bool) → (if n then record b { busy = b.busy + 1 } else b).watches ≡ b.watches
      at true = refl
      at false = refl

  leave-enter :
      (event : ℕ) (is : List ℕ) (b : Bus)
      → b.dead ≡ 0
      → leave (called queues event is (enter b)) ≡ called queues event is b
  unfolding leave enter purge_dead
  leave-enter event is b e = at b.named
    where
      settled : Bus
      settled = called queues event is (record b { named = true })

      left : Bus
      left = record settled { busy = b.busy + 1 - 1 }

      purged :
          (if b.dead == 0 then left else record left { watches = live b.watches; dead = 0 }) ≡ left
      purged =
          ap (λ d. if d == 0 then left else record left { watches = live b.watches; dead = 0 }) e

      either : (t : Bool) (x y : Bus) → x ≡ y → (if t then x else y) ≡ y
      either true x y e = e
      either false x y e = refl

      at :
          (n : Bool)
          → leave (called queues event is (enter (record b { named = n })))
            ≡ called queues event is (record b { named = n })
      at true =
          either (b.busy + 1 - 1 == 0)
            (if b.dead == 0 then left else record left { watches = live b.watches; dead = 0 }) left
            purged
          ∙ ap (λ n. record settled { busy = n }) (omega arith)
      at false = refl

  -- An event that is emitted on a bus whose callbacks only queue events is delivered, and the
  -- emission ends: each watch that hears it is called once, in the order of the list, the events are
  -- queued in that order, and nothing else changes. No watch is dead yet, their addresses differ, and
  -- the fuel is more than their number and 1.
  pub emit_event-called :
      (fuel event : ℕ) (b : Bus)
      → Distinct [] b.watches
      → b.dead ≡ 0
      → length b.watches + 1 < fuel
      → emit_event (quiet queues) fuel event b
        ≡ done (called queues event (listeners event b.watches) b)
  unfolding emit_event and_then
  emit_event-called zero event b d e h = absurd (omega arith)
  emit_event-called (suc fuel) event b d e h =
      ap (λ r. and_then r (λ b'. done (leave b')))
        (loop-quiet fuel event [] b.watches (enter b) (enter-watches b) d (omega arith))
      ∙ ap done (leave-enter event (listeners event b.watches) b e)
