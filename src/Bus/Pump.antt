-- ===== src/Bus/Pump.antt =====
-- Emission on a bus of src/common/mainloop.c to callbacks that only queue events, and the pump that
-- empties the queue of the bus.
use mathlib.Core.Path.{subst}
use mathlib.Core.List.{append-nil, append_assoc}
use iot_app_fw.Common.{
  ℕ, zero, suc, ◌+◌, ◌<◌, ◌≡◌, refl, sym, ap, ◌∙◌, List, [], ◌∷◌, ◌++◌, map, length, All, arith,
}
use iot_app_fw.Bus.{Bus, done, and_then, pump_at, pump_events, drop_first}
use iot_app_fw.Bus.Quiet.{
  Distinct, listeners, queued, quiet, All-append, All-mono, suc_add, zero_add, sum, below_sum,
  below_zero, emit_event-called,
}

module _ (queues : ℕ → ℕ → List ℕ) where
  -- the end of the pump
  abbrev pub Ends : (fuel : ℕ) → Bus → Type 0
  Ends fuel b =
      (rounds : ℕ) × (b' : Bus) × ((extra : ℕ)
        → pump_events (quiet queues) (rounds + extra) fuel b ≡ done b')
      × (b'.queue ≡ [])
      × (b'.watches ≡ b.watches)

  -- the bus after the pump took an event
  abbrev pub pumped : ℕ → List ℕ → Bus → Bus
  pumped e es b = record b {
    log = b.log ++ map (λ i. (i, e)) (listeners e b.watches);
    queue = es ++ queued queues e (listeners e b.watches);
  }

  -- The pump takes the events in the order in which they were queued: it delivers the first, and what
  -- the callbacks queue comes after those that are waiting.
  pump_events-first :
      (rounds fuel e : ℕ) (es : List ℕ) (b : Bus)
      → b.queue ≡ e ∷ es
      → Distinct [] b.watches
      → b.dead ≡ 0
      → length b.watches + 1 < fuel
      → pump_events (quiet queues) (suc rounds) fuel b
        ≡ pump_events (quiet queues) rounds fuel (pumped e es b)
  unfolding pump_events pump_at and_then drop_first
  pump_events-first rounds fuel e es b q d h f =
      ap (λ l. pump_at (quiet queues) (pump_events (quiet queues) rounds fuel) fuel l b) q
      ∙ ap
          (λ r.
            and_then r
              (λ b'. pump_events (quiet queues) rounds fuel (drop_first (quiet queues) b')))
          (emit_event-called queues fuel e b d h f)
      ∙ ap
          (λ l. pump_events (quiet queues) rounds fuel (
            drop_first (quiet queues)
              (record (pumped e es b) { queue = l ++ queued queues e (listeners e b.watches) })))
          q

  below-queued :
      (e n : ℕ) (is : List ℕ)
      → ((i e : ℕ) → All (λ e'. e' < e) (queues i e))
      → e < suc n
      → All (λ e'. e' < n) (queued queues e is)
  below-queued e n [] f h = tt
  below-queued e n (i ∷ is) f h =
      All-append (λ e. e < n) (queues i e) (queued queues e is)
        (All-mono (λ x. x < e) (λ x. x < n) (queues i e) (λ x k. omega arith) (f i e))
        (below-queued e n is f h)

  -- The events that wait, and those that they lead to, are pumped.
  pump_generation :
      (fuel : ℕ) (es news : List ℕ) (n : ℕ) (b : Bus)
      → b.queue ≡ es ++ news
      → All (λ e. e < suc n) es
      → All (λ e. e < n) news
      → Distinct [] b.watches
      → b.dead ≡ 0
      → length b.watches + 1 < fuel
      → ((i e : ℕ) → All (λ e'. e' < e) (queues i e))
      → ((b' : Bus)
          → All (λ e. e < n) b'.queue
          → b'.watches ≡ b.watches
          → b'.dead ≡ 0
          → Ends fuel b')
      → Ends fuel b
  pump_generation fuel [] news n b q a c d h f down rest =
      rest b (subst (All (λ e. e < n)) (sym q) c) refl h
  pump_generation fuel (e ∷ es) news n b q a c d h f down rest =
      let (rounds, b', ran, empty, same) =
        pump_generation fuel es (news ++ queued queues e (listeners e b.watches)) n
          (pumped e (es ++ news) b) (append_assoc es news (queued queues e (listeners e b.watches)))
          a.1
          (All-append (λ e. e < n) news (queued queues e (listeners e b.watches)) c
            (below-queued e n (listeners e b.watches) down a.0))
          d h f down rest in
      (
        suc rounds,
        b',
        λ extra.
            ap (λ k. pump_events (quiet queues) k fuel b) (suc_add rounds extra)
            ∙ pump_events-first (rounds + extra) fuel e (es ++ news) b q d h f
            ∙ ran extra,
        empty,
        same,
      )

  pump_below :
      (fuel n : ℕ) (b : Bus)
      → All (λ e. e < n) b.queue
      → Distinct [] b.watches
      → b.dead ≡ 0
      → length b.watches + 1 < fuel
      → ((i e : ℕ) → All (λ e'. e' < e) (queues i e))
      → Ends fuel b
  unfolding pump_events pump_at
  pump_below fuel zero b a d h f down =
      let q = below_zero b.queue a in (1, b, λ extra. ran extra q, q, refl)
    where
      ran : (extra : ℕ) → b.queue ≡ [] → pump_events (quiet queues) (1 + extra) fuel b ≡ done b
      ran extra q =
          ap (λ k. pump_events (quiet queues) k fuel b) (suc_add 0 extra ∙ ap suc (zero_add extra))
          ∙ ap (λ l. pump_at (quiet queues) (pump_events (quiet queues) extra fuel) fuel l b) q
  pump_below fuel (suc n) b a d h f down =
      pump_generation fuel b.queue [] n b (sym (append-nil b.queue)) a tt d h f down (λ b' a e h.
        pump_below fuel n b' a (subst (Distinct []) (sym e) d) h (omega (arith, ap length e, f))
          down)

  -- If each callback only queues events, with smaller numbers than the one that it handles, then
  -- there is a number of rounds from which on the pump of the bus ends, with an empty queue, whatever
  -- waited in it; the watches are as before. None of them is dead, their addresses differ, and the
  -- fuel of an emission is more than their number and 1.
  pub pump_events-Ends :
      (fuel : ℕ) (b : Bus)
      → Distinct [] b.watches
      → b.dead ≡ 0
      → length b.watches + 1 < fuel
      → ((i e : ℕ) → All (λ e'. e' < e) (queues i e))
      → Ends fuel b
  pump_events-Ends fuel b d h f down =
      pump_below fuel (suc (sum b.queue)) b (below_sum b.queue) d h f down
