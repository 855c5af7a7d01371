-- ===== src/Bus.antt =====
-- The event busses of src/common/mainloop.c. A watch's address is a number, and `log` is the history
-- of the callbacks' calls: the watch and the event of each. The data of an event only passes through.
pub mod Kept
pub mod Safety
pub mod Quiet
pub mod Pump
pub mod Watches
mod Tests
use iot_app_fw.Common.{
  ℕ, zero, suc, ◌+◌, ◌-◌, Bool, true, false, Option, none, some, List, [], ◌∷◌, ◌++◌, ◌==◌, ltb,
  if◌then◌else◌, not, ◌&&◌, Bytes, same,
}
use iot_app_fw.Mask.{Mask, init, set_bit, copy, test}

-- `iot_event_watch_t`
pub record Watch : Type 0 where
  pub id : ℕ
  pub mask : Mask
  pub dead : Bool

-- A bus, and of its mainloop the pending events on the bus. The global bus has no `iot_event_bus_t`,
-- and is always synchronous.
pub record Bus : Type 0 where
  pub named : Bool
  pub watches : List Watch
  pub busy : ℕ
  pub dead : ℕ
  pub queue : List ℕ
  pub log : List (ℕ × ℕ)

-- what a callback does on the bus: adds a watch, deletes one, emits an event at once, or queues one
pub data Action : Type 0 where
  add : (id : ℕ) → Mask → Action
  del : ℕ → Action
  emit : ℕ → Action
  queue : ℕ → Action

-- the end of a run; `fault` is an access to a watch that was freed, `no_fuel` is a run that goes on
pub data Run : Type 0 where
  done : Bus → Run
  fault : Run
  no_fuel : Run

unfoldable pub and_then : Run → (Bus → Run) → Run
and_then (done b) k = k b
and_then fault k = fault
and_then no_fuel k = no_fuel

-- the watch at an address
unfoldable pub watch_at : ℕ → List Watch → Option Watch
watch_at i [] = none
watch_at i (w ∷ ws) = if w.id == i then some w else watch_at i ws

-- `p->next` of a watch; `none` is the head of the list
unfoldable pub first : List Watch → Option ℕ
first [] = none
first (w ∷ ws) = some w.id

unfoldable pub next_of : ℕ → List Watch → Option ℕ
next_of i [] = none
next_of i (w ∷ ws) = if w.id == i then first ws else next_of i ws

-- `iot_event_add_watch` with a mask that is made already; an address that is taken is not given again
unfoldable pub append_at : Option Watch → ℕ → Mask → Bus → Bus
append_at (some w) i m b = b
append_at none i m b = record b {
  watches = b.watches ++ record { id = i; mask = m; dead = false } ∷ [];
}

unfoldable pub append_watch : ℕ → Mask → Bus → Bus
append_watch i m b = append_at (watch_at i b.watches) i m b

unfoldable pub mark_dead : ℕ → List Watch → List Watch
mark_dead i [] = []
mark_dead i (w ∷ ws) = if w.id == i then record w { dead = true } ∷ ws else w ∷ mark_dead i ws

unfoldable pub remove : ℕ → List Watch → List Watch
remove i [] = []
remove i (w ∷ ws) = if w.id == i then ws else w ∷ remove i ws

-- `iot_event_del_watch`, of a watch that there is
unfoldable pub del_at : Option Watch → ℕ → Bus → Bus
del_at none i b = b
del_at (some w) i b =
    if b.named && ltb 0 b.busy
    then record b { watches = mark_dead i b.watches; dead = b.dead + 1 }
    else record b { watches = remove i b.watches }

unfoldable pub del_watch : ℕ → Bus → Bus
del_watch i b = del_at (watch_at i b.watches) i b

-- the watches that are not dead
unfoldable pub live : List Watch → List Watch
live [] = []
live (w ∷ ws) = if w.dead then live ws else w ∷ live ws

-- `bus_purge_dead`
unfoldable pub purge_dead : Bus → Bus
purge_dead b = if b.dead == 0 then b else record b { watches = live b.watches; dead = 0 }

-- the end of `emit_event`
unfoldable pub leave : Bus → Bus
leave b =
    let b' : Bus = record b { busy = b.busy - 1 } in
    if not b.named then b else if b'.busy == 0 then purge_dead b' else b'

unfoldable pub enter : Bus → Bus
enter b = if b.named then record b { busy = b.busy + 1 } else b

abbrev pub note : ℕ → ℕ → Bus → Bus
note i event b = record b { log = b.log ++ (i, event) ∷ [] }

-- a callback's actions, one after the other; `again` is `emit_event`
unfoldable pub act : (again : ℕ → Bus → Run) → List Action → Bus → Run
act again [] b = done b
act again (add i m ∷ acts) b = act again acts (append_watch i m b)
act again (del i ∷ acts) b = act again acts (del_watch i b)
act again (emit e ∷ acts) b = and_then (again e b) (act again acts)
act again (queue e ∷ acts) b = act again acts (record b { queue = b.queue ++ e ∷ [] })

-- What each callback does is `react`, by its watch and the event.
module _ (react : ℕ → ℕ → List Action) where
  -- one watch
  unfoldable pub visit : (again : ℕ → Bus → Run) → ℕ → Watch → Bus → Run
  visit again event w b =
      let called : Run = act again (react w.id event) (note w.id event b) in
      if w.dead then done b else if test w.mask event then called else done b

  -- a round of the loop, at the watch of an address; `rest` is the loop from the next on.
  unfoldable pub round_at :
      (again : ℕ → Bus → Run) → (rest : Option ℕ → Bus → Run) → ℕ → ℕ → Bus → Option Watch → Run
  round_at again rest event i b none = fault
  round_at again rest event i b (some w) =
      and_then (visit again event w b) (rest (next_of i b.watches))

  unfoldable pub round :
      (again : ℕ → Bus → Run) → (rest : Option ℕ → Bus → Run) → ℕ → Option ℕ → Bus → Run
  round again rest event none b = done b
  round again rest event (some i) b = round_at again rest event i b (watch_at i b.watches)

  unfoldable mutual
    -- the loop of `emit_event`
    pub loop : (fuel : ℕ) → ℕ → Option ℕ → Bus → Run
    loop zero event p b = no_fuel
    loop (suc fuel) event p b = round (emit_event fuel) (loop fuel event) event p b

    -- `emit_event`, with `IOT_EVENT_SYNCHRONOUS` on the global bus
    pub emit_event : (fuel : ℕ) → ℕ → Bus → Run
    emit_event zero event b = no_fuel
    emit_event (suc fuel) event b =
        and_then (loop fuel event (first b.watches) (enter b)) (λ b'. done (leave b'))

  -- `pump_events` on the events of this bus: the loop, with `goto pump`, takes the first event until
  -- there is none. An event leaves the queue when it was emitted.
  unfoldable pub drop_first : Bus → Bus
  drop_first b = record b { queue = elim b.queue [ [] ↦ [] | e ∷ es ↦ es ] }

  unfoldable pub pump_at : (rest : Bus → Run) → (fuel : ℕ) → List ℕ → Bus → Run
  pump_at rest fuel [] b = done b
  pump_at rest fuel (e ∷ es) b = and_then (emit_event fuel e b) (λ b'. rest (drop_first b'))

  unfoldable pub pump_events : (rounds fuel : ℕ) → Bus → Run
  pump_events zero fuel b = no_fuel
  pump_events (suc rounds) fuel b = pump_at (pump_events rounds fuel) fuel b.queue b

-- `iot_emit_event`: 0 and the run, or -1
unfoldable pub iot_emit_event :
    (react : ℕ → ℕ → List Action) → (fuel : ℕ) → (synchronous granted : Bool) → ℕ → Bus → Option Run
iot_emit_event react fuel synchronous granted event b =
    if synchronous
    then some (emit_event react fuel event b)
    else if not b.named
    then none
    else if granted
    then some (done (record b { queue = b.queue ++ event ∷ [] }))
    else none
