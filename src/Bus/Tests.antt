-- ===== src/Bus/Tests.antt =====
-- Runs of the event busses, and their theorems at concrete watches.
use iot_app_fw.Common.{
  ℕ, ◌-◌, ◌<◌, ◌≡◌, refl, Bool, true, false, none, some, List, [], ◌∷◌, ◌++◌, arith, All, replicate,
  Bytes, codes, ◌==◌, if◌then◌else◌,
}
use iot_app_fw.Mask.{Mask, test, init, set_bit, bit_of, write_bit, grow, set_in, copy, copied}
use iot_app_fw.Bus.{
  Watch, Bus, Action, del, done, fault, and_then, watch_at, first, next_of, append_watch, mark_dead,
  remove, del_at, del_watch, live, purge_dead, leave, enter, act, visit, round_at, round, loop,
  emit_event, pump_at, pump_events, drop_first,
}
use iot_app_fw.Bus.Safety.{Settles, emit_event-Settles}
use iot_app_fw.Bus.Pump.{Ends, pump_events-Ends}
use iot_app_fw.Bus.Quiet.{listeners, called, quiet, emit_event-called}
use iot_app_fw.Bus.Watches.{add_watch, watched, add_watch_mask, copied_mask}

-- a mask of one event below 64
abbrev only : ℕ → Mask
only e = record {
  nbit = 64;
  fixed = false;
  inlined = false;
  words = (replicate e false ++ true ∷ replicate (63 - e) false) ∷ [];
}

abbrev watch : ℕ → ℕ → Watch
watch i e = record { id = i; mask = only e; dead = false }

abbrev bus_of : Bool → List Watch → Bus
bus_of named ws = record { named = named; watches = ws; busy = 0; dead = 0; queue = []; log = [] }

-- The first watch's callback deletes the next watch, whatever the event.
abbrev deletes_next : ℕ → ℕ → List Action
deletes_next i e = if i == 1 then del 2 ∷ [] else []

abbrev three : List Watch
three = watch 1 5 ∷ watch 2 5 ∷ watch 3 5 ∷ []

-- On a bus with a name the deleted watch is passed over, and purged at the end.
passed_over :
    emit_event deletes_next 9 5 (bus_of true three)
    ≡ done (record (bus_of true (watch 1 5 ∷ watch 3 5 ∷ [])) { log = (1, 5) ∷ (3, 5) ∷ [] })
unfolding emit_event loop round round_at visit act del_watch del_at mark_dead watch_at first next_of
    purge_dead leave enter live test bit_of and_then
passed_over = refl

-- On the global bus the loop goes on at the freed watch.
freed_next : emit_event deletes_next 9 5 (bus_of false three) ≡ fault
unfolding emit_event loop round round_at visit act del_watch del_at remove watch_at first next_of
    leave enter test bit_of and_then
freed_next = refl

emit_event-Settles_example :
    Settles (bus_of true three) (emit_event deletes_next 9 5 (bus_of true three))
emit_event-Settles_example = emit_event-Settles deletes_next 9 5 (bus_of true three) refl

-- A callback that hears the event 5 queues the event 4.
abbrev answers : ℕ → ℕ → List ℕ
answers i e = if e == 5 then 4 ∷ [] else []

abbrev two : Bus
two = record (bus_of true (watch 1 5 ∷ watch 2 4 ∷ [])) { queue = 5 ∷ [] }

pumped_out :
    pump_events (quiet answers) 3 9 two
    ≡ done (record two { queue = []; log = (1, 5) ∷ (2, 4) ∷ [] })
unfolding pump_events pump_at drop_first emit_event loop round round_at visit act watch_at first
    next_of purge_dead leave enter test bit_of and_then
pumped_out = refl

answers-below : (i e : ℕ) → All (λ e'. e' < e) (answers i e)
answers-below i e = at (e == 5) refl
  where
    at : (t : Bool) → (e == 5) ≡ t → All (λ e'. e' < e) (if t then 4 ∷ [] else [])
    at true h = (ground (arith, h), tt)
    at false h = tt

free_one : watch_at 1 [] ≡ none
unfolding watch_at
free_one = refl

free_two : watch_at 2 (watch 1 5 ∷ []) ≡ none
unfolding watch_at
free_two = refl

pump_events-Ends_example : Ends answers 9 two
pump_events-Ends_example =
    pump_events-Ends answers 9 two (free_one, (free_two, tt)) refl (omega arith) answers-below

emit_event-called_example :
    emit_event (quiet answers) 9 5 two ≡ done (called answers 5 (listeners 5 two.watches) two)
emit_event-called_example =
    emit_event-called answers 9 5 two (free_one, (free_two, tt)) refl (omega arith)

added : add_watch true true 7 9 two ≡ some (append_watch 7 (only 9) two)
unfolding add_watch watched set_bit set_in grow init write_bit
added = refl

added_by_mask : add_watch_mask true true 7 (only 9) two ≡ some (append_watch 7 init two)
unfolding add_watch_mask watched copied_mask copy copied init
added_by_mask = refl

abbrev names : List Bytes
names = codes "unknown" ∷ codes "mainloop" ∷ []
