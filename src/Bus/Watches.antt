-- ===== src/Bus/Watches.antt =====
-- Event identifiers and event watches of src/common/mainloop.c. The names of the events are the list
-- of the table, by identifier. The busses of a mainloop are the list of their names.
use mathlib.Core.Path.{subst}
use mathlib.Core.Option.{none-ne-some}
use mathlib.Core.List.{append-nil, append_assoc}
use iot_app_fw.Common.{
  ℕ, suc, ◌+◌, ◌<◌, ◌≤◌, ◌^◌, ◌≡◌, refl, sym, ap, ◌∙◌, Bool, true, false, Option, none, some, List,
  [], ◌∷◌, ◌++◌, ltb, leb, if◌then◌else◌, ◌&&◌, length, arith, Bytes, same, same→eq, get_elem?,
  codes, eq_of_some,
}
use iot_app_fw.Mask.{Mask, test, init, set_bit, copy, copied, grow, shrink}
use iot_app_fw.Mask.Bits.{bit_of-init, init-IsMask, grow-Grown, test-bit_of}
use iot_app_fw.Bus.{Watch, Bus, watch_at, append_at, append_watch}
use iot_app_fw.Bus.Quiet.{heard, listeners}

-- the search of `iot_event_id`, from an identifier on
unfoldable pub id_from : ℕ → Bytes → List Bytes → Option ℕ
id_from i name [] = none
id_from i name (e ∷ events) = if same e name then some i else id_from (i + 1) name events

-- `iot_event_id`: the identifier, and the table; `granted` and `copied_name` are the two allocations
unfoldable pub event_id : (granted copied_name : Bool) → Bytes → List Bytes → ℕ × List Bytes
event_id granted copied_name name events = elim (id_from 0 name events) [
  | some i ↦ (i, events)
  | none ↦ if granted && copied_name then (length events, events ++ name ∷ []) else (0, events)
]

-- `iot_event_name`, where the `int` of the comparison is negative from 2 ^ 31 on; `none` is a read
-- outside the table.
unfoldable pub event_name : ℕ → List Bytes → Option Bytes
event_name id events =
    if leb (2 ^ 31) id
    then get_elem? events id
    else if ltb id (length events)
    then get_elem? events id
    else some (codes "unknown")

-- `iot_event_bus_get`: `some none` is the global bus, `some (some i)` the bus at a place in the list;
-- `none` is NULL for want of memory.
unfoldable pub bus_at :
    (granted : Bool) → Option ℕ → Bytes → List Bytes → Option (Option ℕ) × List Bytes
bus_at granted (some i) name busses = (some (some i), busses)
bus_at granted none name busses =
    if granted then (some (some (length busses)), busses ++ name ∷ []) else (none, busses)

unfoldable pub bus_get :
    (granted : Bool) → Option Bytes → List Bytes → Option (Option ℕ) × List Bytes
bus_get granted none busses = (some none, busses)
bus_get granted (some name) busses =
    if same name (codes "global")
    then (some none, busses)
    else bus_at granted (id_from 0 name busses) name busses

-- The mask of a new watch, if it could be made, and the watch at the end of the list.
unfoldable pub watched : Option Mask → ℕ → Bus → Option Bus
watched none i b = none
watched (some m) i b = some (append_watch i m b)

-- `iot_event_add_watch`; `i` is the address that the first allocation gives
unfoldable pub add_watch : (allocated granted : Bool) → (i id : ℕ) → Bus → Option Bus
add_watch allocated granted i id b =
    if allocated then watched (set_bit granted init id) i b else none

unfoldable pub copied_mask : Bool × Mask × Mask → Option Mask
copied_mask (true, dst, src) = some dst
copied_mask (false, dst, src) = none

-- `iot_event_add_watch_mask`
unfoldable pub add_watch_mask : (allocated granted : Bool) → (i : ℕ) → Mask → Bus → Option Bus
add_watch_mask allocated granted i mask b =
    if allocated then watched (copied_mask (copy granted init mask)) i b else none

id_from-place :
    (k i : ℕ) (name : Bytes) (events : List Bytes)
    → id_from k name events ≡ some i
    → (j : ℕ) × (i ≡ k + j) × (get_elem? events j ≡ some name) × (j < length events)
unfolding id_from
id_from-place k i name [] h = absurd (none-ne-some i h)
id_from-place k i name (e ∷ events) h =
    at (same e name) refl h (id_from-place (k + 1) i name events)
  where
    at :
        (t : Bool)
        → same e name ≡ t
        → (if t then some k else id_from (k + 1) name events) ≡ some i
        → (id_from (k + 1) name events ≡ some i
            → (j : ℕ) × (i ≡ k + 1 + j) × (get_elem? events j ≡ some name) × (j < length events))
        → (j : ℕ) × (i ≡ k + j) × (get_elem? (e ∷ events) j ≡ some name) × (j < suc (length events))
    at true s h f =
        let eq : k ≡ i = eq_of_some h in
        (0, omega (arith, eq), ap some (same→eq e name s), omega arith)
    at false s h f =
        let (j, eq, found, high) = f h in (suc j, omega (arith, eq), found, omega (arith, high))

get_elem?-append : (xs : List Bytes) (x : Bytes) → get_elem? (xs ++ x ∷ []) (length xs) ≡ some x
get_elem?-append [] x = refl
get_elem?-append (y ∷ xs) x = get_elem?-append xs x

length-snoc : (xs : List Bytes) (x : Bytes) → length (xs ++ x ∷ []) ≡ suc (length xs)
length-snoc [] x = refl
length-snoc (y ∷ xs) x = ap suc (length-snoc xs x)

event_name-inside :
    (id : ℕ) (events : List Bytes) (name : Bytes)
    → id < length events
    → get_elem? events id ≡ some name
    → event_name id events ≡ some name
unfolding event_name
event_name-inside id events name h e =
    at (leb (2 ^ 31) id) (ltb id (length events)) (ground (arith, h))
  where
    at :
        (high inside : Bool)
        → inside ≡ true
        → (if high
            then get_elem? events id
            else if inside
            then get_elem? events id
            else some (codes "unknown"))
          ≡ some name
    at true inside t = e
    at false true t = e
    at false false t = absurd (cc)

-- The identifier that a name gets, while the allocations succeed, is one of the table's, and it has
-- that name.
pub event_name-event_id :
    (name : Bytes) (events : List Bytes)
    → (event_name (event_id true true name events).0 (event_id true true name events).1 ≡ some name)
      × ((event_id true true name events).0 < length (event_id true true name events).1)
unfolding event_id
event_name-event_id name events = at (id_from 0 name events) refl
  where
    result : Option ℕ → ℕ × List Bytes
    result o = elim o [ some i ↦ (i, events) | none ↦ (length events, events ++ name ∷ []) ]

    at :
        (o : Option ℕ)
        → id_from 0 name events ≡ o
        → (event_name (result o).0 (result o).1 ≡ some name) × ((result o).0 < length (result o).1)
    at (some i) e =
        let (j, eq, found, high) = id_from-place 0 i name events e in
        let same : i ≡ j = omega (arith, eq) in
        let inside : i < length events = omega (arith, same, high) in
        (event_name-inside i events name inside (ap (get_elem? events) same ∙ found), inside)
    at none e =
        let h : length events < length (events ++ name ∷ []) =
          omega (arith, length-snoc events name) in
        (
          event_name-inside (length events) (events ++ name ∷ []) name h
              (get_elem?-append events name),
          h,
        )

listeners-append :
    (event : ℕ) (ws vs : List Watch)
    → listeners event (ws ++ vs) ≡ listeners event ws ++ listeners event vs
listeners-append event [] vs = refl
listeners-append event (w ∷ ws) vs =
    ap (λ l. heard event w ++ l) (listeners-append event ws vs)
    ∙ sym (append_assoc (heard event w) (listeners event ws) (listeners event vs))

-- who is called for an event after a watch was added
watched-listeners :
    (m : Mask) (i event : ℕ) (b : Bus)
    → watch_at i b.watches ≡ none
    → listeners event (append_watch i m b).watches
      ≡ listeners event b.watches ++ (if test m event then i ∷ [] else [])
unfolding append_watch append_at
watched-listeners m i event b fresh =
    ap (λ o. listeners event (append_at o i m b).watches) fresh
    ∙ listeners-append event b.watches (new ∷ [])
    ∙ ap (λ l. listeners event b.watches ++ l) (append-nil (heard event new))
  where
    new : Watch
    new = record { id = i; mask = m; dead = false }

init-clear : (c : ℕ) → test init c ≡ false
init-clear c = test-bit_of init c init-IsMask ∙ bit_of-init c

copy-init-clear :
    (granted : Bool) (mask m : Mask) (event : ℕ)
    → 64 ≤ mask.nbit
    → copied_mask (copy granted init mask) ≡ some m
    → test m event ≡ false
unfolding copied_mask copy copied init
copy-init-clear granted mask m event h e =
    at (ltb 64 mask.nbit) (ltb mask.nbit 64) (ground (arith, h)) (grow granted init mask.nbit) refl
      e
  where
    grown : Option Mask → Bool × Mask × Mask
    grown o = elim o [ none ↦ (false, init, mask) | some d ↦ copied d mask ]

    shrunk : Bool × Mask × Mask
    shrunk = elim (shrink granted init mask.nbit) [
      | none ↦ copied init mask
      | some d ↦ (false, d, mask)
    ]

    at :
        (more less : Bool)
        → less ≡ false
        → (o : Option Mask) → grow granted init mask.nbit ≡ o
        → copied_mask (if more then grown o else if less then shrunk else copied init mask) ≡ some m
        → test m event ≡ false
    at true less n none g e = absurd (none-ne-some m e)
    at true less n (some d) g e =
        let w = grow-Grown granted init d mask.nbit init-IsMask g in
        subst (λ m. test m event ≡ false) (eq_of_some e)
          (test-bit_of d event w.mask ∙ w.same event ∙ bit_of-init event)
    at false true n o g e = absurd (cc)
    at false false n o g e = subst (λ m. test m event ≡ false) (eq_of_some e) (init-clear event)

-- A watch that was added for the events of a mask of 64 bits or more, at an address that no other
-- has, is called for none of them: `iot_mask_copy` copies the new watch's mask, which is empty, into
-- the caller's.
pub add_watch_mask-listeners :
    (allocated granted : Bool) (i event : ℕ) (mask : Mask) (b b' : Bus)
    → 64 ≤ mask.nbit
    → watch_at i b.watches ≡ none
    → add_watch_mask allocated granted i mask b ≡ some b'
    → listeners event b'.watches ≡ listeners event b.watches
unfolding add_watch_mask watched
add_watch_mask-listeners false granted i event mask b b' h fresh e = absurd (none-ne-some b' e)
add_watch_mask-listeners true granted i event mask b b' h fresh e =
    at (copied_mask (copy granted init mask)) refl e
  where
    at :
        (o : Option Mask)
        → copied_mask (copy granted init mask) ≡ o
        → watched o i b ≡ some b'
        → listeners event b'.watches ≡ listeners event b.watches
    at none e h = absurd (none-ne-some b' h)
    at (some m) e k =
        subst (λ b'. listeners event b'.watches ≡ listeners event b.watches) (eq_of_some k)
          (watched-listeners m i event b fresh
            ∙ ap (λ t. listeners event b.watches ++ (if t then i ∷ [] else []))
                (copy-init-clear granted mask m event h e)
            ∙ append-nil (listeners event b.watches))
