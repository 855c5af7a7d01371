-- ===== src/Stream.antt =====
-- Receiving in src/common/stream-transport.c: `strm_recv_cb` collects what a socket delivers in a
-- fragment buffer and hands the complete frames on. What the socket and the receiver of a message
-- do is the environment's: the results of `FIONREAD` and `read` come as a list, and the reaction to
-- a message as a function.
pub mod Receive
pub mod Delivery
pub mod Session
mod Tests
use iot_app_fw.Common.{
  ℕ, zero, suc, ◌+◌, Bool, true, false, Option, none, some, List, [], ◌∷◌, Bytes, ltb, ◌==◌,
  if◌then◌else◌, length, take, drop,
}
use iot_app_fw.Fragbuf.{Fragbuf, Pulled, memory, write_at, alloc, trim, pull}

-- One round of the read loop: `pending` bytes were announced, and `read` returned `got`, a count
-- and so many bytes, or failed with or without `EAGAIN`.
pub data Read : Type 0 where
  got : Bytes → Read
  again : Read
  failed : Read

pub record Round : Type 0 where
  pub pending : ℕ
  pub granted : Bool
  pub outcome : Read

-- `read(fd, buf, pending)` into the memory at `p`, and the trimming of what was not filled.
unfoldable pub store : Fragbuf → (p pending : ℕ) → Bytes → Fragbuf
store b p pending v =
    let filled : Fragbuf = record b { bytes = some (write_at (memory b) p v) } in
    if ltb (length v) pending then (trim filled p pending (length v)).1 else filled

-- The rest of a round, with the pointer that was allocated: `none` is the fatal error, after which
-- the transport is closed.
unfoldable pub round_at : Fragbuf → Round → Option ℕ → Option Fragbuf
round_at b r none = none
round_at b r (some p) = elim r.outcome [
  | got v ↦ some (store b p r.pending v)
  | again ↦ some b
  | failed ↦ none
]

unfoldable pub round : Fragbuf → Round → Option Fragbuf
round b r = round_at (alloc r.granted b r.pending).1 r (alloc r.granted b r.pending).0

-- `while (ioctl(fd, FIONREAD, &pending) == 0 && pending > 0)`: the rounds until nothing is pending.
unfoldable pub read_all : Fragbuf → List Round → Option Fragbuf
read_all b [] = some b
read_all b (r ∷ rs) = elim (round b r) [ none ↦ none | some b' ↦ read_all b' rs ]

-- What the receiver does with a message: it goes on, reports an error, or destroys the transport.
pub data Reaction : Type 0 where
  goes_on reports destroys : Reaction

-- Where a run of the callback ends, with the messages handed on: it waits for more input, or the
-- transport was closed or destroyed. `lost` is a read or write outside the buffer's memory, or an
-- iteration that the fuel did not suffice for.
pub data Ending : Type 0 where
  waits : List Bytes → Fragbuf → Ending
  closed : List Bytes → Ending
  destroyed : List Bytes → Ending
  lost : Ending

abbrev pub add_message : Bytes → Ending → Ending
add_message m (waits ms b) = waits (m ∷ ms) b
add_message m (closed ms) = closed (m ∷ ms)
add_message m (destroyed ms) = destroyed (m ∷ ms)
add_message m lost = lost

-- the `*sizep` bytes at `*datap`
abbrev pub message : Pulled → Bytes
message r = elim r.datap [ none ↦ [] | some p ↦ take r.sizep (drop p (memory r.buf)) ]

-- What follows a message, given its reaction and how the loop would go on.
unfoldable pub hand_on : Reaction → Bytes → Ending → Ending
hand_on goes_on m more = add_message m more
hand_on reports m more = closed (m ∷ [])
hand_on destroys m more = destroyed (m ∷ [])

module _ (react : Bytes → Reaction) where
  -- The loop's body, given what `iot_fragbuf_pull` left and how the loop would go on.
  unfoldable pub pulled : (more : Pulled → Ending) → Option Pulled → Ending
  unfolding hand_on
  pulled more none = lost
  pulled more (some r) =
      let next : Ending = more r in
      if r.ok then hand_on (react (message r)) (message r) next else waits [] r.buf

  -- `while (iot_fragbuf_pull(t->buf, &data, &size))`
  unfoldable pub drain : (fuel : ℕ) → Fragbuf → (datap : Option ℕ) → (sizep : ℕ) → Ending
  unfolding pulled
  drain zero b datap sizep = lost
  drain (suc fuel) b datap sizep =
      pulled (λ r. drain fuel r.buf r.datap r.sizep) (pull b datap sizep)

  -- `strm_recv_cb` on `IOT_IO_EVENT_IN`: the reads, then the frames. A frame takes four bytes, so
  -- as many rounds as there are bytes, and one, are enough.
  unfoldable pub receive : Fragbuf → List Round → Ending
  receive b rs = elim (read_all b rs) [ none ↦ closed [] | some b' ↦ drain (suc b'.used) b' none 0 ]
