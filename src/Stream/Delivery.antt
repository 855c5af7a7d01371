-- ===== src/Stream/Delivery.antt =====
-- The stream transport of src/common/stream-transport.c end to end: a sender's messages behind their
-- lengths, in whatever pieces they arrive, come out of `strm_recv_cb` one by one and in order.
use mathlib.Core.List.{append_assoc}
use iot_app_fw.Common.{
  ℕ, zero, suc, ◌+◌, ◌^◌, ◌≤◌, ◌<◌, ◌≡◌, ap, ◌∙◌, Bool, true, none, some, List, [], ◌∷◌, ◌++◌,
  arith, Bytes, length, All, map, length-append,
}
use iot_app_fw.Fragbuf.{Fragbuf, Pulled, content, shift, IsValid}
use iot_app_fw.Fragbuf.Pull.{
  frame, Sendable, length-frame, used-frame, memory-frame, pull_first-frame, pull_next-frame,
  shift-frame, pull_frame-frame, Waits, pull_frame-Waits, pull_first-Waits,
}
use iot_app_fw.Stream.{Ending, waits, Reaction, goes_on, add_message, pulled, drain, receive}
use iot_app_fw.Stream.Receive.{reads, IsRead, announced, arrived, read_all-arrived}

-- the byte stream of a list of messages
unfoldable pub frames : List Bytes → Bytes
frames [] = []
frames (m ∷ ms) = frame m ++ frames ms

module _ (react : Bytes → Reaction) where
  abbrev pub Accepts : Bytes → Type 0
  Accepts m = react m ≡ goes_on

  -- A run that ends with the messages `ms` handed on, and the buffer left with the content `rest`.
  pub data Delivers (framed : Bool) (ms : List Bytes) (rest : Bytes) : Ending → Type 0 where
    delivers :
        (b : Fragbuf)
        → IsValid b
        → b.framed ≡ framed
        → content b ≡ rest
        → Delivers framed ms rest (waits ms b)

  pub Delivers-add :
      (f : Bool) (m : Bytes) (ms : List Bytes) (rest : Bytes) (e : Ending)
      → Delivers f ms rest e
      → Delivers f (m ∷ ms) rest (add_message m e)
  Delivers-add f m ms rest e (delivers b v g c) = delivers b v g c

  -- A call that finds the frame of `m` hands it on.
  pulled-frame :
      (b : Fragbuf) (m rest : Bytes) (more : Pulled → Ending)
      → IsValid b
      → content b ≡ frame m ++ rest
      → Sendable m
      → Accepts m
      → pulled react more (some (record { ok = true; datap = some 4; sizep = length m; buf = b }))
        ≡ add_message m (more (record { ok = true; datap = some 4; sizep = length m; buf = b }))
  unfolding pulled
  pulled-frame b m rest more v e s a = rw (memory-frame b m rest v e s, a)

  -- From a call that found a frame on: the rest of the loop.
  drain-frames :
      (fuel : ℕ) (b : Fragbuf) (m : Bytes) (ms : List Bytes) (rest : Bytes) (z : ℕ)
      → IsValid b
      → b.framed ≡ true
      → All Sendable (m ∷ ms)
      → All Accepts ms
      → Waits rest
      → content b ≡ frame m ++ (frames ms ++ rest)
      → length ms < fuel
      → Delivers true ms rest (drain react fuel b (some 4) z)
  unfolding drain frames
  drain-frames zero b m ms rest z v f s a w e lt = absurd (omega arith)
  drain-frames (suc fuel) b m [] rest z v f s a w e lt =
      let (h, c) = shift-frame b m rest v e s.0 in
      rw
        (
          pull_next-frame b m rest v e s.0 z f,
          pull_frame-Waits (shift b (length m + 4)) h.valid z (rw c w),
        )
        (delivers (shift b (length m + 4)) h.valid (h.framed ∙ f) c)
  drain-frames (suc fuel) b m (m' ∷ ms) rest z v f s a w e lt =
      let c = shift b (length m + 4) in
      let (h, front) =
        shift-frame b m (frame m' ++ (frames ms ++ rest)) v
          (e ∙ ap (λ l. frame m ++ l) (append_assoc (frame m') (frames ms) rest)) s.0 in
      rw
        (
          pull_next-frame b m (frames (m' ∷ ms) ++ rest) v e s.0 z f,
          pull_frame-frame c m' (frames ms ++ rest) h.valid front s.1.0 z,
          pulled-frame c m' (frames ms ++ rest) (λ r. drain react fuel r.buf r.datap r.sizep)
              h.valid front s.1.0 a.0,
        )
        (Delivers-add true m' ms rest _ (
          drain-frames fuel c m' ms rest (length m') h.valid (h.framed ∙ f) s.1 a.1 w front
            (omega arith)))

  length-frames : (ms : List Bytes) → length ms ≤ length (frames ms)
  unfolding frames
  length-frames [] = omega arith
  length-frames (m ∷ ms) =
      omega (arith, length-frames ms, length-append (frame m) (frames ms), length-frame m)

  -- The loop from its start, on a content that is made of frames and a rest.
  drain_all :
      (b : Fragbuf) (ms : List Bytes) (rest : Bytes)
      → IsValid b
      → b.framed ≡ true
      → All Sendable ms
      → All Accepts ms
      → Waits rest
      → content b ≡ frames ms ++ rest
      → Delivers true ms rest (drain react (suc b.used) b none 0)
  unfolding drain frames
  drain_all b [] rest v f s a w e = rw (pull_first-Waits b v 0 f (rw e w)) (delivers b v f e)
  drain_all b (m ∷ ms) rest v f s a w e =
      let front : content b ≡ frame m ++ (frames ms ++ rest) =
        e ∙ append_assoc (frame m) (frames ms) rest in
      let n : length ms < b.used = omega (
        arith,
        used-frame b m (frames ms ++ rest) v front s.0,
        length-frames ms,
        length-append (frames ms) rest,
      ) in
      rw
        (
          pull_first-frame b m (frames ms ++ rest) v front s.0 0 f,
          pulled-frame b m (frames ms ++ rest) (λ r. drain react b.used r.buf r.datap r.sizep) v
              front s.0 a.0,
        )
        (Delivers-add true m ms rest _
          (drain-frames b.used b m ms rest (length m) v f s a.1 w front n))

  -- One run of the callback: if what was left over and what arrives are the frames of messages that
  -- the receiver accepts and the beginning of another, the messages are handed on, in order, and the
  -- beginning is left over. Each message has a byte at least and 2 ^ 31 - 5 at most, which holds for
  -- the one that begins too where its length is there; the receiver goes on after each; the buffer is
  -- in order and takes frames; memory is there, and each read gives at most the bytes that were
  -- announced; and the buffer's bytes and those announced are fewer than 2 ^ 31.
  pub receive-frames :
      (b : Fragbuf) (rs : List (ℕ × Bytes)) (ms : List Bytes) (rest : Bytes)
      → IsValid b
      → b.framed ≡ true
      → All IsRead rs
      → b.used + announced rs < 2 ^ 31
      → All Sendable ms
      → All Accepts ms
      → Waits rest
      → content b ++ arrived rs ≡ frames ms ++ rest
      → Delivers true ms rest (receive react b (map reads rs))
  unfolding receive
  receive-frames b rs ms rest v f r fits s a w e =
      let (c, run, g) = read_all-arrived b rs v r fits in
      rw (run, receive) (drain_all c ms rest g.valid (g.framed ∙ f) s a w (g.added ∙ e))
