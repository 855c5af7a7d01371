-- ===== src/Stream/Session.antt =====
-- A whole connection of src/common/stream-transport.c: the runs of `strm_recv_cb` between which the
-- sender's byte stream is cut at will.
use mathlib.Core.List.{append_assoc, append-nil}
use mathlib.Core.Path.{subst}
use iot_app_fw.Common.{
  ℕ, ◌+◌, ◌^◌, ◌≤◌, ◌<◌, ◌≡◌, refl, sym, ap, ◌∙◌, true, none, List, [], ltb, ltb→lt, ◌∷◌, ◌++◌, inl,
  inr, arith, Bytes, length, Bool-cases, All, map, length-append, take-append,
}
use iot_app_fw.Fragbuf.{Fragbuf, content, be32, IsValid}
use iot_app_fw.Fragbuf.Pull.{
  be32-take, be32-be32_bytes, frame, Sendable, length-frame, Waits, short, partial, content-used,
}
use iot_app_fw.Stream.{Ending, waits, closed, destroyed, lost, Reaction, add_message, receive}
use iot_app_fw.Stream.Receive.{reads, IsRead, announced, arrived}
use iot_app_fw.Stream.Delivery.{frames, Accepts, Delivers, delivers, Delivers-add, receive-frames}

uncons {ℓ} : {A : Type ℓ} (x y : A) (xs ys : List A) → x ∷ xs ≡ y ∷ ys → (x ≡ y) × (xs ≡ ys)
uncons x y xs ys e = (cc, cc)

-- Two ways to cut a list, the first cut behind the second.
append-split {ℓ} :
    {A : Type ℓ} (u x y w : List A)
    → x ++ y ≡ u ++ w
    → length u ≤ length x
    → (z : List A) × (x ≡ u ++ z) × (z ++ y ≡ w)
append-split [] x y w e h = (x, refl, e)
append-split (a ∷ u) [] y w e h = absurd (omega arith)
append-split (a ∷ u) (b ∷ x) y w e h =
    let (p, q) = uncons b a (x ++ y) (u ++ w) e in
    let (z, r, s) = append-split u x y w q (omega arith) in (z, cc, s)

-- A content that waits does not begin with a whole frame.
Waits-not_frame : (c m w : Bytes) → Sendable m → Waits c → c ≡ frame m ++ w → ⊥
unfolding frame
Waits-not_frame c m w s (short h) e =
    omega (arith, ap length e, length-append (frame m) w, length-frame m)
Waits-not_frame c m w s (partial h k) e =
    let header : be32 c ≡ length m =
      ap be32 e ∙ be32-be32_bytes (length m) (m ++ w) (omega arith) in
    omega (arith, ap length e, length-append (frame m) w, length-frame m, header)

-- A piece of a byte stream of messages: whole messages, and the beginning of the next.
record Cut (limit : ℕ) (x y : Bytes) (ms : List Bytes) : Type 0 where
  done : List Bytes
  todo : List Bytes
  left : Bytes
  all : ms ≡ done ++ todo
  here : x ≡ frames done ++ left
  there : left ++ y ≡ frames todo
  waiting : Waits left
  small : length left ≤ limit

abbrev pub Below : ℕ → Bytes → Type 0
Below limit m = length m + 4 ≤ limit

Waits-part :
    (x y m : Bytes) (w : Bytes)
    → Sendable m
    → x ++ y ≡ frame m ++ w
    → length x < length (frame m)
    → Waits x
unfolding frame
Waits-part x y m w s e h = elim (Bool-cases (ltb (length x) 4)) [
  | inl t ↦ short (ltb→lt (length x) 4 t)
  | inr t ↦
      let long : 4 ≤ length x = ground arith in
      let header : be32 x ≡ length m =
        ap be32 (sym (take-append x y))
        ∙ be32-take (length x) (x ++ y) long
        ∙ ap be32 e
        ∙ be32-be32_bytes (length m) (m ++ w) (omega arith) in
      partial (omega (arith, length-frame m)) (omega arith)
]

cut :
    (limit : ℕ) (x y : Bytes) (ms : List Bytes)
    → All Sendable ms
    → All (Below limit) ms
    → x ++ y ≡ frames ms
    → Cut limit x y ms
unfolding frames
cut limit [] y [] s b e = record {
  done = [];
  todo = [];
  left = [];
  all = refl;
  here = refl;
  there = e;
  waiting = short (omega arith);
  small = omega arith;
}
cut limit (c ∷ x) y [] s b e = absurd (cc)
cut limit x y (m ∷ ms) s b e = elim (Bool-cases (ltb (length x) (length (frame m)))) [
  | inl t ↦ record {
    done = [];
    todo = m ∷ ms;
    left = x;
    all = refl;
    here = refl;
    there = e;
    waiting = Waits-part x y m (frames ms) s.0 e (ltb→lt (length x) (length (frame m)) t);
    small = omega (arith, ltb→lt (length x) (length (frame m)) t, length-frame m, b.0);
  }
  | inr t ↦
      let (z, p, q) = append-split (frame m) x y (frames ms) e (ground arith) in
      let r = cut limit z y ms s.1 b.1 q in
      record {
        done = m ∷ r.done;
        todo = r.todo;
        left = r.left;
        all = ap (λ l. m ∷ l) r.all;
        here =
            p ∙ ap (λ l. frame m ++ l) r.here ∙ sym (append_assoc (frame m) (frames r.done) r.left);
        there = r.there;
        waiting = r.waiting;
        small = r.small;
      }
]

All-append {ℓ κ} :
    {A : Type ℓ} (P : A → Type κ) (xs ys : List A) → All P (xs ++ ys) → All P xs × All P ys
All-append P [] ys h = (tt, h)
All-append P (x ∷ xs) ys h = let (a, b) = All-append P xs ys h.1 in ((h.0, a), b)

-- what `iot_fragbuf_create(TRUE, 0)` returns
abbrev pub fresh : Fragbuf
fresh = record { bytes = none; size = 0; used = 0; framed = true }

-- all that arrives in the runs
unfoldable pub all_arrived : List (List (ℕ × Bytes)) → Bytes
all_arrived [] = []
all_arrived (rs ∷ rss) = arrived rs ++ all_arrived rss

-- the messages of a run that waits, in front of those of the next
abbrev pub add_messages : List Bytes → Ending → Ending
add_messages [] e = e
add_messages (m ∷ ms) e = add_message m (add_messages ms e)

module _ (react : Bytes → Reaction) where
  -- The callback's runs one after the other, until the transport is gone.
  pub continue_with : (Fragbuf → Ending) → Ending → Ending
  continue_with next (waits ms b) = add_messages ms (next b)
  continue_with next (closed ms) = closed ms
  continue_with next (destroyed ms) = destroyed ms
  continue_with next lost = lost

  unfoldable pub session : Fragbuf → List (List (ℕ × Bytes)) → Ending
  unfolding continue_with
  session b [] = waits [] b
  session b (rs ∷ rss) = continue_with (λ c. session c rss) (receive react b (map reads rs))

  Delivers-continue :
      (next : Fragbuf → Ending) (ms ns : List Bytes) (left rest : Bytes) (e : Ending)
      → Delivers react true ms left e
      → ((c : Fragbuf)
          → IsValid c
          → c.framed ≡ true
          → content c ≡ left
          → Delivers react true ns rest (next c))
      → Delivers react true (ms ++ ns) rest (continue_with next e)
  unfolding continue_with
  Delivers-continue next ms ns left rest e (delivers b v f c) go = prepend ms (next b) (go b v f c)
    where
      prepend :
          (ms : List Bytes) (e : Ending)
          → Delivers react true ns rest e
          → Delivers react true (ms ++ ns) rest (add_messages ms e)
      prepend [] e d = d
      prepend (m ∷ ms) e d = Delivers-add react true m (ms ++ ns) rest _ (prepend ms e d)

  session-frames :
      (limit : ℕ) (b : Fragbuf) (rss : List (List (ℕ × Bytes))) (ms : List Bytes)
      → IsValid b
      → b.framed ≡ true
      → length (content b) ≤ limit
      → Waits (content b)
      → All (All IsRead) rss
      → All (λ rs. limit + announced rs < 2 ^ 31) rss
      → All Sendable ms
      → All (Below limit) ms
      → All (Accepts react) ms
      → content b ++ all_arrived rss ≡ frames ms
      → Delivers react true ms [] (session b rss)
  unfolding session all_arrived frames
  session-frames limit b [] [] v f small w r fits s below a e =
      delivers b v f (sym (append-nil (content b)) ∙ e)
  session-frames limit b [] (m ∷ ms) v f small w r fits s below a e =
      absurd (Waits-not_frame (content b) m (frames ms) s.0 w (sym (append-nil (content b)) ∙ e))
  session-frames limit b (rs ∷ rss) ms v f small w r fits s below a e =
      let k =
        cut limit (content b ++ arrived rs) (all_arrived rss) ms s below
          (append_assoc (content b) (arrived rs) (all_arrived rss) ∙ e) in
      let (s1, s2) = All-append Sendable k.done k.todo (subst (All Sendable) k.all s) in
      let (b1, b2) =
        All-append (Below limit) k.done k.todo (subst (All (Below limit)) k.all below) in
      let (a1, a2) =
        All-append (Accepts react) k.done k.todo (subst (All (Accepts react)) k.all a) in
      subst (λ l. Delivers react true l [] (session b (rs ∷ rss))) (sym k.all)
        (Delivers-continue (λ c. session c rss) k.done k.todo k.left []
          (receive react b (map reads rs))
          (receive-frames react b rs k.done k.left v f r.0 (omega (arith, fits.0, content-used b v))
            s1 a1 k.waiting k.here)
          (λ c v' f' e'.
            session-frames limit c rss k.todo v' f' (rw e' k.small) (rw e' k.waiting) r.1 fits.1 s2
              b2 a2 (ap (λ l. l ++ all_arrived rss) e' ∙ k.there)))

  -- If what arrives over a connection, in pieces cut at will and over any number of runs of the
  -- callback, is in all the frames of some messages, then exactly these are handed on, in order, and
  -- the buffer is empty at the end. Each message has a byte at least and 2 ^ 31 - 5 at most, the
  -- receiver goes on after each, memory is there, and what a run reads fits an int beside the longest
  -- message (`limit` bounds the frames).
  pub session_delivers :
      (limit : ℕ) (rss : List (List (ℕ × Bytes))) (ms : List Bytes)
      → All (All IsRead) rss
      → All (λ rs. limit + announced rs < 2 ^ 31) rss
      → All Sendable ms
      → All (Below limit) ms
      → All (Accepts react) ms
      → all_arrived rss ≡ frames ms
      → (b : Fragbuf) × (session fresh rss ≡ waits ms b) × (content b ≡ [])
  session_delivers limit rss ms r fits s below a e = ended (
      session-frames limit fresh rss ms (omega arith) refl (omega arith) (short (omega arith)) r
        fits s below a e)
    where
      ended :
          {x : Ending}
          → Delivers react true ms [] x
          → (b : Fragbuf) × (x ≡ waits ms b) × (content b ≡ [])
      ended (delivers b v f c) = (b, refl, c)
