-- ===== src/Fragbuf/Push.antt =====
-- The growing operations of src/common/fragbuf.c: what they keep, and what they add.
use iot_app_fw.Common.{
  ℕ, zero, suc, ◌+◌, ◌-◌, ◌^◌, ◌≤◌, ◌<◌, ◌≡◌, refl, sym, ap, ◌∙◌, Bool, true, false, none, some,
  List, [], ◌∷◌, ◌++◌, inl, inr, arith, Bytes, ltb, ltb→lt, length, take, drop, replicate, is_some,
  Bool-cases, Option-cases, length-append, length-take, length-drop, take-append, length-replicate,
}
use mathlib.Core.Bool.{false≢true}
use native.Mathlib.Nat.{zero-add, suc-add}
use iot_app_fw.Fragbuf.{Fragbuf, memory, content, write_at, ensure, push_at, push, IsValid}

pub length-write_at :
    (m : Bytes) (i : ℕ) (v : Bytes) → i + length v ≤ length m → length (write_at m i v) ≡ length m
unfolding write_at
length-write_at m i v h = omega (
  arith,
  length-append (take i m) (v ++ drop (i + length v) m),
  length-append v (drop (i + length v) m),
  length-take i m,
  length-drop (i + length v) m,
)

-- What `fragbuf_ensure` gives: valid, as many bytes in use, the same content, and room.
pub record Ensured (b b' : Fragbuf) (n : ℕ) : Type 0 where
  pub valid : IsValid b'
  pub used : b'.used ≡ b.used
  pub framed : b'.framed ≡ b.framed
  pub same : content b' ≡ content b
  pub room : b'.used + n ≤ b'.size

take-append_le {ℓ} :
    {A : Type ℓ} (n : ℕ) (xs ys : List A) → n ≤ length xs → take n (xs ++ ys) ≡ take n xs
take-append_le zero xs ys h = refl
take-append_le (suc n) [] ys h = absurd (omega arith)
take-append_le (suc n) (x ∷ xs) ys h = ap (λ l. x ∷ l) (take-append_le n xs ys (omega arith))

pub ensure-Ensured :
    (granted : Bool) (b : Fragbuf) (n : ℕ)
    → IsValid b
    → b.used + n < 2 ^ 31
    → is_some (ensure granted b n).0 ≡ true
    → ((ensure granted b n).0 ≡ some b.used) × Ensured b (ensure granted b n).1 n
unfolding ensure
ensure-Ensured true b n v h e = elim (Bool-cases (ltb (b.size - b.used) n)) [
  | inl t ↦ rw t (
    refl,
    record {
      valid = record {
        within = omega arith;
        sized = omega (
          arith,
          ltb→lt (b.size - b.used) n,
          length-append (memory b) (replicate (n - (b.size - b.used)) 0),
          length-replicate {A = ℕ} (n - (b.size - b.used)) 0,
          v.sized,
        );
        int = omega (arith, ltb→lt (b.size - b.used) n);
      };
      used = refl;
      framed = refl;
      same =
          take-append_le b.used (memory b) (replicate (n - (b.size - b.used)) 0)
            (omega (arith, v.sized));
      room = omega (arith, ltb→lt (b.size - b.used) n);
    },
  )
  | inr t ↦ rw t (
    ground arith,
    record { valid = v; used = refl; framed = refl; same = refl; room = ground arith },
  )
]
ensure-Ensured false b n v h e = elim (Bool-cases (ltb (b.size - b.used) n)) [
  | inl t ↦ ground arith
  | inr t ↦ rw t (
    ground arith,
    record { valid = v; used = refl; framed = refl; same = refl; room = ground arith },
  )
]

-- Where room is needed and memory is refused, nothing changes.
pub ensure_refused :
    (granted : Bool) (b : Fragbuf) (n : ℕ)
    → (ensure granted b n).0 ≡ none
    → (ensure granted b n).1 ≡ b
unfolding ensure
ensure_refused granted b n e = ground arith

pub take-write_at :
    (m : Bytes) (i : ℕ) (v : Bytes)
    → i ≤ length m
    → take (i + length v) (write_at m i v) ≡ take i m ++ v
unfolding write_at
take-write_at m zero v h = rw zero-add (take-append v (drop (length v) m))
take-write_at [] (suc i) v h = absurd (omega arith)
take-write_at (x ∷ m) (suc i) v h = rw suc-add (ap (λ l. x ∷ l) (take-write_at m i v (omega arith)))

-- What an operation that adds bytes promises: the buffer stays valid, and its content is the old
-- content and the new bytes.
pub record Appended (b b' : Fragbuf) (v : Bytes) : Type 0 where
  pub valid : IsValid b'
  pub framed : b'.framed ≡ b.framed
  pub added : content b' ≡ content b ++ v
  pub counted : b'.used ≡ b.used + length v

Appended-write :
    (b c : Fragbuf) (v : Bytes)
    → Ensured b c (length v)
    → Appended b
        (record c { bytes = some (write_at (memory c) c.used v); used = c.used + length v })
        v
Appended-write b c v g = record {
  valid = record {
    within = g.room;
    sized =
        length-write_at (memory c) c.used v (omega (arith, g.valid.sized, g.room)) ∙ g.valid.sized;
    int = g.valid.int;
  };
  framed = g.framed;
  added =
      take-write_at (memory c) c.used v (omega (arith, g.valid.sized, g.valid.within))
      ∙ ap (λ l. l ++ v) g.same;
  counted = ap (λ n. n + length v) g.used;
}

-- `iot_fragbuf_push` into a valid buffer, of bytes that an int can count: where it succeeds the
-- bytes stand behind the old content, and where it fails nothing has changed.
pub push-Appended :
    (granted : Bool) (b : Fragbuf) (v : Bytes)
    → IsValid b
    → b.used + length v < 2 ^ 31
    → ((push granted b v).0 ≡ true → Appended b (push granted b v).1 v)
      × ((push granted b v).0 ≡ false → (push granted b v).1 ≡ b)
unfolding push
push-Appended granted b v valid fits = elim (Option-cases (ensure granted b (length v)).0) [
  | inl e ↦ (
    λ h.
        absurd (false≢true (sym (ap (λ o. (push_at (ensure granted b (length v)).1 v o).0) e) ∙ h)),
    λ h. rw e (ensure_refused granted b (length v) e),
  )
  | inr (i, e) ↦
      let (at, g) = ensure-Ensured granted b (length v) valid fits (rw e) in
      let at-used : i ≡ (ensure granted b (length v)).1.used = ground (arith, g.used) in
      (
        λ h. rw (e, at-used) (Appended-write b (ensure granted b (length v)).1 v g),
        λ h. ground arith,
      )
]
