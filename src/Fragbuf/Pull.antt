-- ===== src/Fragbuf/Pull.antt =====
-- `iot_fragbuf_pull` of src/common/fragbuf.c on a framed buffer, in terms of the content.
use iot_app_fw.Common.{
  ℕ, zero, suc, ◌+◌, ◌-◌, ◌/◌, ◌%◌, ◌^◌, ◌≤◌, ◌<◌, ◌≡◌, refl, sym, ap, ◌∙◌, true, false, none, some,
  List, [], ◌∷◌, ◌++◌, inl, inr, arith, Bytes, leb, ltb, length, get_or, take, drop, Bool-cases,
  length-append, length-take, length-drop, take-append, drop-append,
}
use native.Mathlib.Nat.{sub-zero, suc-sub-suc}
use iot_app_fw.Fragbuf.{
  Fragbuf, memory, content, pointer, write_at, be32, holds, shift, pull_first, pull_frame,
  pull_next, pull, IsValid,
}
use iot_app_fw.Fragbuf.Push.{length-write_at, take-write_at}

get_or-take {ℓ} :
    {A : Type ℓ} (n i : ℕ) (xs : List A) (d : A) → i < n → get_or (take n xs) i d ≡ get_or xs i d
get_or-take zero i xs d h = absurd (omega arith)
get_or-take (suc n) i [] d h = refl
get_or-take (suc n) zero (x ∷ xs) d h = refl
get_or-take (suc n) (suc i) (x ∷ xs) d h = get_or-take n i xs d (omega arith)

take_nil {ℓ} : {A : Type ℓ} (j : ℕ) → take {A = A} j [] ≡ []
take_nil zero = refl
take_nil (suc j) = refl

take-drop {ℓ} :
    {A : Type ℓ} (k n : ℕ) (xs : List A) → n ≤ k → take (k - n) (drop n xs) ≡ drop n (take k xs)
take-drop k zero xs h = rw sub-zero
take-drop zero (suc n) xs h = absurd (omega arith)
take-drop (suc k) (suc n) [] h = take_nil (suc k - suc n)
take-drop (suc k) (suc n) (x ∷ xs) h = rw suc-sub-suc (take-drop k n xs (omega arith))

pub be32-take : (n : ℕ) (m : Bytes) → 4 ≤ n → be32 (take n m) ≡ be32 m
unfolding be32
be32-take n m h =
    let e0 = get_or-take n 0 m 0 (omega arith) in
    let e1 = get_or-take n 1 m 0 (omega arith) in
    let e2 = get_or-take n 2 m 0 (omega arith) in
    let e3 = get_or-take n 3 m 0 (omega arith) in rw (e0, e1, e2, e3)

-- `htobe32`
unfoldable pub be32_bytes : ℕ → Bytes
be32_bytes n = (n / 2 ^ 24 % 256) ∷ (n / 2 ^ 16 % 256) ∷ (n / 2 ^ 8 % 256) ∷ (n % 256) ∷ []

pub be32-be32_bytes : (n : ℕ) (t : Bytes) → n < 2 ^ 32 → be32 (be32_bytes n ++ t) ≡ n
unfolding be32 be32_bytes
be32-be32_bytes n t h = omega arith

-- A message behind its length, as `strm_sendjson` of src/common/stream-transport.c writes it.
unfoldable pub frame : Bytes → Bytes
unfolding be32_bytes
frame m = be32_bytes (length m) ++ m

-- A message that the casts to int leave as it is.
abbrev pub Sendable : Bytes → Type 0
Sendable m = (0 < length m) × (length m + 4 < 2 ^ 31)

pub length-frame : (m : Bytes) → length (frame m) ≡ 4 + length m
unfolding frame
length-frame m = omega arith

pub holds_iff : (used n : ℕ) → n < 2 ^ 31 → holds used n ≡ leb n used
unfolding holds
holds_iff used n h = ground arith

-- What dropping the first `n` bytes leaves.
pub record Shifted (b c : Fragbuf) (n : ℕ) : Type 0 where
  pub valid : IsValid c
  pub framed : c.framed ≡ b.framed
  pub used : c.used ≡ b.used - n
  pub rest : content c ≡ drop n (content b)

pub shift-Shifted : (b : Fragbuf) (n : ℕ) → IsValid b → n ≤ b.used → Shifted b (shift b n) n
unfolding shift
shift-Shifted b n v h =
    let moved : Bytes = take (b.used - n) (drop n (memory b)) in
    let len : length moved ≡ b.used - n = omega (
      arith,
      length-take (b.used - n) (drop n (memory b)),
      length-drop n (memory b),
      v.sized,
      v.within,
    ) in
    let same : b.used - n ≡ 0 + length moved = omega arith in
    record {
      valid = record {
        within = omega (arith, v.within);
        sized = length-write_at (memory b) 0 moved (omega (arith, v.sized, v.within)) ∙ v.sized;
        int = v.int;
      };
      framed = refl;
      used = refl;
      rest =
          ap (λ k. take k (write_at (memory b) 0 moved)) same
          ∙ take-write_at (memory b) 0 moved (omega arith)
          ∙ take-drop b.used n (memory b) h;
    }

-- The memory's first bytes are the content's.
be32-memory : (b : Fragbuf) → 4 ≤ b.used → be32 (memory b) ≡ be32 (content b)
be32-memory b h = sym (be32-take b.used (memory b) h)

pub pointer-some : (b : Fragbuf) (n : ℕ) → IsValid b → 0 < b.used → pointer b n ≡ some n
pointer-some b n v h = ground (arith, v.sized, v.within)

take-take {ℓ} : {A : Type ℓ} (k n : ℕ) (xs : List A) → k ≤ n → take k (take n xs) ≡ take k xs
take-take zero n xs h = refl
take-take (suc k) zero xs h = absurd (omega arith)
take-take (suc k) (suc n) [] h = refl
take-take (suc k) (suc n) (x ∷ xs) h = ap (λ l. x ∷ l) (take-take k n xs (omega arith))

module _ (b : Fragbuf) (m rest : Bytes) (v : IsValid b) (front : content b ≡ frame m ++ rest)
    (fit : Sendable m) where
  pub used-frame : b.used ≡ 4 + length m + length rest
  used-frame = omega (
    arith,
    ap length front,
    length-append (frame m) rest,
    length-frame m,
    length-take b.used (memory b),
    v.sized,
    v.within,
  )

  pub header-frame : be32 (memory b) ≡ length m
  unfolding frame
  header-frame =
      be32-memory b (omega (arith, used-frame))
      ∙ ap be32 front
      ∙ be32-be32_bytes (length m) (m ++ rest) (omega arith)

  -- The bytes behind the length are the message.
  pub memory-frame : take (length m) (drop 4 (memory b)) ≡ m
  unfolding frame be32_bytes
  memory-frame =
      let k : length m ≡ 4 + length m - 4 = omega arith in
      let n : 4 + length m ≡ length (frame m) = omega arith in
      ap (λ j. take j (drop 4 (memory b))) k
      ∙ take-drop (4 + length m) 4 (memory b) (omega arith)
      ∙ ap (drop 4) (
          sym (take-take (4 + length m) b.used (memory b) (omega (arith, used-frame)))
          ∙ ap (take (4 + length m)) front
          ∙ ap (λ j. take j (frame m ++ rest)) n
          ∙ take-append (frame m) rest)

  bytes_some : (n : ℕ) → pointer b n ≡ some n
  bytes_some n = pointer-some b n v (omega (arith, used-frame))

  -- The first call finds a whole frame.
  pub pull_first-frame :
      (z : ℕ)
      → b.framed ≡ true
      → pull b none z ≡ some (record { ok = true; datap = some 4; sizep = length m; buf = b })
  unfolding pull pull_first
  pull_first-frame z f =
      let e = header-frame in
      let u = used-frame in
      let p = bytes_some 4 in
      let k = holds_iff b.used (4 + length m) (omega arith) in ground (arith, e, u, p, k)

  -- Once the first frame is handed out, the next call drops it and looks at what follows.
  pub pull_next-frame :
      (z : ℕ) → b.framed ≡ true → pull b (some 4) z ≡ some (pull_frame (shift b (length m + 4)) 4 z)
  unfolding pull pull_next
  pull_next-frame z f =
      let e = header-frame in
      let u = used-frame in
      let k = holds_iff b.used (length m + 4) (omega arith) in ground (arith, e, u, k)

  pub shift-frame :
      Shifted b (shift b (length m + 4)) (length m + 4) × (content (shift b (length m + 4)) ≡ rest)
  shift-frame =
      let s = shift-Shifted b (length m + 4) v (omega (arith, used-frame)) in
      let n : length m + 4 ≡ length (frame m) = omega (arith, length-frame m) in
      (
        s,
        s.rest
            ∙ ap (drop (length m + 4)) front
            ∙ ap (λ k. drop k (frame m ++ rest)) n
            ∙ drop-append (frame m) rest,
      )

  -- What follows the dropped frame is looked at in the same way.
  pub pull_frame-frame :
      (z : ℕ) → pull_frame b 4 z ≡ record { ok = true; datap = some 4; sizep = length m; buf = b }
  unfolding pull_frame
  pull_frame-frame z =
      let e = header-frame in
      let u = used-frame in
      let p = bytes_some 4 in
      let k = holds_iff b.used (length m + 4) (omega arith) in ground (arith, e, u, p, k)

-- No frame of which all has come, and which the casts to int leave as it is, stands in front.
pub data Waits (c : Bytes) : Type 0 where
  short : length c < 4 → Waits c
  partial : length c < 4 + be32 c → 4 + be32 c < 2 ^ 31 → Waits c

module _ (b : Fragbuf) (v : IsValid b) where
  pub content-used : length (content b) ≡ b.used
  content-used = omega (arith, length-take b.used (memory b), v.sized, v.within)

  -- A frame that is not complete is left where it is.
  pub pull_frame-Waits :
      (z : ℕ)
      → Waits (content b)
      → pull_frame b 4 z ≡ record { ok = false; datap = some 4; sizep = z; buf = b }
  unfolding pull_frame
  pull_frame-Waits z (short h) = let u = content-used in ground arith
  pull_frame-Waits z (partial h k) =
      let u = content-used in
      elim (Bool-cases (leb b.used 4)) [
        | inl t ↦ rw t
        | inr t ↦
            let e = be32-memory b (ground arith) in
            let q = holds_iff b.used (be32 (memory b) + 4) (omega arith) in
            ground (arith, t, e, u, q)
      ]

  pub pull_first-Waits :
      (z : ℕ)
      → b.framed ≡ true
      → Waits (content b)
      → pull b none z ≡ some (record { ok = false; datap = none; sizep = z; buf = b })
  unfolding pull pull_first
  pull_first-Waits z f (short h) = let u = content-used in ground arith
  pull_first-Waits z f (partial h k) =
      let u = content-used in
      elim (Bool-cases (ltb b.used 4)) [
        | inl t ↦ ground arith
        | inr t ↦
            let e = be32-memory b (ground arith) in
            let q = holds_iff b.used (4 + be32 (memory b)) (omega arith) in
            ground (arith, t, e, u, q)
      ]
