-- ===== src/Fragbuf/Missing.antt =====
-- Where src/common/fragbuf.c follows a length too far: `iot_fragbuf_missing`, and the casts to int.
use iot_app_fw.Common.{
  ℕ, zero, suc, ◌+◌, ◌-◌, ◌*◌, ◌%◌, ◌^◌, ◌≤◌, ◌<◌, ◌≡◌, refl, ap, ◌∙◌, true, false, none, some, inl,
  inr, arith, ltb, leb, ltb→lt, lt→ltb, lt→leb, Bool-cases,
}
use native.Mathlib.Nat.{zero-mul}
use iot_app_fw.Fragbuf.Pull.{pointer-some}
use iot_app_fw.Fragbuf.{
  Fragbuf, memory, pointer, be32, holds, pull_first, pull, walk, missing, IsValid,
}

negative : (used n : ℕ) → 4 ≤ used → 2 ^ 31 - 4 ≤ n → n < 2 ^ 32 → holds used (4 + n) ≡ true
unfolding holds
negative used n h lo hi = ground arith

module _ (b : Fragbuf) where
  -- how far a round of the loop goes: the first frame's length and its header
  abbrev pub extent : ℕ
  extent = 4 + be32 (memory b)

  walk_step :
      (fuel offs : ℕ)
      → leb (2 ^ 31) offs ≡ false
      → ltb offs b.used ≡ true
      → walk (suc fuel) b offs ≡ walk fuel b ((offs + extent) % 2 ^ 32)
  unfolding walk
  walk_step fuel offs low t = rw (low, t)

  walk_multiple :
      (e fuel k : ℕ)
      → extent ≡ e
      → b.used + e < 2 ^ 31
      → k * e < b.used + e
      → 0 < fuel
      → b.used < k * e + fuel
      → (n : ℕ) × (walk fuel b (k * e) ≡ some (n * e)) × (b.used ≤ n * e) × (n * e < b.used + e)
  unfolding walk
  walk_multiple e zero k same fits below pos enough = absurd (omega arith)
  walk_multiple e (suc fuel) k same fits below pos enough = elim (Bool-cases (ltb (k * e) b.used)) [
    | inr t ↦
        let past : b.used ≤ k * e = ground arith in
        let low : leb (2 ^ 31) (k * e) ≡ false = lt→leb (2 ^ 31) (k * e) (omega arith) in
        (k, rw (low, t), past, below)
    | inl t ↦
        let more : k * e < b.used = ltb→lt (k * e) b.used t in
        let low : leb (2 ^ 31) (k * e) ≡ false = lt→leb (2 ^ 31) (k * e) (omega arith) in
        let wide : (k * e + e) % 2 ^ 32 ≡ suc k * e = omega arith in
        let (n, run, lo, hi) =
          walk_multiple e fuel (suc k) same fits (omega arith) (omega arith) (omega arith) in
        (
          n,
          walk_step fuel (k * e) low t
              ∙ ap (λ x. walk fuel b ((k * e + x) % 2 ^ 32)) same
              ∙ ap (walk fuel b) wide
              ∙ run,
          lo,
          hi,
        )
  ]

  walk_stays : (fuel : ℕ) → 0 < b.used → extent ≡ 2 ^ 32 → walk fuel b 0 ≡ none
  unfolding walk
  walk_stays zero pos e = refl
  walk_stays (suc fuel) pos e = let t = lt→ltb 0 b.used pos in rw (t, e) (walk_stays fuel pos e)

  -- In a framed buffer that holds anything, and whose first frame is not so long that the ints
  -- overflow, `iot_fragbuf_missing` is the distance from the bytes in use to the next multiple of the
  -- first frame's extent: only the first frame's length is looked at, whatever the others are.
  pub missing_multiple :
      (fuel : ℕ)
      → b.framed ≡ true
      → 0 < b.used
      → b.used + extent < 2 ^ 31
      → b.used < fuel
      → (d n : ℕ) × (missing fuel b ≡ some d) × (b.used + d ≡ n * extent) × (d < extent)
  unfolding missing
  missing_multiple fuel f pos fits enough =
      let (n, run, lo, hi) =
        walk_multiple extent fuel 0 refl fits (omega arith) (omega arith) (omega arith) in
      (
        n * extent - b.used,
        n,
        let z : walk fuel b 0 ≡ some (n * extent) = rw zero-mul at run in ground (arith, z),
        omega arith,
        omega arith,
      )

  -- A first length of 2 ^ 32 - 4 makes the loop's step 0, and the loop never ends: no fuel suffices.
  pub missing_endless :
      (fuel : ℕ)
      → b.framed ≡ true
      → 0 < b.used
      → be32 (memory b) ≡ 2 ^ 32 - 4
      → missing fuel b ≡ none
  unfolding missing
  missing_endless fuel f pos e =
      let stays = walk_stays fuel pos (omega arith) in ground (arith, stays)

  -- A first length from 2 ^ 31 - 4 on turns negative in the cast to int, or wraps: the first call of an
  -- iteration then hands out a frame that is longer than all the bytes in use.
  pub pull_overlong :
      (z : ℕ)
      → IsValid b
      → b.framed ≡ true
      → 4 ≤ b.used
      → b.used < 2 ^ 31 - 4
      → 2 ^ 31 - 4 ≤ be32 (memory b)
      → be32 (memory b) < 2 ^ 32
      → (pull b none z
          ≡ some (record { ok = true; datap = some 4; sizep = be32 (memory b); buf = b }))
        × (b.used < be32 (memory b))
  unfolding pull pull_first
  pull_overlong z v f used small long word =
      let held : holds b.used (4 + be32 (memory b)) ≡ true =
        negative b.used (be32 (memory b)) used long word in
      let at : pointer b 4 ≡ some 4 = pointer-some b 4 v (omega arith) in
      (ground (arith, held, at), omega arith)
