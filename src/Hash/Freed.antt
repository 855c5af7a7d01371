-- ===== src/Hash/Freed.antt =====
-- The marks of a hash table of src/common/hash-table.c after an entry was freed.
use mathlib.Core.Path.{subst}
use iot_app_fw.Common.{
  ℕ, ◌+◌, ◌*◌, ◌/◌, ◌%◌, ◌<◌, ◌≤◌, ◌≡◌, ◌≢◌, refl, sym, ap, ◌∙◌, Bool, true, false, List, ◌==◌, ltb,
  if◌then◌else◌, length, get_or, arith, inl, inr, Bool-cases,
}
use iot_app_fw.Mask.{Mask, Word, clear_word, bit_of, clear_bit, write_bit}
use iot_app_fw.Mask.Bits.{Whole}
use iot_app_fw.Hash.{Table, mask_of, with_mask}
use iot_app_fw.Hash.Slots.{
  marked, AllWhole, written-AllWhole, marked-written, inside-of_bit, mask_of-with_mask,
  get_or-beyond, bit_of-none,
}

bit_of-inside : (ws : List Word) (b : ℕ) → bit_of ws b ≡ true → b < 64 * length ws
unfolding bit_of
bit_of-inside ws b h = elim (Bool-cases (ltb b (64 * length ws))) [
  | inl k ↦ ground (arith, k)
  | inr k ↦ absurd (true-ne-false (sym h ∙ beyond (above (ground (arith, k)))))
]
  where
    true-ne-false : true ≢ false
    true-ne-false e = cc

    above : 64 * length ws ≤ b → length ws ≤ b / 64
    above k = omega (arith, k)

    beyond : length ws ≤ b / 64 → bit_of ws b ≡ false
    beyond k =
        ap (λ w. get_or w (b % 64) false) (get_or-beyond ws (b / 64) clear_word k) ∙ bit_of-none b

-- the table whose mask was cleared at the place of a slot
abbrev pub unmarked : Table → ℕ → Table
unmarked t s = with_mask t (s / 101) (clear_bit (mask_of t (s / 101)) (s % 101))

module _ (t : Table) (s : ℕ) (w : AllWhole t) (taken : marked t s ≡ true) where
  abbrev cleared : Mask
  cleared = record (mask_of t (s / 101)) {
    words = write_bit (mask_of t (s / 101)).words (s % 101) false;
  }

  valid : s / 101 < length t.masks
  valid = inside-of_bit t (s / 101) (s % 101) taken

  inside : s % 101 < 64 * length (mask_of t (s / 101)).words
  inside = bit_of-inside (mask_of t (s / 101)).words (s % 101) taken

  same_place : (i : ℕ) → i / 101 ≡ s / 101 → i % 101 ≡ s % 101 → i ≡ s
  same_place i h k = omega (arith, h, k)

  pub unmarked-AllWhole : AllWhole (unmarked t s)
  unfolding clear_bit
  unmarked-AllWhole = at (ltb (mask_of t (s / 101)).nbit (s % 101 + 1))
    where
      at :
          (b : Bool) → AllWhole (with_mask t (s / 101) (if b then mask_of t (s / 101) else cleared))
      at true d =
          subst (λ m. Whole m.words)
            (sym (mask_of-with_mask t (s / 101) d (mask_of t (s / 101)) valid))
            (here (d == s / 101))
        where
          here : (b : Bool) → Whole (if b then mask_of t (s / 101) else mask_of t d).words
          here true = w (s / 101)
          here false = w d
      at false d = written-AllWhole t (s / 101) (s % 101) false cleared w valid inside refl d

  -- The other slots are marked as before.
  pub unmarked-marked : (i : ℕ) → i ≢ s → marked (unmarked t s) i ≡ marked t i
  unfolding clear_bit
  unmarked-marked i h = at (ltb (mask_of t (s / 101)).nbit (s % 101 + 1))
    where
      at :
          (b : Bool)
          → marked (with_mask t (s / 101) (if b then mask_of t (s / 101) else cleared)) i
            ≡ marked t i
      at true =
          ap (λ m. bit_of m.words (i % 101))
            (mask_of-with_mask t (s / 101) (i / 101) (mask_of t (s / 101)) valid
              ∙ here (i / 101 == s / 101) refl)
        where
          here :
              (b : Bool)
              → (i / 101 == s / 101) ≡ b
              → (if b then mask_of t (s / 101) else mask_of t (i / 101)) ≡ mask_of t (i / 101)
          here true k = ap (mask_of t) (same k)
            where
              same : (i / 101 == s / 101) ≡ true → s / 101 ≡ i / 101
              same k = ground (arith, k)
          here false k = refl
      at false =
          marked-written t (s / 101) (s % 101) false cleared w valid inside refl i
          ∙ apart (i / 101 == s / 101) (i % 101 == s % 101) refl refl
        where
          apart :
              (b c : Bool)
              → (i / 101 == s / 101) ≡ b
              → (i % 101 == s % 101) ≡ c
              → (if b then if c then false else marked t i else marked t i) ≡ marked t i
          apart true true k l = absurd (h (same_place i (ground (arith, k)) (ground (arith, l))))
          apart true false k l = refl
          apart false c k l = refl
