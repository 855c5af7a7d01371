-- ===== src/Mask/Beyond.antt =====
-- The range operations of src/common/mask.h on bits that the mask does not have.
use iot_app_fw.Common.{
  ℕ, zero, suc, ◌+◌, ◌-◌, ◌*◌, ◌/◌, ◌%◌, ◌≤◌, ◌<◌, ◌≡◌, refl, ap, ◌∙◌, Bool, false, none, some,
  List, arith, ◌==◌, length, le→ltb,
}
use iot_app_fw.Mask.{Word, Mask, IsMask, nword}
use iot_app_fw.Mask.Ranges.{
  put_from, put_below, update, fill_words, with_words, min_bit, range_words, put_range,
}

fill_words-none : (v : Bool) (n i : ℕ) → fill_words v n i none ≡ none
unfolding fill_words update
fill_words-none v zero i = refl
fill_words-none v (suc n) i = fill_words-none v n (suc i)

outside : (f : Word → Word) (i : ℕ) (ws : List Word) → length ws ≤ i → update f i (some ws) ≡ none
unfolding update
outside f i ws h = rw (le→ltb i (length ws) h) refl

stays : (f : Word → Word) (i : ℕ) → update f i none ≡ none
unfolding update
stays f i = refl

range_words_beyond :
    (v : Bool) (l h : ℕ) (ws : List Word)
    → length ws ≤ l / 64
    → h / 64 < length ws
    → range_words v l h ws ≡ none
unfolding range_words
range_words_beyond v l h ws a b =
    let apart : (l / 64 == h / 64) ≡ false = ground arith in
    let first : update (put_from v (l % 64)) (l / 64) (some ws) ≡ none =
      outside (put_from v (l % 64)) (l / 64) ws a in
    rw apart (
      ap
        (λ o.
          update (put_below v (h % 64 + 1)) (h / 64)
            (fill_words v (h / 64 - (l / 64 + 1)) (l / 64 + 1) o))
        first
      ∙ ap (update (put_below v (h % 64 + 1)) (h / 64)) (fill_words-none v _ _)
      ∙ stays _ _)

-- Setting or clearing a range that begins beyond the words of a mask writes beyond them.
pub put_range_beyond :
    (v : Bool) (m : Mask) (l h : ℕ)
    → IsMask m
    → 0 < m.nbit
    → l ≤ h
    → 64 * nword m.nbit ≤ l
    → put_range v m l h ≡ none
unfolding put_range with_words
put_range_beyond v m l h w some_bit order beyond =
    let last : min_bit h m.nbit ≡ m.nbit - 1 = ground arith in
    rw (le→ltb h l order) (
      ap (λ k. with_words m (range_words v l k m.words)) last
      ∙ ap (with_words m) (
          range_words_beyond v l (m.nbit - 1) m.words (omega (arith, w.count))
            (omega (arith, w.count))))
