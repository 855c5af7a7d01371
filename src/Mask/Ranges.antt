-- ===== src/Mask/Ranges.antt =====
-- The operations on ranges of bits of src/common/mask.h. Setting and clearing differ in the value
-- that is written, which is an argument here.
use iot_app_fw.Common.{
  true, false, ℕ, zero, suc, ◌+◌, ◌-◌, ◌*◌, ◌/◌, ◌%◌, Bool, Option, none, some, List, [], ◌∷◌, ltb,
  ◌==◌, if◌then◌else◌, set, get_or, length, replicate,
}
use iot_app_fw.Mask.{Word, Mask, clear_word, nword}

-- `w |= IOT_MASK_BIT(k) | IOT_MASK_ABOVE(k)`, or the clearing of these bits
unfoldable pub put_from : Bool → ℕ → Word → Word
put_from v k [] = []
put_from v zero (x ∷ w) = v ∷ put_from v zero w
put_from v (suc k) (x ∷ w) = x ∷ put_from v k w

-- `w |= IOT_MASK_BELOW(k)`, or the clearing of these bits
unfoldable pub put_below : Bool → ℕ → Word → Word
put_below v zero w = w
put_below v (suc k) [] = []
put_below v (suc k) (x ∷ w) = v ∷ put_below v k w

-- `IOT_MASK_BIT(l) | (IOT_MASK_ABOVE(l) & IOT_MASK_BELOW(h)) | IOT_MASK_BIT(h)`, in one word
unfoldable pub put_between : Bool → (l h : ℕ) → Word → Word
put_between v l h [] = []
put_between v zero zero (x ∷ w) = v ∷ w
put_between v zero (suc h) (x ∷ w) = v ∷ put_between v zero h w
put_between v (suc l) zero (x ∷ w) = v ∷ set w l v
put_between v (suc l) (suc h) (x ∷ w) = x ∷ put_between v l h w

-- `(_mask_t)-1` or 0
unfoldable pub full_word : Bool → Word
full_word v = replicate 64 v

-- a write of `w[i]`; `none` beyond the words
unfoldable pub update : (Word → Word) → ℕ → Option (List Word) → Option (List Word)
update f i none = none
update f i (some ws) =
    if ltb i (length ws) then some (set ws i (f (get_or ws i clear_word))) else none

-- `for (i = from; i < from + n; i++) w[i] = …;`
unfoldable pub fill_words : Bool → (n from : ℕ) → Option (List Word) → Option (List Word)
fill_words v zero i ws = ws
fill_words v (suc n) i ws = fill_words v n (suc i) (update (λ w. full_word v) i ws)

-- the mask with the new words; `none` for a write beyond them
unfoldable pub with_words : Mask → Option (List Word) → Option Mask
with_words m none = none
with_words m (some ws) = some (record m { words = ws })

-- `iot_mask_set_above` and `iot_mask_clear_above`
unfoldable pub put_above : Bool → Mask → (bit : ℕ) → Option Mask
put_above v m bit =
    let wi : ℕ = bit / 64 in
    let n : ℕ = nword m.nbit in
    let changed : Option Mask = with_words m (
      fill_words v (n - (wi + 1)) (wi + 1)
        (update (put_from v (bit % 64 + 1)) wi (some m.words))) in
    if ltb (64 * n) (64 * (wi + 1)) then some m else changed

abbrev pub min_bit : ℕ → ℕ → ℕ
min_bit bit nbit = if ltb (nbit - 1) bit then nbit - 1 else bit

-- `iot_mask_set_below` and `iot_mask_clear_below`, of a mask with a bit at least
unfoldable pub put_up_to : Bool → Mask → (bit : ℕ) → Option Mask
put_up_to v m bit =
    let b : ℕ = min_bit bit m.nbit in
    with_words m (update (put_below v (b % 64)) (b / 64) (fill_words v (b / 64) 0 (some m.words)))

-- `iot_mask_set_range` and `iot_mask_clear_range`, of a mask with a bit at least: the words for the
-- ends l and h, in order and h within the mask
unfoldable pub range_words : Bool → (l h : ℕ) → List Word → Option (List Word)
range_words v l h ws =
    let lw : ℕ = l / 64 in
    let hw : ℕ = h / 64 in
    let one : Option (List Word) = update (put_between v (l % 64) (h % 64)) hw (some ws) in
    let more : Option (List Word) =
      update (put_below v (h % 64 + 1)) hw
        (fill_words v (hw - (lw + 1)) (lw + 1) (update (put_from v (l % 64)) lw (some ws))) in
    if lw == hw then one else more

unfoldable pub put_range : Bool → Mask → (l h : ℕ) → Option Mask
put_range v m l h =
    if ltb h l
    then with_words m (range_words v h (min_bit l m.nbit) m.words)
    else with_words m (range_words v l (min_bit h m.nbit) m.words)

-- the six operations
abbrev pub clear_above : Mask → (bit : ℕ) → Option Mask
clear_above = put_above false

abbrev pub clear_below : Mask → (bit : ℕ) → Option Mask
clear_below = put_up_to false

abbrev pub clear_range : Mask → (l h : ℕ) → Option Mask
clear_range = put_range false

abbrev pub set_above : Mask → (bit : ℕ) → Option Mask
set_above = put_above true

abbrev pub set_below : Mask → (bit : ℕ) → Option Mask
set_below = put_up_to true

abbrev pub set_range : Mask → (l h : ℕ) → Option Mask
set_range = put_range true
