-- ===== src/Mask/Sets.antt =====
-- The operations on whole masks of src/common/mask.h, and the locking of a mask's size.
use iot_app_fw.Common.{
  ◌+◌, ◌*◌, replicate, ℕ, ◌/◌, ◌%◌, Bool, true, false, Option, none, some, List, [], ◌∷◌, ltb, ◌==◌,
  if◌then◌else◌, map, not, ◌&&◌, ◌||◌,
}
use iot_app_fw.Mask.{nword, clear_word, Word, Mask, grow, shrink, first_set, flip, words_from}

-- `iot_mask_lock(m, nbit)`
unfoldable pub fix : Option Mask → Option Mask
fix none = none
fix (some m) = some (record m { fixed = true })

unfoldable pub lock : (granted : Bool) → Mask → (nbit : ℕ) → Option Mask
lock granted m nbit =
    let n : ℕ = if nbit == 0 then m.nbit else nbit in
    let grown : Option Mask = fix (grow granted m n) in
    let shrunk : Option Mask = fix (shrink granted m n) in
    if ltb m.nbit n then grown else if ltb n m.nbit then shrunk else fix (some m)

-- `iot_mask_unlock`
unfoldable pub unlock : Mask → Mask
unlock m = record m { fixed = false }

-- an operation on two words, bit by bit
unfoldable pub zip_word : (Bool → Bool → Bool) → Word → Word → Word
zip_word f [] s = []
zip_word f (x ∷ d) [] = x ∷ d
zip_word f (x ∷ d) (y ∷ s) = f x y ∷ zip_word f d s

-- `d[i] = d[i] op s[i]` for the words that both have
unfoldable pub zip_words : (Bool → Bool → Bool) → List Word → List Word → List Word
zip_words f [] s = []
zip_words f (x ∷ d) [] = x ∷ d
zip_words f (x ∷ d) (y ∷ s) = zip_word f x y ∷ zip_words f d s

-- `d[i] = d[i] op s[i]` up to the larger number of words; `none` where that reads or writes beyond
-- the words of one of the masks.
unfoldable pub zip_max : (Bool → Bool → Bool) → List Word → List Word → Option (List Word)
zip_max f [] [] = some []
zip_max f [] (y ∷ s) = none
zip_max f (x ∷ d) [] = none
zip_max f (x ∷ d) (y ∷ s) = elim (zip_max f d s) [
  | none ↦ none
  | some ws ↦ some (zip_word f x y ∷ ws)
]

-- What an operation returns: the mask, NULL, or nothing, as it ran out of the words.
pub data Combined : Type 0 where
  combined : Mask → Combined
  failed : Combined
  overrun : Combined

unfoldable pub combine_with : Mask → Option (List Word) → Combined
combine_with dst none = overrun
combine_with dst (some ws) = combined (record dst { words = ws })

-- the loop of `iot_mask_or` and `iot_mask_xor`, on `dst` as the first step left it
unfoldable pub combine_max : (Bool → Bool → Bool) → Option Mask → (src : Mask) → Combined
combine_max f none src = failed
combine_max f (some dst) src = combine_with dst (zip_max f dst.words src.words)

abbrev pub xor_bit : Bool → Bool → Bool
xor_bit true y = not y
xor_bit false y = y

abbrev pub or_bit : Bool → Bool → Bool
or_bit x y = x || y

abbrev pub and_bit : Bool → Bool → Bool
and_bit x y = x && y

-- `iot_mask_or(dst, src)` and `iot_mask_xor(dst, src)`
unfoldable pub widen : (granted : Bool) → (dst src : Mask) → Option Mask
widen granted dst src =
    let grown : Option Mask = grow granted dst src.nbit in
    if ltb dst.nbit src.nbit then grown else some dst

unfoldable pub or_mask : (granted : Bool) → (dst src : Mask) → Combined
or_mask granted dst src = combine_max or_bit (widen granted dst src) src

unfoldable pub xor_mask : (granted : Bool) → (dst src : Mask) → Combined
xor_mask granted dst src = combine_max xor_bit (widen granted dst src) src

-- the loop of `iot_mask_and`
unfoldable pub combine_min : Option Mask → (src : Mask) → Combined
combine_min none src = failed
combine_min (some dst) src = combined (record dst { words = zip_words and_bit dst.words src.words })

-- `iot_mask_and(dst, src)`
unfoldable pub and_mask : (granted : Bool) → (dst src : Mask) → Combined
and_mask granted dst src =
    let shrunk : Option Mask = shrink granted dst src.nbit in
    combine_min (if ltb src.nbit dst.nbit then shrunk else some dst) src

-- `for (i = 0; i < n; i++) d[i] = ~s[i];`, for all words of s
unfoldable pub flip_onto : (d s : List Word) → Option (List Word)
flip_onto d [] = some d
flip_onto [] (y ∷ s) = none
flip_onto (x ∷ d) (y ∷ s) = elim (flip_onto d s) [ none ↦ none | some ws ↦ some (flip y ∷ ws) ]

unfoldable pub flip_at : Option Mask → (src : Mask) → Combined
flip_at none src = failed
flip_at (some dst) src = combine_with dst (flip_onto dst.words src.words)

-- `iot_mask_not(dst, src)`, and `iot_mask_neg`, where the source is NULL
unfoldable pub not_mask : (granted : Bool) → (dst : Mask) → (src : Option Mask) → Combined
not_mask granted dst none = flip_at (some dst) dst
not_mask granted dst (some src) =
    let grown : Option Mask = grow granted dst src.nbit in
    let shrunk : Option Mask = shrink granted dst src.nbit in
    flip_at (if ltb dst.nbit src.nbit then grown else shrunk) src

-- `s[i] != d[i]`
unfoldable pub same_word : Word → Word → Bool
same_word [] [] = true
same_word [] (y ∷ v) = false
same_word (x ∷ w) [] = false
same_word (x ∷ w) (y ∷ v) = not (xor_bit x y) && same_word w v

unfoldable pub same_words : List Word → List Word → Bool
same_words [] d = true
same_words (x ∷ s) [] = true
same_words (x ∷ s) (y ∷ d) = same_word x y && same_words s d

-- `iot_mask_cmp(m1, m2)` returns 0
unfoldable pub cmp : (m1 m2 : Mask) → Bool
cmp m1 m2 = if not (m1.nbit == m2.nbit) then false else same_words m1.words m2.words

-- `iot_mask_next_clear`: the lower bits of the first word count as set.
unfoldable pub next_clear : Mask → (bit : ℕ) → Option ℕ
next_clear m bit = first_set (bit / 64) (words_from (bit / 64) (bit % 64) (map flip m.words))

-- `iot_mask_inlined_size`: the words stand behind eight bytes.
unfoldable pub inlined_size : ℕ → ℕ
inlined_size nbit = 8 + 8 * nword nbit

-- `iot_mask_init_inlined` of the mask at an address, with the area that it is to stand in, if given,
-- as its address and size
unfoldable pub init_inlined : (m : ℕ) → (nbit : ℕ) → Option (ℕ × ℕ) → Option Mask
init_inlined m nbit area =
    let mask : Mask = record {
      nbit = nbit;
      fixed = false;
      inlined = true;
      words = replicate (nword nbit) clear_word;
    } in
    elim area [
      | none ↦ some mask
      | some (base, size) ↦
          if ltb m base
          then none
          else if ltb (base + size) (m + inlined_size nbit)
          then none
          else some mask
    ]
