-- ===== src/Mask.antt =====
-- The bit masks of src/common/mask.h. A 64-bit word is the list of its bits, the lowest first. The
-- union of the struct is the list of words, wherever they are stored; `inlined` words cannot move.
-- Bits are numbered from 0 and `nbit` stays below 2 ^ 23, the positive range of its bit field.
pub mod Bits
pub mod Sets
pub mod Ranges
pub mod Union
pub mod Beyond
pub mod Alloc
mod Tests
use iot_app_fw.Common.{
  ℕ, zero, suc, ◌+◌, ◌-◌, ◌*◌, ◌/◌, ◌%◌, ◌≤◌, ◌≡◌, Bool, true, false, Option, none, some, List, [],
  ◌∷◌, ◌++◌, leb, ltb, ◌==◌, if◌then◌else◌, length, get_or, set, take, replicate, All, not, ◌&&◌,
  ◌||◌, map,
}

abbrev pub Word : Type 0
Word = List Bool

-- the word 0
abbrev pub clear_word : Word
clear_word = replicate 64 false

pub record Mask : Type 0 where
  pub nbit : ℕ
  pub fixed : Bool
  pub inlined : Bool
  pub words : List Word

-- `_NBIT_NWORD`
abbrev pub nword : ℕ → ℕ
nword n = (n + 63) / 64

-- the bit that `_WRD_IDX` and `_BIT_IDX` name
unfoldable pub bit_of : List Word → ℕ → Bool
bit_of ws b = get_or (get_or ws (b / 64) clear_word) (b % 64) false

-- `w[wi] |= IOT_MASK_BIT(bi)` and `w[wi] &= ~IOT_MASK_BIT(bi)`
unfoldable pub write_bit : List Word → ℕ → Bool → List Word
write_bit ws b v = set ws (b / 64) (set (get_or ws (b / 64) clear_word) (b % 64) v)

-- `iot_mask_init`
unfoldable pub init : Mask
init = record { nbit = 64; fixed = false; inlined = false; words = clear_word ∷ [] }

-- `iot_mask_dynamic` and `iot_mask_freeable`
unfoldable pub is_dynamic : Mask → Bool
is_dynamic m = not (m.fixed || m.inlined)

unfoldable pub is_freeable : Mask → Bool
is_freeable m = is_dynamic m && ltb 64 m.nbit

-- The loop of `iot_mask_reset`, which writes the first word in every round.
unfoldable pub clear_first : (rounds : ℕ) → List Word → List Word
clear_first zero ws = ws
clear_first (suc n) ws = clear_first n (set ws 0 clear_word)

-- `iot_mask_reset`
unfoldable pub reset : Mask → Mask
reset m =
    if is_dynamic m && is_freeable m
    then init
    else record m { words = clear_first (nword m.nbit) m.words }

-- `iot_mask_grow`; `granted` is whether the allocation succeeds
unfoldable pub grow : (granted : Bool) → Mask → (nbit : ℕ) → Option Mask
grow granted m nbit =
    let more : ℕ = nword nbit - nword m.nbit in
    let grown : Mask = record m { nbit = nbit; words = m.words ++ replicate more clear_word } in
    if m.fixed && ltb m.nbit nbit
    then none
    else if leb (nword nbit) (nword m.nbit)
    then some m
    else if m.fixed || m.inlined
    then none
    else if granted
    then some grown
    else none

-- `iot_mask_shrink`
unfoldable pub shrink : (granted : Bool) → Mask → (nbit : ℕ) → Option Mask
shrink granted m nbit =
    let cut : Mask = record m { nbit = nbit; words = take (nword nbit) m.words } in
    let grown : Option Mask = grow granted m nbit in
    if nword m.nbit == nword nbit
    then some m
    else if ltb (nword m.nbit) (nword nbit)
    then grown
    else if m.fixed || m.inlined
    then some m
    else if nword nbit == 1
    then some cut
    else if granted
    then some cut
    else none

-- `iot_mask_set`
unfoldable pub set_in : ℕ → Option Mask → Option Mask
set_in bit none = none
set_in bit (some m) = some (record m {
  nbit = if ltb m.nbit (bit + 1) then bit + 1 else m.nbit;
  words = write_bit m.words bit true;
})

unfoldable pub set_bit : (granted : Bool) → Mask → (bit : ℕ) → Option Mask
set_bit granted m bit = set_in bit (grow granted m (bit + 1))

-- `iot_mask_clear`
unfoldable pub clear_bit : Mask → (bit : ℕ) → Mask
clear_bit m bit =
    if ltb m.nbit (bit + 1) then m else record m { words = write_bit m.words bit false }

-- `iot_mask_test`
unfoldable pub test : Mask → (bit : ℕ) → Bool
test m bit = if ltb m.nbit (bit + 1) then false else bit_of m.words bit

-- `for (i = 0; i < n; i++) s[i] = d[i];`
unfoldable pub copy_words : (n : ℕ) → (s d : List Word) → List Word
copy_words zero s d = s
copy_words (suc n) [] d = []
copy_words (suc n) (x ∷ s) [] = x ∷ s
copy_words (suc n) (x ∷ s) (y ∷ d) = y ∷ copy_words n s d

-- `iot_mask_copy(dst, src)`: whether it succeeds, and both masks after it.
unfoldable pub copied : Mask → Mask → Bool × Mask × Mask
copied dst src = (true, dst, record src { words = copy_words (nword src.nbit) src.words dst.words })

unfoldable pub copy : (granted : Bool) → (dst src : Mask) → Bool × Mask × Mask
copy granted dst src =
    if ltb dst.nbit src.nbit
    then (elim (grow granted dst src.nbit) [ none ↦ (false, dst, src) | some d ↦ copied d src ])
    else if ltb src.nbit dst.nbit
    then (elim (shrink granted dst src.nbit) [ none ↦ copied dst src | some d ↦ (false, d, src) ])
    else copied dst src

-- `iot_ffs(bits)`: the lowest set bit
unfoldable pub ffs : Word → Option ℕ
ffs [] = none
ffs (true ∷ w) = some 0
ffs (false ∷ w) = elim (ffs w) [ none ↦ none | some i ↦ some (suc i) ]

-- `w & ~IOT_MASK_BELOW(bi)`
unfoldable pub from_bit : ℕ → Word → Word
from_bit zero w = w
from_bit (suc i) [] = []
from_bit (suc i) (x ∷ w) = false ∷ from_bit i w

-- `for (i = …; i < n; i++) if ((b = iot_ffs(w[i])) >= 0) return i * _BITS_PER_WORD + b;`
unfoldable pub first_set : (i : ℕ) → List Word → Option ℕ
first_set i [] = none
first_set i (w ∷ ws) =
    let rest : Option ℕ = first_set (suc i) ws in
    elim (ffs w) [ none ↦ rest | some b ↦ some (i * 64 + b) ]

-- the words from the bit's on, with the lower bits of the first masked out
unfoldable pub words_from : (wi bi : ℕ) → List Word → List Word
words_from wi bi [] = []
words_from zero bi (w ∷ ws) = from_bit bi w ∷ ws
words_from (suc wi) bi (w ∷ ws) = words_from wi bi ws

-- `iot_mask_next_set`
unfoldable pub next_set : Mask → (bit : ℕ) → Option ℕ
next_set m bit = first_set (bit / 64) (words_from (bit / 64) (bit % 64) m.words)

-- `~w`
abbrev pub flip : Word → Word
flip w = map not w

-- `iot_mask_alloc`: the first word with a clear bit gets that bit set.
unfoldable pub alloc_from : (i : ℕ) → List Word → Option (ℕ × List Word)
alloc_from i [] = none
alloc_from i (w ∷ ws) =
    let rest : Option (ℕ × List Word) = alloc_from (suc i) ws in
    elim (ffs (flip w)) [
      | none ↦ elim rest [ none ↦ none | some (k, ws') ↦ some (k, w ∷ ws') ]
      | some b ↦ some (i * 64 + b, set w b true ∷ ws)
    ]

unfoldable pub alloc_bit : Mask → Option (ℕ × Mask)
alloc_bit m = elim (alloc_from 0 m.words) [
  | none ↦ none
  | some (k, ws) ↦ some (k, record m { words = ws })
]

-- A mask that `iot_mask_init` made, or that was grown and set from such: as many words as `nbit`
-- asks for, whole ones, and no bit set beyond.
pub record IsMask (m : Mask) : Type 0 where
  pub count : length m.words ≡ nword m.nbit
  pub whole : All (λ w. length w ≡ 64) m.words
  pub clean : (b : ℕ) → m.nbit ≤ b → bit_of m.words b ≡ false
