-- ===== src/Mask/Tests.antt =====
-- Runs of the masks, and their theorems at them.
use mathlib.Core.Option
use iot_app_fw.Common.{
  [], ◌∷◌, ℕ, suc, Bool, ◌≡◌, refl, true, false, Option, none, some, if◌then◌else◌,
}
use iot_app_fw.Mask.{
  clear_word, Mask, IsMask, init, grow, shrink, reset, set_in, set_bit, clear_bit, test, copy,
  copied, copy_words, bit_of, write_bit, next_set, first_set, words_from, from_bit, ffs, alloc_bit,
  alloc_from, is_dynamic, is_freeable, clear_first,
}
use iot_app_fw.Mask.Bits.{grow-Grown, init-IsMask}

all : Unit {0}
unfolding init grow shrink reset set_in set_bit clear_bit test copy copied copy_words bit_of
    write_bit next_set first_set words_from from_bit ffs alloc_bit alloc_from is_dynamic is_freeable
    clear_first
all = tt

-- the mask with bits 3 and 70
abbrev sample : Option Mask
sample = elim (set_bit true init 3) [ none ↦ none | some m ↦ set_bit true m 70 ]

bits : Mask → Bool × Bool × Bool × ℕ
bits m = (test m 3, test m 4, test m 70, m.nbit)

sample-bits : Option.map bits sample ≡ some (true, false, true, 71)
unfolding all bits
sample-bits = refl

sample_finds : (elim sample [ none ↦ none | some m ↦ next_set m 4 ]) ≡ some 70
unfolding all
sample_finds = refl

alloc_init :
    (elim (alloc_bit init) [ none ↦ none | some (k, m) ↦ some (if test m 0 then suc k else k) ])
    ≡ some 1
unfolding all
alloc_init = refl

abbrev three : Mask
three = record {
  nbit = 64;
  fixed = false;
  inlined = false;
  words = (unfold all in write_bit init.words 3 true);
}

set_three : set_bit true init 3 ≡ some three
unfolding all
set_three = refl

abbrev wide : Mask
wide = record { nbit = 70; fixed = false; inlined = false; words = clear_word ∷ clear_word ∷ [] }

grow-init : grow true init 70 ≡ some wide
unfolding all
grow-init = refl

wide-IsMask : IsMask wide
wide-IsMask = (grow-Grown true init wide 70 init-IsMask grow-init).mask
