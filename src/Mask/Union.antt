-- ===== src/Mask/Union.antt =====
-- `iot_mask_or` and `iot_mask_xor` of src/common/mask.h.
use iot_app_fw.Common.{
  ℕ, zero, suc, ◌+◌, ◌/◌, ◌%◌, ◌≤◌, ◌<◌, ◌≡◌, refl, sym, ap, ◌∙◌, Bool, true, false, none, some,
  List, [], ◌∷◌, ltb, if◌then◌else◌, ◌||◌, length, get_or, All, arith, replicate, le→ltb,
}
use iot_app_fw.Mask.{Word, Mask, IsMask, test, bit_of, clear_word, nword}
use iot_app_fw.Mask.Sets.{
  zip_word, zip_max, combined, overrun, combine_with, combine_max, widen, or_mask, xor_mask, or_bit,
  xor_bit,
}

get_or-zip_word :
    (f : Bool → Bool → Bool) (d s : Word) (i : ℕ)
    → f false false ≡ false
    → length s ≡ length d
    → get_or (zip_word f d s) i false ≡ f (get_or d i false) (get_or s i false)
unfolding zip_word
get_or-zip_word f [] [] i z e = sym z
get_or-zip_word f [] (y ∷ s) i z e = absurd (omega (arith, e))
get_or-zip_word f (x ∷ d) [] i z e = absurd (omega (arith, e))
get_or-zip_word f (x ∷ d) (y ∷ s) zero z e = refl
get_or-zip_word f (x ∷ d) (y ∷ s) (suc i) z e = get_or-zip_word f d s i z (omega (arith, e))

-- As many words, and each bit made of the two bits.
pub record Zipped (f : Bool → Bool → Bool) (d s ws : List Word) : Type 0 where
  pub ran : zip_max f d s ≡ some ws
  pub bits :
      (i j : ℕ)
      → get_or (get_or ws i clear_word) j false
        ≡ f (get_or (get_or d i clear_word) j false) (get_or (get_or s i clear_word) j false)

clear_bits : (j : ℕ) → get_or clear_word j false ≡ false
clear_bits j = get_or-replicate 64 j
  where
    get_or-replicate : (n j : ℕ) → get_or (replicate n false) j false ≡ false
    get_or-replicate zero j = refl
    get_or-replicate (suc n) zero = refl
    get_or-replicate (suc n) (suc j) = get_or-replicate n j

Zipped-cons :
    (f : Bool → Bool → Bool) (x y : Word) (d s ws : List Word)
    → f false false ≡ false
    → length y ≡ length x
    → Zipped f d s ws
    → Zipped f (x ∷ d) (y ∷ s) (zip_word f x y ∷ ws)
unfolding zip_max
Zipped-cons f x y d s ws z e r = record { ran = rw r.ran refl; bits = bits }
  where
    bits :
        (i j : ℕ)
        → get_or (get_or (zip_word f x y ∷ ws) i clear_word) j false
          ≡ f
              (get_or (get_or (x ∷ d) i clear_word) j false)
              (get_or (get_or (y ∷ s) i clear_word) j false)
    bits zero j = get_or-zip_word f x y j z e
    bits (suc i) j = r.bits i j

zip_max-Zipped :
    (f : Bool → Bool → Bool) (d s : List Word)
    → f false false ≡ false
    → length s ≡ length d
    → All (λ w. length w ≡ 64) d
    → All (λ w. length w ≡ 64) s
    → (ws : List Word) × Zipped f d s ws
unfolding zip_max
zip_max-Zipped f [] [] z e p q = (
  [],
  record { ran = refl; bits = λ i j. clear_bits j ∙ sym z ∙ ap (λ b. f b b) (sym (clear_bits j)) },
)
zip_max-Zipped f [] (y ∷ s) z e p q = absurd (omega (arith, e))
zip_max-Zipped f (x ∷ d) [] z e p q = absurd (omega (arith, e))
zip_max-Zipped f (x ∷ d) (y ∷ s) z e p q =
    let (ws, r) = zip_max-Zipped f d s z (omega (arith, e)) p.1 q.1 in
    (zip_word f x y ∷ ws, Zipped-cons f x y d s ws z (q.0 ∙ sym p.0) r)

zip_max_overrun :
    (f : Bool → Bool → Bool) (d s : List Word) → length s < length d → zip_max f d s ≡ none
unfolding zip_max
zip_max_overrun f [] s h = absurd (omega arith)
zip_max_overrun f (x ∷ d) [] h = refl
zip_max_overrun f (x ∷ d) (y ∷ s) h = rw (zip_max_overrun f d s (omega arith)) refl

guarded :
    (f : Bool → Bool → Bool) (b x y w : Bool)
    → f false false ≡ false
    → x ≡ f y w
    → (if b then false else x) ≡ f (if b then false else y) (if b then false else w)
guarded f true x y w z e = sym z
guarded f false x y w z e = e

combine_max-test :
    (f : Bool → Bool → Bool) (granted : Bool) (dst src : Mask)
    → f false false ≡ false
    → IsMask dst
    → IsMask src
    → src.nbit ≡ dst.nbit
    → (m : Mask) × (combine_max f (widen granted dst src) src ≡ combined m)
      × ((c : ℕ) → test m c ≡ f (test dst c) (test src c))
unfolding combine_max combine_with widen test bit_of
combine_max-test f granted dst src z v w e =
    let (ws, r) =
      zip_max-Zipped f dst.words src.words z (w.count ∙ ap nword e ∙ sym v.count) v.whole w.whole in
    (
      record dst { words = ws },
      rw (le→ltb dst.nbit src.nbit (omega (arith, e))) (rw r.ran refl),
      λ c.
          guarded f (ltb dst.nbit (c + 1)) _ _ _ z (r.bits (c / 64) (c % 64))
          ∙ ap (λ n. f (test dst c) (if ltb n (c + 1) then false else bit_of src.words c)) (sym e),
    )

-- `iot_mask_or` of two masks of one size succeeds, and a bit of the result is set where it is set in
-- one of them.
pub or_mask-test :
    (granted : Bool) (dst src : Mask)
    → IsMask dst
    → IsMask src
    → src.nbit ≡ dst.nbit
    → (m : Mask) × (or_mask granted dst src ≡ combined m)
      × ((c : ℕ) → test m c ≡ (test dst c || test src c))
unfolding or_mask
or_mask-test granted dst src v w e = combine_max-test or_bit granted dst src refl v w e

-- `iot_mask_xor` of two masks of one size succeeds, and a bit of the result is set where it is set
-- in one of them only.
pub xor_mask-test :
    (granted : Bool) (dst src : Mask)
    → IsMask dst
    → IsMask src
    → src.nbit ≡ dst.nbit
    → (m : Mask) × (xor_mask granted dst src ≡ combined m)
      × ((c : ℕ) → test m c ≡ xor_bit (test dst c) (test src c))
unfolding xor_mask
xor_mask-test granted dst src v w e = combine_max-test xor_bit granted dst src refl v w e

-- Where the source has fewer words than the destination, `iot_mask_or` reads beyond the words of
-- the source.
pub or_mask_overrun :
    (granted : Bool) (dst src : Mask)
    → IsMask dst
    → IsMask src
    → src.nbit ≤ dst.nbit
    → nword src.nbit < nword dst.nbit
    → or_mask granted dst src ≡ overrun
unfolding or_mask combine_max combine_with widen
or_mask_overrun granted dst src v w e h =
    rw (le→ltb dst.nbit src.nbit e)
      (rw (zip_max_overrun or_bit dst.words src.words (omega (arith, v.count, w.count))) refl)
