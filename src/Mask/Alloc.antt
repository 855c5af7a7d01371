-- ===== src/Mask/Alloc.antt =====
-- Allocation of bits of a mask of src/common/mask.h.
use mathlib.Core.Path.{subst}
use mathlib.Core.Option.{none-ne-some}
use iot_app_fw.Common.{
  ℕ, zero, suc, ◌+◌, ◌-◌, ◌*◌, ◌/◌, ◌%◌, ◌<◌, ◌≤◌, ◌≡◌, refl, sym, ap, ◌∙◌, true, false, Option,
  none, some, List, [], ◌∷◌, ltb, length, get_or, set, arith, eq_of_some, inl, inr, Bool-cases,
}
use iot_app_fw.Mask.{Word, Mask, clear_word, bit_of, write_bit, ffs, flip, alloc_from, alloc_bit}
use iot_app_fw.Mask.Bits.{Whole}

-- a bit of a word that is clear, all bits below it being set
abbrev pub FirstClear : Word → ℕ → Type 0
FirstClear w b =
    (b < length w) × (get_or w b false ≡ false) × ((c : ℕ) → c < b → get_or w c false ≡ true)

FirstClear-later : (w : Word) (b : ℕ) → FirstClear w b → FirstClear (true ∷ w) (suc b)
FirstClear-later w b (inside, clear, below) = (omega (arith, inside), clear, at)
  where
    at : (c : ℕ) → c < suc b → get_or (true ∷ w) c false ≡ true
    at zero h = refl
    at (suc c) h = below c (omega arith)

ffs-flip-some : (w : Word) (b : ℕ) → ffs (flip w) ≡ some b → FirstClear w b
unfolding ffs
ffs-flip-some [] b h = absurd (none-ne-some b h)
ffs-flip-some (false ∷ w) b h =
    subst (FirstClear (false ∷ w)) (eq_of_some h) (omega arith, refl, λ c h. absurd (omega arith))
ffs-flip-some (true ∷ w) b h = at (ffs (flip w)) refl h (ffs-flip-some w)
  where
    at :
        (o : Option ℕ)
        → ffs (flip w) ≡ o
        → (elim o [ none ↦ none | some i ↦ some (suc i) ]) ≡ some b
        → ((i : ℕ) → ffs (flip w) ≡ some i → FirstClear w i)
        → FirstClear (true ∷ w) b
    at none e h f = absurd (none-ne-some b h)
    at (some i) e h f = subst (FirstClear (true ∷ w)) (eq_of_some h) (FirstClear-later w i (f i e))

ffs-flip-none : (w : Word) → ffs (flip w) ≡ none → (c : ℕ) → c < length w → get_or w c false ≡ true
unfolding ffs
ffs-flip-none [] h c k = absurd (omega arith)
ffs-flip-none (false ∷ w) h c k = absurd (none-ne-some 0 (sym h))
ffs-flip-none (true ∷ w) h c k = at (ffs (flip w)) refl h (ffs-flip-none w) c k
  where
    at :
        (o : Option ℕ)
        → ffs (flip w) ≡ o
        → (elim o [ none ↦ none | some i ↦ some (suc i) ]) ≡ none
        → (ffs (flip w) ≡ none → (c : ℕ) → c < length w → get_or w c false ≡ true)
        → (c : ℕ) → c < suc (length w)
        → get_or (true ∷ w) c false ≡ true
    at (some i) e h f c k = absurd (none-ne-some (suc i) (sym h))
    at none e h f zero k = refl
    at none e h f (suc c) k = f e c (omega arith)

-- what `alloc_from` finds, `i` words on
record Taken (i : ℕ) (ws : List Word) (k : ℕ) (ws' : List Word) : Type 0 where
  bit : ℕ
  place : k ≡ i * 64 + bit
  inside : bit < 64 * length ws
  clear : bit_of ws bit ≡ false
  below : (c : ℕ) → c < bit → bit_of ws c ≡ true
  written : ws' ≡ write_bit ws bit true

word_first : (c : ℕ) → c < 64 → c / 64 ≡ 0
word_first c h = omega (arith, h)

index_first : (c : ℕ) → c < 64 → c % 64 ≡ c
index_first c h = omega (arith, h)

word_later : (c : ℕ) → (64 + c) / 64 ≡ suc (c / 64)
word_later c = omega arith

index_later : (c : ℕ) → (64 + c) % 64 ≡ c % 64
index_later c = omega arith

-- a bit of the words after the first
bit_of-later : (w : Word) (ws : List Word) (c : ℕ) → bit_of (w ∷ ws) (64 + c) ≡ bit_of ws c
unfolding bit_of
bit_of-later w ws c =
    ap (λ i. get_or (get_or (w ∷ ws) i clear_word) ((64 + c) % 64) false) (word_later c)
    ∙ ap (λ i. get_or (get_or ws (c / 64) clear_word) i false) (index_later c)

bit_of-first : (w : Word) (ws : List Word) (c : ℕ) → c < 64 → bit_of (w ∷ ws) c ≡ get_or w c false
unfolding bit_of
bit_of-first w ws c h =
    ap (λ i. get_or (get_or (w ∷ ws) i clear_word) (c % 64) false) (word_first c h)
    ∙ ap (λ i. get_or w i false) (index_first c h)

write_bit-first :
    (w : Word) (ws : List Word) (b : ℕ) → b < 64 → write_bit (w ∷ ws) b true ≡ set w b true ∷ ws
unfolding write_bit
write_bit-first w ws b h =
    ap (λ i. set (w ∷ ws) i (set (get_or (w ∷ ws) i clear_word) (b % 64) true)) (word_first b h)
    ∙ ap (λ i. set w i true ∷ ws) (index_first b h)

write_bit-later :
    (w : Word) (ws : List Word) (b : ℕ) → write_bit (w ∷ ws) (64 + b) true ≡ w ∷ write_bit ws b true
unfolding write_bit
write_bit-later w ws b =
    ap (λ i. set (w ∷ ws) i (set (get_or (w ∷ ws) i clear_word) ((64 + b) % 64) true))
      (word_later b)
    ∙ ap (λ i. w ∷ set ws (b / 64) (set (get_or ws (b / 64) clear_word) i true)) (index_later b)

Taken-first :
    (i : ℕ) (w : Word) (ws : List Word) (b : ℕ)
    → length w ≡ 64
    → FirstClear w b
    → Taken i (w ∷ ws) (i * 64 + b) (set w b true ∷ ws)
Taken-first i w ws b l (inside, clear, below) = record {
  bit = b;
  place = refl;
  inside = omega (arith, inside, l);
  clear = bit_of-first w ws b (omega (arith, inside, l)) ∙ clear;
  below = λ c h. bit_of-first w ws c (omega (arith, inside, l)) ∙ below c h;
  written = sym (write_bit-first w ws b (omega (arith, inside, l)));
}

Taken-later :
    (i k : ℕ) (w : Word) (ws ws' : List Word)
    → length w ≡ 64
    → ((c : ℕ) → c < length w → get_or w c false ≡ true)
    → Taken (suc i) ws k ws'
    → Taken i (w ∷ ws) k (w ∷ ws')
Taken-later i k w ws ws' l full t = record {
  bit = 64 + t.bit;
  place = omega (arith, t.place);
  inside = omega (arith, t.inside);
  clear = bit_of-later w ws t.bit ∙ t.clear;
  below = below;
  written = ap (λ v. w ∷ v) t.written ∙ sym (write_bit-later w ws t.bit);
}
  where
    again : (c : ℕ) → 64 ≤ c → c ≡ 64 + (c - 64)
    again c k = omega (arith, k)

    below : (c : ℕ) → c < 64 + t.bit → bit_of (w ∷ ws) c ≡ true
    below c h = elim (Bool-cases (ltb c 64)) [
      | inl k ↦ bit_of-first w ws c (ground (arith, k)) ∙ full c (ground (arith, k, l))
      | inr k ↦
          ap (bit_of (w ∷ ws)) (again c (ground (arith, k)))
          ∙ bit_of-later w ws (c - 64)
          ∙ t.below (c - 64) (ground (arith, k, h))
    ]

alloc_from-Taken :
    (i k : ℕ) (ws ws' : List Word) → Whole ws → alloc_from i ws ≡ some (k, ws') → Taken i ws k ws'
unfolding alloc_from
alloc_from-Taken i k [] ws' h e = absurd (none-ne-some (k, ws') e)
alloc_from-Taken i k (w ∷ ws) ws' h e =
    at (ffs (flip w)) (alloc_from (suc i) ws) refl
      (λ k1 ws1 g. alloc_from-Taken (suc i) k1 ws ws1 h.1 g) e
  where
    later : ℕ × List Word → Type 0
    later r = Taken i (w ∷ ws) r.0 r.1

    at :
        (o : Option ℕ) (rest : Option (ℕ × List Word))
        → ffs (flip w) ≡ o
        → ((k1 : ℕ) (ws1 : List Word) → rest ≡ some (k1, ws1) → Taken (suc i) ws k1 ws1)
        → ◌≡◌ {A = Option (ℕ × List Word)}
            (elim o [
              | none ↦ elim rest [ none ↦ none | some (k, ws') ↦ some (k, w ∷ ws') ]
              | some b ↦ some (i * 64 + b, set w b true ∷ ws)
            ])
            (some (k, ws'))
        → Taken i (w ∷ ws) k ws'
    at (some b) rest f g e =
        subst later (eq_of_some e) (Taken-first i w ws b h.0 (ffs-flip-some w b f))
    at none none f g e = absurd (none-ne-some (k, ws') e)
    at none (some (k1, ws1)) f g e =
        subst later (eq_of_some e)
          (Taken-later i k1 w ws ws1 h.0 (ffs-flip-none w f) (g k1 ws1 refl))

-- `iot_mask_alloc` takes the lowest clear bit, in the words of the mask, and sets it and no other.
pub record Allocated (m : Mask) (k : ℕ) (m' : Mask) : Type 0 where
  pub inside : k < 64 * length m.words
  pub clear : bit_of m.words k ≡ false
  pub below : (c : ℕ) → c < k → bit_of m.words c ≡ true
  pub words : m' ≡ record m { words = write_bit m.words k true }

pub alloc_bit-Allocated :
    (m m' : Mask) (k : ℕ) → Whole m.words → alloc_bit m ≡ some (k, m') → Allocated m k m'
unfolding alloc_bit
alloc_bit-Allocated m m' k h e = at (alloc_from 0 m.words) refl e
  where
    result : ℕ × Mask → Type 0
    result r = Allocated m r.0 r.1

    taken :
        (k : ℕ) (ws : List Word) → Taken 0 m.words k ws → Allocated m k (record m { words = ws })
    taken k ws t =
        let same : k ≡ t.bit = omega (arith, t.place) in
        record {
          inside = omega (arith, same, t.inside);
          clear = ap (bit_of m.words) same ∙ t.clear;
          below = λ c h. t.below c (omega (arith, same));
          words =
              ap (λ v. record m { words = v })
                (t.written ∙ ap (λ b. write_bit m.words b true) (sym same));
        }

    at :
        (o : Option (ℕ × List Word))
        → alloc_from 0 m.words ≡ o
        → ◌≡◌ {A = Option (ℕ × Mask)}
            (elim o [ none ↦ none | some (k, ws) ↦ some (k, record m { words = ws }) ])
            (some (k, m'))
        → Allocated m k m'
    at none f e = absurd (none-ne-some (k, m') e)
    at (some (k1, ws)) f e =
        subst result (eq_of_some e) (taken k1 ws (alloc_from-Taken 0 k1 m.words ws h f))
