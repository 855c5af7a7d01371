-- ===== src/Hash/Slots.antt =====
-- The slots of a hash table of src/common/hash-table.c: which of them the masks of the chunks mark as
-- taken. A chunk has 101 entries.
use mathlib.Core.Path.{subst}
use iot_app_fw.Common.{
  ℕ, zero, suc, ◌*◌, ◌/◌, ◌%◌, ◌<◌, ◌≤◌, ◌≡◌, ◌≢◌, refl, sym, ap, ◌∙◌, Bool, true, false, List, [],
  ◌∷◌, ◌++◌, ◌==◌, ltb, if◌then◌else◌, length, get_or, set, replicate, arith, inl, inr, Bool-cases,
  get_or-set_self, get_or-set_ne,
}
use iot_app_fw.Mask.{Mask, bit_of, write_bit}
use iot_app_fw.Mask.Bits.{Whole, bit_of-write_bit, Whole-write_bit}
use iot_app_fw.Hash.{Table, no_mask, mask_of, with_mask}

-- the bit of a slot
abbrev pub marked : Table → ℕ → Bool
marked t s = bit_of (mask_of t (s / 101)).words (s % 101)

abbrev pub AllWhole : Table → Type 0
AllWhole t = (c : ℕ) → Whole (mask_of t c).words

-- What the allocation of chunks and entries leaves of a table: all but the masks and the space list,
-- and the marks that there are.
pub record Keeps (t t' : Table) : Type 0 where
  pub nentry : t'.nentry ≡ t.nentry
  pub nbucket : t'.nbucket ≡ t.nbucket
  pub nperchunk : t'.nperchunk ≡ t.nperchunk
  pub entries : t'.entries ≡ t.entries
  pub made : t'.made ≡ t.made
  pub buckets : t'.buckets ≡ t.buckets
  pub it : t'.it ≡ t.it
  pub whole : AllWhole t → AllWhole t'
  pub marks : (s : ℕ) → AllWhole t → marked t s ≡ true → marked t' s ≡ true

pub Keeps-refl : (t : Table) → Keeps t t
Keeps-refl t = record {
  nentry = refl;
  nbucket = refl;
  nperchunk = refl;
  entries = refl;
  made = refl;
  buckets = refl;
  it = refl;
  whole = λ h. h;
  marks = λ s w h. h;
}

pub Keeps-trans : {t u v : Table} → Keeps t u → Keeps u v → Keeps t v
Keeps-trans k l = record {
  nentry = l.nentry ∙ k.nentry;
  nbucket = l.nbucket ∙ k.nbucket;
  nperchunk = l.nperchunk ∙ k.nperchunk;
  entries = l.entries ∙ k.entries;
  made = l.made ∙ k.made;
  buckets = l.buckets ∙ k.buckets;
  it = l.it ∙ k.it;
  whole = λ h. l.whole (k.whole h);
  marks = λ s w h. l.marks s (k.whole w) (k.marks s w h);
}

pub get_or-beyond {ℓ} :
    {A : Type ℓ} (xs : List A) (i : ℕ) (d : A) → length xs ≤ i → get_or xs i d ≡ d
get_or-beyond [] i d h = refl
get_or-beyond (x ∷ xs) zero d h = absurd (omega (arith, h))
get_or-beyond (x ∷ xs) (suc i) d h = get_or-beyond xs i d (omega (arith, h))

pub get_or-append {ℓ} :
    {A : Type ℓ} (xs ys : List A) (i : ℕ) (d : A)
    → i < length xs
    → get_or (xs ++ ys) i d ≡ get_or xs i d
get_or-append [] ys i d h = absurd (omega (arith, h))
get_or-append (x ∷ xs) ys zero d h = refl
get_or-append (x ∷ xs) ys (suc i) d h = get_or-append xs ys i d (omega (arith, h))

pub bit_of-none : (b : ℕ) → bit_of [] b ≡ false
unfolding bit_of
bit_of-none b = get_or-clear (b % 64) 64
  where
    get_or-clear : (i n : ℕ) → get_or (replicate n false) i false ≡ false
    get_or-clear i zero = refl
    get_or-clear zero (suc n) = refl
    get_or-clear (suc i) (suc n) = get_or-clear i n

-- a chunk with a mark is one of the table's
pub inside-of_bit : (t : Table) (c b : ℕ) → bit_of (mask_of t c).words b ≡ true → c < length t.masks
inside-of_bit t c b h = elim (Bool-cases (ltb c (length t.masks))) [
  | inl k ↦ ground (arith, k)
  | inr k ↦ absurd (
      true-ne-false (
        sym h
        ∙ ap (λ m. bit_of m.words b) (get_or-beyond t.masks c no_mask (ground (arith, k)))
        ∙ bit_of-none b))
]
  where
    true-ne-false : true ≢ false
    true-ne-false e = cc

-- the mask of a chunk after one was written
pub mask_of-with_mask :
    (t : Table) (c d : ℕ) (m : Mask)
    → c < length t.masks
    → mask_of (with_mask t c m) d ≡ (if d == c then m else mask_of t d)
mask_of-with_mask t c d m h = elim (Bool-cases (d == c)) [
  | inl k ↦
      ap (λ i. get_or (set t.masks c m) i no_mask) (same k)
      ∙ get_or-set_self t.masks c m no_mask h
      ∙ sym (ap (λ b. if b then m else mask_of t d) k)
  | inr k ↦
      get_or-set_ne t.masks c d m no_mask (other k) ∙ sym (ap (λ b. if b then m else mask_of t d) k)
]
  where
    same : (d == c) ≡ true → d ≡ c
    same k = ground (arith, k)

    other : (d == c) ≡ false → c ≢ d
    other k e = ground (arith, k, e)

-- A mask that is written in place.
module _ (t : Table) (c k : ℕ) (v : Bool) (m : Mask) (w : AllWhole t) (valid : c < length t.masks)
    (inside : k < 64 * length (mask_of t c).words)
    (written : m.words ≡ write_bit (mask_of t c).words k v) where
  pub written-AllWhole : AllWhole (with_mask t c m)
  written-AllWhole d =
      subst (λ x. Whole x.words) (sym (mask_of-with_mask t c d m valid)) (at (d == c))
    where
      at : (b : Bool) → Whole (if b then m else mask_of t d).words
      at true = subst Whole (sym written) (Whole-write_bit (mask_of t c).words k v (w c))
      at false = w d

  pub marked-written :
      (s : ℕ)
      → marked (with_mask t c m) s
        ≡ (if s / 101 == c then if s % 101 == k then v else marked t s else marked t s)
  marked-written s =
      ap (λ x. bit_of x.words (s % 101)) (mask_of-with_mask t c (s / 101) m valid)
      ∙ at (s / 101 == c) refl
    where
      at :
          (b : Bool)
          → (s / 101 == c) ≡ b
          → bit_of (if b then m else mask_of t (s / 101)).words (s % 101)
            ≡ (if b then if s % 101 == k then v else marked t s else marked t s)
      at true e =
          ap (λ x. bit_of x (s % 101)) written
          ∙ bit_of-write_bit (mask_of t c).words k (s % 101) v (w c) inside
          ∙ ap (λ d. if s % 101 == k then v else bit_of (mask_of t d).words (s % 101)) (same e)
        where
          same : (s / 101 == c) ≡ true → c ≡ s / 101
          same e = ground (arith, e)
      at false e = refl
