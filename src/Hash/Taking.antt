-- ===== src/Hash/Taking.antt =====
-- The allocation of an entry in the chunks of a hash table of src/common/hash-table.c.
use mathlib.Core.Path.{subst}
use mathlib.Core.Option.{none-ne-some}
use iot_app_fw.Common.{
  ℕ, zero, suc, ◌+◌, ◌*◌, ◌/◌, ◌%◌, ◌<◌, ◌≡◌, ◌≢◌, refl, sym, ap, ◌∙◌, Bool, true, false, ◌||◌,
  Option, none, some, List, [], ◌∷◌, ◌==◌, leb, if◌then◌else◌, length, get_or, set, arith,
  eq_of_some, ==_refl,
}
use iot_app_fw.Mask.{Mask, bit_of, alloc_bit}
use iot_app_fw.Mask.Alloc.{Allocated, alloc_bit-Allocated}
use iot_app_fw.Hash.{Table, is_beyond, no_mask, mask_of, with_mask, unlink, alloc_from}
use iot_app_fw.Hash.Slots.{
  marked, AllWhole, Keeps, Keeps-refl, Keeps-trans, written-AllWhole, marked-written,
}

-- what an allocation of a slot gives
pub record Fresh (t : Table) (o : Option ℕ) (t' : Table) : Type 0 where
  pub keeps : Keeps t t'
  pub taken : (s : ℕ) → o ≡ some s → (marked t s ≡ false) × (marked t' s ≡ true)

inside-of_bits :
    (ms : List Mask) (c k : ℕ) → k < 64 * length (get_or ms c no_mask).words → c < length ms
inside-of_bits [] c k h = absurd (omega (arith, h))
inside-of_bits (m ∷ ms) zero k h = omega arith
inside-of_bits (m ∷ ms) (suc c) k h = omega (arith, inside-of_bits ms c k h)

if_same : (b e : Bool) → (if b then if e then true else true else true) ≡ true
if_same true true = refl
if_same true false = refl
if_same false e = refl

Allocated-Keeps :
    (t : Table) (c k : ℕ) (m : Mask)
    → AllWhole t
    → Allocated (mask_of t c) k m
    → Keeps t (with_mask t c m)
Allocated-Keeps t c k m w a =
    let valid = inside-of_bits t.masks c k a.inside in
    record {
      nentry = refl;
      nbucket = refl;
      nperchunk = refl;
      entries = refl;
      made = refl;
      buckets = refl;
      it = refl;
      whole = λ w. written-AllWhole t c k true m w valid a.inside (ap (λ m. m.words) a.words);
      marks = λ s w h.
          marked-written t c k true m w valid a.inside (ap (λ m. m.words) a.words) s
          ∙ ap (λ b. if s / 101 == c then if s % 101 == k then true else b else b) h
          ∙ if_same (s / 101 == c) (s % 101 == k);
    }

slot_chunk : (c i : ℕ) → i < 101 → (c * 101 + i) / 101 ≡ c
slot_chunk c i h = omega (arith, h)

slot_index : (c i : ℕ) → i < 101 → (c * 101 + i) % 101 ≡ i
slot_index c i h = omega (arith, h)

Allocated-marked :
    (t : Table) (c k : ℕ) (m : Mask)
    → AllWhole t
    → Allocated (mask_of t c) k m
    → k < 101
    → (marked t (c * 101 + k) ≡ false) × (marked (with_mask t c m) (c * 101 + k) ≡ true)
Allocated-marked t c k m w a h =
    let valid = inside-of_bits t.masks c k a.inside in
    let c' = slot_chunk c k h in
    let k' = slot_index c k h in
    (
      ap (λ d. bit_of (mask_of t d).words ((c * 101 + k) % 101)) c'
          ∙ ap (bit_of (mask_of t c).words) k'
          ∙ a.clear,
      marked-written t c k true m w valid a.inside (ap (λ m. m.words) a.words) (c * 101 + k)
          ∙ ap
              (λ d.
                if d == c
                then if (c * 101 + k) % 101 == k then true else marked t (c * 101 + k)
                else marked t (c * 101 + k))
              c'
          ∙ ap
              (λ b.
                if b
                then if (c * 101 + k) % 101 == k then true else marked t (c * 101 + k)
                else marked t (c * 101 + k))
              (==_refl c)
          ∙ ap (λ d. if d == k then true else marked t (c * 101 + k)) k'
          ∙ ap (λ b. if b then true else marked t (c * 101 + k)) (==_refl k),
    )

pub Fresh-after :
    (t u t' : Table) (o : Option ℕ) → AllWhole t → Keeps t u → Fresh u o t' → Fresh t o t'
Fresh-after t u t' o w k f = record {
  keeps = Keeps-trans k f.keeps;
  taken = λ s e. let (clear, set) = f.taken s e in (not_before s clear, set);
}
  where
    not_before : (s : ℕ) → marked u s ≡ false → marked t s ≡ false
    not_before s h = at (marked t s) refl
      where
        at : (b : Bool) → marked t s ≡ b → b ≡ false
        at true e = absurd (false-ne-true (sym h ∙ k.marks s w e))
          where
            false-ne-true : false ≢ true
            false-ne-true e = cc
        at false e = refl

unlink-Keeps : (c : ℕ) (t : Table) → Keeps t (unlink c t)
unlink-Keeps c t = record {
  nentry = refl;
  nbucket = refl;
  nperchunk = refl;
  entries = refl;
  made = refl;
  buckets = refl;
  it = refl;
  whole = λ h. h;
  marks = λ s w h. h;
}

pub alloc_from-Fresh :
    (cs : List ℕ) (t : Table)
    → AllWhole t
    → t.nperchunk ≡ 101
    → Fresh t (alloc_from cs t).0 (alloc_from cs t).1
unfolding alloc_from
alloc_from-Fresh [] t w p = record {
  keeps = Keeps-refl t;
  taken = λ s e. absurd (none-ne-some s e);
}
alloc_from-Fresh (c ∷ cs) t w p =
    at (alloc_bit (mask_of t c)) refl (alloc_from-Fresh cs (unlink c t) w p)
      (λ m v. alloc_from-Fresh cs (unlink c (with_mask t c m)) v p)
  where
    skipped : Mask → Option ℕ × Table
    skipped m = alloc_from cs (unlink c (with_mask t c m))

    result : Option (ℕ × Mask) → Option ℕ × Table
    result o = elim o [
      | none ↦ alloc_from cs (unlink c t)
      | some (i, m) ↦
          if leb t.nperchunk i || is_beyond t c i
          then skipped m
          else (some (c * t.nperchunk + i), with_mask t c m)
    ]

    at :
        (o : Option (ℕ × Mask))
        → alloc_bit (mask_of t c) ≡ o
        → Fresh (unlink c t) (alloc_from cs (unlink c t)).0 (alloc_from cs (unlink c t)).1
        → ((m : Mask)
            → AllWhole (with_mask t c m)
            → Fresh (unlink c (with_mask t c m)) (skipped m).0 (skipped m).1)
        → Fresh t (result o).0 (result o).1
    at none e f g = Fresh-after t (unlink c t) _ _ w (unlink-Keeps c t) f
    at (some (k, m)) e f g = chosen (leb t.nperchunk k || is_beyond t c k) refl
      where
        a : Allocated (mask_of t c) k m
        a = alloc_bit-Allocated (mask_of t c) m k (w c) e

        kept : Keeps t (with_mask t c m)
        kept = Allocated-Keeps t c k m w a

        chosen :
            (b : Bool)
            → (leb t.nperchunk k || is_beyond t c k) ≡ b
            → Fresh t
                (if b then skipped m else (some (c * t.nperchunk + k), with_mask t c m)).0
                (if b then skipped m else (some (c * t.nperchunk + k), with_mask t c m)).1
        chosen true h =
            Fresh-after t (unlink c (with_mask t c m)) _ _ w
              (Keeps-trans kept (unlink-Keeps c (with_mask t c m))) (g m (kept.whole w))
        chosen false h = record {
          keeps = kept;
          taken = λ s e.
              subst (λ s. (marked t s ≡ false) × (marked (with_mask t c m) s ≡ true))
                (ap (λ n. c * n + k) (sym p) ∙ eq_of_some e)
                (Allocated-marked t c k m w a (below h));
        }
          where
            below : (leb t.nperchunk k || is_beyond t c k) ≡ false → k < 101
            below h = ground (arith, h, p)
