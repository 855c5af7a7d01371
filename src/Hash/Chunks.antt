-- ===== src/Hash/Chunks.antt =====
-- The allocation of chunks of a hash table of src/common/hash-table.c.
use mathlib.Core.Path.{subst}
use mathlib.Core.Option.{none-ne-some}
use iot_app_fw.Common.{
  ℕ, zero, suc, ◌+◌, ◌*◌, ◌/◌, ◌%◌, ◌≡◌, refl, ap, ◌∙◌, Bool, true, false, not, Option, none, some,
  List, [], ◌∷◌, ◌++◌, ◌==◌, ltb, if◌then◌else◌, get_or, replicate, eq_of_some,
}
use iot_app_fw.Mask.{Mask, clear_word, bit_of, nword}
use iot_app_fw.Mask.Bits.{Whole}
use iot_app_fw.Mask.Sets.{init_inlined, inlined_size}
use iot_app_fw.Hash.{
  Table, Memory, allocate_chunks, add_chunks, with_chunk, with_last, chunk_mask, chunk_bytes,
  chunk_counts, chunk_list, no_mask, header_size, entry_size,
}
use iot_app_fw.Hash.Slots.{Keeps, Keeps-refl, Keeps-trans, get_or-append, inside-of_bit}

Whole-replicate : (n : ℕ) → Whole (replicate n clear_word)
Whole-replicate zero = tt
Whole-replicate (suc n) = (refl, Whole-replicate n)

chunk_mask-Whole : (size n : ℕ) (m : Mask) → chunk_mask size n ≡ some m → Whole m.words
unfolding chunk_mask init_inlined
chunk_mask-Whole size n m h =
    at (ltb (header_size + n * entry_size) 0)
      (ltb (0 + size) (header_size + n * entry_size + inlined_size n)) h
  where
    fresh : Mask
    fresh = record {
      nbit = n;
      fixed = false;
      inlined = true;
      words = replicate (nword n) clear_word;
    }

    at :
        (below above : Bool)
        → (if below then none else if above then none else some fresh) ≡ some m
        → Whole m.words
    at true above e = absurd (none-ne-some m e)
    at false true e = absurd (none-ne-some m e)
    at false false e = subst (λ m. Whole m.words) (eq_of_some e) (Whole-replicate (nword n))

-- the words of a mask at the end of the list
Whole-append :
    (ms : List Mask) (m : Mask)
    → ((c : ℕ) → Whole (get_or ms c no_mask).words)
    → Whole m.words
    → (c : ℕ) → Whole (get_or (ms ++ m ∷ []) c no_mask).words
Whole-append [] m w h zero = h
Whole-append [] m w h (suc c) = tt
Whole-append (x ∷ ms) m w h zero = w zero
Whole-append (x ∷ ms) m w h (suc c) = Whole-append ms m (λ c. w (suc c)) h c

with_chunk-Keeps : (n : ℕ) (t : Table) (m : Mask) → Whole m.words → Keeps t (with_chunk n t m)
unfolding with_chunk
with_chunk-Keeps n t m h = record {
  nentry = refl;
  nbucket = refl;
  nperchunk = refl;
  entries = refl;
  made = refl;
  buckets = refl;
  it = refl;
  whole = λ w. Whole-append t.masks m w h;
  marks = λ s w e.
      ap (λ x. bit_of x.words (s % 101))
        (get_or-append t.masks (m ∷ []) (s / 101) no_mask (inside-of_bit t (s / 101) (s % 101) e))
      ∙ e;
}

add_chunks-Keeps : (room : ℕ) (ns : List ℕ) (t : Table) → Keeps t (add_chunks room ns t).1
unfolding add_chunks
add_chunks-Keeps room [] t = Keeps-refl t
add_chunks-Keeps zero (n ∷ ns) t = Keeps-refl t
add_chunks-Keeps (suc room) (n ∷ ns) t =
    at (chunk_mask (chunk_bytes (n == t.nperchunk) n) n) refl
      (λ m. add_chunks-Keeps room ns (with_chunk n t m))
  where
    result : Option Mask → Bool × Table
    result o = elim o [ none ↦ (false, t) | some m ↦ add_chunks room ns (with_chunk n t m) ]

    at :
        (o : Option Mask)
        → chunk_mask (chunk_bytes (n == t.nperchunk) n) n ≡ o
        → ((m : Mask) → Keeps (with_chunk n t m) (add_chunks room ns (with_chunk n t m)).1)
        → Keeps t (result o).1
    at none e f = Keeps-refl t
    at (some m) e f = Keeps-trans (with_chunk-Keeps n t m (chunk_mask-Whole _ n m e)) (f m)

with_last-Keeps :
    (last : ℕ) (t : Table) (r : Bool × Table) → Keeps t r.1 → Keeps t (with_last last r).1
unfolding with_last
with_last-Keeps last t (true, u) k = record {
  nentry = k.nentry;
  nbucket = k.nbucket;
  nperchunk = k.nperchunk;
  entries = k.entries;
  made = k.made;
  buckets = k.buckets;
  it = k.it;
  whole = k.whole;
  marks = k.marks;
}
with_last-Keeps last t (false, u) k = k

-- The allocation of chunks loses no entry, whether it succeeds or not.
pub allocate_chunks-Keeps :
    (mem : Memory) (n : ℕ) (t t' : Table) (ok : Bool)
    → allocate_chunks mem n t ≡ some (ok, t')
    → Keeps t t'
unfolding allocate_chunks
allocate_chunks-Keeps mem n t t' ok h = at (not (t.nlast == 0)) (not mem.array) h
  where
    counts : ℕ × ℕ
    counts = chunk_counts t n

    grown : Bool × Table
    grown =
        with_last counts.1
          (add_chunks mem.room (chunk_list counts (replicate counts.0 t.nperchunk)) t)

    at :
        (full short : Bool)
        → (if full then none else if short then some (false, t) else some grown) ≡ some (ok, t')
        → Keeps t t'
    at true short e = absurd (none-ne-some (ok, t') e)
    at false true e = subst (λ r. Keeps t r.1) (eq_of_some e) (Keeps-refl t)
    at false false e =
        subst (λ r. Keeps t r.1) (eq_of_some e)
          (with_last-Keeps counts.1 t
            (add_chunks mem.room (chunk_list counts (replicate counts.0 t.nperchunk)) t)
            (add_chunks-Keeps mem.room (chunk_list counts (replicate counts.0 t.nperchunk)) t))
