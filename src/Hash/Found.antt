-- ===== src/Hash/Found.antt =====
-- A table of src/common/hash-table.c after the entry of a key was freed, or got another object.
use mathlib.Core.Path.{subst}
use mathlib.Core.Option.{none-ne-some}
use iot_app_fw.Common.{
  ℕ, ◌/◌, ◌%◌, ◌≡◌, ◌≢◌, refl, sym, ap, ◌∙◌, Bool, true, false, ◌&&◌, Option, none, some, [], ◌∷◌,
  ◌++◌, ◌==◌, if◌then◌else◌, set, get_or, arith,
}
use iot_app_fw.Mask.{bit_of, clear_bit}
use iot_app_fw.Mask.Bits.{Whole}
use iot_app_fw.Hash.{Entry, no_entry, Table, remove, free_entry, at_slot, mask_of, no_mask}
use iot_app_fw.Hash.Ops.{hash_entry, unlinked}
use iot_app_fw.Hash.Walk.{leave_entry, is_at, moved_off, opposite, stepped, step}
use iot_app_fw.Hash.Slots.{marked}
use iot_app_fw.Hash.Freed.{unmarked, unmarked-AllWhole, unmarked-marked}
use iot_app_fw.Hash.Bindings.{
  In, binding, at_slot-ne, binding-at_slot, In-remove, In-remove_ne, Unique-remove, remove_absent,
  erase, exchange, found-In, found-erase, found-exchange,
}
use iot_app_fw.Hash.Refine.{bindings, IsTable, home}

-- no iteration is under way
abbrev pub Idle : Table → Type 0
Idle t = t.it.place ≡ none

pub Idle-leave_entry : (s : ℕ) (t : Table) → Idle t → leave_entry s t ≡ some t
unfolding leave_entry is_at
Idle-leave_entry s t h = at t.it.place h
  where
    moved : Option Table
    moved =
        moved_off (opposite (opposite t.it.direction))
          (stepped (step (opposite t.it.direction) t t.it.place) t)

    at : (p : Option (ℕ × ℕ)) → p ≡ none → (if is_at p s then moved else some t) ≡ some t
    at none e = refl
    at (some q) e = absurd (none-ne-some q (sym e))

module _ (hash : ℕ → ℕ) (equal : ℕ → ℕ → Bool) where
  -- the slot of a key's entry
  abbrev pub slot_of : Table → ℕ → Option ℕ
  slot_of t key = hash_entry hash equal t.entries key 0 (t.buckets (home hash t key))

  one_bucket :
      (t : Table) (s b c : ℕ) → IsTable hash t → In s (t.buckets b) → In s (t.buckets c) → b ≡ c
  one_bucket t s b c v h k = sym (v.hashed b s h) ∙ v.hashed c s k

  module _ (t : Table) (key s : ℕ) (release : Bool) (v : IsTable hash t)
      (found : slot_of t key ≡ some s) where
    here : In s (t.buckets (home hash t key))
    here = found-In hash equal t.entries key s (t.buckets (home hash t key)) found

    taken : marked t s ≡ true
    taken = v.taken (home hash t key) s here

    away : (b : ℕ) → b ≢ home hash t key → ¬ In s (t.buckets b)
    away b h k = h (one_bucket t s b (home hash t key) v k here)

    -- the table after the entry was freed
    abbrev pub left : Table
    left = unlinked hash equal (home hash t key) s release t

    left-masks : left.masks ≡ (unmarked t s).masks
    unfolding unlinked free_entry
    left-masks = ap (λ n. set t.masks (s / n) (clear_bit (mask_of t (s / n)) (s % n))) v.perchunk

    pub left-IsTable : IsTable hash left
    unfolding unlinked free_entry remove
    left-IsTable = record {
      perchunk = v.perchunk;
      whole =
          subst (λ ms. (c : ℕ) → Whole (get_or ms c no_mask).words) (sym left-masks)
            (unmarked-AllWhole t s v.whole taken);
      taken = λ b i h.
          ap (λ ms. bit_of (get_or ms (i / 101) no_mask).words (i % 101)) left-masks
          ∙ unmarked-marked t s v.whole taken i (In-remove_ne s (t.buckets b) i (v.distinct b) h)
          ∙ v.taken b i (In-remove i s (t.buckets b) h);
      hashed = λ b i h.
          ap (λ x. hash x.key % t.nbucket)
            (at_slot-ne t.entries s i no_entry (In-remove_ne s (t.buckets b) i (v.distinct b) h))
          ∙ v.hashed b i (In-remove i s (t.buckets b) h);
      distinct = λ b. Unique-remove s (t.buckets b) (v.distinct b);
      unmade = λ e b. ap (remove s) (v.unmade e b);
    }

    pub left-bindings :
        (b : ℕ)
        → bindings left b
          ≡ (if b == home hash t key then erase equal key (bindings t b) else bindings t b)
    unfolding unlinked free_entry
    left-bindings b = at (b == home hash t key) refl
      where
        at :
            (c : Bool)
            → (b == home hash t key) ≡ c
            → binding (at_slot t.entries s no_entry) (remove s (t.buckets b))
              ≡ (if c then erase equal key (bindings t b) else bindings t b)
        at true k =
            found-erase hash equal t.entries key s no_entry (t.buckets b) (v.distinct b)
              (ap (λ b. hash_entry hash equal t.entries key 0 (t.buckets b)) (same k) ∙ found)
          where
            same : (b == home hash t key) ≡ true → b ≡ home hash t key
            same k = ground (arith, k)
        at false k =
            ap (binding (at_slot t.entries s no_entry))
              (remove_absent s (t.buckets b) (away b (other k)))
            ∙ binding-at_slot t.entries s no_entry (t.buckets b) (away b (other k))
          where
            other : (b == home hash t key) ≡ false → b ≢ home hash t key
            other k = ground (arith, k)

    -- the table after the entry got another key, of the same bucket, and another object
    abbrev pub swapped : (obj : ℕ) → Table
    swapped obj = record t {
      released =
          if t.frees && release
          then t.released ++ ((t.entries s).key, (t.entries s).object) ∷ []
          else t.released;
      entries = at_slot t.entries s (record (t.entries s) { key = key; object = obj });
    }

    pub swapped-IsTable : (obj : ℕ) → IsTable hash (swapped obj)
    swapped-IsTable obj = record {
      perchunk = v.perchunk;
      whole = v.whole;
      taken = v.taken;
      hashed = λ b i h. at b i h (i == s) refl;
      distinct = v.distinct;
      unmade = v.unmade;
    }
      where
        e : Entry
        e = record (t.entries s) { key = key; object = obj }

        at :
            (b i : ℕ)
            → In i (t.buckets b)
            → (c : Bool) → (i == s) ≡ c
            → hash (if c then e else t.entries i).key % t.nbucket ≡ b
        at b i h true k =
            one_bucket t s (home hash t key) b v here (subst (λ i. In i (t.buckets b)) (same k) h)
          where
            same : (i == s) ≡ true → i ≡ s
            same k = ground (arith, k)
        at b i h false k = v.hashed b i h

    pub swapped-bindings :
        (obj b : ℕ)
        → bindings (swapped obj) b
          ≡ (if b == home hash t key then exchange equal key obj (bindings t b) else bindings t b)
    swapped-bindings obj b = at (b == home hash t key) refl
      where
        e : Entry
        e = record (t.entries s) { key = key; object = obj }

        at :
            (c : Bool)
            → (b == home hash t key) ≡ c
            → binding (at_slot t.entries s e) (t.buckets b)
              ≡ (if c then exchange equal key obj (bindings t b) else bindings t b)
        at true k =
            found-exchange hash equal t.entries key s obj (t.buckets b) (v.distinct b)
              (ap (λ b. hash_entry hash equal t.entries key 0 (t.buckets b)) (same k) ∙ found)
          where
            same : (b == home hash t key) ≡ true → b ≡ home hash t key
            same k = ground (arith, k)
        at false k = binding-at_slot t.entries s e (t.buckets b) (away b (other k))
          where
            other : (b == home hash t key) ≡ false → b ≢ home hash t key
            other k = ground (arith, k)
