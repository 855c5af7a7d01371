-- ===== src/Hash/Chained.antt =====
-- A table of src/common/hash-table.c whose entry was chained into a bucket.
use mathlib.Core.Path.{subst}
use mathlib.Core.Option.{none-ne-some}
use iot_app_fw.Common.{
  ℕ, ◌+◌, ◌%◌, ◌≡◌, ◌≢◌, refl, sym, ap, ◌∙◌, Bool, true, false, Option, none, some, [], ◌∷◌, ◌++◌,
  ◌==◌, leb, if◌then◌else◌, arith, eq_of_some, inl, inr, ◌⊎◌,
}
use iot_app_fw.Hash.{Entry, Table, Memory, allocate_chunks, alloc_entry, alloc_from, at_slot}
use iot_app_fw.Hash.Ops.{with_used, growth, alloc_after, new_entry}
use iot_app_fw.Hash.Slots.{marked, Keeps}
use iot_app_fw.Hash.Taking.{Fresh, Fresh-after, alloc_from-Fresh}
use iot_app_fw.Hash.Chunks.{allocate_chunks-Keeps}
use iot_app_fw.Hash.Bindings.{
  In, Unique, binding, at_slot-ne, at_slot-eq, binding-at_slot, binding-append, In-append,
  Unique-append,
}
use iot_app_fw.Hash.Refine.{bindings, IsTable, home, ready}

module _ (hash : ℕ → ℕ) (equal : ℕ → ℕ → Bool) where
  pub Keeps-IsTable : (t u : Table) → IsTable hash t → Keeps t u → IsTable hash u
  Keeps-IsTable t u v k = record {
    perchunk = k.nperchunk ∙ v.perchunk;
    whole = k.whole v.whole;
    taken = λ b s h. k.marks s v.whole (v.taken b s (back b s h));
    hashed = λ b s h.
        ap (λ e. hash (e s).key % u.nbucket) k.entries
        ∙ ap (λ n. hash (t.entries s).key % n) k.nbucket
        ∙ v.hashed b s (back b s h);
    distinct = λ b. subst (λ f. Unique (f b)) (sym k.buckets) (v.distinct b);
    unmade = λ e b. ap (λ f. f b) k.buckets ∙ v.unmade (sym k.made ∙ e) b;
  }
    where
      back : (b s : ℕ) → In s (u.buckets b) → In s (t.buckets b)
      back b s h = subst (λ f. In s (f b)) k.buckets h

  pub Keeps-bindings : (t u : Table) → Keeps t u → (b : ℕ) → bindings u b ≡ bindings t b
  Keeps-bindings t u k b =
      ap (λ e. binding e (u.buckets b)) k.entries ∙ ap (λ f. binding t.entries (f b)) k.buckets

  -- what the search for an entry to add leaves
  pub new_entry-Fresh :
      (mem : Memory) (t u : Table) (o : Option ℕ)
      → IsTable hash t
      → new_entry hash equal mem t ≡ some (o, u)
      → Fresh t o u
  unfolding new_entry alloc_entry alloc_after
  new_entry-Fresh mem t u o v h =
      at (leb t.nalloc t.nentry) (allocate_chunks mem (growth hash equal t) t) refl h
    where
      fresh : Option ℕ × Table → Type 0
      fresh r = Fresh t r.0 r.1

      at :
          (b : Bool) (r : Option (Bool × Table))
          → allocate_chunks mem (growth hash equal t) t ≡ r
          → (if b then alloc_after hash equal r else some (alloc_from t.space t)) ≡ some (o, u)
          → Fresh t o u
      at false r g e = subst fresh (eq_of_some e) (alloc_from-Fresh t.space t v.whole v.perchunk)
      at true none g e = absurd (none-ne-some (o, u) e)
      at true (some (ok, w)) g e =
          let k = allocate_chunks-Keeps mem (growth hash equal t) t w ok g in
          subst fresh (eq_of_some e) (
            Fresh-after t w (alloc_from w.space w).1 (alloc_from w.space w).0 v.whole k
              (alloc_from-Fresh w.space w (k.whole v.whole) (k.nperchunk ∙ v.perchunk)))

  -- the table after an entry was written to a slot that no list has
  abbrev pub written : Table → ℕ → Entry → Table
  written u s e = record u { entries = at_slot u.entries s e }

  pub absent :
      (u : Table) (s : ℕ) → IsTable hash u → marked u s ≡ false → (b : ℕ) → ¬ In s (u.buckets b)
  absent u s v m b h = true-ne-false (sym (v.taken b s h) ∙ m)
    where
      true-ne-false : true ≢ false
      true-ne-false e = cc

  module _ (u : Table) (s : ℕ) (e : Entry) (v : IsTable hash u)
      (new : (b : ℕ) → ¬ In s (u.buckets b)) where
    other : (b i : ℕ) → In i (u.buckets b) → i ≢ s
    other b i h k = new b (subst (λ j. In j (u.buckets b)) k h)

    pub written-bindings : (b : ℕ) → bindings (written u s e) b ≡ bindings u b
    written-bindings b = binding-at_slot u.entries s e (u.buckets b) (new b)

    pub written-IsTable : IsTable hash (written u s e)
    written-IsTable = record {
      perchunk = v.perchunk;
      whole = v.whole;
      taken = v.taken;
      hashed = λ b i h.
          ap (λ x. hash x.key % u.nbucket) (at_slot-ne u.entries s i e (other b i h))
          ∙ v.hashed b i h;
      distinct = v.distinct;
      unmade = v.unmade;
    }

    -- the slot at the end of a list
    abbrev pub chained : Table
    chained = with_used (home hash u e.key) (record (ready (written u s e)) {
      buckets = at_slot u.buckets (home hash u e.key) (u.buckets (home hash u e.key) ++ s ∷ []);
      nentry = u.nentry + 1;
    })

    chained-buckets :
        (b : ℕ)
        → ((b ≡ home hash u e.key) × (chained.buckets b ≡ u.buckets (home hash u e.key) ++ s ∷ []))
          ⊎ ((b ≢ home hash u e.key) × (chained.buckets b ≡ u.buckets b))
    chained-buckets b = at (b == home hash u e.key) refl
      where
        at :
            (t : Bool)
            → (b == home hash u e.key) ≡ t
            → ((b ≡ home hash u e.key)
                × ((if t then u.buckets (home hash u e.key) ++ s ∷ [] else u.buckets b)
                    ≡ u.buckets (home hash u e.key) ++ s ∷ []))
              ⊎ ((b ≢ home hash u e.key)
                  × ((if t then u.buckets (home hash u e.key) ++ s ∷ [] else u.buckets b)
                      ≡ u.buckets b))
        at true k = inl (ground (arith, k), refl)
        at false k = inr (ground (arith, k), refl)

    chained-In :
        (b i : ℕ)
        → In i (chained.buckets b)
        → In i (u.buckets b) ⊎ ((s ≡ i) × (b ≡ home hash u e.key))
    chained-In b i h = elim (chained-buckets b) [
      | inl (k, l) ↦ elim (In-append i (u.buckets (home hash u e.key)) s (subst (In i) l h)) [
        | inl m ↦ inl (subst (λ b. In i (u.buckets b)) (sym k) m)
        | inr m ↦ inr (m, k)
      ]
      | inr (k, l) ↦ inl (subst (In i) l h)
    ]

    pub chained-bindings :
        (b : ℕ)
        → bindings chained b ≡ (
            if b == home hash u e.key then bindings u b ++ (e.key, e.object) ∷ [] else bindings u b)
    chained-bindings b = elim (chained-buckets b) [
      | inl (k, l) ↦
          ap (binding (at_slot u.entries s e)) (l ∙ ap (λ b. u.buckets b ++ s ∷ []) (sym k))
          ∙ binding-append (at_slot u.entries s e) (u.buckets b) s
          ∙ ap (λ x. binding (at_slot u.entries s e) (u.buckets b) ++ (x.key, x.object) ∷ [])
              (at_slot-eq u.entries s e)
          ∙ ap (λ l. l ++ (e.key, e.object) ∷ []) (written-bindings b)
          ∙ sym (
              ap (λ t. if t then bindings u b ++ (e.key, e.object) ∷ [] else bindings u b) (here k))
      | inr (k, l) ↦
          ap (binding (at_slot u.entries s e)) l
          ∙ written-bindings b
          ∙ sym (
              ap (λ t. if t then bindings u b ++ (e.key, e.object) ∷ [] else bindings u b)
                (there k))
    ]
      where
        here : b ≡ home hash u e.key → (b == home hash u e.key) ≡ true
        here k = ground (arith, k)

        there : b ≢ home hash u e.key → (b == home hash u e.key) ≡ false
        there k = ground (arith, k)

    pub chained-IsTable : marked u s ≡ true → IsTable hash chained
    chained-IsTable m = record {
      perchunk = v.perchunk;
      whole = v.whole;
      taken = λ b i h. elim (chained-In b i h) [
        | inl k ↦ v.taken b i k
        | inr (k, l) ↦ subst (λ i. marked u i ≡ true) k m
      ];
      hashed = λ b i h. elim (chained-In b i h) [
        | inl k ↦ written-IsTable.hashed b i k
        | inr (k, l) ↦
            subst (λ i. hash (at_slot u.entries s e i).key % u.nbucket ≡ b) k
              (ap (λ x. hash x.key % u.nbucket) (at_slot-eq u.entries s e) ∙ sym l)
      ];
      distinct = λ b. elim (chained-buckets b) [
        | inl (k, l) ↦ subst Unique (sym l) (
            Unique-append (u.buckets (home hash u e.key)) s (new (home hash u e.key))
              (v.distinct (home hash u e.key)))
        | inr (k, l) ↦ subst Unique (sym l) (v.distinct b)
      ];
      unmade = λ k. absurd (true-ne-false k);
    }
      where
        true-ne-false : true ≢ false
        true-ne-false e = cc
