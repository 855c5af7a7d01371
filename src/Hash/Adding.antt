-- ===== src/Hash/Adding.antt =====
-- `iot_hashtbl_add` of src/common/hash-table.c without a cookie.
use mathlib.Core.Path.{subst}
use iot_app_fw.Common.{
  ℕ, ◌+◌, ◌%◌, ◌<◌, ◌≡◌, refl, sym, ap, ◌∙◌, Bool, true, false, not, ◌&&◌, Option, none, some, [],
  ◌∷◌, ◌++◌, ◌==◌, leb, if◌then◌else◌, is_some, replicate, arith, inl, inr, ◌⊎◌,
}
use iot_app_fw.Hash.{
  Entry, Table, Memory, allocate_chunks, add_chunks, with_last, chunk_counts, chunk_list,
  alloc_entry,
}
use iot_app_fw.Hash.Ops.{place_in, place, growth, alloc_after, new_entry, placed, add}
use iot_app_fw.Hash.Slots.{marked, Keeps, Keeps-refl}
use iot_app_fw.Hash.Taking.{Fresh}
use iot_app_fw.Hash.Bindings.{In}
use iot_app_fw.Hash.Refine.{bindings, IsTable, home, hash_bucket-cases}
use iot_app_fw.Hash.Chained.{
  Keeps-IsTable, Keeps-bindings, new_entry-Fresh, written, absent, written-bindings,
  written-IsTable, chained-bindings, chained-IsTable,
}

module _ (hash : ℕ → ℕ) (equal : ℕ → ℕ → Bool) where
  -- a table in order, to which a key and an object were added if there is a cookie
  abbrev pub Adds : (key obj : ℕ) → Table → Option ℕ → Table → Type 0
  Adds key obj t o t' =
      IsTable hash t'
      × ((b : ℕ)
          → bindings t' b ≡ (
              if is_some o && (b == home hash t key)
              then bindings t b ++ (key, obj) ∷ []
              else bindings t b))

  -- where the search for an entry, or for the bucket, fails
  unadded : (key obj : ℕ) (t u : Table) → IsTable hash t → Keeps t u → Adds key obj t none u
  unadded key obj t u v k =
      (Keeps-IsTable hash equal t u v k, λ b. Keeps-bindings hash equal t u k b)

  place-Adds :
      (mem : Memory) (key obj : ℕ) (t u : Table) (o : Option ℕ)
      → IsTable hash t
      → Fresh t o u
      → Adds key obj t
          (place hash equal mem key obj 0 (o, u)).0
          (place hash equal mem key obj 0 (o, u)).1
  unfolding place place_in
  place-Adds mem key obj t u none v f = unadded key obj t u v f.keeps
  place-Adds mem key obj t u (some s) v f =
      elim (hash_bucket-cases hash equal mem key w (written-IsTable hash equal u s e v' new)) [
        | inl k ↦ subst result (sym k) (
          chained-IsTable hash equal u s e v' new set.1,
          λ b. chained-bindings hash equal u s e v' new b ∙ bound b,
        )
        | inr (k, empty) ↦ subst result (sym k) (
          written-IsTable hash equal u s e v' new,
          λ b. written-bindings hash equal u s e v' new b ∙ Keeps-bindings hash equal t u f.keeps b,
        )
      ]
    where
      e : Entry
      e = record { key = key; object = obj; cookie = s + 1 }

      w : Table
      w = written hash equal u s e

      v' : IsTable hash u
      v' = Keeps-IsTable hash equal t u v f.keeps

      set : (marked t s ≡ false) × (marked u s ≡ true)
      set = f.taken s refl

      new : (b : ℕ) → ¬ In s (u.buckets b)
      new b h = absent hash equal t s v set.0 b (subst (λ g. In s (g b)) f.keeps.buckets h)

      result : Option ℕ × Table → Type 0
      result r =
          Adds key obj t (place_in hash equal s key obj (s + 1) r).0
            (place_in hash equal s key obj (s + 1) r).1

      bound :
          (b : ℕ)
          → (if b == home hash u key then bindings u b ++ (key, obj) ∷ [] else bindings u b)
            ≡ (if b == home hash t key then bindings t b ++ (key, obj) ∷ [] else bindings t b)
      bound b =
          ap (λ n. if b == hash key % n then bindings u b ++ (key, obj) ∷ [] else bindings u b)
            f.keeps.nbucket
          ∙ ap (λ l. if b == home hash t key then l ++ (key, obj) ∷ [] else l)
              (Keeps-bindings hash equal t u f.keeps b)

  allocate_chunks-returns :
      (mem : Memory) (n : ℕ) (t : Table)
      → t.nlast ≡ 0
      → (r : Bool × Table) × (allocate_chunks mem n t ≡ some r)
  unfolding allocate_chunks
  allocate_chunks-returns mem n t e = at (not (t.nlast == 0)) (ground (arith, e)) (not mem.array)
    where
      counts : ℕ × ℕ
      counts = chunk_counts t n

      g : Bool × Table
      g =
          with_last counts.1
            (add_chunks mem.room (chunk_list counts (replicate counts.0 t.nperchunk)) t)

      at :
          (full : Bool)
          → full ≡ false
          → (short : Bool)
          → (r : Bool × Table) × ((if full then none else if short then some (false, t) else some g)
              ≡ some r)
      at true k short = absurd (cc)
      at false k true = ((false, t), refl)
      at false k false = (g, refl)

  -- An entry is left, or more chunks can be allocated.
  abbrev pub HasRoom : Table → Type 0
  HasRoom t = (t.nentry < t.nalloc) ⊎ (t.nlast ≡ 0)

  new_entry-returns :
      (mem : Memory) (t : Table)
      → HasRoom t
      → (r : Option ℕ × Table) × (new_entry hash equal mem t ≡ some r)
  unfolding new_entry alloc_after
  new_entry-returns mem t (inl h) = (
    alloc_entry t,
    ap
        (λ b.
          if b
          then alloc_after hash equal (allocate_chunks mem (growth hash equal t) t)
          else some (alloc_entry t))
        (enough h),
  )
    where
      enough : t.nentry < t.nalloc → leb t.nalloc t.nentry ≡ false
      enough h = ground (arith, h)
  new_entry-returns mem t (inr h) = at (leb t.nalloc t.nentry)
    where
      at :
          (b : Bool)
          → (r : Option ℕ × Table) × ((if b
                then alloc_after hash equal (allocate_chunks mem (growth hash equal t) t)
                else some (alloc_entry t))
              ≡ some r)
      at false = (alloc_entry t, refl)
      at true =
          let (r, e) = allocate_chunks-returns mem (growth hash equal t) t h in
          (alloc_entry r.1, ap (alloc_after hash equal) e)

  -- `iot_hashtbl_add` without a cookie leaves a table in order so: it puts the key and the object
  -- at the end of the key's bucket and returns a cookie, or returns none and changes no bucket. An
  -- entry is left in the chunks, or the last of them is full-sized.
  pub add-Adds :
      (mem : Memory) (key obj : ℕ) (t : Table)
      → IsTable hash t
      → HasRoom t
      → (o : Option ℕ) × (t' : Table) × (add hash equal mem key obj 0 t ≡ some (o, t'))
        × Adds key obj t o t'
  unfolding add placed
  add-Adds mem key obj t v room =
      let ((o, u), e) = new_entry-returns mem t room in
      at (not (t.nlimit == 0) && leb t.nlimit t.nentry) o u e
    where
      at :
          (full : Bool) (o : Option ℕ) (u : Table)
          → new_entry hash equal mem t ≡ some (o, u)
          → (o' : Option ℕ) × (t' : Table) × ((if full
                then some (none, t)
                else placed hash equal mem key obj 0 (new_entry hash equal mem t))
              ≡ some (o', t'))
            × Adds key obj t o' t'
      at true o u e = (none, t, refl, unadded key obj t t v (Keeps-refl t))
      at false o u e =
          let (o', t') = place hash equal mem key obj 0 (o, u) in
          (
            o',
            t',
            ap (placed hash equal mem key obj 0) e,
            place-Adds mem key obj t u o v (new_entry-Fresh hash equal mem t u o v e),
          )
