-- ===== src/Hash/Refine.antt =====
-- The hash tables of src/common/hash-table.c, used without cookies, against lists of keys and objects.
use iot_app_fw.Common.{
  ℕ, ◌%◌, ◌≡◌, ◌≢◌, refl, sym, ap, ◌∙◌, Bool, true, false, Option, none, some, List, [],
  if◌then◌else◌, inl, inr, ◌⊎◌,
}
use iot_app_fw.Hash.{Table, Memory, hash_bucket}
use iot_app_fw.Hash.Ops.{hash_entry, find, looked_up, lookup_in, lookup}
use iot_app_fw.Hash.Slots.{marked, AllWhole}
use iot_app_fw.Hash.Bindings.{In, Unique, binding, find_key, found-none, found-find_key}

-- what a bucket binds
abbrev pub bindings : Table → ℕ → List (ℕ × ℕ)
bindings t b = binding t.entries (t.buckets b)

-- A table in order: the slots on the lists are marked as taken, each is on one list only, once, and
-- that is its key's bucket.
pub record IsTable (hash : ℕ → ℕ) (t : Table) : Type 0 where
  pub perchunk : t.nperchunk ≡ 101
  pub whole : AllWhole t
  pub taken : (b s : ℕ) → In s (t.buckets b) → marked t s ≡ true
  pub hashed : (b s : ℕ) → In s (t.buckets b) → hash (t.entries s).key % t.nbucket ≡ b
  pub distinct : (b : ℕ) → Unique (t.buckets b)
  pub unmade : t.made ≡ false → (b : ℕ) → t.buckets b ≡ []

-- the bucket of a key
abbrev pub home : (ℕ → ℕ) → Table → ℕ → ℕ
home hash t key = hash key % t.nbucket

-- a table whose buckets are allocated
abbrev pub ready : Table → Table
ready t = record t { made = true }

module _ (hash : ℕ → ℕ) (equal : ℕ → ℕ → Bool) where
  pub ready-IsTable : (t : Table) → IsTable hash t → IsTable hash (ready t)
  ready-IsTable t v = record {
    perchunk = v.perchunk;
    whole = v.whole;
    taken = v.taken;
    hashed = v.hashed;
    distinct = v.distinct;
    unmade = λ e. absurd (true-ne-false e);
  }
    where
      true-ne-false : true ≢ false
      true-ne-false e = cc

  ready-made : (t : Table) → t.made ≡ true → ready t ≡ t
  ready-made t e = ap (λ b. record t { made = b }) (sym e)

  -- `hash_bucket` gives the bucket and makes the table ready, or there is nothing in the table.
  pub hash_bucket-cases :
      (mem : Memory) (key : ℕ) (t : Table)
      → IsTable hash t
      → (hash_bucket mem (hash key) t ≡ (some (home hash t key), ready t))
        ⊎ ((hash_bucket mem (hash key) t ≡ (none, t)) × ((b : ℕ) → t.buckets b ≡ []))
  unfolding hash_bucket
  hash_bucket-cases mem key t v = at t.made mem.table refl
    where
      some_of : Table → Option ℕ × Table
      some_of u = (some (home hash t key), u)

      result : Bool → Bool → Option ℕ × Table
      result made granted =
          if made
          then (some (home hash t key), t)
          else if granted
          then (some (home hash t key), ready t)
          else (none, t)

      at :
          (made granted : Bool)
          → t.made ≡ made
          → (result made granted ≡ (some (home hash t key), ready t))
            ⊎ ((result made granted ≡ (none, t)) × ((b : ℕ) → t.buckets b ≡ []))
      at true granted e = inl (ap (λ u. some_of u) (sym (ready-made t e)))
      at false true e = inl refl
      at false false e = inr (refl, v.unmade e)

  -- On a table in order and without a cookie, `iot_hashtbl_lookup` finds the first object that the
  -- key's bucket has under the key, or none, and leaves the table in order and every bucket as it is.
  pub lookup-bindings :
      (mem : Memory) (key : ℕ) (t : Table)
      → IsTable hash t
      → (t' : Table) × (lookup hash equal mem key 0 t
          ≡ some (find_key equal key (bindings t (home hash t key)), t'))
        × IsTable hash t'
        × ((b : ℕ) → bindings t' b ≡ bindings t b)
  unfolding lookup lookup_in find looked_up
  lookup-bindings mem key t v = elim (hash_bucket-cases mem key t v) [
    | inl e ↦ (
      ready t,
      ap (lookup_in hash equal mem key 0) e
          ∙ at (hash_entry hash equal t.entries key 0 (t.buckets b)) refl,
      ready-IsTable t v,
      λ b. refl,
    )
    | inr (e, empty) ↦ (
      t,
      ap (lookup_in hash equal mem key 0) e
          ∙ ap (λ l. some (find_key equal key (binding t.entries l), t)) (sym (empty b)),
      v,
      λ b. refl,
    )
  ]
    where
      b : ℕ
      b = home hash t key

      at :
          (o : Option ℕ)
          → hash_entry hash equal t.entries key 0 (t.buckets b) ≡ o
          → looked_up hash equal 0 (some (o, ready t))
            ≡ some (find_key equal key (bindings t b), ready t)
      at none e =
          ap (λ o. some (o, ready t)) (sym (found-none hash equal t.entries key (t.buckets b) e))
      at (some s) e =
          ap (λ o. some (o, ready t))
            (sym (found-find_key hash equal t.entries key s (t.buckets b) e))
