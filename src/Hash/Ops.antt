-- ===== src/Hash/Ops.antt =====
-- The operations on a hash table of src/common/hash-table.c. An outer `none` is the failure of an
-- assertion. A hook is on one list at most: that a cookie is given to `add` whose entry is on a
-- bucket's list already is not modelled.
use Prim.Native.Nat.{bit_xor}
use iot_app_fw.Common.{
  ℕ, ◌+◌, ◌*◌, ◌-◌, ◌%◌, ◌^◌, Bool, true, false, Option, none, some, List, [], ◌∷◌, ◌++◌, ◌==◌, ltb,
  leb, if◌then◌else◌, not, ◌&&◌, ◌||◌,
}
use iot_app_fw.Hash.{
  Entry, no_entry, still, Iter, Table, Memory, entries_per_chunk, bucket_count, sub32,
  allocate_chunks, hash_bucket, cookie_entry, remove, is_in, alloc_entry, free_entry, at_slot,
}
use iot_app_fw.Hash.Walk.{leave_entry}

abbrev pub no_iter : Iter
no_iter = record { place = none; direction = still; generation = 0 }

-- the table that `iot_hashtbl_create` begins with
unfoldable pub empty_table : (nlimit nbucket : ℕ) → (frees : Bool) → Table
empty_table nlimit nbucket frees = record {
  nentry = 0;
  nlimit = nlimit;
  nalloc = 0;
  nbucket = bucket_count nbucket nlimit 0;
  nperchunk = entries_per_chunk;
  nlast = 0;
  masks = [];
  space = [];
  entries = λ s. no_entry;
  made = false;
  buckets = λ b. [];
  used = [];
  it = no_iter;
  frees = frees;
  released = [];
}

unfoldable pub created : Option (Bool × Table) → Option (Option Table)
created none = none
created (some (false, t)) = some none
created (some (true, t)) = some (some t)

-- `iot_hashtbl_create`; `valid` is whether both functions are given, `granted` the allocation
unfoldable pub create :
    (valid granted frees : Bool) → Memory → (nalloc nlimit nbucket : ℕ) → Option (Option Table)
create valid granted frees mem nalloc nlimit nbucket =
    if not valid
    then some none
    else if not (nalloc == 0) && (not (nlimit == 0) && ltb nlimit nalloc)
    then some none
    else if not granted
    then some none
    else created (allocate_chunks mem 0 (empty_table nlimit nbucket frees))

-- the loops of `iot_hashtbl_reset`
unfoldable pub free_entries : (release : Bool) → List ℕ → Table → Table
free_entries release [] t = t
free_entries release (s ∷ ss) t = free_entries release ss (free_entry s release t)

unfoldable pub free_buckets : (release : Bool) → List ℕ → Table → Table
free_buckets release [] t = t
free_buckets release (b ∷ bs) t = free_buckets release bs (free_entries release (t.buckets b) t)

-- `iot_hashtbl_reset`
unfoldable pub reset : (release : Bool) → Table → Table
reset release t = record (free_buckets release t.used t) { nentry = 0 }

-- a bucket that is not on the list of used ones, at its end
abbrev pub with_used : ℕ → Table → Table
with_used b t = record t { used = if is_in b t.used then t.used else t.used ++ b ∷ [] }

-- The functions of the owner: `hash`, and whether `comp` of two keys is 0.
module _ (hash : ℕ → ℕ) (equal : ℕ → ℕ → Bool) where
  -- `hash_entry` on a bucket's list
  unfoldable pub hash_entry : (entries : ℕ → Entry) → (key cookie : ℕ) → List ℕ → Option ℕ
  hash_entry entries key cookie [] = none
  hash_entry entries key cookie (s ∷ ss) =
      if equal key (entries s).key && ((cookie == 0) || ((entries s).cookie == cookie))
      then some s
      else hash_entry entries key cookie ss

  -- from the entry's slot to the end of `iot_hashtbl_add`: the cookie, and the table
  unfoldable pub place_in : (s key obj cookie : ℕ) → Option ℕ × Table → Option ℕ × Table
  place_in s key obj cookie (none, t) = (none, t)
  place_in s key obj cookie (some b, t) = (
    some cookie,
    with_used b
        (record t { buckets = at_slot t.buckets b (t.buckets b ++ s ∷ []); nentry = t.nentry + 1 }),
  )

  unfoldable pub place : Memory → (key obj cookie : ℕ) → Option ℕ × Table → Option ℕ × Table
  place mem key obj cookie (none, t) = (none, t)
  place mem key obj cookie (some s, t) =
      let cookie' : ℕ = if cookie == 0 then s + 1 else cookie in
      let e : Entry = record { key = key; object = obj; cookie = cookie' } in
      place_in s key obj cookie'
        (hash_bucket mem (hash key) (record t { entries = at_slot t.entries s e }))

  -- how many entries `iot_hashtbl_add` asks for when none is left
  unfoldable pub growth : Table → ℕ
  growth t =
      if ltb (t.nalloc + t.nperchunk) t.nlimit
      then t.nperchunk
      else if not (t.nlimit == 0)
      then sub32 t.nlimit t.nalloc
      else t.nperchunk

  -- The result of `allocate_chunks` is not looked at.
  unfoldable pub alloc_after : Option (Bool × Table) → Option (Option ℕ × Table)
  alloc_after none = none
  alloc_after (some (ok, t)) = some (alloc_entry t)

  unfoldable pub new_entry : Memory → Table → Option (Option ℕ × Table)
  new_entry mem t =
      if leb t.nalloc t.nentry
      then alloc_after (allocate_chunks mem (growth t) t)
      else some (alloc_entry t)

  unfoldable pub placed :
      Memory → (key obj cookie : ℕ) → Option (Option ℕ × Table) → Option (Option ℕ × Table)
  placed mem key obj cookie none = none
  placed mem key obj cookie (some r) = some (place mem key obj cookie r)

  -- `iot_hashtbl_add`: the cookie, or -1, and the table
  unfoldable pub add : Memory → (key obj cookie : ℕ) → Table → Option (Option ℕ × Table)
  add mem key obj cookie t =
      if not (t.nlimit == 0) && leb t.nlimit t.nentry
      then some (none, t)
      else if not (cookie == 0)
      then placed mem key obj cookie (cookie_entry mem cookie t)
      else placed mem key obj cookie (new_entry mem t)

  -- the entry that a key and a cookie stand for in a bucket; `strict` also compares the key of the
  -- cookie's entry
  unfoldable pub by_cookie :
      (strict : Bool) → (key cookie b : ℕ) → Option (Option ℕ × Table) → Option (Option ℕ × Table)
  by_cookie strict key cookie b none = none
  by_cookie strict key cookie b (some (none, t)) =
      some (hash_entry t.entries key cookie (t.buckets b), t)
  by_cookie strict key cookie b (some (some s, t)) =
      if not ((t.entries s).cookie == cookie) || (strict && not (equal key (t.entries s).key))
      then some (hash_entry t.entries key cookie (t.buckets b), t)
      else some (some s, t)

  unfoldable pub find :
      (strict : Bool) → Memory → (key cookie b : ℕ) → Table → Option (Option ℕ × Table)
  find strict mem key cookie b t =
      if not (cookie == 0)
      then by_cookie strict key cookie b (cookie_entry mem cookie t)
      else some (hash_entry t.entries key cookie (t.buckets b), t)

  unfoldable pub looked_up : (cookie : ℕ) → Option (Option ℕ × Table) → Option (Option ℕ × Table)
  looked_up cookie none = none
  looked_up cookie (some (none, t)) = some (none, t)
  looked_up cookie (some (some s, t)) =
      if not (cookie == 0) && not ((t.entries s).cookie == cookie)
      then some (none, t)
      else some (some (t.entries s).object, t)

  unfoldable pub lookup_in :
      Memory → (key cookie : ℕ) → Option ℕ × Table → Option (Option ℕ × Table)
  lookup_in mem key cookie (none, t) = some (none, t)
  lookup_in mem key cookie (some b, t) = looked_up cookie (find true mem key cookie b t)

  -- `iot_hashtbl_lookup`
  unfoldable pub lookup : Memory → (key cookie : ℕ) → Table → Option (Option ℕ × Table)
  lookup mem key cookie t = lookup_in mem key cookie (hash_bucket mem (hash key) t)

  -- the end of `iot_hashtbl_del`
  unfoldable pub unlinked : (b s : ℕ) → (release : Bool) → Table → Table
  unlinked b s release t =
      let t' : Table = free_entry s release t in
      record t' {
        used = elim (t'.buckets b) [ [] ↦ remove b t'.used | x ∷ xs ↦ t'.used ];
        nentry = t'.nentry - 1;
      }

  unfoldable pub freed : (b s : ℕ) → (release : Bool) → Option Table → Option (Option ℕ × Table)
  freed b s release none = none
  freed b s release (some t) = some (some (t.entries s).object, unlinked b s release t)

  unfoldable pub deleted :
      (b : ℕ) → (release : Bool) → Option (Option ℕ × Table) → Option (Option ℕ × Table)
  deleted b release none = none
  deleted b release (some (none, t)) = some (none, t)
  deleted b release (some (some s, t)) = freed b s release (leave_entry s t)

  unfoldable pub del_in :
      Memory → (key cookie : ℕ) → (release : Bool) → Option ℕ × Table → Option (Option ℕ × Table)
  del_in mem key cookie release (none, t) = some (none, t)
  del_in mem key cookie release (some b, t) = deleted b release (find false mem key cookie b t)

  -- `iot_hashtbl_del`
  unfoldable pub del :
      Memory → (key cookie : ℕ) → (release : Bool) → Table → Option (Option ℕ × Table)
  del mem key cookie release t = del_in mem key cookie release (hash_bucket mem (hash key) t)

  unfoldable pub added : Option (Option ℕ × Table) → Option (Option ℕ × Table)
  added none = none
  added (some (cookie, t)) = some (none, t)

  unfoldable pub exchanged :
      (s key obj : ℕ) → (release : Bool) → Option Table → Option (Option ℕ × Table)
  exchanged s key obj release none = none
  exchanged s key obj release (some t) =
      let e : Entry = t.entries s in
      some (
        some e.object,
        record t {
          released =
              if t.frees && release then t.released ++ (e.key, e.object) ∷ [] else t.released;
          entries = at_slot t.entries s (record e { key = key; object = obj });
        },
      )

  unfoldable pub replaced :
      Memory
      → (key cookie obj : ℕ) → (release : Bool) → Option (Option ℕ × Table)
      → Option (Option ℕ × Table)
  replaced mem key cookie obj release none = none
  replaced mem key cookie obj release (some (none, t)) = added (add mem key obj cookie t)
  replaced mem key cookie obj release (some (some s, t)) =
      exchanged s key obj release (leave_entry s t)

  unfoldable pub replace_in :
      Memory
      → (key cookie obj : ℕ) → (release : Bool) → Option ℕ × Table
      → Option (Option ℕ × Table)
  replace_in mem key cookie obj release (none, t) = added (add mem key obj cookie t)
  replace_in mem key cookie obj release (some b, t) =
      replaced mem key cookie obj release (find false mem key cookie b t)

  -- `iot_hashtbl_replace`: the object before, or NULL, and the table
  unfoldable pub replace :
      Memory → (key cookie obj : ℕ) → (release : Bool) → Table → Option (Option ℕ × Table)
  replace mem key cookie obj release t =
      replace_in mem key cookie obj release (hash_bucket mem (hash key) t)

-- `iot_hashtbl_destroy`: the history of the calls that free objects
unfoldable pub destroy : (release : Bool) → Table → List (ℕ × ℕ)
destroy release t = (reset release t).released

-- `hash_limits_t`, and `iot_hashtbl_set_limits` and `iot_hashtbl_add_limits` on the limits that there
-- are
pub record Limits : Type 0 where
  pub table_maxmem : ℕ
  pub total_maxmem : ℕ

unfoldable pub set_limits : Limits → Limits → Limits
set_limits l limits = l

unfoldable pub add_limits : Limits → Limits → Limits
add_limits l limits = record {
  table_maxmem = if not (l.table_maxmem == 0) then l.table_maxmem else limits.table_maxmem;
  total_maxmem = if not (l.total_maxmem == 0) then l.total_maxmem else limits.total_maxmem;
}

-- a `char` as a `uint32_t`
abbrev pub extended : ℕ → ℕ
extended c = if ltb c 128 then c else c + 2 ^ 32 - 256

-- the loop of `iot_hash_string`
unfoldable pub hash_bytes : (h : ℕ) → List ℕ → ℕ
hash_bytes h [] = h
hash_bytes h (c ∷ cs) = hash_bytes (bit_xor (h * 2 % 2 ^ 32) (extended c)) cs

unfoldable pub hash_string : List ℕ → ℕ
hash_string key = hash_bytes 0 key

-- `iot_hash_direct`, and whether `iot_comp_direct` is 0: its `int` is the
-- difference of the addresses modulo 2 ^ 32.
abbrev pub hash_direct : ℕ → ℕ
hash_direct key = key % 2 ^ 32

abbrev pub comp_direct : ℕ → ℕ → Bool
comp_direct key1 key2 = key1 % 2 ^ 32 == key2 % 2 ^ 32
