-- ===== src/Hash.antt =====
-- The hash tables of src/common/hash-table.c. An entry is known by its slot, the cookie less 1: the
-- slot `c * nperchunk + i` is entry `i` of chunk `c`. A bucket is the list of the slots on its list
-- of entries. `IOT_HASH_COOKIE_NONE` is 0, and keys and objects are addresses.
pub mod Walk
pub mod Ops
pub mod Slots
pub mod Taking
pub mod Chunks
pub mod Freed
pub mod Bindings
pub mod Refine
pub mod Chained
pub mod Adding
pub mod Created
pub mod Found
pub mod Changes
mod Tests
use iot_app_fw.Common.{
  ℕ, zero, suc, ◌+◌, ◌-◌, ◌*◌, ◌/◌, ◌%◌, ◌^◌, Bool, true, false, Option, none, some, List, [], ◌∷◌,
  ◌++◌, ◌==◌, ltb, leb, if◌then◌else◌, not, ◌&&◌, ◌||◌, length, get_or, set, replicate, is_some,
}
use iot_app_fw.Mask.{Mask, clear_bit, alloc_bit}
use iot_app_fw.Mask.Sets.{inlined_size, init_inlined}

-- `hash_entry_t`
pub record Entry : Type 0 where
  pub key : ℕ
  pub object : ℕ
  pub cookie : ℕ

abbrev pub no_entry : Entry
no_entry = record { key = 0; object = 0; cookie = 0 }

-- `hash_iter_t`: the bucket and the entry, if any, the direction and the generation
pub data Direction : Type 0 where
  back : Direction
  still : Direction
  forth : Direction

pub record Iter : Type 0 where
  pub place : Option (ℕ × ℕ)
  pub direction : Direction
  pub generation : ℕ

-- `iot_hashtbl_t`: the chunks are their masks, `made` is whether the buckets are allocated, `frees`
-- whether the owner gave a function to free objects, and `released` the history of its calls.
pub record Table : Type 0 where
  pub nentry : ℕ
  pub nlimit : ℕ
  pub nalloc : ℕ
  pub nbucket : ℕ
  pub nperchunk : ℕ
  pub nlast : ℕ
  pub masks : List Mask
  pub space : List ℕ
  pub entries : ℕ → Entry
  pub made : Bool
  pub buckets : ℕ → List ℕ
  pub used : List ℕ
  pub it : Iter
  pub frees : Bool
  pub released : List (ℕ × ℕ)

-- what the allocator grants: the array of the chunks, a number of chunks, and the buckets
pub record Memory : Type 0 where
  pub array : Bool
  pub room : ℕ
  pub table : Bool

-- the sizes of `hash_chunk_t` without entries and of `hash_entry_t` on a 64-bit machine
abbrev pub chunk_size : ℕ
chunk_size = 4096

abbrev pub header_size : ℕ
header_size = 24

abbrev pub entry_size : ℕ
entry_size = 40

-- `calculate_sizes`: `nperchunk` and `nbucket`
unfoldable pub entries_per_chunk : ℕ
entries_per_chunk =
    let n : ℕ = (chunk_size - header_size) / entry_size in
    let mask : ℕ = inlined_size n in
    if leb chunk_size (header_size + n * entry_size + mask)
    then (chunk_size - header_size - mask) / entry_size
    else n

unfoldable pub bucket_count : (nbucket nlimit nalloc : ℕ) → ℕ
bucket_count nbucket nlimit nalloc =
    let wanted : ℕ =
      if not (nbucket == 0)
      then nbucket
      else if not (nlimit == 0)
      then nlimit / 16
      else if not (nalloc == 0)
      then nalloc / 4
      else nbucket in
    let least : ℕ = if ltb wanted 16 then 16 else wanted in if ltb 512 least then 512 else least

-- the difference of two `uint32_t`
abbrev pub sub32 : ℕ → ℕ → ℕ
sub32 a b = (a + 2 ^ 32 - b) % 2 ^ 32

-- how many full chunks `allocate_chunks` makes, and how many entries of one that is not full
unfoldable pub chunk_counts : Table → (nentry : ℕ) → ℕ × ℕ
chunk_counts t nentry =
    let full : ℕ = nentry / t.nperchunk in
    let left : ℕ = sub32 t.nlimit t.nalloc in
    if nentry % t.nperchunk == 0
    then (full, 0)
    else if leb (t.nalloc + (full + 1) * t.nperchunk) t.nlimit
    then (full + 1, 0)
    else (left / t.nperchunk, left % t.nperchunk)

-- the number of entries of each new chunk
abbrev pub chunk_list : ℕ × ℕ → List ℕ → List ℕ
chunk_list (full, last) sizes = sizes ++ (if last == 0 then [] else last ∷ [])

-- A chunk of a number of entries, with the size that is allocated for it; the mask is in the chunk,
-- after the entries.
unfoldable pub chunk_mask : (size n : ℕ) → Option Mask
chunk_mask size n = init_inlined (header_size + n * entry_size) n (some (0, size))

unfoldable pub chunk_bytes : (full : Bool) → (n : ℕ) → ℕ
chunk_bytes true n = chunk_size
chunk_bytes false n = header_size + n * entry_size + inlined_size n

unfoldable pub with_chunk : (n : ℕ) → Table → Mask → Table
with_chunk n t m = record t {
  masks = t.masks ++ m ∷ [];
  space = t.space ++ length t.masks ∷ [];
  nalloc = t.nalloc + n;
}

-- the loop of `allocate_chunks`
unfoldable pub add_chunks : (room : ℕ) → List ℕ → Table → Bool × Table
add_chunks room [] t = (true, t)
add_chunks zero (n ∷ ns) t = (false, t)
add_chunks (suc room) (n ∷ ns) t = elim (chunk_mask (chunk_bytes (n == t.nperchunk) n) n) [
  | none ↦ (false, t)
  | some m ↦ add_chunks room ns (with_chunk n t m)
]

unfoldable pub with_last : (last : ℕ) → Bool × Table → Bool × Table
with_last last (true, t) = (true, record t { nlast = last })
with_last last (false, t) = (false, t)

-- `allocate_chunks`; `none` is the failure of the assertion
unfoldable pub allocate_chunks : Memory → (nentry : ℕ) → Table → Option (Bool × Table)
allocate_chunks mem nentry t =
    let counts : ℕ × ℕ = chunk_counts t nentry in
    let sizes : List ℕ = chunk_list counts (replicate counts.0 t.nperchunk) in
    if not (t.nlast == 0)
    then none
    else if not mem.array
    then some (false, t)
    else some (with_last counts.1 (add_chunks mem.room sizes t))

-- `hash_bucket`
unfoldable pub hash_bucket : Memory → (h : ℕ) → Table → Option ℕ × Table
hash_bucket mem h t =
    if t.made
    then (some (h % t.nbucket), t)
    else if mem.table
    then (some (h % t.nbucket), record t { made = true })
    else (none, t)

-- whether an entry of a chunk is beyond the last chunk's end
unfoldable pub is_beyond : Table → (c i : ℕ) → Bool
is_beyond t c i = (c == length t.masks - 1) && (not (t.nlast == 0) && leb t.nlast i)

-- the last steps of `cookie_entry`: the slot of a cookie, whose chunk there is
unfoldable pub cookie_slot : ℕ → Table → Option ℕ
cookie_slot cookie t =
    if is_beyond t ((cookie - 1) / t.nperchunk) ((cookie - 1) % t.nperchunk)
    then none
    else some (cookie - 1)

unfoldable pub cookie_grown : ℕ → Option (Bool × Table) → Option (Option ℕ × Table)
cookie_grown cookie none = none
cookie_grown cookie (some (false, t)) = some (none, t)
cookie_grown cookie (some (true, t)) =
    if ltb ((cookie - 1) / t.nperchunk) (length t.masks)
    then some (cookie_slot cookie t, t)
    else none

-- `cookie_entry`
unfoldable pub cookie_entry : Memory → (cookie : ℕ) → Table → Option (Option ℕ × Table)
cookie_entry mem cookie t =
    if ltb ((cookie - 1) / t.nperchunk) (length t.masks)
    then some (cookie_slot cookie t, t)
    else if leb t.nlimit (cookie - 1)
    then some (none, t)
    else cookie_grown cookie (allocate_chunks mem (sub32 cookie t.nalloc) t)

unfoldable pub remove : ℕ → List ℕ → List ℕ
remove s [] = []
remove s (x ∷ xs) = if x == s then xs else x ∷ remove s xs

unfoldable pub is_in : ℕ → List ℕ → Bool
is_in s [] = false
is_in s (x ∷ xs) = (x == s) || is_in s xs

abbrev pub no_mask : Mask
no_mask = record { nbit = 0; fixed = false; inlined = true; words = [] }

abbrev pub mask_of : Table → ℕ → Mask
mask_of t c = get_or t.masks c no_mask

abbrev pub with_mask : Table → (c : ℕ) → Mask → Table
with_mask t c m = record t { masks = set t.masks c m }

-- `iot_list_delete` of a chunk that is on the space list
abbrev pub unlink : ℕ → Table → Table
unlink c t = record t { space = remove c t.space }

-- the loop of `alloc_entry`, over the rest of the space list
unfoldable pub alloc_from : List ℕ → Table → Option ℕ × Table
alloc_from [] t = (none, t)
alloc_from (c ∷ cs) t = elim (alloc_bit (mask_of t c)) [
  | none ↦ alloc_from cs (unlink c t)
  | some (i, m) ↦
      let skipped : Option ℕ × Table = alloc_from cs (unlink c (with_mask t c m)) in
      if leb t.nperchunk i || is_beyond t c i
      then skipped
      else (some (c * t.nperchunk + i), with_mask t c m)
]

-- `alloc_entry`
unfoldable pub alloc_entry : Table → Option ℕ × Table
alloc_entry t = alloc_from t.space t

abbrev pub at_slot {ℓ} : {A : Type ℓ} → (ℕ → A) → ℕ → A → ℕ → A
at_slot f s a i = if i == s then a else f i

-- `free_entry`
unfoldable pub free_entry : (s : ℕ) → (release : Bool) → Table → Table
free_entry s release t =
    let c : ℕ = s / t.nperchunk in
    let e : Entry = t.entries s in
    record t {
      released = if release && t.frees then t.released ++ (e.key, e.object) ∷ [] else t.released;
      entries = at_slot t.entries s no_entry;
      buckets = λ b. remove s (t.buckets b);
      masks = set t.masks c (clear_bit (mask_of t c) (s % t.nperchunk));
      space = if is_in c t.space then t.space else t.space ++ c ∷ [];
    }
