-- ===== src/Hash/Tests.antt =====
-- Runs of the hash tables, and their theorems at concrete tables.
use mathlib.Core.Path.{subst}
use iot_app_fw.Common.{ℕ, ◌≡◌, refl, sym, ap, true, false, Option, none, some, [], ◌∷◌, inr}
use iot_app_fw.Hash.{Table, Memory}
use iot_app_fw.Hash.{
  forth, bucket_count, entries_per_chunk, chunk_counts, chunk_mask, chunk_bytes, with_chunk,
  add_chunks, with_last, allocate_chunks, hash_bucket, cookie_entry, cookie_slot, alloc_from,
  alloc_entry, free_entry, remove, is_in, is_beyond,
}
use iot_app_fw.Mask.{alloc_bit, alloc_from as alloc_word, ffs, clear_bit}
use iot_app_fw.Mask.Sets.{init_inlined, inlined_size}
use iot_app_fw.Hash.Ops.{
  hash_string, hash_bytes, place_in, place, growth, alloc_after, new_entry, placed, free_entries,
  free_buckets, empty_table, add, lookup, del, replace, reset, hash_direct, comp_direct,
}
use iot_app_fw.Hash.Walk.{after, following, first_entry, next_bucket, step, stepped, iter}
use iot_app_fw.Hash.Bindings.{find_key, erase}
use iot_app_fw.Hash.Refine.{IsTable, bindings, home, lookup-bindings}
use iot_app_fw.Hash.Adding.{Adds, HasRoom, add-Adds}
use iot_app_fw.Hash.Found.{Idle}
use iot_app_fw.Hash.Changes.{Changes, Replaces, del-Changes, replace-Replaces}
use iot_app_fw.Hash.Created.{empty_table-IsTable}

abbrev plenty : Memory
plenty = record { array = true; room = 9; table = true }

abbrev new_table : Table
new_table = empty_table 0 0 false

new_table-IsTable : IsTable hash_direct new_table
new_table-IsTable = empty_table-IsTable hash_direct comp_direct 0 0 false

new_table-HasRoom : HasRoom hash_direct comp_direct new_table
unfolding empty_table
new_table-HasRoom = inr refl

add-Adds_example :
    (o : Option ℕ) × (t' : Table) × (add hash_direct comp_direct plenty 21 7 0 new_table
      ≡ some (o, t'))
    × Adds hash_direct comp_direct 21 7 new_table o t'
add-Adds_example =
    add-Adds hash_direct comp_direct plenty 21 7 new_table new_table-IsTable new_table-HasRoom

-- the table after an operation
abbrev table_after : Option (Option ℕ × Table) → Table
table_after none = new_table
table_after (some (o, t)) = t

-- a table with one key
abbrev one : Table
one = table_after (add hash_direct comp_direct plenty 21 7 0 new_table)

one-IsTable : IsTable hash_direct one
one-IsTable =
    let (o, t, run, adds) =
      add-Adds hash_direct comp_direct plenty 21 7 new_table new_table-IsTable new_table-HasRoom in
    subst (IsTable hash_direct) (ap table_after (sym run)) adds.0

-- The first key is in bucket 5, with its object; the chunk has room for more.
one-run : (bindings one 5 ≡ (21, 7) ∷ []) × (one.it.place ≡ none) × (one.nlast ≡ 0)
unfolding add placed new_entry growth alloc_after allocate_chunks chunk_counts add_chunks chunk_mask
    chunk_bytes with_chunk with_last init_inlined inlined_size empty_table entries_per_chunk
    bucket_count alloc_entry alloc_from alloc_bit alloc_word ffs is_beyond place place_in
    hash_bucket
one-run = (refl, refl, refl)

one-Idle : Idle one
one-Idle = one-run.1

one-HasRoom : HasRoom hash_direct comp_direct one
one-HasRoom = inr one-run.2

lookup-bindings_example :
    (t' : Table) × (lookup hash_direct comp_direct plenty 21 0 one
      ≡ some (find_key comp_direct 21 (bindings one (home hash_direct one 21)), t'))
    × IsTable hash_direct t'
    × ((b : ℕ) → bindings t' b ≡ bindings one b)
lookup-bindings_example = lookup-bindings hash_direct comp_direct plenty 21 one one-IsTable

del-Changes_example :
    (t' : Table) × (del hash_direct comp_direct plenty 21 0 true one
      ≡ some (find_key comp_direct 21 (bindings one (home hash_direct one 21)), t'))
    × Changes hash_direct comp_direct 21 (erase comp_direct 21) one t'
del-Changes_example = del-Changes hash_direct comp_direct plenty 21 true one one-IsTable one-Idle

replace-Replaces_example :
    (t' : Table) × (replace hash_direct comp_direct plenty 21 0 8 true one
      ≡ some (find_key comp_direct 21 (bindings one (home hash_direct one 21)), t'))
    × Replaces hash_direct comp_direct plenty 21 8 one
        (find_key comp_direct 21 (bindings one (home hash_direct one 21)))
        t'
replace-Replaces_example =
    replace-Replaces hash_direct comp_direct plenty 21 8 true one one-IsTable one-Idle one-HasRoom

-- After a reset the bucket is still among the used ones, and an iteration does not end.
iter_endless : iter 0 forth (reset false one) ≡ none
unfolding add placed new_entry growth alloc_after allocate_chunks chunk_counts add_chunks chunk_mask
    chunk_bytes with_chunk with_last init_inlined inlined_size empty_table entries_per_chunk
    bucket_count alloc_entry alloc_from alloc_bit alloc_word ffs is_beyond place place_in
    hash_bucket reset free_buckets free_entries free_entry remove clear_bit iter step next_bucket
    first_entry following after stepped is_in
iter_endless = refl

-- An entry that was added by its cookie is not marked: the next entry to be allocated is the same.
same_entry :
    (add hash_direct comp_direct plenty 37 8 0
        (table_after (add hash_direct comp_direct plenty 38 9 2 one))
      ≡ some (
        some 2,
        table_after (
            add hash_direct comp_direct plenty 37 8 0
              (table_after (add hash_direct comp_direct plenty 38 9 2 one))),
      ))
unfolding add placed new_entry growth alloc_after allocate_chunks chunk_counts add_chunks chunk_mask
    chunk_bytes with_chunk with_last init_inlined inlined_size empty_table entries_per_chunk
    bucket_count alloc_entry alloc_from alloc_bit alloc_word ffs is_beyond place place_in
    hash_bucket cookie_entry cookie_slot
same_entry = refl

-- "ab"
hashed : hash_string (97 ∷ 98 ∷ []) ≡ 160
unfolding hash_string hash_bytes
hashed = refl
