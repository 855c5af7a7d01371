-- ===== src/Fragbuf.antt =====
-- The fragment buffer of src/common/fragbuf.c. `bytes` is the memory at `data`, as long as `size`
-- says, and `none` for NULL; a pointer into it is its offset. The struct's ints stay below 2 ^ 31,
-- which `IsValid` states; a cast of a length that was received is written out. `granted` says
-- whether the allocation that an operation makes succeeds.
pub mod Pull
pub mod Push
pub mod Missing
mod Tests
use Prim.Native.Nat.{min}
use iot_app_fw.Common.{
  ℕ, zero, suc, ◌+◌, ◌-◌, ◌*◌, ◌%◌, ◌^◌, ◌≤◌, ◌<◌, ◌≡◌, Bool, true, false, Option, none, some, List,
  [], ◌∷◌, ◌++◌, Bytes, leb, ltb, ◌==◌, if◌then◌else◌, length, get_or, take, drop, replicate,
  is_some, ◌||◌, ◌&&◌, not,
}

pub record Fragbuf : Type 0 where
  pub bytes : Option Bytes
  pub size : ℕ
  pub used : ℕ
  pub framed : Bool

-- the memory at `data`
abbrev pub memory : Fragbuf → Bytes
memory b = elim b.bytes [ none ↦ [] | some m ↦ m ]

-- the bytes in use
abbrev pub content : Fragbuf → Bytes
content b = take b.used (memory b)

-- `data + offset`, NULL where there is no memory and the offset is 0
abbrev pub pointer : Fragbuf → ℕ → Option ℕ
pointer b n = elim b.bytes [ none ↦ none | some m ↦ some n ]

-- `memcpy` and `memmove` to an offset
unfoldable pub write_at : Bytes → ℕ → Bytes → Bytes
write_at m i v = take i m ++ (v ++ drop (i + length v) m)

-- `be32toh(*(uint32_t *)p)`
unfoldable pub be32 : Bytes → ℕ
be32 p = get_or p 0 0 * 2 ^ 24 + get_or p 1 0 * 2 ^ 16 + get_or p 2 0 * 2 ^ 8 + get_or p 3 0

-- `used >= (int)n` for a `size_t` n: the cast keeps the low 32 bits, the highest as the sign.
unfoldable pub holds : ℕ → ℕ → Bool
holds used n = let low : ℕ = n % 2 ^ 32 in if ltb low (2 ^ 31) then leb low used else true

-- `fragbuf_ensure`: `iot_reallocz` keeps the memory and clears what it adds.
unfoldable pub ensure : (granted : Bool) → Fragbuf → (size : ℕ) → Option ℕ × Fragbuf
ensure granted b size =
    let more : ℕ = size - (b.size - b.used) in
    let grown : Fragbuf = record b {
      bytes = some (memory b ++ replicate more 0);
      size = b.size + more;
    } in
    if ltb (b.size - b.used) size
    then (if granted then (some b.used, grown) else (none, b))
    else (pointer b b.used, b)

-- `iot_fragbuf_used`
pub used_bytes : Fragbuf → ℕ
used_bytes b = b.used

-- `fragbuf_init` and `iot_fragbuf_create`; a `pre_alloc` that is not positive is 0 here.
unfoldable pub create :
    (granted ensured : Bool) → (framed : Bool) → (pre_alloc : ℕ) → Option Fragbuf
create granted ensured framed pre_alloc =
    let b : Fragbuf = record { bytes = none; size = 0; used = 0; framed = framed } in
    let (p, b') = ensure ensured b pre_alloc in
    if granted then if pre_alloc == 0 then some b else if is_some p then some b' else none else none

-- `iot_fragbuf_reset`
unfoldable pub reset : Fragbuf → Fragbuf
reset b = record b { bytes = none; size = 0; used = 0 }

-- `iot_fragbuf_alloc`
unfoldable pub alloc_at : Fragbuf → ℕ → Option ℕ → Option ℕ × Fragbuf
alloc_at b size none = (none, b)
alloc_at b size (some i) = (some i, record b { used = b.used + size })

unfoldable pub alloc : (granted : Bool) → Fragbuf → (size : ℕ) → Option ℕ × Fragbuf
unfolding alloc_at
alloc granted b size = alloc_at (ensure granted b size).1 size (ensure granted b size).0

-- `iot_fragbuf_trim`
unfoldable pub trim : Fragbuf → (p osize nsize : ℕ) → Bool × Fragbuf
trim b p osize nsize =
    if p + osize == b.used
    then if leb nsize osize
      then (true, record b { used = b.used - (osize - nsize) })
      else (false, b)
    else (false, b)

-- `iot_fragbuf_push`; the pointer that `fragbuf_ensure` gave is the third argument.
unfoldable pub push_at : Fragbuf → Bytes → Option ℕ → Bool × Fragbuf
push_at b v none = (false, b)
push_at b v (some i) =
    (true, record b { bytes = some (write_at (memory b) i v); used = b.used + length v })

unfoldable pub push : (granted : Bool) → Fragbuf → Bytes → Bool × Fragbuf
unfolding push_at
push granted b v = push_at (ensure granted b (length v)).1 v (ensure granted b (length v)).0

-- What `iot_fragbuf_pull` leaves: its result, `*datap` and `*sizep`, and the buffer.
pub record Pulled : Type 0 where
  pub ok : Bool
  pub datap : Option ℕ
  pub sizep : ℕ
  pub buf : Fragbuf

-- the bytes from offset `n` on move to the front
unfoldable pub shift : Fragbuf → ℕ → Fragbuf
unfolding write_at
shift b n = record b {
  bytes = some (write_at (memory b) 0 (take (b.used - n) (drop n (memory b))));
  used = b.used - n;
}

-- `*datap == NULL`: the start of an iteration
unfoldable pub pull_first : Fragbuf → (sizep : ℕ) → Pulled
pull_first b sizep =
    let fails : Pulled = record { ok = false; datap = none; sizep = sizep; buf = b } in
    if not b.framed
    then record { ok = true; datap = pointer b 0; sizep = b.used; buf = b }
    else if ltb b.used 4
    then fails
    else let size : ℕ = be32 (memory b) in
      if holds b.used (4 + size)
      then record { ok = true; datap = pointer b 4; sizep = size; buf = b }
      else fails

-- the iteration goes on, unframed: what lies behind the last piece moves to the front
unfoldable pub pull_rest : Fragbuf → (datap sizep : ℕ) → Pulled
pull_rest b datap sizep =
    let end : ℕ = datap + sizep in
    let b' : Fragbuf = shift b end in
    let emptied : Fragbuf = record b { used = 0 } in
    if ltb end b.used
    then record { ok = true; datap = pointer b' 0; sizep = b'.used; buf = b' }
    else record {
      ok = false;
      datap = some datap;
      sizep = sizep;
      buf = if end == b.used then emptied else b;
    }

-- the frame behind the one that was just dropped
unfoldable pub pull_frame : Fragbuf → (datap sizep : ℕ) → Pulled
pull_frame b datap sizep =
    let fails : Pulled = record { ok = false; datap = some datap; sizep = sizep; buf = b } in
    if leb b.used 4
    then fails
    else let size : ℕ = be32 (memory b) in
      if holds b.used (size + 4)
      then record { ok = true; datap = pointer b 4; sizep = size; buf = b }
      else fails

-- The iteration goes on, framed: the first frame is dropped. `none` is the `memmove` whose length
-- `used - (size + 4)` is negative, which reads and writes outside the memory.
unfoldable pub pull_next : Fragbuf → (datap sizep : ℕ) → Option Pulled
pull_next b datap sizep =
    let fails : Pulled = record { ok = false; datap = some datap; sizep = sizep; buf = b } in
    let size : ℕ = be32 (memory b) in
    if not (datap == 4)
    then some fails
    else if not (holds b.used (size + 4))
    then some fails
    else if ltb b.used (size + 4)
    then none
    else some (pull_frame (shift b (size + 4)) datap sizep)

-- `iot_fragbuf_pull` of a buffer that is not NULL
unfoldable pub pull : Fragbuf → (datap : Option ℕ) → (sizep : ℕ) → Option Pulled
unfolding pull_first pull_rest pull_next
pull b datap sizep =
    if b.used == 0
    then some (record { ok = false; datap = datap; sizep = sizep; buf = b })
    else elim datap [
      | none ↦ some (pull_first b sizep)
      | some p ↦ if not b.framed then some (pull_rest b p sizep) else pull_next b p sizep
    ]

-- The loop of `iot_fragbuf_missing`, on fuel; `none` is a loop that goes on. `offs` is an int, here
-- the 32 bits that stand for it, and `ptr` is `data` in every round.
unfoldable pub walk : (fuel : ℕ) → Fragbuf → (offs : ℕ) → Option ℕ
walk zero b offs = none
walk (suc fuel) b offs =
    let rest : Option ℕ = walk fuel b ((offs + (4 + be32 (memory b))) % 2 ^ 32) in
    if leb (2 ^ 31) offs || ltb offs b.used then rest else some offs

-- `iot_fragbuf_missing`
unfoldable pub missing : (fuel : ℕ) → Fragbuf → Option ℕ
unfolding walk
missing fuel b =
    if not b.framed || (b.used == 0)
    then some 0
    else elim (walk fuel b 0) [ none ↦ none | some offs ↦ some (offs - b.used) ]

-- The struct's ints agree with the memory.
pub record IsValid (b : Fragbuf) : Type 0 where
  pub within : b.used ≤ b.size
  pub sized : length (memory b) ≡ b.size
  pub int : b.size < 2 ^ 31
