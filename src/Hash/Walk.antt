-- ===== src/Hash/Walk.antt =====
-- The iteration over a hash table of src/common/hash-table.c. An outer `none` is a loop that does not
-- end.
use iot_app_fw.Common.{
  ℕ, ◌+◌, ◌%◌, ◌^◌, Bool, false, Option, none, some, List, [], ◌∷◌, ◌==◌, if◌then◌else◌,
}
use iot_app_fw.Hash.{Direction, back, still, forth, Table}

-- the element after another, or the first, of a list; `none` is the head of the list
unfoldable pub after : List ℕ → Option ℕ → Option ℕ
after [] p = none
after (x ∷ xs) none = some x
after (x ∷ xs) (some y) = if x == y then after xs none else after xs (some y)

-- the element before another, or the last
unfoldable pub before : List ℕ → Option ℕ → Option ℕ
before [] p = none
before (x ∷ []) none = some x
before (x ∷ []) (some y) = none
before (x ∷ y ∷ xs) none = before (y ∷ xs) none
before (x ∷ y ∷ xs) (some z) =
    let rest : Option ℕ = before (y ∷ xs) (some z) in if y == z then some x else rest

unfoldable pub following : Direction → List ℕ → Option ℕ → Option ℕ
following back xs p = before xs p
following still xs p = after xs p
following forth xs p = after xs p

-- what `_iot_hashtbl_iter` comes to; `endless` is the jump to `next_bucket` that finds an empty bucket
-- again
pub data Step : Type 0 where
  ended : Step
  at : (bucket slot : ℕ) → Step
  endless : Step

unfoldable pub first_entry : Direction → Table → Option ℕ → Step
first_entry dir t none = ended
first_entry dir t (some b) = elim (following dir (t.buckets b) none) [
  | none ↦ endless
  | some s ↦ at b s
]

-- from `next_bucket` on
unfoldable pub next_bucket : Direction → Table → Option ℕ → Step
next_bucket dir t from = first_entry dir t (following dir t.used from)

unfoldable pub step : Direction → Table → Option (ℕ × ℕ) → Step
step dir t none = next_bucket dir t none
step dir t (some (b, s)) = elim (following dir (t.buckets b) (some s)) [
  | none ↦ next_bucket dir t (some b)
  | some s' ↦ at b s'
]

-- the table after the step
unfoldable pub stepped : Step → Table → Option (Option ℕ × Table)
stepped ended t = some (
  none,
  record t { it = record { place = none; direction = still; generation = t.it.generation } },
)
stepped (at b s) t = some (some s, record t { it = record t.it { place = some (b, s) } })
stepped endless t = none

-- `_iot_hashtbl_begin`: the generation of the caller's iterator, and the table
unfoldable pub begin : Direction → Table → ℕ × Table
begin dir t =
    let g : ℕ = (t.it.generation + 1) % 2 ^ 32 in
    (g, record t { it = record { place = none; direction = dir; generation = g } })

-- `_iot_hashtbl_iter` with the caller's generation: the slot, and the table; `none` is a loop that
-- does not end
unfoldable pub iter : (generation : ℕ) → Direction → Table → Option (Option ℕ × Table)
iter g dir t = if g == t.it.generation then stepped (step dir t t.it.place) t else stepped ended t

abbrev pub opposite : Direction → Direction
opposite back = forth
opposite still = still
opposite forth = back

-- The iterator of the table is moved off an entry: after a move to nowhere it begins anew.
unfoldable pub moved_off : Direction → Option (Option ℕ × Table) → Option Table
moved_off dir none = none
moved_off dir (some (some s, t)) = some t
moved_off dir (some (none, t)) =
    some (record t { it = record t.it { place = none; direction = dir } })

unfoldable pub is_at : Option (ℕ × ℕ) → ℕ → Bool
is_at none s = false
is_at (some (b, s')) s = s' == s

unfoldable pub leave_entry : ℕ → Table → Option Table
leave_entry s t =
    let dir : Direction = opposite t.it.direction in
    let moved : Option Table = moved_off (opposite dir) (stepped (step dir t t.it.place) t) in
    if is_at t.it.place s then moved else some t
