-- ===== src/Hash/Created.antt =====
-- New tables of src/common/hash-table.c.
use mathlib.Core.Path.{subst}
use mathlib.Core.Option.{none-ne-some}
use iot_app_fw.Common.{
  ℕ, ◌≡◌, refl, ◌∙◌, ap, Bool, true, false, not, ◌&&◌, Option, none, some, [], ◌==◌, ltb,
  if◌then◌else◌, eq_of_some,
}
use iot_app_fw.Hash.{Table, Memory, allocate_chunks, entries_per_chunk}
use iot_app_fw.Hash.Ops.{empty_table, created, create}
use iot_app_fw.Mask.Sets.{inlined_size}
use iot_app_fw.Hash.Slots.{Keeps}
use iot_app_fw.Hash.Chunks.{allocate_chunks-Keeps}
use iot_app_fw.Hash.Refine.{IsTable, bindings}
use iot_app_fw.Hash.Chained.{Keeps-IsTable, Keeps-bindings}
use iot_app_fw.Hash.Found.{Idle}

module _ (hash : ℕ → ℕ) (equal : ℕ → ℕ → Bool) where
  pub empty_table-IsTable :
      (nlimit nbucket : ℕ) (frees : Bool) → IsTable hash (empty_table nlimit nbucket frees)
  unfolding empty_table entries_per_chunk inlined_size
  empty_table-IsTable nlimit nbucket frees = record {
    perchunk = refl;
    whole = λ c. tt;
    taken = λ b s h. elim h [ ];
    hashed = λ b s h. elim h [ ];
    distinct = λ b. tt;
    unmade = λ e b. refl;
  }

  -- A table that was created is in order, and empty.
  pub create-IsTable :
      (valid granted frees : Bool) (mem : Memory) (nalloc nlimit nbucket : ℕ) (t : Table)
      → create valid granted frees mem nalloc nlimit nbucket ≡ some (some t)
      → IsTable hash t × Idle t × ((b : ℕ) → bindings t b ≡ [])
  unfolding create created empty_table
  create-IsTable valid granted frees mem nalloc nlimit nbucket t h =
      at (not valid) (not (nalloc == 0) && (not (nlimit == 0) && ltb nlimit nalloc)) (not granted)
        (allocate_chunks mem 0 (empty_table nlimit nbucket frees)) refl h
    where
      at :
          (a b c : Bool) (r : Option (Bool × Table))
          → allocate_chunks mem 0 (empty_table nlimit nbucket frees) ≡ r
          → (if a then some none else if b then some none else if c then some none else created r)
            ≡ some (some t)
          → IsTable hash t × Idle t × ((b : ℕ) → bindings t b ≡ [])
      at true b c r g e = absurd (none-ne-some t (eq_of_some e))
      at false true c r g e = absurd (none-ne-some t (eq_of_some e))
      at false false true r g e = absurd (none-ne-some t (eq_of_some e))
      at false false false none g e = absurd (none-ne-some (some t) e)
      at false false false (some (false, u)) g e = absurd (none-ne-some t (eq_of_some e))
      at false false false (some (true, u)) g e =
          subst (λ t. IsTable hash t × Idle t × ((b : ℕ) → bindings t b ≡ []))
            (eq_of_some (eq_of_some e))
            (
              Keeps-IsTable hash equal (empty_table nlimit nbucket frees) u
                  (empty_table-IsTable nlimit nbucket frees) (kept u true g),
              idle u (kept u true g),
              λ b.
                  Keeps-bindings hash equal (empty_table nlimit nbucket frees) u (kept u true g) b
                  ∙ empty b,
            )
        where
          kept :
              (u : Table) (ok : Bool)
              → allocate_chunks mem 0 (empty_table nlimit nbucket frees) ≡ some (ok, u)
              → Keeps (empty_table nlimit nbucket frees) u
          kept u ok g = allocate_chunks-Keeps mem 0 (empty_table nlimit nbucket frees) u ok g

          nowhere : (empty_table nlimit nbucket frees).it.place ≡ none
          nowhere = refl

          idle : (u : Table) → Keeps (empty_table nlimit nbucket frees) u → Idle u
          idle u k = ap (λ i. i.place) k.it ∙ nowhere

          empty : (b : ℕ) → bindings (empty_table nlimit nbucket frees) b ≡ []
          empty b = refl
