-- ===== src/Hash/Changes.antt =====
-- `iot_hashtbl_del` and `iot_hashtbl_replace` of src/common/hash-table.c without a cookie, while no
-- iteration is under way.
use mathlib.Core.Path.{subst}
use mathlib.Core.Option.{none-ne-some}
use iot_app_fw.Common.{
  ℕ, ◌≡◌, refl, sym, ap, ◌∙◌, Bool, true, false, Option, none, some, List, [], ◌∷◌, ◌==◌,
  if◌then◌else◌, arith, ◌⊎◌, inl, inr,
}
use iot_app_fw.Hash.{Table, Memory}
use iot_app_fw.Hash.Ops.{
  find, freed, deleted, del_in, del, added, exchanged, replaced, replace_in, replace, add,
}
use iot_app_fw.Hash.Bindings.{binding, find_key, erase, exchange, found-none, found-find_key}
use iot_app_fw.Hash.Refine.{bindings, IsTable, home, ready, ready-IsTable, hash_bucket-cases}
use iot_app_fw.Hash.Adding.{Adds, HasRoom, add-Adds}
use iot_app_fw.Hash.Found.{
  Idle, Idle-leave_entry, slot_of, left, left-IsTable, left-bindings, swapped, swapped-IsTable,
  swapped-bindings,
}

module _ (hash : ℕ → ℕ) (equal : ℕ → ℕ → Bool) where
  -- what is left under the keys after a deletion, or an exchange, in a key's bucket
  abbrev pub Changes : (key : ℕ) → (List (ℕ × ℕ) → List (ℕ × ℕ)) → Table → Table → Type 0
  Changes key f t t' =
      IsTable hash t'
      × ((b : ℕ)
          → bindings t' b ≡ (if b == home hash t key then f (bindings t b) else bindings t b))

  erase-none : (key : ℕ) (l : List (ℕ × ℕ)) → find_key equal key l ≡ none → erase equal key l ≡ l
  erase-none key [] h = refl
  erase-none key ((k, o) ∷ l) h = at (equal key k) h (erase-none key l)
    where
      at :
          (b : Bool)
          → (if b then some o else find_key equal key l) ≡ none
          → (find_key equal key l ≡ none → erase equal key l ≡ l)
          → (if b then l else (k, o) ∷ erase equal key l) ≡ (k, o) ∷ l
      at true h f = absurd (none-ne-some o (sym h))
      at false h f = ap (λ l. (k, o) ∷ l) (f h)

  -- nothing under the key: nothing is erased
  nothing :
      (key : ℕ) (t : Table)
      → IsTable hash t
      → find_key equal key (bindings t (home hash t key)) ≡ none
      → Changes key (erase equal key) t t
  nothing key t v h = (v, λ b. at b (b == home hash t key) refl)
    where
      at :
          (b : ℕ) (c : Bool)
          → (b == home hash t key) ≡ c
          → bindings t b ≡ (if c then erase equal key (bindings t b) else bindings t b)
      at b true k =
          sym (
            erase-none key (bindings t b)
              (ap (λ b. find_key equal key (bindings t b)) (same k) ∙ h))
        where
          same : (b == home hash t key) ≡ true → b ≡ home hash t key
          same k = ground (arith, k)
      at b false k = refl

  -- On a table in order, without a cookie and with no iteration under way, `iot_hashtbl_del`
  -- returns the first object under the key in its bucket, or none, takes exactly that one off the
  -- bucket, and leaves the table in order and the other buckets as they are.
  pub del-Changes :
      (mem : Memory) (key : ℕ) (release : Bool) (t : Table)
      → IsTable hash t
      → Idle t
      → (t' : Table) × (del hash equal mem key 0 release t
          ≡ some (find_key equal key (bindings t (home hash t key)), t'))
        × Changes key (erase equal key) t t'
  unfolding del del_in find deleted freed
  del-Changes mem key release t v idle = elim (hash_bucket-cases hash equal mem key t v) [
    | inl e ↦
        let (t', run, changes) = at (slot_of hash equal t key) refl in
        (t', ap (del_in hash equal mem key 0 release) e ∙ run, changes)
    | inr (e, empty) ↦
        let none_there : find_key equal key (bindings t (home hash t key)) ≡ none =
          ap (λ l. find_key equal key (binding t.entries l)) (empty (home hash t key)) in
        (
          t,
          ap (del_in hash equal mem key 0 release) e ∙ ap (λ o. some (o, t)) (sym none_there),
          nothing key t v none_there,
        )
  ]
    where
      v' : IsTable hash (ready t)
      v' = ready-IsTable hash equal t v

      at :
          (o : Option ℕ)
          → slot_of hash equal t key ≡ o
          → (t' : Table) × (deleted hash equal (home hash t key) release (some (o, ready t))
              ≡ some (find_key equal key (bindings t (home hash t key)), t'))
            × Changes key (erase equal key) t t'
      at none e =
          let n = found-none hash equal t.entries key (t.buckets (home hash t key)) e in
          (ready t, ap (λ o. some (o, ready t)) (sym n), nothing key (ready t) v' n)
      at (some s) e = (
        left hash equal (ready t) key s release v' e,
        ap (freed hash equal (home hash t key) s release) (Idle-leave_entry s (ready t) idle)
            ∙ ap (λ o. some (o, left hash equal (ready t) key s release v' e))
                (sym (found-find_key hash equal t.entries key s (t.buckets (home hash t key)) e)),
        (
          left-IsTable hash equal (ready t) key s release v' e,
          left-bindings hash equal (ready t) key s release v' e,
        ),
      )

  -- a table, with the array of buckets allocated or as it was
  abbrev pub Readied : Table → Table → Type 0
  Readied t u = (u ≡ t) ⊎ (u ≡ ready t)

  -- The table after a call of `iot_hashtbl_add` on `t`, for which the buckets may be allocated.
  abbrev pub AddedTo : (mem : Memory) (key obj : ℕ) → Table → Table → Type 0
  AddedTo mem key obj t t' =
      (u : Table) × Readied t u
      × (c : Option ℕ) × (add hash equal mem key obj 0 u ≡ some (c, t'))
      × Adds hash equal key obj t c t'

  -- what `iot_hashtbl_replace` makes of a table, by the object that it found
  abbrev pub Replaces : (mem : Memory) (key obj : ℕ) → Table → Option ℕ → Table → Type 0
  Replaces mem key obj t (some old) t' = Changes key (exchange equal key obj) t t'
  Replaces mem key obj t none t' = AddedTo mem key obj t t'

  -- the table that the search for the bucket leaves
  replace-Adds :
      (mem : Memory) (key obj : ℕ) (t u : Table)
      → Readied t u
      → IsTable hash u
      → ((c : Option ℕ) (t' : Table)
          → Adds hash equal key obj u c t'
          → Adds hash equal key obj t c t')
      → HasRoom hash equal u
      → (t' : Table) × (added hash equal (add hash equal mem key obj 0 u) ≡ some (none, t'))
        × AddedTo mem key obj t t'
  unfolding added
  replace-Adds mem key obj t u r v back room =
      let (c, t', run, adds) = add-Adds hash equal mem key obj u v room in
      (t', ap (added hash equal) run, (u, r, c, run, back c t' adds))

  -- On a table in order, without a cookie and with no iteration under way, `iot_hashtbl_replace`
  -- returns the first object under the key and puts the key and the object in its place; without
  -- one it calls `iot_hashtbl_add`, and leaves the table that this call leaves. The table stays in
  -- order. An entry is left in the chunks, or the last of them is full-sized.
  pub replace-Replaces :
      (mem : Memory) (key obj : ℕ) (release : Bool) (t : Table)
      → IsTable hash t
      → Idle t
      → HasRoom hash equal t
      → (t' : Table) × (replace hash equal mem key 0 obj release t
          ≡ some (find_key equal key (bindings t (home hash t key)), t'))
        × Replaces mem key obj t (find_key equal key (bindings t (home hash t key))) t'
  unfolding replace replace_in find replaced exchanged
  replace-Replaces mem key obj release t v idle room =
      elim (hash_bucket-cases hash equal mem key t v) [
        | inl e ↦
            let (t', run, changes) = at (slot_of hash equal t key) refl in
            (t', ap (replace_in hash equal mem key 0 obj release) e ∙ run, changes)
        | inr (e, empty) ↦
            let n : find_key equal key (bindings t (home hash t key)) ≡ none =
              ap (λ l. find_key equal key (binding t.entries l)) (empty (home hash t key)) in
            let (t', run, adds) = replace-Adds mem key obj t t (inl refl) v (λ c t' a. a) room in
            (
              t',
              ap (replace_in hash equal mem key 0 obj release) e
                  ∙ run
                  ∙ ap (λ o. some (o, t')) (sym n),
              subst (λ o. Replaces mem key obj t o t') (sym n) adds,
            )
      ]
    where
      v' : IsTable hash (ready t)
      v' = ready-IsTable hash equal t v

      at :
          (o : Option ℕ)
          → slot_of hash equal t key ≡ o
          → (t' : Table) × (replaced hash equal mem key 0 obj release (some (o, ready t))
              ≡ some (find_key equal key (bindings t (home hash t key)), t'))
            × Replaces mem key obj t (find_key equal key (bindings t (home hash t key))) t'
      at none e =
          let n = found-none hash equal t.entries key (t.buckets (home hash t key)) e in
          let (t', run, adds) =
            replace-Adds mem key obj t (ready t) (inr refl) v' (λ c t' a. a) room in
          (
            t',
            run ∙ ap (λ o. some (o, t')) (sym n),
            subst (λ o. Replaces mem key obj t o t') (sym n) adds,
          )
      at (some s) e =
          let n = found-find_key hash equal t.entries key s (t.buckets (home hash t key)) e in
          (
            swapped hash equal (ready t) key s release v' e obj,
            ap (exchanged hash equal s key obj release) (Idle-leave_entry s (ready t) idle)
                ∙ ap (λ o. some (o, swapped hash equal (ready t) key s release v' e obj)) (sym n),
            subst
                (λ o.
                  Replaces mem key obj t o (swapped hash equal (ready t) key s release v' e obj))
                (sym n)
                (
                  swapped-IsTable hash equal (ready t) key s release v' e obj,
                  swapped-bindings hash equal (ready t) key s release v' e obj,
                ),
          )
