-- ===== src/Deferreds/Total.antt =====
-- No operation on the deferred callbacks of src/common/mainloop.c loses or doubles one.
use iot_app_fw.Common.{
  Bool, ℕ, ◌+◌, ◌≡◌, refl, ap, ◌∙◌, true, false, Option, none, some, List, [], ◌∷◌, ◌++◌, ◌==◌,
  if◌then◌else◌, arith, inl, inr, Bool-cases, Option-cases,
}
use iot_app_fw.Deferreds.{
  Deferred, Queues, find, remove, or_else, behind, detach_at, detach, disable_at, disable_deferred,
  enable_at, enable_deferred, update, update_both, del_deferred, set_inactive,
}

abbrev pub one : ℕ → ℕ → ℕ
one i j = if i == j then 1 else 0

-- how often a callback stands in a queue, and in both
unfoldable pub count : ℕ → List Deferred → ℕ
count j [] = 0
count j (d ∷ ds) = one d.id j + count j ds

unfoldable pub total : ℕ → Queues → ℕ
total j q = count j q.active + count j q.idle

count-append : (j : ℕ) (ds es : List Deferred) → count j (ds ++ es) ≡ count j ds + count j es
unfolding count
count-append j [] es = omega arith
count-append j (d ∷ ds) es = omega (arith, count-append j ds es)

find-id : (i : ℕ) (ds : List Deferred) (d : Deferred) → find i ds ≡ some d → d.id ≡ i
unfolding find
find-id i [] d e = absurd (cc)
find-id i (x ∷ ds) d e = ground (arith, find-id i ds d)

count-remove :
    (i j : ℕ) (ds : List Deferred) (d : Deferred)
    → find i ds ≡ some d
    → count j ds ≡ one i j + count j (remove i ds)
unfolding find count remove
count-remove i j [] d e = absurd (cc)
count-remove i j (x ∷ ds) d e = elim (Bool-cases (x.id == i)) [
  | inl h ↦ ground (arith, h)
  | inr h ↦
      let later : count j ds ≡ one i j + count j (remove i ds) =
        count-remove i j ds d (ground (arith, h)) in
      ground (arith, h, later)
]

total-detach :
    (i j : ℕ) (q : Queues) (d : Deferred)
    → behind i q ≡ some d
    → (d.id ≡ i) × (total j q ≡ one i j + total j (detach i q))
unfolding behind detach total detach_at or_else
total-detach i j q d e = at (find i q.active) refl e
  where
    at :
        (o : Option Deferred)
        → find i q.active ≡ o
        → or_else o (find i q.idle) ≡ some d
        → (d.id ≡ i) × (total j q ≡ one i j + total j (detach_at i q o))
    at (some x) f h = (find-id i q.active d (f ∙ h), omega (arith, count-remove i j q.active x f))
    at none f h = (find-id i q.idle d h, omega (arith, count-remove i j q.idle d h))

count-update :
    (f : Deferred → Deferred) (i j : ℕ) (ds : List Deferred)
    → ((d : Deferred) → (f d).id ≡ d.id)
    → count j (update f i ds) ≡ count j ds
unfolding count update
count-update f i j [] h = refl
count-update f i j (d ∷ ds) h = elim (Bool-cases (d.id == i)) [
  | inl e ↦ rw (e, h d) refl
  | inr e ↦ rw (e, count-update f i j ds h) refl
]

enable_at-total :
    (i j : ℕ) (q : Queues) (d : Deferred)
    → behind i q ≡ some d
    → total j (enable_at i q (some d)) ≡ total j q
unfolding enable_at total count
enable_at-total i j q d e = chosen d.deleted
  where
    here : Deferred
    here = record d { inactive = false }

    on : Queues
    on = record (detach i q) { active = (detach i q).active ++ here ∷ [] }

    kept : total j on ≡ total j q
    kept =
        let (same, moved) = total-detach i j q d e in
        omega (arith, moved, count-append j (detach i q).active (here ∷ []), ap (λ k. one k j) same)

    chosen : (b : Bool) → total j (if b then q else on) ≡ total j q
    chosen true = refl
    chosen false = kept

disable_at-total :
    (i j : ℕ) (q : Queues) (d : Deferred)
    → behind i q ≡ some d
    → total j (disable_at i q (some d)) ≡ total j q
unfolding disable_at total count
disable_at-total i j q d e = chosen d.inactive
  where
    off : Queues
    off = record (detach i q) { idle = (detach i q).idle ++ d ∷ [] }

    kept : total j off ≡ total j q
    kept =
        let (same, moved) = total-detach i j q d e in
        omega (arith, moved, count-append j (detach i q).idle (d ∷ []), ap (λ k. one k j) same)

    chosen : (b : Bool) → total j (if b then off else q) ≡ total j q
    chosen true = kept
    chosen false = refl

enable_deferred-total : (i j : ℕ) (q : Queues) → total j (enable_deferred i q) ≡ total j q
unfolding enable_deferred enable_at
enable_deferred-total i j q = elim (Option-cases (behind i q)) [
  | inl e ↦ ap (λ o. total j (enable_at i q o)) e
  | inr (d, e) ↦ ap (λ o. total j (enable_at i q o)) e ∙ enable_at-total i j q d e
]

disable_deferred-total : (i j : ℕ) (q : Queues) → total j (disable_deferred i q) ≡ total j q
unfolding disable_deferred disable_at
disable_deferred-total i j q = elim (Option-cases (behind i q)) [
  | inl e ↦ ap (λ o. total j (disable_at i q o)) e
  | inr (d, e) ↦ ap (λ o. total j (disable_at i q o)) e ∙ disable_at-total i j q d e
]

-- Enabling, deleting and disabling a deferred callback, and moving it to the inactive ones, neither
-- lose nor double any: each address stands in the two queues together as often as before.
pub deferred-total :
    (i j : ℕ) (q : Queues)
    → (total j (enable_deferred i q) ≡ total j q)
      × (total j (disable_deferred i q) ≡ total j q)
      × (total j (del_deferred i q) ≡ total j q)
      × (total j (set_inactive i q) ≡ total j q)
unfolding del_deferred set_inactive update_both total
deferred-total i j q = (
  enable_deferred-total i j q,
  disable_deferred-total i j q,
  omega (
    arith,
    count-update deleting i j q.active (λ d. refl),
    count-update deleting i j q.idle (λ d. refl),
  ),
  omega (
    arith,
    count-update disabling i j q.active (λ d. refl),
    count-update disabling i j q.idle (λ d. refl),
  ),
)
  where
    deleting : Deferred → Deferred
    deleting d = record d { deleted = true }

    disabling : Deferred → Deferred
    disabling d = record d { inactive = true }
