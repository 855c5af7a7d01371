-- ===== src/Transport/Sections.antt =====
-- The parts of a call on a transport of src/common/transport.c: a section of work, and the purge.
use iot_app_fw.Common.{
  ◌+◌, ◌-◌, ◌<◌, ◌≡◌, ◌≢◌, refl, sym, ap, ◌∙◌, Bool, true, false, Option, none, some, if◌then◌else◌,
  ◌&&◌, arith, ◌==◌, inl, inr, Bool-cases,
}
use iot_app_fw.Transport.{
  Transport, purge_destroyed, with_result, purge_after, leave, busy_section, set_connected,
  set_listened, unchanged, Body,
}

-- The transport is in memory, and used as often as before.
pub record Kept (t t' : Transport) : Type 0 where
  pub live : t'.freed ≡ false
  pub busy : t'.busy ≡ t.busy

-- What leaves a transport that is in use so.
abbrev pub Keeps : Body → Type 0
Keeps body =
    (t : Transport)
    → t.freed ≡ false
    → 0 < t.busy
    → (t' : Transport) × (body t ≡ some t') × Kept t t'

abbrev pub Harmless : (Transport → Transport) → Type 0
Harmless last = (t : Transport) → ((last t).freed ≡ t.freed) × ((last t).busy ≡ t.busy)

pub set_connected-Harmless : (value ok : Bool) → Harmless (set_connected value ok)
set_connected-Harmless value true t = (refl, refl)
set_connected-Harmless value false t = (refl, refl)

pub set_listened-Harmless : (ok : Bool) → Harmless (set_listened ok)
set_listened-Harmless true t = (refl, refl)
set_listened-Harmless false t = (refl, refl)

pub unchanged-Harmless : Harmless unchanged
unchanged-Harmless t = (refl, refl)

pub busy_section-Kept :
    (body : Body) (last : Transport → Transport)
    → Keeps body
    → Harmless last
    → (t : Transport) → t.freed ≡ false
    → (t' : Transport) × (busy_section body last t ≡ some t') × Kept t t'
unfolding busy_section leave
busy_section-Kept body last keeps harmless t live =
    let (t1, ran, kept) = keeps (record t { busy = t.busy + 1 }) live (omega arith) in
    let t2 : Transport = record t1 { busy = t1.busy - 1 } in
    let (h, k) = harmless t2 in
    (
      last t2,
      ap (λ b. if b then none else leave last (body (record t { busy = t.busy + 1 }))) live
          ∙ ap (leave last) ran
          ∙ ap (λ b. if b then none else some (last t2)) kept.live,
      record { live = h ∙ kept.live; busy = omega (arith, k, kept.busy) },
    )

-- What a call makes of a transport: it is used as often as before; while it is in use it is not
-- freed, and otherwise it is freed if it was destroyed.
pub record Ends (t t' : Transport) : Type 0 where
  pub busy : t'.busy ≡ t.busy
  pub in_use : 0 < t.busy → t'.freed ≡ false
  pub idle : t.busy ≡ 0 → t'.freed ≡ t'.destroyed

-- A transport in memory that nobody has destroyed, unless somebody uses it.
pub record IsOwned (t : Transport) : Type 0 where
  pub live : t.freed ≡ false
  pub wanted : t.busy ≡ 0 → t.destroyed ≡ false

abbrev pub Returns : Option (Bool × Transport) → Transport → Type 0
Returns r t = (result : Bool) × (t' : Transport) × (r ≡ some (result, t')) × Ends t t'

pub purge_destroyed-Returns : (t : Transport) → t.freed ≡ false → Returns (purge_destroyed t) t
unfolding purge_destroyed
purge_destroyed-Returns t live = elim (Bool-cases (t.destroyed && (t.busy == 0))) [
  | inl e ↦ (
    true,
    record t { freed = true },
    ap (λ b. if b then none else rest) live
        ∙ ap (λ b. if b then some (true, record t { freed = true }) else some (false, t)) e,
    record { busy = refl; in_use = ground arith; idle = ground arith },
  )
  | inr e ↦ (
    false,
    t,
    ap (λ b. if b then none else rest) live
        ∙ ap (λ b. if b then some (true, record t { freed = true }) else some (false, t)) e,
    record { busy = refl; in_use = λ h. live; idle = ground arith },
  )
]
  where
    rest : Option (Bool × Transport)
    rest =
        if t.destroyed && (t.busy == 0)
        then some (true, record t { freed = true })
        else some (false, t)

-- a section of work, and the purge
purge_after-Returns :
    (result : Bool) (o : Option Transport) (t t1 : Transport)
    → o ≡ some t1
    → Kept t t1
    → Returns (purge_after result o) t
unfolding purge_after with_result
purge_after-Returns result o t t1 e kept =
    let (purged, t', ran, ends) = purge_destroyed-Returns t1 kept.live in
    (
      result,
      t',
      ap (purge_after result) e ∙ ap (with_result result) ran,
      record {
        busy = ends.busy ∙ kept.busy;
        in_use = λ h. ends.in_use (omega (arith, kept.busy));
        idle = λ h. ends.idle (omega (arith, kept.busy));
      },
    )

pub section-Returns :
    (result : Bool) (body : Body) (last : Transport → Transport) (t : Transport)
    → Keeps body
    → Harmless last
    → t.freed ≡ false
    → Returns (purge_after result (busy_section body last t)) t
section-Returns result body last t keeps harmless live =
    let (t1, ran, kept) = busy_section-Kept body last keeps harmless t live in
    purge_after-Returns result (busy_section body last t) t t1 ran kept

-- a function that returns early
pub stays-Returns : (result : Bool) (t : Transport) → IsOwned t → Returns (some (result, t)) t
stays-Returns result t o = (
  result,
  t,
  refl,
  record { busy = refl; in_use = λ h. o.live; idle = λ h. o.live ∙ sym (o.wanted h) },
)

-- A branch on a test.
pub either :
    (P : Option (Bool × Transport) → Type 0) (b : Bool) (x y : Option (Bool × Transport))
    → (b ≡ true → P x)
    → (b ≡ false → P y)
    → P (if b then x else y)
either P true x y p q = p refl
either P false x y p q = q refl

-- a transport that is not freed passes the first test
pub passes :
    (b : Bool) (x : Option (Bool × Transport)) (t : Transport)
    → b ≡ false
    → Returns x t
    → Returns (if b then none else x) t
passes true x t e r = absurd (true-ne-false e)
  where
    true-ne-false : true ≢ false
    true-ne-false e = cc
passes false x t e r = r
