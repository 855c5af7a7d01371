-- ===== src/Launcher/Subscribe/Marks.antt =====
-- `client_subscribe` of src/launcher/daemon/client.c: the bits that a subscription leaves.
use mathlib.Core.Path.{subst}
use mathlib.Core.Path.{◌∙◌}
use iot_app_fw.Common.{
  ℕ, suc, ◌≡◌, ◌≢◌, refl, ap, Bool, true, Option, none, some, List, [], ◌∷◌, arith, Bytes,
  if◌then◌else◌, All, le→leb, ◌==◌,
}
use iot_app_fw.Mask.{Mask, IsMask, test, set_bit}
use iot_app_fw.Mask.Bits.{test-set_bit}
use iot_app_fw.Launcher.{Client, Status, ok, error, einval}
use iot_app_fw.Launcher.Events.{
  Registry, Found, found, missing, event_lookup, event_register, event_id, event_id_at, add_event,
  find_name, max_events,
}
use iot_app_fw.Launcher.Events.Names.{IsRegistry, Registered, event_register-Registered}
use iot_app_fw.Launcher.Subscribe.{
  Subscribed, subscribed, undefined, marked_at, registered_at, subscribe_from, client_subscribe,
}

-- The item is a name that the registry knows, and its bit is set.
abbrev pub IsMarked : Mask → Registry → Option Bytes → Type 0
IsMarked m r none = ⊥
IsMarked m r (some n) = (id : ℕ) × (event_lookup n r ≡ found id) × (test m id ≡ true)

-- What a subscription for `ns` makes of a mask and a registry.
pub record Marked (m : Mask) (r : Registry) (ns : List (Option Bytes)) (m' : Mask) (r' : Registry)
    : Type 0 where
  pub mask : IsMask m'
  pub registry : IsRegistry r'
  pub marked : All (IsMarked m' r') ns
  pub kept : (id : ℕ) → test m id ≡ true → test m' id ≡ true
  pub known : (n : Bytes) (id : ℕ) → event_lookup n r ≡ found id → event_lookup n r' ≡ found id

Marked-cons :
    (m m1 m' : Mask) (r r1 r' : Registry) (n : Bytes) (id : ℕ) (ns : List (Option Bytes))
    → Registered r r1 n id
    → ((c : ℕ) → test m1 c ≡ (if c == id then true else test m c))
    → Marked m1 r1 ns m' r'
    → Marked m r (some n ∷ ns) m' r'
Marked-cons m m1 m' r r1 r' n id ns reg bits later = record {
  mask = later.mask;
  registry = later.registry;
  marked =
      ((id, later.known n id reg.known, later.kept id (ground (arith, bits id))), later.marked);
  kept = λ c h. later.kept c (ground (arith, bits c));
  known = λ k j h. later.known k j (reg.kept k j h);
}

ok-ne-error : (m m' : Mask) (r r' : Registry) → subscribed (error einval) m r ≢ subscribed ok m' r'
ok-ne-error m m' r r' e = absurd (code (ap (status_of ok) e))
  where
    status_of : Status → Subscribed → Status
    status_of d (subscribed s m r) = s
    status_of d undefined = d

    code : error einval ≢ ok
    code e = cc

undefined-ne : (m' : Mask) (r' : Registry) → undefined ≢ subscribed ok m' r'
undefined-ne m' r' e = cc

mask_of : (m m' : Mask) (r r' : Registry) → subscribed ok m r ≡ subscribed ok m' r' → m ≡ m'
mask_of m m' r r' e = cc

registry_of : (m m' : Mask) (r r' : Registry) → subscribed ok m r ≡ subscribed ok m' r' → r ≡ r'
registry_of m m' r r' e = cc

subscribe_from-Marked :
    (granted room : ℕ → Bool) (i : ℕ) (ns : List (Option Bytes)) (m m' : Mask) (r r' : Registry)
    → IsMask m
    → IsRegistry r
    → subscribe_from granted room i ns m r ≡ subscribed ok m' r'
    → Marked m r ns m' r'
unfolding subscribe_from registered_at marked_at
subscribe_from-Marked granted room i [] m m' r r' v w e =
    let a : m ≡ m' = mask_of m m' r r' e in
    let b : r ≡ r' = registry_of m m' r r' e in
    subst (λ x. Marked m r [] x r') a
      (subst (λ x. Marked m r [] m x) b
        (record { mask = v; registry = w; marked = tt; kept = λ c h. h; known = λ n j h. h }))
subscribe_from-Marked granted room i (none ∷ ns) m m' r r' v w e = absurd (ok-ne-error m m' r r' e)
subscribe_from-Marked granted room i (some n ∷ ns) m m' r r' v w e =
    at (λ m1 r1 valid reg h. subscribe_from-Marked granted room (suc i) ns m1 m' r1 r' valid reg h)
      (event_register (granted i) n r) refl e
  where
    rest : Mask → Registry → Subscribed
    rest m r = subscribe_from granted room (suc i) ns m r

    set_at :
        (later : (m1 : Mask) (r1 : Registry)
          → IsMask m1
          → IsRegistry r1
          → rest m1 r1 ≡ subscribed ok m' r'
          → Marked m1 r1 ns m' r')
        (id : ℕ) (r1 : Registry) (o : Option Mask)
        → Registered r r1 n id
        → set_bit (room i) m id ≡ o
        → marked_at rest m r1 o ≡ subscribed ok m' r'
        → Marked m r (some n ∷ ns) m' r'
    set_at later id r1 none reg s h = absurd (ok-ne-error m m' r1 r' h)
    set_at later id r1 (some m1) reg s h =
        let (valid, bits) = test-set_bit (room i) m m1 id v s in
        Marked-cons m m1 m' r r1 r' n id ns reg bits (later m1 r1 valid reg.valid h)

    at :
        (later : (m1 : Mask) (r1 : Registry)
          → IsMask m1
          → IsRegistry r1
          → rest m1 r1 ≡ subscribed ok m' r'
          → Marked m1 r1 ns m' r')
        (p : Found × Registry)
        → event_register (granted i) n r ≡ p
        → registered_at rest (room i) m p ≡ subscribed ok m' r'
        → Marked m r (some n ∷ ns) m' r'
    at later (missing x, r1) f h = absurd (undefined-ne m' r' h)
    at later (found id, r1) f h =
        set_at later id r1 (set_bit (room i) m id)
          (event_register-Registered (granted i) n r r1 id w f) refl h

-- A subscription that is answered with success leaves the registry and the client's mask valid,
-- every name of the request registered and its bit set; no bit that was set is lost, and no event
-- changes its id.
pub client_subscribe-Marked :
    (granted room : ℕ → Bool) (c : Client) (ns : List (Option Bytes)) (m' : Mask) (r r' : Registry)
    → IsMask c.mask
    → IsRegistry r
    → client_subscribe granted room c r (some ns) ≡ subscribed ok m' r'
    → Marked c.mask r ns m' r'
unfolding client_subscribe
client_subscribe-Marked granted room c ns m' r r' v w e =
    subscribe_from-Marked granted room 0 ns c.mask m' r r' v w e

-- A subscription for a name that is not registered, when the registry is full, shifts by -1.
pub client_subscribe_full :
    (granted room : ℕ → Bool) (c : Client) (n : Bytes) (ns : List (Option Bytes)) (r : Registry)
    → find_name n r.events ≡ none
    → r.nevent ≡ max_events
    → client_subscribe granted room c r (some (some n ∷ ns)) ≡ undefined
unfolding client_subscribe subscribe_from registered_at event_register event_id event_id_at
    add_event
client_subscribe_full granted room c n ns r unknown full =
    ap
      (λ o.
        registered_at (λ m r. subscribe_from granted room 1 ns m r) (room 0) c.mask
          (event_id_at (granted 0) n true r o))
      unknown
    ∙ rw (le→leb max_events r.nevent (omega (arith, full))) refl
