-- ===== src/Launcher/Subscribe.antt =====
-- `client_subscribe` of src/launcher/daemon/client.c: the events that a client asks for.
pub mod Marks
pub mod Delivery
use iot_app_fw.Common.{ℕ, suc, ◌≡◌, Bool, Option, none, some, List, [], ◌∷◌, Bytes}
use iot_app_fw.Mask.{Mask, set_bit}
use iot_app_fw.Launcher.{Client, Status, ok, error, einval}
use iot_app_fw.Launcher.Events.{Registry, Found, found, missing, event_register}

-- The reply, with the client's mask and the registry after it; or a shift by -1, which is undefined.
pub data Subscribed : Type 0 where
  subscribed : Status → Mask → Registry → Subscribed
  undefined : Subscribed

unfoldable pub marked_at :
    (rest : Mask → Registry → Subscribed) → Mask → Registry → Option Mask → Subscribed
marked_at rest m r none = subscribed (error einval) m r
marked_at rest m r (some m') = rest m' r

-- `iot_mask_set(&c->mask, …)` on the result of `event_register`, and the rounds after it
unfoldable pub registered_at :
    (rest : Mask → Registry → Subscribed) → (room : Bool) → Mask → Found × Registry → Subscribed
registered_at rest room m (missing e, r) = undefined
registered_at rest room m (found id, r) = marked_at rest m r (set_bit room m id)

-- The loop of `client_subscribe` from the index `i` on. An item that is not a string is `none`.
-- `granted` and `room` say in which rounds the registry and the mask get the memory they ask for.
unfoldable pub subscribe_from :
    (granted room : ℕ → Bool) → ℕ → List (Option Bytes) → Mask → Registry → Subscribed
subscribe_from granted room i [] m r = subscribed ok m r
subscribe_from granted room i (none ∷ ns) m r = subscribed (error einval) m r
subscribe_from granted room i (some n ∷ ns) m r =
    registered_at (λ m r. subscribe_from granted room (suc i) ns m r) (room i) m
      (event_register (granted i) n r)

-- `client_subscribe`; `none` for a request without an array "events"
unfoldable pub client_subscribe :
    (granted room : ℕ → Bool) → Client → Registry → Option (List (Option Bytes)) → Subscribed
client_subscribe granted room c r none = subscribed (error einval) c.mask r
client_subscribe granted room c r (some ns) = subscribe_from granted room 0 ns c.mask r
