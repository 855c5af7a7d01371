-- ===== src/Launcher/Tests.antt =====
-- Runs of the launcher's handlers, and the theorems on them at concrete data.
use iot_app_fw.Common.{
  ℕ, ◌≡◌, ◌++◌, refl, true, false, Option, none, some, List, [], ◌∷◌, arith, Bytes, codes, map,
  replicate,
}
use iot_app_fw.Mask.{test, bit_of, Mask, init, set_bit, write_bit, set_in, grow}
use iot_app_fw.Mask.Bits.{init-IsMask}
use iot_app_fw.Launcher.{Client, ok, error, eperm}
use iot_app_fw.Launcher.Privilege.{
  disabled, unconnected, is_allowed, privilege_check, send_event_privilege,
}
use iot_app_fw.Launcher.Events.{
  deliver, answer_of, Registry, Sent, Request, target_of, fits, message, event_route, route_named,
  route_found, event_lookup, event_register, event_id, event_id_at, add_event, find_name, found,
}
use iot_app_fw.Launcher.Events.Names.{IsRegistry, Registered, no_events, event_register-Registered}
use iot_app_fw.Launcher.Events.Route.{meant_clients, event_route-meant}
use iot_app_fw.Launcher.Subscribe.{
  subscribed, client_subscribe, subscribe_from, registered_at, marked_at,
}
use iot_app_fw.Launcher.Subscribe.Delivery.{client_subscribe-event_route}

abbrev boot : Bytes
boot = codes "boot"

abbrev one_event : Registry
one_event = record { events = record { name = boot; id = 0 } ∷ []; nevent = 1 }

no_events-IsRegistry : IsRegistry no_events
no_events-IsRegistry = record {
  numbered = tt;
  distinct = tt;
  counted = refl;
  bounded = omega arith;
}

register_boot : event_register true boot no_events ≡ (found 0, one_event)
unfolding event_register event_id event_id_at add_event find_name
register_boot = refl

lookup_boot : event_lookup boot one_event ≡ found 0
unfolding event_lookup event_id event_id_at add_event find_name
lookup_boot = refl

event_register-Registered_example : Registered no_events one_event boot 0
event_register-Registered_example =
    event_register-Registered true boot no_events one_event 0 no_events-IsRegistry register_boot

abbrev client : ℕ → Mask → Client
client k m = record { conn = k; label = none; uid = 5; gid = 6; pid = 7; mask = m }

abbrev marked : Mask
marked = record {
  nbit = 64;
  fixed = false;
  inlined = false;
  words = (true ∷ replicate 63 false) ∷ [];
}

set_boot : set_bit true init 0 ≡ some marked
unfolding set_bit set_in grow init write_bit
set_boot = refl

subscribe_boot :
    client_subscribe (λ i. true) (λ i. true) (client 1 init) no_events (some (some boot ∷ []))
    ≡ subscribed ok marked one_event
unfolding client_subscribe subscribe_from registered_at marked_at event_register event_id
    event_id_at add_event find_name set_bit set_in grow init write_bit
subscribe_boot = refl

abbrev full : Registry
full = record { events = []; nevent = 1024 }

abbrev ask : Option ℕ → Option ℕ → Request ℕ
ask process payload = record {
  event = some boot;
  label = none;
  appid = none;
  user = none;
  group = none;
  process = process;
  payload = payload;
}

allowed : is_allowed (privilege_check disabled none 5 send_event_privilege) ≡ true
unfolding is_allowed privilege_check
allowed = refl

event_route-meant_example :
    event_route disabled true one_event
      (client 1 marked ∷ [])
      (client 2 init)
      (ask (some 7) (some 9))
    ≡ some (
      ok,
      map (λ t. message t boot 9) (meant_clients 0 (ask (some 7) (some 9)) (client 1 marked ∷ [])),
    )
event_route-meant_example =
    event_route-meant disabled one_event (client 1 marked ∷ []) (client 2 init)
      (ask (some 7) (some 9)) boot 0 9 refl lookup_boot allowed refl

refused :
    event_route unconnected true one_event
      (client 1 marked ∷ [])
      (client 2 init)
      (ask none (some 9))
    ≡ some (error eperm, [])
unfolding event_route route_named route_found event_lookup event_id event_id_at add_event find_name
    is_allowed privilege_check
refused = refl

client_subscribe-event_route_example :
    (xs : List (Sent ℕ)) × (ys : List (Sent ℕ)) × (event_route disabled true one_event
        ([] ++ client 1 marked ∷ [])
        (client 2 init)
        (ask (some 7) (some 9))
      ≡ some (ok, xs ++ message (client 1 init) boot 9 ∷ ys))
client_subscribe-event_route_example =
    client_subscribe-event_route (λ i. true) (λ i. true) (client 1 init) (some boot ∷ []) marked
      no_events one_event 0 disabled [] [] (client 2 init) (ask (some 7) (some 9)) boot 9
      init-IsMask no_events-IsRegistry subscribe_boot refl allowed refl refl refl

-- A request for an application is sent to the subscribers, whatever application they are.
ignores_application :
    event_route disabled true one_event
      (client 1 marked ∷ [])
      (client 2 init)
      (record (ask none (some 9)) { appid = some (codes "other:app") })
    ≡ some (ok, message (client 1 marked) boot 9 ∷ [])
unfolding event_route route_named route_found event_lookup event_id event_id_at add_event find_name
    is_allowed privilege_check deliver answer_of fits target_of test bit_of
ignores_application = refl
