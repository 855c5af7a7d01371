-- ===== src/Deferreds/Tests.antt =====
-- A run of the deferred callbacks, and their theorem at it.
use iot_app_fw.Common.{◌≡◌, refl, true, false, [], ◌∷◌}
use iot_app_fw.Deferreds.{
  Queues, enable_deferred, enable_at, behind, find, or_else, detach, detach_at, remove,
  disable_deferred, del_deferred, set_inactive, update_both, update, disable_at,
}
use iot_app_fw.Deferreds.Total.{total, deferred-total}

abbrev two : Queues
two = record {
  active = record { id = 4; inactive = false; deleted = false } ∷ [];
  idle = record { id = 8; inactive = true; deleted = false } ∷ [];
}

enabled-two :
    (enable_deferred 8 two).active
    ≡ record { id = 4; inactive = false; deleted = false }
      ∷ record { id = 8; inactive = false; deleted = false }
      ∷ []
unfolding enable_deferred enable_at behind find or_else detach detach_at remove
enabled-two = refl

disabled-two : (disable_deferred 4 (set_inactive 4 two)).active ≡ []
unfolding disable_deferred disable_at set_inactive update_both update behind find or_else detach
    detach_at remove
disabled-two = refl

deferred-total_example :
    (total 8 (enable_deferred 8 two) ≡ total 8 two)
    × (total 8 (disable_deferred 8 two) ≡ total 8 two)
    × (total 8 (del_deferred 8 two) ≡ total 8 two)
    × (total 8 (set_inactive 8 two) ≡ total 8 two)
deferred-total_example = deferred-total 8 8 two
