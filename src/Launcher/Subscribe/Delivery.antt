-- ===== src/Launcher/Subscribe/Delivery.antt =====
-- From `client_subscribe` to `event_route`: a client gets the events that it subscribed to.
use mathlib.Core.Path.{subst}
use iot_app_fw.Common.{
  ℕ, suc, zero, ◌≡◌, ◌++◌, refl, ap, ◌∙◌, Bool, true, Option, none, some, List, [], ◌∷◌, arith,
  Bytes, All, eq_of_some, map, get_elem?,
}
use iot_app_fw.Mask.{Mask, IsMask, test}
use iot_app_fw.Launcher.{Client, ok}
use iot_app_fw.Launcher.Privilege.{Security, is_allowed, privilege_check, send_event_privilege}
use iot_app_fw.Launcher.Events.{
  Registry, Sent, Request, Target, target_of, fits, message, event_route,
}
use iot_app_fw.Launcher.Events.Names.{IsRegistry}
use iot_app_fw.Launcher.Events.Route.{audience, event_route-audience, meant, fits-meant}
use iot_app_fw.Launcher.Subscribe.{subscribed, client_subscribe}
use iot_app_fw.Launcher.Subscribe.Marks.{IsMarked, client_subscribe-Marked}

audience-append :
    (id : ℕ) (dst : Target) (xs : List Client) (t : Client) (ys : List Client)
    → test t.mask id ≡ true
    → fits dst t ≡ true
    → audience id dst (xs ++ t ∷ ys) ≡ audience id dst xs ++ t ∷ audience id dst ys
audience-append id dst [] t ys h k = rw (h, k) refl
audience-append id dst (x ∷ xs) t ys h k = ground (arith, audience-append id dst xs t ys h k)

map-append :
    {A B : Type 0} (f : A → B) (xs : List A) (a : A) (ys : List A)
    → map f (xs ++ a ∷ ys) ≡ map f xs ++ f a ∷ map f ys
map-append f [] a ys = refl
map-append f (x ∷ xs) a ys = ap (λ l. f x ∷ l) (map-append f xs a ys)

marked_at_index :
    (m : Mask) (r : Registry) (ns : List (Option Bytes)) (k : ℕ) (n : Bytes)
    → All (IsMarked m r) ns
    → get_elem? ns k ≡ some (some n)
    → IsMarked m r (some n)
marked_at_index m r [] k n h e = absurd (cc)
marked_at_index m r (some x ∷ ns) zero n h e =
    subst (λ y. IsMarked m r (some y)) (eq_of_some (eq_of_some e)) h.0
marked_at_index m r (none ∷ ns) zero n h e = absurd h.0
marked_at_index m r (x ∷ ns) (suc k) n h e = marked_at_index m r ns k n h.1 e

-- After a client's successful subscription, a privileged client's event of any of its names, with
-- data, is sent to it among the others, if it has the user, the group and the process that the
-- request names, whatever the label and the application in it, which are not looked at. The client's
-- mask and the registry were in order, and the message is one that can be created.
pub client_subscribe-event_route :
    {D : Type 0} (granted room : ℕ → Bool) (c : Client) (ns : List (Option Bytes)) (m' : Mask)
    (r r' : Registry) (k : ℕ) (security : Security) (before after : List Client) (sender : Client)
    (q : Request D) (event : Bytes) (d : D)
    → IsMask c.mask
    → IsRegistry r
    → client_subscribe granted room c r (some ns) ≡ subscribed ok m' r'
    → get_elem? ns k ≡ some (some event)
    → is_allowed (privilege_check security sender.label sender.uid send_event_privilege) ≡ true
    → q.event ≡ some event
    → q.payload ≡ some d
    → meant q c ≡ true
    → (xs : List (Sent D)) × (ys : List (Sent D)) × (event_route security true r'
          (before ++ record c { mask = m' } ∷ after)
          sender
          q
        ≡ some (ok, xs ++ message c event d ∷ ys))
client_subscribe-event_route granted room c ns m' r r' k security before after sender q event d v w
      e at allowed named given fit =
    let marks = client_subscribe-Marked granted room c ns m' r r' v w e in
    let (id, known, set) = marked_at_index m' r' ns k event marks.marked at in
    let c' : Client = record c { mask = m' } in
    let f = λ (t : Client). message t event d in
    (
      map f (audience id (target_of q) before),
      map f (audience id (target_of q) after),
      event_route-audience security r' (before ++ c' ∷ after) sender q event id d named known
            allowed given
          ∙ ap (λ l. some (ok, map f l))
              (audience-append id (target_of q) before c' after set (fits-meant q c' ∙ fit))
          ∙ ap (λ l. some (ok, l))
              (map-append f (audience id (target_of q) before) c'
                (audience id (target_of q) after)),
    )
