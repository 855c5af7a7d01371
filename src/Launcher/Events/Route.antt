-- ===== src/Launcher/Events/Route.antt =====
-- `event_route` and `event_send` of src/launcher/daemon/event.c: who gets an event.
use mathlib.Core.Option.{none-ne-some}
use iot_app_fw.Common.{
  ℕ, ◌≡◌, ◌≢◌, refl, sym, ap, ◌∙◌, Bool, true, false, Option, none, some, List, [], ◌∷◌, arith,
  ◌||◌, ◌==◌, ==_refl, Bytes, if◌then◌else◌, map, not, ◌&&◌, eq_of_some,
}
use iot_app_fw.Mask.{test}
use iot_app_fw.Launcher.{no_uid, no_gid, no_pid, Client, Errno, eperm, ok, error}
use iot_app_fw.Launcher.Privilege.{Security, is_allowed, privilege_check, send_event_privilege}
use iot_app_fw.Launcher.Events.{
  or_else, Registry, found, missing, Found, event_lookup, Sent, message, Request, Target, target_of,
  fits, Routed, sends, not_made, undefined, deliver, answer_of, route_found, route_named,
  event_route,
}

-- The clients that an event with this id and target is for, in the order of their connections.
abbrev pub audience : (id : ℕ) → Target → List Client → List Client
audience id dst [] = []
audience id dst (t ∷ ts) =
    if test t.mask id && fits dst t then t ∷ audience id dst ts else audience id dst ts

deliver-sends :
    {D : Type 0} (id : ℕ) (dst : Target) (event : Bytes) (d : D) (ts : List Client)
    → deliver true id dst event (some d) ts
      ≡ sends (map (λ t. message t event d) (audience id dst ts))
unfolding deliver
deliver-sends id dst event d [] = refl
deliver-sends id dst event d (t ∷ ts) = ground (arith, deliver-sends id dst event d ts)

answered : {D : Type 0} (ss : List (Sent D)) → answer_of (sends ss) ≡ some (ok, ss)
unfolding answer_of
answered ss = refl

route_event :
    {D : Type 0} (security : Security) (made : Bool) (r : Registry) (clients : List Client)
    (c : Client) (q : Request D) (event : Bytes) (id : ℕ)
    → q.event ≡ some event
    → event_lookup event r ≡ found id
    → is_allowed (privilege_check security c.label c.uid send_event_privilege) ≡ true
    → event_route security made r clients c q
      ≡ answer_of (deliver made id (target_of q) event q.payload clients)
unfolding event_route route_named route_found
route_event security made r clients c q event id named known allowed =
    ap (route_named security made r clients c q) named
    ∙ ap (route_found security made clients c q event) known
    ∙ rw allowed refl

answer_of_error :
    {D : Type 0} (x : Routed D) (e : Errno) (ss : List (Sent D))
    → answer_of x ≡ some (error e, ss)
    → ss ≡ []
unfolding answer_of
answer_of_error (sends xs) e ss h = absurd (ok-ne-error e (ap (λ p. p.0) (eq_of_some h)))
  where
    ok-ne-error : (e : Errno) → ok ≢ error e
    ok-ne-error e h = cc
answer_of_error not_made e ss h = ap (λ p. p.1) (sym (eq_of_some h))
answer_of_error undefined e ss h = absurd (none-ne-some _ h)

route_found_error :
    {D : Type 0} (security : Security) (made : Bool) (clients : List Client) (c : Client)
    (q : Request D) (event : Bytes) (f : Found) (e : Errno) (ss : List (Sent D))
    → route_found security made clients c q event f ≡ some (error e, ss)
    → ss ≡ []
unfolding route_found
route_found_error security made clients c q event (missing x) e ss h =
    ap (λ p. p.1) (sym (eq_of_some h))
route_found_error security made clients c q event (found id) e ss h =
    checked (is_allowed (privilege_check security c.label c.uid send_event_privilege)) h
  where
    checked :
        (b : Bool)
        → (if not b
            then some (error eperm, [])
            else answer_of (deliver made id (target_of q) event q.payload clients))
          ≡ some (error e, ss)
        → ss ≡ []
    checked false h = ap (λ p. p.1) (sym (eq_of_some h))
    checked true h = answer_of_error _ e ss h

-- The clients that the code picks, and the reply.
pub event_route-audience :
    {D : Type 0} (security : Security) (r : Registry) (clients : List Client) (c : Client)
    (q : Request D) (event : Bytes) (id : ℕ) (d : D)
    → q.event ≡ some event
    → event_lookup event r ≡ found id
    → is_allowed (privilege_check security c.label c.uid send_event_privilege) ≡ true
    → q.payload ≡ some d
    → event_route security true r clients c q
      ≡ some (ok, map (λ t. message t event d) (audience id (target_of q) clients))
event_route-audience security r clients c q event id d named known allowed given =
    route_event security true r clients c q event id named known allowed
    ∙ ap (λ p. answer_of (deliver true id (target_of q) event p clients)) given
    ∙ ap answer_of (deliver-sends id (target_of q) event d clients)
    ∙ answered _

-- A field of a target that is missing, or that holds the number that stands for any, selects every
-- client; another selects those with this number.
abbrev pub selected : Option ℕ → (any : ℕ) → ℕ → Bool
selected none any n = true
selected (some x) any n = (x == any) || (x == n)

-- A client has the user, the group and the process that a request selects.
abbrev pub meant : {D : Type 0} → Request D → Client → Bool
meant q c =
    selected q.user no_uid c.uid
    && (selected q.group no_gid c.gid && selected q.process no_pid c.pid)

-- The clients that subscribed to an event and that a request selects, in order.
abbrev pub meant_clients : {D : Type 0} → (id : ℕ) → Request D → List Client → List Client
meant_clients id q [] = []
meant_clients id q (c ∷ cs) =
    if test c.mask id && meant q c then c ∷ meant_clients id q cs else meant_clients id q cs

chosen :
    (o : Option ℕ) (any n : ℕ) → (or_else o any == any || or_else o any == n) ≡ selected o any n
chosen none any n = ap (λ b. b || (any == n)) (==_refl any)
chosen (some x) any n = refl

pub fits-meant : {D : Type 0} (q : Request D) (c : Client) → fits (target_of q) c ≡ meant q c
unfolding fits target_of
fits-meant q c =
    ap
      (λ b.
        b
        && ((or_else q.group no_gid == no_gid || or_else q.group no_gid == c.gid)
            && (or_else q.process no_pid == no_pid || or_else q.process no_pid == c.pid)))
      (chosen q.user no_uid c.uid)
    ∙ ap
        (λ b.
          selected q.user no_uid c.uid
          && (b && (or_else q.process no_pid == no_pid || or_else q.process no_pid == c.pid)))
        (chosen q.group no_gid c.gid)
    ∙ ap (λ b. selected q.user no_uid c.uid && (selected q.group no_gid c.gid && b))
        (chosen q.process no_pid c.pid)

audience-meant :
    {D : Type 0} (id : ℕ) (q : Request D) (cs : List Client)
    → audience id (target_of q) cs ≡ meant_clients id q cs
audience-meant id q [] = refl
audience-meant id q (c ∷ cs) =
    ap
      (λ b.
        if test c.mask id && b
        then c ∷ audience id (target_of q) cs
        else audience id (target_of q) cs)
      (fits-meant q c)
    ∙ ap (λ l. if test c.mask id && meant q c then c ∷ l else l) (audience-meant id q cs)

-- A privileged client's request for a known event, with data, is answered with success, and sends
-- the data, under the event's name, exactly once to each client that subscribed to the event and
-- has the user, the group and the process that the request names, in the order of the clients, and
-- to no other. A field that is missing, and the numbers -1, -1 and 0, stand for any. The label and the
-- application that the request names select nobody: they are not looked at. The message is one that
-- can be created.
pub event_route-meant :
    {D : Type 0} (security : Security) (r : Registry) (clients : List Client) (c : Client)
    (q : Request D) (event : Bytes) (id : ℕ) (d : D)
    → q.event ≡ some event
    → event_lookup event r ≡ found id
    → is_allowed (privilege_check security c.label c.uid send_event_privilege) ≡ true
    → q.payload ≡ some d
    → event_route security true r clients c q
      ≡ some (ok, map (λ t. message t event d) (meant_clients id q clients))
event_route-meant security r clients c q event id d named known allowed given =
    event_route-audience security r clients c q event id d named known allowed given
    ∙ ap (λ l. some (ok, map (λ t. message t event d) l)) (audience-meant id q clients)

-- No request that is answered with an error sends anything.
pub event_route_refused :
    {D : Type 0} (security : Security) (made : Bool) (r : Registry) (clients : List Client)
    (c : Client) (q : Request D) (e : Errno) (ss : List (Sent D))
    → event_route security made r clients c q ≡ some (error e, ss)
    → ss ≡ []
unfolding event_route route_named
event_route_refused security made r clients c q e ss h = named q.event h
  where
    named :
        (n : Option Bytes)
        → route_named security made r clients c q n ≡ some (error e, ss)
        → ss ≡ []
    named none h = ap (λ p. p.1) (sym (eq_of_some h))
    named (some event) h =
        route_found_error security made clients c q event (event_lookup event r) e ss h
