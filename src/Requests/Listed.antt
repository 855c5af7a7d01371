-- ===== src/Requests/Listed.antt =====
-- A request for the running applications from the library of src/app/app.c to the launcher of
-- src/launcher/daemon and back.
use iot_app_fw.Common.{
  ℕ, pos, ◌+◌, ◌≡◌, refl, ap, ◌∙◌, Bool, true, false, Option, none, some, List, [], ◌∷◌, ◌++◌, ◌==◌,
  not, map, if◌then◌else◌, arith,
}
use iot_app_fw.Launcher.{Client, Errno}
use iot_app_fw.Launcher.Privilege.{is_allowed, privilege_check, list_apps_privilege}
use iot_app_fw.Launcher.Apps.Listing.{Entry, Listing, listed, list_running, application_list}
use iot_app_fw.Launcher.Dispatch.{
  Object, World, Host, replies, applications, lnc_recv, handle_with, request_handler, call,
  of_listing, reply_with,
}
use iot_app_fw.Requests.{
  lists, Pending, Done, Library, Answers, app_list, connect_and, transport_connect, request,
  pending_enq,
}
use iot_app_fw.Requests.Replies.{
  Wire, extracted, extract_applist, Notified, notified, keep, add_done, finish_body, finish_list,
  notify_from, notified_to, pending_notify, status, recv_cb,
}
use iot_app_fw.Requests.Messages.{list_type, request_type, wire_entry}
use iot_app_fw.Requests.Delivery.{Started, info_of, list_running-extracted}
use iot_app_fw.Requests.Conserved.{waiting}
use iot_app_fw.Requests.Once.{Reachable, Reachable-Conserved}

-- Every call that a request makes succeeds.
abbrev pub all_granted : Answers
all_granted = record { connects = true; prepared = true; made = true; granted = true; sends = true }

abbrev listing_of : Library → Pending
listing_of l = record { seqno = l.seqno; body = lists true; called = true }

abbrev pub asked : Library → Library
asked l = record l {
  connected = true;
  seqno = l.seqno + 1;
  pendq = l.pendq ++ listing_of l ∷ [];
  sent = l.sent ++ l.seqno ∷ [];
}

app_list-asked : (l : Library) → app_list all_granted true true l ≡ (some l.seqno, asked l)
unfolding app_list connect_and transport_connect request pending_enq
app_list-asked l = at l.connected
  where
    at :
        (b : Bool)
        → app_list all_granted true true (record l { connected = b }) ≡ (some l.seqno, asked l)
    at true = refl
    at false = refl

same_number : (n k : ℕ) → n ≡ k → (n == k) ≡ true
same_number n k e = ground (arith, e)

-- Requests that a reply is not for stay, and the last one is completed.
notify_from-last :
    (left k st : ℕ) (w : Option (List (Option Wire))) (ps : List Pending) (p : Pending) (d : Done)
    (t : ℕ)
    → waiting k ps ≡ 0
    → p.seqno ≡ k
    → finish_body left p.body p st w ≡ some (d, t)
    → notify_from left (some k) st w (ps ++ p ∷ []) ≡ notified ps (d ∷ [])
unfolding notify_from
notify_from-last left k st w [] p d t z e f =
    ap
      (λ b. if not b then keep p (notified [] []) else elim (finish_body left p.body p st w) [
        | none ↦ Notified.undefined
        | some (x, y) ↦ add_done x (notified [] [])
      ])
      (same_number p.seqno k e)
    ∙ ap (λ o. elim o [ none ↦ Notified.undefined | some (x, y) ↦ add_done x (notified [] []) ]) f
notify_from-last left k st w (q ∷ ps) p d t z e f =
    at (q.seqno == k) refl (notify_from-last left k st w ps p d t)
  where
    at :
        (b : Bool)
        → (q.seqno == k) ≡ b
        → (waiting k ps ≡ 0
            → p.seqno ≡ k
            → finish_body left p.body p st w ≡ some (d, t)
            → notify_from left (some k) st w (ps ++ p ∷ []) ≡ notified ps (d ∷ []))
        → (if not b
            then keep q (notify_from left (some k) st w (ps ++ p ∷ []))
            else elim (finish_body left q.body q st w) [
              | none ↦ Notified.undefined
              | some (x, y) ↦ add_done x (notify_from left (some k) y w (ps ++ p ∷ []))
            ])
          ≡ notified (q ∷ ps) (d ∷ [])
    at true g h = absurd (ground (arith, z, g))
    at false g h = ap (keep q) (h (ground (arith, z, g)) e f)

-- A completed "list" request: what its callback was called with.
abbrev pub shown : ℕ → List Entry → Done
shown k es = record { seqno = k; called = true; status = 0; infos = map info_of es }

finish_body-extracted :
    (left k : ℕ) (p : Pending) (w : Option (List (Option Wire))) (es : List Entry)
    → p.called ≡ true
    → p.seqno ≡ k
    → extract_applist left w ≡ extracted (map info_of es)
    → finish_body left (lists true) p 0 w ≡ some (shown k es, 0)
unfolding finish_body finish_list
finish_body-extracted left k p w es c e x =
    ap (λ b. if not b then none else finish_list p (extract_applist left w)) c
    ∙ ap (finish_list p) x
    ∙ ap (λ b. some (record { seqno = p.seqno; called = b; status = 0; infos = map info_of es }, 0))
        c
    ∙ ap (λ n. some (shown n es, 0)) e

recv_cb-shown :
    (left : ℕ) (l : Library) (w : Option (List (Option Wire))) (es : List Entry)
    → Reachable l
    → extract_applist left w ≡ extracted (map info_of es)
    → recv_cb left (status (some l.seqno) 0 w) (asked l)
      ≡ some (record (asked l) { pendq = l.pendq; done = l.done ++ shown l.seqno es ∷ [] })
unfolding recv_cb pending_notify
recv_cb-shown left l w es r x = ap (notified_to (asked l)) (
    notify_from-last left l.seqno 0 w l.pendq (listing_of l) (shown l.seqno es) 0 nothing refl
      (finish_body-extracted left l.seqno (listing_of l) w es refl refl x))
  where
    nothing : waiting l.seqno l.pendq ≡ 0
    nothing =
        let c = Reachable-Conserved l r in
        omega (arith, c.balanced l.seqno, c.new l.seqno (omega arith))

-- The launcher's answer to a "list" request for the running applications.
lnc_recv-listed :
    (h : Host) (c : Client) (k : ℕ) (o : Object) (w : World) (es : List Entry)
    → o.which ≡ some (list_type true)
    → is_allowed (privilege_check h.security c.label c.uid list_apps_privilege) ≡ true
    → h.made ≡ true
    → list_running h.listing c w.daemon.apps ≡ listed es
    → lnc_recv h c
        (record { type = some (request_type (lists true)); seqno = some (pos k); object = some o })
        w
      ≡ some (record w { out = replies c.conn (pos k) (applications es) ∷ w.out })
unfolding lnc_recv handle_with request_handler call of_listing reply_with application_list list_type
    request_type
lnc_recv-listed h c k o w es q a m l =
    ap
      (λ x.
        reply_with h c (pos k)
          (of_listing w (application_list h.security h.listing h.cache w.daemon.apps c x)))
      q
    ∙ ap
        (λ b. reply_with h c (pos k) (
          of_listing w
            (if b then list_running h.listing c w.daemon.apps else Listing.refused Errno.eperm)))
        a
    ∙ ap (λ x. reply_with h c (pos k) (of_listing w x)) l
    ∙ ap
        (λ b.
          if b
          then some (record w { out = replies c.conn (pos k) (applications es) ∷ w.out })
          else some w)
        m

-- An application in any state that can be reached asks for the running applications, where the calls of
-- the library succeed, the launcher lets the client see the list and can make it and the reply, and
-- every tracked application has an argument. Then the request has the library's next number; the
-- launcher sends this client one reply, with that number and the entries of the list; and when the
-- library gets that reply, it calls the callback of this request with status 0 and exactly the
-- applications that the launcher listed, and the requests that were pending before are pending still.
pub app_list-shown :
    (left : ℕ) (l : Library) (h : Host) (c : Client) (o : Object) (w : World) (es : List Entry)
    → Reachable l
    → o.which ≡ some (list_type true)
    → is_allowed (privilege_check h.security c.label c.uid list_apps_privilege) ≡ true
    → h.made ≡ true
    → Started w.daemon.apps
    → list_running h.listing c w.daemon.apps ≡ listed es
    → (app_list all_granted true true l ≡ (some l.seqno, asked l))
      × (lnc_recv h c
            (record {
              type = some (request_type (lists true));
              seqno = some (pos l.seqno);
              object = some o;
            })
            w
          ≡ some (record w { out = replies c.conn (pos l.seqno) (applications es) ∷ w.out }))
      × (recv_cb left (status (some l.seqno) 0 (some (map wire_entry es))) (asked l)
          ≡ some (record (asked l) { pendq = l.pendq; done = l.done ++ shown l.seqno es ∷ [] }))
app_list-shown left l h c o w es r q a m s e = (
  app_list-asked l,
  lnc_recv-listed h c l.seqno o w es q a m e,
  recv_cb-shown left l (some (map wire_entry es)) es r
      (list_running-extracted left h.listing c w.daemon.apps es s e),
)
