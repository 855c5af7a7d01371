-- ===== src/Requests/Once.antt =====
-- The states that the calls of an application and the messages to it lead the library of src/app/app.c
-- to, and what becomes of its requests there.
use mathlib.Core.Path.{subst}
use iot_app_fw.Common.{
  ℕ, ◌+◌, ◌≤◌, ◌≡◌, refl, Bool, true, false, Option, none, some, List, [], ◌∷◌, ◌++◌, Bytes, codes,
  ◌==◌, not, if◌then◌else◌, arith, eq_of_some,
}
use iot_app_fw.Requests.{
  Body, subscribes, sends, lists, Library, Answers, created, set_handler, transport_connect,
  pending_enq, request, connect_and, iot_app_event_subscribe, iot_app_event_send, app_list, Target,
}
use iot_app_fw.Requests.Replies.{
  Wire, enotconn, Notified, notified, undefined, notify_from, notified_to, pending_notify,
  disconnected, closed_cb, Message, status, event, ignored, call_event, recv_cb, SystemSignal,
  sighup, sigterm, another, bridge_signal,
}
use iot_app_fw.Requests.Conserved.{
  count, waiting, completed, count-append, completed-append, waiting-append, Splits,
  notify_from-Splits,
}

-- Each request that was sent has a number of its own, and is pending or was completed, once.
pub record Conserved (l : Library) : Type 0 where
  pub balanced : (s : ℕ) → count s l.sent ≡ waiting s l.pendq + completed s l.done
  pub unique : (s : ℕ) → count s l.sent ≤ 1
  pub new : (s : ℕ) → l.seqno ≤ s → count s l.sent ≡ 0

pub created-Conserved : Conserved created
created-Conserved = record {
  balanced = λ s. omega arith;
  unique = λ s. omega arith;
  new = λ s h. refl;
}

-- A number is given away, and not used.
skipped : (l : Library) → Conserved l → Conserved (record l { seqno = l.seqno + 1 })
skipped l c = record {
  balanced = c.balanced;
  unique = c.unique;
  new = λ s h. c.new s (omega (arith, h));
}

abbrev appended : (l : Library) → Body → Bool → Library
appended l body called = record l {
  seqno = l.seqno + 1;
  pendq = l.pendq ++ record { seqno = l.seqno; body = body; called = called } ∷ [];
  sent = l.sent ++ l.seqno ∷ [];
}

appended-Conserved :
    (l : Library) (body : Body) (called : Bool) → Conserved l → Conserved (appended l body called)
appended-Conserved l body called c = record {
  balanced = λ s. omega (
    arith,
    count-append s l.sent (l.seqno ∷ []),
    c.balanced s,
    waiting-append s l.pendq (record { seqno = l.seqno; body = body; called = called } ∷ []),
  );
  unique = λ s. at s (l.seqno == s) refl;
  new = λ s h. new s h (l.seqno == s) refl;
}
  where
    at : (s : ℕ) (b : Bool) → (l.seqno == s) ≡ b → count s (l.sent ++ l.seqno ∷ []) ≤ 1
    at s b e = ground (arith, count-append s l.sent (l.seqno ∷ []), c.unique s, c.new s)

    new :
        (s : ℕ)
        → l.seqno + 1 ≤ s
        → (b : Bool) → (l.seqno == s) ≡ b
        → count s (l.sent ++ l.seqno ∷ []) ≡ 0
    new s h b e = ground (arith, count-append s l.sent (l.seqno ∷ []), c.new s)

Keeps-if : {A : Type 0} (P : A → Type 0) (b : Bool) (x y : A) → P x → P y → P (if b then x else y)
Keeps-if P true x y hx hy = hx
Keeps-if P false x y hx hy = hy

request-Conserved :
    (w : Answers) (body : Body) (called : Bool) (l : Library)
    → Conserved l
    → Conserved (request w body called l).1
unfolding request pending_enq
request-Conserved w body called l h = at w.prepared w.made w.granted w.sends
  where
    at :
        (p m g s : Bool)
        → Conserved
            (request (record w { prepared = p; made = m; granted = g; sends = s }) body called l).1
    at false m g s = h
    at true false g s = skipped l h
    at true true false s = skipped l h
    at true true true false = skipped l h
    at true true true true = appended-Conserved l body called h

connect_and-Conserved :
    (w : Answers) (body : Body) (called : Bool) (l : Library)
    → Conserved l
    → Conserved (connect_and w body called l).1
unfolding connect_and transport_connect
connect_and-Conserved w body called l h = at l.connected w.connects
  where
    connected : (b : Bool) → Conserved (record l { connected = b })
    connected b = record { balanced = h.balanced; unique = h.unique; new = h.new }

    at :
        (b k : Bool)
        → Conserved
            (connect_and (record w { connects = k }) body called (record l { connected = b })).1
    at true k =
        request-Conserved (record w { connects = k }) body called (record l { connected = true })
          (connected true)
    at false true =
        request-Conserved (record w { connects = true }) body called (record l { connected = true })
          (connected true)
    at false false = connected false

pending_notify-Conserved :
    (left : ℕ) (k : Option ℕ) (st : ℕ) (w : Option (List (Option Wire))) (l l' : Library)
    → Conserved l
    → pending_notify left k st w l ≡ some l'
    → Conserved l'
unfolding pending_notify
pending_notify-Conserved left k st w l l' h =
    at (notify_from left k st w l.pendq) (notify_from-Splits left k st w l.pendq)
  where
    at : (n : Notified) → Splits k l.pendq n → notified_to l n ≡ some l' → Conserved l'
    at undefined s e = absurd (cc)
    at (notified ps ds) (o, s) e = subst Conserved (eq_of_some e) (record {
      balanced = λ i. omega (arith, h.balanced i, s i, completed-append i l.done ds);
      unique = h.unique;
      new = h.new;
    })

call_event-Conserved :
    (name : Bytes) (l l' : Library) → Conserved l → call_event name l ≡ some l' → Conserved l'
unfolding call_event
call_event-Conserved name l l' h = at l.listens
  where
    at :
        (b : Bool)
        → (if b then some (record l { seen = l.seen ++ name ∷ [] }) else none) ≡ some l'
        → Conserved l'
    at true e =
        subst Conserved (eq_of_some e)
          (record { balanced = h.balanced; unique = h.unique; new = h.new })
    at false e = absurd (cc)

recv_cb-Conserved :
    (left : ℕ) (m : Message) (l l' : Library)
    → Conserved l
    → recv_cb left m l ≡ some l'
    → Conserved l'
unfolding recv_cb
recv_cb-Conserved left (status k st w) l l' h e = pending_notify-Conserved left k st w l l' h e
recv_cb-Conserved left (event name) l l' h e = call_event-Conserved name l l' h e
recv_cb-Conserved left ignored l l' h e = subst Conserved (eq_of_some e) h

bridge_signal-Conserved :
    (s : SystemSignal) (l l' : Library) → Conserved l → bridge_signal s l ≡ some l' → Conserved l'
unfolding bridge_signal
bridge_signal-Conserved sighup l l' h e = call_event-Conserved (codes "system::reload") l l' h e
bridge_signal-Conserved sigterm l l' h e = call_event-Conserved (codes "system::terminate") l l' h e
bridge_signal-Conserved another l l' h e = subst Conserved (eq_of_some e) h

disconnected-Conserved :
    (o : Option Library) (l' : Library)
    → ((m : Library) → o ≡ some m → Conserved m)
    → disconnected o ≡ some l'
    → Conserved l'
disconnected-Conserved none l' h e = absurd (cc)
disconnected-Conserved (some m) l' h e =
    let c : Conserved m = h m refl in
    subst Conserved (eq_of_some e)
      (record { balanced = c.balanced; unique = c.unique; new = c.new })

closed_cb-Conserved :
    (left error : ℕ) (l l' : Library)
    → Conserved l
    → closed_cb left error l ≡ some l'
    → Conserved l'
unfolding closed_cb
closed_cb-Conserved left error l l' h e =
    let st : ℕ = if error == 0 then enotconn else error in
    disconnected-Conserved (pending_notify left none st none l) l'
      (λ m q. pending_notify-Conserved left none st none l m h q) e

-- One call of the application, or one event of the main loop.
pub data Step : Library → Library → Type 0 where
  handles : (l : Library) (listens : Bool) → Step l (set_handler listens l)
  subscribing :
      (l : Library) (w : Answers) (es : List Bytes) (called : Bool)
      → Step l (iot_app_event_subscribe w es called l).1
  sending :
      (l : Library) (w : Answers) (e d : Option Bytes) (t : Option Target) (called : Bool)
      → Step l (iot_app_event_send w e d t called l).1
  listing :
      (l : Library) (w : Answers) (running called : Bool) → Step l (app_list w running called l).1
  receives : (l l' : Library) (left : ℕ) (m : Message) → recv_cb left m l ≡ some l' → Step l l'
  signalled : (l l' : Library) (s : SystemSignal) → bridge_signal s l ≡ some l' → Step l l'
  closes : (l l' : Library) (left error : ℕ) → closed_cb left error l ≡ some l' → Step l l'

pub data Reachable : Library → Type 0 where
  started : Reachable created
  stepped : (l l' : Library) → Reachable l → Step l l' → Reachable l'

iot_app_event_send-Conserved :
    (w : Answers) (e d : Option Bytes) (t : Option Target) (called : Bool) (l : Library)
    → Conserved l
    → Conserved (iot_app_event_send w e d t called l).1
unfolding iot_app_event_send
iot_app_event_send-Conserved w none d t called l h = h
iot_app_event_send-Conserved w (some []) d t called l h = h
iot_app_event_send-Conserved w (some (c ∷ n)) d none called l h = h
iot_app_event_send-Conserved w (some (c ∷ n)) d (some t) called l h =
    connect_and-Conserved w (sends (c ∷ n) d t) called l h

iot_app_event_subscribe-Conserved :
    (w : Answers) (es : List Bytes) (called : Bool) (l : Library)
    → Conserved l
    → Conserved (iot_app_event_subscribe w es called l).1
unfolding iot_app_event_subscribe
iot_app_event_subscribe-Conserved w es called l h =
    Keeps-if (λ (r : Option ℕ × Library). Conserved r.1) (not l.listens) (none, l)
      (connect_and w (subscribes es) called l) h
      (connect_and-Conserved w (subscribes es) called l h)

Step-Conserved : (l l' : Library) → Step l l' → Conserved l → Conserved l'
unfolding set_handler app_list
Step-Conserved l _ (handles _ b) h = record {
  balanced = h.balanced;
  unique = h.unique;
  new = h.new;
}
Step-Conserved l _ (subscribing _ w es called) h = iot_app_event_subscribe-Conserved w es called l h
Step-Conserved l _ (sending _ w e d t called) h = iot_app_event_send-Conserved w e d t called l h
Step-Conserved l _ (listing _ w running called) h =
    connect_and-Conserved w (lists running) called l h
Step-Conserved l l' (receives _ _ left m e) h = recv_cb-Conserved left m l l' h e
Step-Conserved l l' (signalled _ _ s e) h = bridge_signal-Conserved s l l' h e
Step-Conserved l l' (closes _ _ left error e) h = closed_cb-Conserved left error l l' h e

-- In every state that calls of an application and events of its main loop lead to, no two requests
-- that were sent have the same number, and each of them is either pending or was completed, and once.
pub Reachable-Conserved : (l : Library) → Reachable l → Conserved l
Reachable-Conserved _ started = created-Conserved
Reachable-Conserved _ (stepped l l' r s) = Step-Conserved l l' s (Reachable-Conserved l r)
