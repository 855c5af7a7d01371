-- ===== src/Requests/Completed.antt =====
-- What a reply and the end of the connection do to the pending requests of src/app/app.c.
use mathlib.Core.Path.{subst}
use iot_app_fw.Common.{
  ℕ, ◌+◌, ◌≡◌, ◌≢◌, refl, sym, ap, ◌∙◌, Bool, true, false, Option, none, some, List, [], ◌∷◌, ◌++◌,
  ◌⊎◌, ◌==◌, not, if◌then◌else◌, All, arith, inl, inr, eq_of_some,
}
use iot_app_fw.Requests.{Body, subscribes, sends, lists, Pending, Done, Library}
use iot_app_fw.Requests.Replies.{
  Wire, Extracted, extracted, invalid, unset, extract_applist, enotconn, finish_with, finish_list,
  finish_body, is_for, Notified, notified, undefined, keep, add_done, notify_from, notified_to,
  pending_notify, disconnected, closed_cb, status, recv_cb,
}
use iot_app_fw.Requests.Conserved.{
  count, waiting, completed, completed-append, others, Splits, notify_from-Splits,
}
use iot_app_fw.Requests.Once.{Conserved, Reachable, Reachable-Conserved}

-- A "list" request has a callback.
abbrev pub Answerable : Body → Bool → Type 0
Answerable (subscribes es) called = Unit
Answerable (sends e d t) called = Unit
Answerable (lists running) called = called ≡ true

abbrev pub Callable : List Pending → Type 0
Callable = All (λ p. Answerable p.body p.called)

-- No list is extracted, or the one that came can be.
abbrev pub Readable : (left st : ℕ) → Option (List (Option Wire)) → Type 0
Readable left st w = ((st == 0) ≡ false) ⊎ (extract_applist left w ≢ unset)

-- A request is completed, and the loop can go on.
abbrev Finishes : ℕ → Option (List (Option Wire)) → Option (Done × ℕ) → Type 0
Finishes left w o = (d : Done) × (t : ℕ) × (o ≡ some (d, t)) × Readable left t w

finish_list-Finishes :
    (left : ℕ) (p : Pending) (w : Option (List (Option Wire))) (x : Extracted)
    → extract_applist left w ≡ x
    → x ≢ unset
    → Finishes left w (finish_list p x)
unfolding finish_list
finish_list-Finishes left p w (extracted is) e h = (_, _, refl, inr (λ q. h (sym e ∙ q)))
finish_list-Finishes left p w (invalid n) e h = (_, _, refl, inr (λ q. h (sym e ∙ q)))
finish_list-Finishes left p w unset e h = absurd (h refl)

finish_body-Finishes :
    (left : ℕ) (b : Body) (p : Pending) (st : ℕ) (w : Option (List (Option Wire)))
    → Answerable b p.called
    → Readable left st w
    → Finishes left w (finish_body left b p st w)
unfolding finish_body
finish_body-Finishes left (subscribes es) p st w a r = (_, _, refl, r)
finish_body-Finishes left (sends e d t) p st w a r = (_, _, refl, r)
finish_body-Finishes left (lists running) p st w a r = at p.called a (st == 0) refl r
  where
    at :
        (c : Bool)
        → c ≡ true
        → (b : Bool) → (st == 0) ≡ b
        → Readable left st w
        → Finishes left w (
            if not c
            then none
            else if not b
            then finish_with p st []
            else finish_list p (extract_applist left w))
    at true h true e (inl n) = absurd (cc (sym e ∙ n))
    at true h true e (inr n) = finish_list-Finishes left p w (extract_applist left w) refl n
    at true h false e n = (_, _, refl, inl e)
    at false h b e n = absurd (cc)

-- The loop ends with the requests sorted.
abbrev Ends : Notified → Type 0
Ends n = (qs : List Pending) × (ds : List Done) × (n ≡ notified qs ds)

keep-Ends : (p : Pending) (n : Notified) → Ends n → Ends (keep p n)
keep-Ends p n (qs, ds, e) = (_, _, ap (keep p) e)

add_done-Ends : (d : Done) (n : Notified) → Ends n → Ends (add_done d n)
add_done-Ends d n (qs, ds, e) = (_, _, ap (add_done d) e)

notify_from-Ends :
    (left : ℕ) (k : Option ℕ) (st : ℕ) (w : Option (List (Option Wire))) (ps : List Pending)
    → Callable ps
    → Readable left st w
    → Ends (notify_from left k st w ps)
unfolding notify_from
notify_from-Ends left k st w [] c r = (_, _, refl)
notify_from-Ends left k st w (p ∷ ps) (a, c) r =
    at (λ t q. notify_from-Ends left k t w ps c q) (is_for k p.seqno)
  where
    go :
        ((t : ℕ) → Readable left t w → Ends (notify_from left k t w ps))
        → (o : Option (Done × ℕ)) → Finishes left w o
        → Ends (elim o [ none ↦ undefined | some (d, t) ↦ add_done d (notify_from left k t w ps) ])
    go h none (d, t, e, q) = absurd (cc)
    go h (some (d, t)) (d', t', e, q) =
        add_done-Ends d (notify_from left k t w ps)
          (h t (subst (λ x. Readable left x.1 w) (sym (eq_of_some e)) q))

    at :
        ((t : ℕ) → Readable left t w → Ends (notify_from left k t w ps))
        → (b : Bool)
        → Ends (
            if not b
            then keep p (notify_from left k st w ps)
            else elim (finish_body left p.body p st w) [
              | none ↦ undefined
              | some (d, t) ↦ add_done d (notify_from left k t w ps)
            ])
    at h true = go h (finish_body left p.body p st w) (finish_body-Finishes left p.body p st w a r)
    at h false = keep-Ends p (notify_from left k st w ps) (h st r)

-- What a reply for some requests leaves: the others are pending, and each of these is completed.
pub record Completes (k : Option ℕ) (l l' : Library) : Type 0 where
  pub pending : l'.pendq ≡ others k l.pendq
  pub kept : l'.sent ≡ l.sent
  pub moved :
      (s : ℕ) → waiting s l.pendq + completed s l.done ≡ waiting s l'.pendq + completed s l'.done

notified-Completes :
    (k : Option ℕ) (l : Library) (qs : List Pending) (ds : List Done)
    → Splits k l.pendq (notified qs ds)
    → Completes k l (record l { pendq = qs; done = l.done ++ ds })
notified-Completes k l qs ds (h, c) = record {
  pending = h;
  kept = refl;
  moved = λ s. omega (arith, c s, completed-append s l.done ds);
}

-- A call that returns.
abbrev pub Returns : Option ℕ → Library → Option Library → Type 0
Returns k l o = (l' : Library) × (o ≡ some l') × Completes k l l'

pub pending_notify-Returns :
    (left : ℕ) (k : Option ℕ) (st : ℕ) (w : Option (List (Option Wire))) (l : Library)
    → Callable l.pendq
    → Readable left st w
    → Returns k l (pending_notify left k st w l)
unfolding pending_notify
pending_notify-Returns left k st w l c r =
    let (qs, ds, e) = notify_from-Ends left k st w l.pendq c r in
    (
      _,
      ap (notified_to l) e,
      notified-Completes k l qs ds
          (subst (Splits k l.pendq) e (notify_from-Splits left k st w l.pendq)),
    )

waiting-others_same : (k : ℕ) (ps : List Pending) → waiting k (others (some k) ps) ≡ 0
waiting-others_same k [] = refl
waiting-others_same k (p ∷ ps) = at (p.seqno == k) refl (waiting-others_same k ps)
  where
    at :
        (b : Bool)
        → (p.seqno == k) ≡ b
        → waiting k (others (some k) ps) ≡ 0
        → waiting k (if b then others (some k) ps else p ∷ others (some k) ps) ≡ 0
    at true e h = h
    at false e h = ground (arith, e, h)

waiting-others_ne :
    (k s : ℕ) (ps : List Pending) → s ≢ k → waiting s (others (some k) ps) ≡ waiting s ps
waiting-others_ne k s [] n = refl
waiting-others_ne k s (p ∷ ps) n = at (p.seqno == k) refl (waiting-others_ne k s ps n)
  where
    at :
        (b : Bool)
        → (p.seqno == k) ≡ b
        → waiting s (others (some k) ps) ≡ waiting s ps
        → waiting s (if b then others (some k) ps else p ∷ others (some k) ps) ≡ waiting s (p ∷ ps)
    at true e h = ground (arith, e, h, n)
    at false e h = ground (arith, h)

others-all : (ps : List Pending) → others none ps ≡ []
others-all [] = refl
others-all (p ∷ ps) = others-all ps

-- A reply has been handled: the requests with another number are pending, in their order, and no more
-- of them are completed; the request with its number was completed as often as it was sent.
pub record Answered (k : ℕ) (l l' : Library) : Type 0 where
  pub pending : l'.pendq ≡ others (some k) l.pendq
  pub answered : completed k l'.done ≡ count k l.sent
  pub untouched : (s : ℕ) → s ≢ k → completed s l'.done ≡ completed s l.done

Answered-Completes :
    (k : ℕ) (l l' : Library) → Conserved l → Completes (some k) l l' → Answered k l l'
Answered-Completes k l l' h c = record {
  pending = c.pending;
  answered = omega (arith, h.balanced k, c.moved k, none_left);
  untouched = λ s n. omega (arith, c.moved s, left_alone s n);
}
  where
    none_left : waiting k l'.pendq ≡ 0
    none_left = ap (waiting k) c.pending ∙ waiting-others_same k l.pendq

    left_alone : (s : ℕ) → s ≢ k → waiting s l'.pendq ≡ waiting s l.pendq
    left_alone s n = ap (waiting s) c.pending ∙ waiting-others_ne k s l.pendq n

-- The library that a call returns, with a property.
abbrev pub Reaches : Option Library → (Library → Type 0) → Type 0
Reaches o P = (l' : Library) × (o ≡ some l') × P l'

-- In every state that can be reached, where each pending "list" request has a callback and the reply's
-- applications can be read (or its code is an error), the library handles a reply with the number `k`
-- without a fault: the requests with other numbers stay pending in their order and are not completed,
-- and the request with the number, if it was ever sent, has then been completed once.
pub recv_cb-Answered :
    (left k st : ℕ) (w : Option (List (Option Wire))) (l : Library)
    → Reachable l
    → Callable l.pendq
    → Readable left st w
    → Reaches (recv_cb left (status (some k) st w) l) (Answered k l)
unfolding recv_cb
recv_cb-Answered left k st w l h c r =
    let (l', e, d) = pending_notify-Returns left (some k) st w l c r in
    (l', e, Answered-Completes k l l' (Reachable-Conserved l h) d)

-- The connection is down: nothing is pending, and each request was completed as often as it was sent.
pub record Closed (l l' : Library) : Type 0 where
  pub down : l'.connected ≡ false
  pub drained : l'.pendq ≡ []
  pub finished : (s : ℕ) → completed s l'.done ≡ count s l.sent

-- In every state that can be reached, where each pending "list" request has a callback, the end of the
-- connection is handled without a fault: no request is pending then, and each request that was ever
-- sent has been completed, once.
pub closed_cb-Closed :
    (left error : ℕ) (l : Library)
    → Reachable l
    → Callable l.pendq
    → Reaches (closed_cb left error l) (Closed l)
unfolding closed_cb
closed_cb-Closed left error l h c =
    let st : ℕ = if error == 0 then enotconn else error in
    let (l', e, d) = pending_notify-Returns left none st none l c (inl (failing error)) in
    let empty : l'.pendq ≡ [] = d.pending ∙ others-all l.pendq in
    (
      record l' { connected = false },
      ap disconnected e,
      record {
        down = refl;
        drained = empty;
        finished = λ s.
            omega (arith, (Reachable-Conserved l h).balanced s, d.moved s, ap (waiting s) empty);
      },
    )
  where
    failing : (n : ℕ) → ((if n == 0 then enotconn else n) == 0) ≡ false
    failing n = ground arith
