-- ===== src/Transport/Life.antt =====
-- The life of a transport of src/common/transport.c under calls that call back.
use iot_app_fw.Common.{
  ℕ, zero, suc, ◌<◌, ◌≡◌, ◌≢◌, refl, ap, ◌∙◌, Bool, true, false, none, some, if◌then◌else◌, not,
  ◌&&◌, arith,
}
use iot_app_fw.Transport.{
  Requests, Transport, purge_destroyed, purge_after, without_purge, busy_section, set_connected,
  set_listened, unchanged, Message, sendable, Call, Calls, destroy, disconnect, connect, listen,
  send, recv_data, check_destroy, done, next, Body, and_then, ignore_result, destroy_with,
  disconnect_with, connect_with, listen_with, send_with, Delivery, delivers, ignores, refuses,
  crashes, delivery, deliver_with, recv_with, run, run_calls,
}
use iot_app_fw.Transport.Sections.{
  Kept, Keeps, set_connected-Harmless, set_listened-Harmless, unchanged-Harmless, busy_section-Kept,
  Ends, IsOwned, Returns, purge_destroyed-Returns, section-Returns, stays-Returns, either, passes,
}

-- The callbacks without which a transport that is destroyed, disconnected or connected crashes, and
-- those for data.
pub record IsComplete (d : Requests) (recv recvfrom : Bool) : Type 0 where
  pub connects : d.connect ≡ true
  pub disconnects : d.disconnect ≡ true
  pub closes : d.close ≡ true
  pub receives : recv ≡ true
  pub receives_from : recvfrom ≡ true

never_crashes :
    (recv recvfrom : Bool) (t : Transport)
    → recv ≡ true
    → recvfrom ≡ true
    → delivery recv recvfrom t ≢ crashes
unfolding delivery
never_crashes recv recvfrom t e f g = ground arith

-- whether a call ends with the purge
abbrev pub purges : Call → Bool
purges (destroy a b) = true
purges (disconnect a ok) = true
purges (connect a ok) = true
purges (listen a ok) = true
purges (send m a ok) = true
purges (recv_data a) = false
purges check_destroy = true

used : (n : ℕ) → (n ≡ 0 → false ≡ true) → 0 < n
used zero h = absurd (false-ne-true (h refl))
  where
    false-ne-true : false ≢ true
    false-ne-true e = cc
used (suc n) h = omega arith

started :
    (result : Bool) (t : Transport) (k : Body) → and_then (ignore_result (some (result, t))) k ≡ k t
unfolding and_then ignore_result
started result t k = refl

module _ (d : Requests) (recv recvfrom : Bool) (complete : IsComplete d recv recvfrom) where
  and_then-Keeps : (a b : Body) → Keeps a → Keeps b → Keeps (λ t. and_then (a t) b)
  unfolding and_then
  and_then-Keeps a b p q t live used =
      let (t1, ran, kept) = p t live used in
      let (t2, ran2, kept2) = q t1 kept.live (omega (arith, kept.busy)) in
      (
        t2,
        ap (λ o. and_then o b) ran ∙ ran2,
        record { live = kept2.live; busy = kept2.busy ∙ kept.busy },
      )

  destroy_with-Returns :
      (a b : Body) (t : Transport)
      → Keeps a
      → Keeps b
      → t.freed ≡ false
      → Returns (destroy_with d a b t) t
  unfolding destroy_with
  destroy_with-Returns a b t p q live = passes t.freed _ t live (
      ready
        (section-Returns true both unchanged t' (and_then-Keeps a b p q) unchanged-Harmless live))
    where
      t' : Transport
      t' = record t { destroyed = true }

      both : Body
      both = λ t. and_then (a t) b

      ready :
          Returns (purge_after true (busy_section both unchanged t')) t'
          → Returns
              (if not (d.disconnect && d.close)
                then none
                else purge_after true (busy_section both unchanged t'))
              t
      ready (result, t2, ran, ends) = (
        result,
        t2,
        ap
              (λ b.
                if not (b && d.close)
                then none
                else purge_after true (busy_section both unchanged t'))
              complete.disconnects
            ∙ ap (λ b. if not b then none else purge_after true (busy_section both unchanged t'))
                complete.closes
            ∙ ran,
        record { busy = ends.busy; in_use = ends.in_use; idle = ends.idle },
      )

  disconnect_with-Returns :
      (a : Body) (ok : Bool) (t : Transport)
      → Keeps a
      → IsOwned t
      → Returns (disconnect_with d a ok t) t
  unfolding disconnect_with
  disconnect_with-Returns a ok t p o = passes t.freed _ t o.live (
      either (λ r. Returns r t) (not t.connected) _ _ (λ e. stays-Returns false t o)
        (λ e. passes (not d.disconnect) _ t (ap not complete.disconnects) (
          section-Returns true a (set_connected false ok) t p (set_connected-Harmless false ok)
            o.live)))

  connect_with-Returns :
      (a : Body) (ok : Bool) (t : Transport)
      → Keeps a
      → IsOwned t
      → Returns (connect_with d recv a ok t) t
  unfolding connect_with
  connect_with-Returns a ok t p o = passes t.freed _ t o.live (
      either (λ r. Returns r t) t.connected _ _ (λ e. stays-Returns false t o)
        (λ e.
          either (λ r. Returns r t) (not recv) _ _ (λ e. stays-Returns false t o)
            (λ e. passes (not d.connect) _ t (ap not complete.connects) (
              section-Returns ok a (set_connected true ok) t p (set_connected-Harmless true ok)
                o.live))))

  listen_with-Returns :
      (a : Body) (ok : Bool) (t : Transport)
      → Keeps a
      → IsOwned t
      → Returns (listen_with d a ok t) t
  unfolding listen_with
  listen_with-Returns a ok t p o = passes t.freed _ t o.live (
      either (λ r. Returns r t) (not d.listen) _ _ (λ e. stays-Returns false t o)
        (λ e. section-Returns ok a (set_listened ok) t p (set_listened-Harmless ok) o.live))

  send_with-Returns :
      (m : Message) (a : Body) (ok : Bool) (t : Transport)
      → Keeps a
      → IsOwned t
      → Returns (send_with d m a ok t) t
  unfolding send_with
  send_with-Returns m a ok t p o = passes t.freed _ t o.live (
      either (λ r. Returns r t) (not (sendable d m t)) _ _ (λ e. stays-Returns false t o)
        (λ e. section-Returns ok a unchanged t p unchanged-Harmless o.live))

  in_use-Ends : (t t' : Transport) → 0 < t.busy → Kept t t' → Ends t t'
  in_use-Ends t t' h k = record {
    busy = k.busy;
    in_use = λ _. k.live;
    idle = λ e. absurd (omega arith);
  }

  deliver_with-Kept :
      (x : Delivery) (a : Body) (t : Transport)
      → x ≢ crashes
      → Keeps a
      → t.freed ≡ false
      → (result : Bool) × (t' : Transport) × (deliver_with x a t ≡ some (result, t')) × Kept t t'
  unfolding deliver_with without_purge
  deliver_with-Kept delivers a t n p live =
      let (t1, ran, kept) = busy_section-Kept a unchanged p unchanged-Harmless t live in
      (true, t1, ap (without_purge true) ran, kept)
  deliver_with-Kept ignores a t n p live = (true, t, refl, record { live = live; busy = refl })
  deliver_with-Kept refuses a t n p live = (false, t, refl, record { live = live; busy = refl })
  deliver_with-Kept crashes a t n p live = absurd (n refl)

  recv_with-Kept :
      (a : Body) (t : Transport)
      → Keeps a
      → t.freed ≡ false
      → (result : Bool) × (t' : Transport) × (recv_with recv recvfrom a t ≡ some (result, t'))
        × Kept t t'
  unfolding recv_with
  recv_with-Kept a t p live =
      let (result, t', ran, kept) =
        deliver_with-Kept (delivery recv recvfrom t) a t
          (never_crashes recv recvfrom t complete.receives complete.receives_from) p live in
      (
        result,
        t',
        ap (λ b. if b then none else deliver_with (delivery recv recvfrom t) a t) live ∙ ran,
        kept,
      )

  recv_with-Returns :
      (a : Body) (t : Transport)
      → Keeps a
      → t.freed ≡ false
      → 0 < t.busy
      → Returns (recv_with recv recvfrom a t) t
  recv_with-Returns a t p live h =
      let (result, t', ran, kept) = recv_with-Kept a t p live in
      (result, t', ran, in_use-Ends t t' h kept)

  mutual
    unfolding run run_calls

    run-Returns :
        (c : Call) (t : Transport)
        → IsOwned t
        → (t.busy ≡ 0 → purges c ≡ true)
        → Returns (run d recv recvfrom c t) t
    run-Returns (destroy a b) t o h =
        destroy_with-Returns (run_calls d recv recvfrom a) (run_calls d recv recvfrom b) t
          (run_calls-Keeps a) (run_calls-Keeps b) o.live
    run-Returns (disconnect a ok) t o h =
        disconnect_with-Returns (run_calls d recv recvfrom a) ok t (run_calls-Keeps a) o
    run-Returns (connect a ok) t o h =
        connect_with-Returns (run_calls d recv recvfrom a) ok t (run_calls-Keeps a) o
    run-Returns (listen a ok) t o h =
        listen_with-Returns (run_calls d recv recvfrom a) ok t (run_calls-Keeps a) o
    run-Returns (send m a ok) t o h =
        send_with-Returns m (run_calls d recv recvfrom a) ok t (run_calls-Keeps a) o
    run-Returns (recv_data a) t o h =
        recv_with-Returns (run_calls d recv recvfrom a) t (run_calls-Keeps a) o.live (used t.busy h)
    run-Returns check_destroy t o h = purge_destroyed-Returns t o.live

    run_calls-Keeps :
        (cs : Calls) (t : Transport)
        → t.freed ≡ false
        → 0 < t.busy
        → (t' : Transport) × (run_calls d recv recvfrom cs t ≡ some t') × Kept t t'
    run_calls-Keeps done t live h = (t, refl, record { live = live; busy = refl })
    run_calls-Keeps (next c cs) t live h =
        let (result, t1, ran, ends) =
          run-Returns c t (record { live = live; wanted = λ e. absurd (omega arith) })
            (λ e. absurd (omega arith)) in
        let (t2, ran2, kept) = run_calls-Keeps cs t1 (ends.in_use h) (omega (arith, ends.busy)) in
        (
          t2,
          ap (λ o. and_then (ignore_result o) (run_calls d recv recvfrom cs)) ran
              ∙ started result t1 (run_calls d recv recvfrom cs)
              ∙ ran2,
          record { live = kept.live; busy = kept.busy ∙ ends.busy },
        )

  -- While a transport is in use, no calls on it free it or reach freed memory, however they call
  -- back into one another, and at the end it is used as often as before. Its type and its owner
  -- give all callbacks.
  pub in_use-run_calls :
      (cs : Calls) (t : Transport)
      → t.freed ≡ false
      → 0 < t.busy
      → (t' : Transport) × (run_calls d recv recvfrom cs t ≡ some t')
        × (t'.freed ≡ false)
        × (t'.busy ≡ t.busy)
  in_use-run_calls cs t live h =
      let (t', ran, kept) = run_calls-Keeps cs t live h in (t', ran, kept.live, kept.busy)

  -- When data arrives for a transport that is not in use, `recv_data` and the `check_destroy` that
  -- follows it never reach freed memory, whatever calls the receiver makes; they leave the transport
  -- unused, and freed exactly if it is destroyed. Its type and its owner give all callbacks.
  pub idle-received :
      (cs : Calls) (t : Transport)
      → t.freed ≡ false
      → t.busy ≡ 0
      → (t' : Transport) × (run_calls d recv recvfrom
            (next (recv_data cs) (next check_destroy done))
            t
          ≡ some t')
        × (t'.busy ≡ 0)
        × (t'.freed ≡ t'.destroyed)
  unfolding run run_calls and_then ignore_result
  idle-received cs t live h =
      let (r1, t1, ran1, kept) =
        recv_with-Kept (run_calls d recv recvfrom cs) t (run_calls-Keeps cs) live in
      let (r2, t2, ran2, ends) = purge_destroyed-Returns t1 kept.live in
      (
        t2,
        ap
              (λ o.
                and_then (ignore_result o) (λ t. and_then (ignore_result (purge_destroyed t)) some))
              ran1
            ∙ ap (λ o. and_then (ignore_result o) some) ran2,
        ends.busy ∙ kept.busy ∙ h,
        ends.idle (kept.busy ∙ h),
      )
