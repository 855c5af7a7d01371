-- ===== src/Transport/Tests.antt =====
-- Runs of the transport core, and its theorems at concrete calls.
use iot_app_fw.Common.{ℕ, ◌≡◌, refl, true, false, some, [], ◌∷◌, codes, arith}
use iot_app_fw.Transport.{
  Requests, Transport, Calls, destroy, disconnect, send, recv_data, check_destroy, done, next, json,
  run, run_calls, and_then, ignore_result, destroy_with, send_with, recv_with, delivery,
  deliver_with, without_purge, purge_after, with_result, purge_destroyed, busy_section, leave,
  sendable,
}
use iot_app_fw.Transport.Life.{IsComplete, in_use-run_calls}
use iot_app_fw.Transport.Types.{
  Descr, register, find_transport, check_request_callbacks, Callbacks, create_from,
  create_type_from, opened, allocated, check_event_callbacks,
}

abbrev stream : Requests
stream = record {
  opens = true;
  close = true;
  bind = true;
  listen = true;
  accept = true;
  connect = true;
  disconnect = true;
  sendraw = true;
  sendjson = true;
  sendrawto = false;
  sendjsonto = false;
}

stream-IsComplete : IsComplete stream true true
stream-IsComplete = record {
  connects = refl;
  disconnects = refl;
  closes = refl;
  receives = refl;
  receives_from = refl;
}

abbrev fresh : ℕ → Transport
fresh busy = record {
  mode = 1;
  busy = busy;
  connected = true;
  listened = false;
  destroyed = false;
  freed = false;
}

-- a receiver that sends a reply and destroys the connection
abbrev replies : Calls
replies = next (send json done true) (next (destroy done done) done)

replied :
    run_calls stream true true (next (recv_data replies) (next check_destroy done)) (fresh 0)
    ≡ some (record (fresh 0) { destroyed = true; freed = true })
unfolding run_calls run and_then ignore_result destroy_with send_with recv_with delivery
    deliver_with without_purge purge_after with_result purge_destroyed busy_section leave sendable
replied = refl

in_use-run_calls_example :
    (t' : Transport) × (run_calls stream true true replies (fresh 2) ≡ some t')
    × (t'.freed ≡ false)
    × (t'.busy ≡ 2)
in_use-run_calls_example =
    in_use-run_calls stream true true stream-IsComplete replies (fresh 2) refl (omega arith)

abbrev strm : Descr
strm = record { id = 1; name = codes "unxs"; fits = true; req = stream }

registered : register strm [] ≡ (true, strm ∷ [])
unfolding register check_request_callbacks
registered = refl

abbrev callbacks : Callbacks
callbacks = record { connection = true; closed = true; recv = true; recvfrom = false }

abbrev connection : Transport
connection = record {
  mode = 1;
  busy = 0;
  connected = true;
  listened = false;
  destroyed = false;
  freed = false;
}

connected : create_from true true (strm ∷ []) (codes "unxs") callbacks 17 128 ≡ some connection
unfolding create_from create_type_from opened allocated check_event_callbacks find_transport
connected = refl
