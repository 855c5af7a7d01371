-- ===== src/Requests/Tests.antt =====
-- Runs of the application library, and the theorems on it at concrete data.
use mathlib.Core.Path.{subst}
use iot_app_fw.Common.{
  ℕ, pos, ◌≡◌, ◌≢◌, refl, sym, true, false, Option, none, some, List, [], ◌∷◌, ◌++◌, inr, Bytes,
  codes, map, replicate,
}
use iot_app_fw.Launcher.{Client, ok, no_uid}
use iot_app_fw.Mask.{Mask, test, bit_of}
use iot_app_fw.Manifest.{description, desktop_path, app_data, find_app}
use iot_app_fw.Manifest.Samples.{tools}
use iot_app_fw.Launcher.Privilege.{disabled, is_allowed, privilege_check, send_event_privilege}
use iot_app_fw.Launcher.Events.{
  Registry, found, event_lookup, event_id, event_id_at, add_event, find_name, message, event_route,
}
use iot_app_fw.Launcher.Apps.{App}
use iot_app_fw.Launcher.Apps.Listing.{Entry, listed, list_running, running_from, running_entry}
use iot_app_fw.Launcher.Privilege.{list_apps_privilege}
use iot_app_fw.Launcher.Dispatch.{Object, World, replies, applications, lnc_recv}
use iot_app_fw.Launcher.Dispatch.Samples.{host, nothing}
use iot_app_fw.Requests.Listed.{all_granted, asked, shown, app_list-shown}
use iot_app_fw.Requests.Messages.{list_type, request_type, send_payload, wire_entry}
use iot_app_fw.Requests.Delivery.{recipients, send_payload-recipients}
use iot_app_fw.Requests.{
  Answers, Pending, Library, created, lists, sends, Target, set_handler, transport_connect,
  pending_enq, request, connect_and, app_list, iot_app_event_send,
}
use iot_app_fw.Requests.Replies.{
  Wire, extract_from, extract_applist, extracted, invalid, unset, wire_fields, strings_of,
  extract_fields, extract_argv, closed_cb, recv_cb, event, call_event, status, einval,
}
use iot_app_fw.Requests.Once.{Conserved, Reachable, started, stepped, listing, Reachable-Conserved}
use iot_app_fw.Requests.Completed.{
  Callable, Answered, Reaches, Closed, recv_cb-Answered, closed_cb-Closed,
}

abbrev working : Answers
working = record { connects = true; prepared = true; made = true; granted = true; sends = true }

abbrev one_list : Library
one_list = (app_list working true true created).1

one_list-Reachable : Reachable one_list
one_list-Reachable = stepped created one_list started (listing created working true true)

numbered : (app_list working true true created).0 ≡ some 1
unfolding app_list connect_and transport_connect request pending_enq
numbered = refl

queued : one_list.pendq ≡ record { seqno = 1; body = lists true; called = true } ∷ []
unfolding app_list connect_and transport_connect request pending_enq
queued = refl

one_list-Callable : Callable one_list.pendq
one_list-Callable = subst Callable (sym queued) (refl, tt)

Reachable-Conserved_example : Conserved one_list
Reachable-Conserved_example = Reachable-Conserved one_list one_list-Reachable

nothing_listed : extract_applist 0 (some []) ≢ unset
unfolding extract_applist extract_from
nothing_listed = λ e. cc

recv_cb-Answered_example :
    Reaches (recv_cb 0 (status (some 1) 0 (some [])) one_list) (Answered 1 one_list)
recv_cb-Answered_example =
    recv_cb-Answered 0 1 0 (some []) one_list one_list-Reachable one_list-Callable
      (inr nothing_listed)

closed_cb-Closed_example : Reaches (closed_cb 0 5 one_list) (Closed one_list)
closed_cb-Closed_example = closed_cb-Closed 0 5 one_list one_list-Reachable one_list-Callable

abbrev wire : List (Option Bytes) → Option Wire
wire argv = some (record {
  app = some (codes "tools:clock");
  description = some [];
  desktop = some [];
  user = some 7;
  argv = some argv;
})

-- An application without arguments that is the last of a list makes the whole list fail, with the
-- `errno` that is left from before; and one that is not the last frees what nothing set.
no_arguments_last : extract_applist 0 (some (wire (some [] ∷ []) ∷ wire [] ∷ [])) ≡ invalid 0
unfolding extract_applist extract_from wire_fields strings_of extract_fields extract_argv
no_arguments_last = refl

no_arguments_first : extract_applist 0 (some (wire [] ∷ wire (some [] ∷ []) ∷ [])) ≡ unset
unfolding extract_applist extract_from wire_fields strings_of extract_fields extract_argv
no_arguments_first = refl

-- A NULL callback of a "list" request is called.
calls_null : closed_cb 0 5 (app_list working true false created).1 ≡ none
unfolding app_list connect_and transport_connect request pending_enq closed_cb
    iot_app_fw.Requests.Replies.pending_notify iot_app_fw.Requests.Replies.notify_from
    iot_app_fw.Requests.Replies.finish_body
calls_null = refl

-- An event for an application without an event callback calls NULL.
calls_null_event : recv_cb 0 (event (codes "boot")) created ≡ none
unfolding recv_cb call_event
calls_null_event = refl

abbrev boot : Bytes
boot = codes "boot"

abbrev one_event : Registry
one_event = record { events = record { name = boot; id = 0 } ∷ []; nevent = 1 }

lookup_boot : event_lookup boot one_event ≡ found 0
unfolding event_lookup event_id event_id_at add_event find_name
lookup_boot = refl

may_send : is_allowed (privilege_check disabled none 5 send_event_privilege) ≡ true
unfolding is_allowed privilege_check
may_send = refl

abbrev marked : Mask
marked = record {
  nbit = 64;
  fixed = false;
  inlined = false;
  words = (true ∷ replicate 63 false) ∷ [];
}

abbrev subscriber : ℕ → Client
subscriber k = record { conn = k; label = none; uid = 5; gid = 6; pid = k; mask = marked }

abbrev process_2 : Target
process_2 = record { label = none; appid = none; binary = none; user = no_uid; process = 2 }

abbrev clients : List Client
clients = subscriber 1 ∷ subscriber 2 ∷ []

abbrev note : Bytes
note = codes "{}"

only_2 : recipients 0 no_uid 2 clients ≡ subscriber 2 ∷ []
unfolding test bit_of
only_2 = refl

send_payload-recipients_example :
    event_route disabled true one_event clients
      (subscriber 1)
      (send_payload boot (some note) process_2)
    ≡ some (ok, map (λ x. message x boot note) (recipients 0 no_uid 2 clients))
send_payload-recipients_example =
    send_payload-recipients disabled one_event clients (subscriber 1) boot note process_2 0
      lookup_boot may_send

abbrev running : App
running = record {
  id = 1;
  manifest = tools;
  app = codes "clock";
  uid = 5;
  gid = 6;
  pid = 70;
  argv = codes "/bin/clock" ∷ [];
  cgrp = codes "user-5/clock-70";
  stop = none;
  killer = 0;
}

abbrev entry : Entry
entry = record {
  app = codes "tools:clock";
  description = codes "shows the time";
  desktop = [];
  user = 5;
  argv = codes "/bin/clock" ∷ [];
}

lists_clock : list_running (λ i. true) (subscriber 1) (running ∷ []) ≡ listed (entry ∷ [])
unfolding list_running running_from running_entry description desktop_path app_data find_app
lists_clock = refl

abbrev world : World
world = record {
  daemon = record { apps = running ∷ []; timers = []; fresh = 2; log = [] };
  registry = one_event;
  clients = clients;
  out = [];
}

abbrev asks_running : Object
asks_running = record nothing { which = some (codes "running") }

names_running : asks_running.which ≡ some (list_type true)
unfolding list_type
names_running = refl

may_list : is_allowed (privilege_check disabled none 5 list_apps_privilege) ≡ true
unfolding is_allowed privilege_check
may_list = refl

app_list-shown_example :
    (app_list all_granted true true one_list ≡ (some one_list.seqno, asked one_list))
    × (lnc_recv host
          (subscriber 1)
          (record {
            type = some (request_type (lists true));
            seqno = some (pos one_list.seqno);
            object = some asks_running;
          })
          world
        ≡ some (record world {
          out = replies 1 (pos one_list.seqno) (applications (entry ∷ [])) ∷ [];
        }))
    × (recv_cb 0
          (status (some one_list.seqno) 0 (some (map wire_entry (entry ∷ []))))
          (asked one_list)
        ≡ some (record (asked one_list) {
          pendq = one_list.pendq;
          done = one_list.done ++ shown one_list.seqno (entry ∷ []) ∷ [];
        }))
app_list-shown_example =
    app_list-shown 0 one_list host (subscriber 1) asks_running world (entry ∷ []) one_list-Reachable
      names_running may_list refl ((λ e. cc), tt) lists_clock
