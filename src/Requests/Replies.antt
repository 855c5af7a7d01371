-- ===== src/Requests/Replies.antt =====
-- src/app/app.c: what a message from the launcher, the end of the connection and a signal do to the
-- pending requests and the application.
use iot_app_fw.Common.{
  ℕ, Bool, true, false, Option, none, some, List, [], ◌∷◌, ◌++◌, Bytes, codes, ◌==◌, not,
  if◌then◌else◌,
}
use iot_app_fw.Requests.{Body, subscribes, sends, lists, Pending, Info, Done, Library}

-- An object of the reply to a "list" request: `none` for a field that is missing or of another type,
-- and for an argument that is not a string.
pub record Wire : Type 0 where
  pub app : Option Bytes
  pub description : Option Bytes
  pub desktop : Option Bytes
  pub user : Option ℕ
  pub argv : Option (List (Option Bytes))

pub record WireFields : Type 0 where
  pub app : Bytes
  pub description : Bytes
  pub desktop : Bytes
  pub user : ℕ
  pub argv : List (Option Bytes)

-- the test of the five fields
unfoldable pub wire_fields : Wire → Option WireFields
wire_fields w = elim w.app [
  | none ↦ none
  | some a ↦ elim w.description [
    | none ↦ none
    | some d ↦ elim w.desktop [
      | none ↦ none
      | some k ↦ elim w.user [
        | none ↦ none
        | some u ↦ elim w.argv [
          | none ↦ none
          | some v ↦ some (record { app = a; description = d; desktop = k; user = u; argv = v })
        ]
      ]
    ]
  ]
]

abbrev pub consed : Bytes → Option (List Bytes) → Option (List Bytes)
consed s none = none
consed s (some ss) = some (s ∷ ss)

-- the loop over the arguments of one application
unfoldable pub strings_of : List (Option Bytes) → Option (List Bytes)
strings_of [] = some []
strings_of (none ∷ ss) = none
strings_of (some s ∷ ss) = consed s (strings_of ss)

-- The applications; the -1 with the `errno` there is then; or a run that C leaves undefined.
pub data Extracted : Type 0 where
  extracted : List Info → Extracted
  invalid : ℕ → Extracted
  unset : Extracted

abbrev pub add_info : Info → Extracted → Extracted
add_info i (extracted is) = extracted (i ∷ is)
add_info i (invalid e) = invalid e
add_info i unset = unset

abbrev pub is_last : List (Option Wire) → Bool
is_last [] = true
is_last (w ∷ ws) = false

-- `EINVAL` and `ENOTCONN`
abbrev pub einval : ℕ
einval = 22

abbrev pub enotconn : ℕ
enotconn = 107

-- One application of which the fields are there. An argument that is no string, and an allocation of
-- size 0 for no arguments, which `iot_alloc` answers with NULL, free the `argv` of all the entries,
-- which nothing set in the entries that follow. `left` is the `errno` that earlier calls left.
unfoldable pub extract_argv :
    (left : ℕ) → WireFields → (last : Bool) → Option (List Bytes) → Extracted → Extracted
extract_argv left f last none rest = if last then invalid einval else unset
extract_argv left f last (some []) rest = if last then invalid left else unset
extract_argv left f last (some (a ∷ argv)) rest =
    add_info
      (record {
        appid = f.app;
        description = f.description;
        desktop = f.desktop;
        user = f.user;
        argv = a ∷ argv;
      })
      rest

-- One application: without a field the `argv` of all the entries is freed, also this one's, which
-- nothing set.
unfoldable pub extract_fields :
    (left : ℕ) → (last : Bool) → Option WireFields → Extracted → Extracted
extract_fields left last none rest = unset
extract_fields left last (some f) rest = extract_argv left f last (strings_of f.argv) rest

abbrev pub wire_of : Option Wire → Option WireFields
wire_of none = none
wire_of (some w) = wire_fields w

-- The loop of `extract_applist` where the allocations of a positive size succeed.
unfoldable pub extract_from : (left : ℕ) → List (Option Wire) → Extracted
extract_from left [] = extracted []
extract_from left (w ∷ ws) = extract_fields left (is_last ws) (wire_of w) (extract_from left ws)

-- `extract_applist`; without an array the length of something else is taken
unfoldable pub extract_applist : (left : ℕ) → Option (List (Option Wire)) → Extracted
extract_applist left none = unset
extract_applist left (some ws) = extract_from left ws

-- A completed request, and the `status` that the loop goes on with; `none` for an undefined run.
abbrev pub Finish : Type 0
Finish = Option (Done × ℕ)

abbrev pub finish_with : Pending → ℕ → List Info → Finish
finish_with p status infos =
    some (record { seqno = p.seqno; called = p.called; status = status; infos = infos }, status)

unfoldable pub finish_list : Pending → Extracted → Finish
finish_list p (extracted is) = finish_with p 0 is
finish_list p (invalid e) = finish_with p e []
finish_list p unset = none

-- The call of the callback. That of a "list" request is not tested for NULL.
unfoldable pub finish_body :
    (left : ℕ) → Body → Pending → (status : ℕ) → Option (List (Option Wire)) → Finish
finish_body left (subscribes es) p status payload = finish_with p status []
finish_body left (sends e d t) p status payload = finish_with p status []
finish_body left (lists running) p status payload =
    if not p.called
    then none
    else if not (status == 0)
    then finish_with p status []
    else finish_list p (extract_applist left payload)

-- `seqno != -1 && seq != seqno`, where `none` is -1
abbrev pub is_for : Option ℕ → ℕ → Bool
is_for none n = true
is_for (some k) n = n == k

-- The requests that stay pending and those that are completed, or an undefined run.
pub data Notified : Type 0 where
  notified : List Pending → List Done → Notified
  undefined : Notified

abbrev pub keep : Pending → Notified → Notified
keep p (notified ps ds) = notified (p ∷ ps) ds
keep p undefined = undefined

abbrev pub add_done : Done → Notified → Notified
add_done d (notified ps ds) = notified ps (d ∷ ds)
add_done d undefined = undefined

-- The loop of `pending_notify`.
unfoldable pub notify_from :
    (left : ℕ)
    → (seqno : Option ℕ) → (status : ℕ) → Option (List (Option Wire))
    → List Pending
    → Notified
notify_from left seqno status payload [] = notified [] []
notify_from left seqno status payload (p ∷ ps) =
    let rest : ℕ → Notified = λ st. notify_from left seqno st payload ps in
    if not (is_for seqno p.seqno)
    then keep p (rest status)
    else elim (finish_body left p.body p status payload) [
      | none ↦ undefined
      | some (d, st) ↦ add_done d (rest st)
    ]

abbrev pub notified_to : Library → Notified → Option Library
notified_to l (notified ps ds) = some (record l { pendq = ps; done = l.done ++ ds })
notified_to l undefined = none

-- `pending_notify`
unfoldable pub pending_notify :
    (left : ℕ)
    → (seqno : Option ℕ) → (status : ℕ) → Option (List (Option Wire))
    → Library
    → Option Library
pending_notify left seqno status payload l =
    notified_to l (notify_from left seqno status payload l.pendq)

abbrev pub disconnected : Option Library → Option Library
disconnected none = none
disconnected (some l) = some (record l { connected = false })

-- `closed_cb`
unfoldable pub closed_cb : (left : ℕ) → (error : ℕ) → Library → Option Library
closed_cb left error l =
    disconnected (pending_notify left none (if error == 0 then enotconn else error) none l)

-- A message, as `msg_reply_parse` and `msg_event_parse` read it: a status with its number (`none` for
-- -1), its code and its array; the name of an event; or a message that is ignored, which is one of
-- another type, one with a field that is missing, and a status with a negative code. A status with a
-- number below -1 is ignored too, since it is for no request.
pub data Message : Type 0 where
  status : Option ℕ → ℕ → Option (List (Option Wire)) → Message
  event : Bytes → Message
  ignored : Message

-- the call of the event callback, which is not tested for NULL
unfoldable pub call_event : Bytes → Library → Option Library
call_event name l = if l.listens then some (record l { seen = l.seen ++ name ∷ [] }) else none

-- `recv_cb`
unfoldable pub recv_cb : (left : ℕ) → Message → Library → Option Library
recv_cb left (status seqno code payload) l = pending_notify left seqno code payload l
recv_cb left (event name) l = call_event name l
recv_cb left ignored l = some l

-- the two signals that are bridged, and any other
pub data SystemSignal : Type 0 where
  sighup sigterm another : SystemSignal

-- `bridge_signal`
unfoldable pub bridge_signal : SystemSignal → Library → Option Library
bridge_signal sighup l = call_event (codes "system::reload") l
bridge_signal sigterm l = call_event (codes "system::terminate") l
bridge_signal another l = some l
