-- ===== src/Lib.antt =====
-- The core of the IoT application framework: the launcher daemon of src/launcher/daemon, and of the
-- common library of src/common what the daemon stands on; the library of src/app for applications;
-- and the application identifiers and manifests of src/utils.
--
-- A client connects to the daemon over a stream transport. What arrives is gathered in a fragment
-- buffer, cut into messages, and handed on. A client's request "subscribe-events" registers event
-- names and sets bits in the client's mask; a request "send-event" goes to the clients whose mask
-- has the event's bit. The requests "setup", "stop", "cleanup" and "list" start, end and show the
-- applications that the daemon tracks. An application subscribes, sends and lists with the library,
-- which keeps a request until its reply comes. Everything runs in the callbacks of one main loop,
-- which keeps the timers.
--
-- The files, and the code that they model:
--   AppId      src/utils/appid.c: `iot_appid_parse` is `parse`, with the accessors `user`,
--              `package_of` and `app`. A C string is the list of its bytes, a suffix pointer into
--              it is the suffix.
--   Fragbuf    src/common/fragbuf.c: a buffer is its memory, size and number of bytes used. Each
--              `iot_fragbuf_x` is `x`. Whether the allocator grants memory is an argument.
--   Stream     src/common/stream-transport.c: `strm_recv_cb` on readable data is `receive`. What the
--              system calls say in each round of the read loop is a `Round`, and what the receiver
--              of a frame does is the parameter `react`.
--   Transport  src/common/transport.c: a transport is its mode, its `busy` count and its flags, `freed`
--              among them. Each `iot_transport_x` is `x_with`, given what the calls do that the type
--              and the callbacks make inside it; `run` takes calls with the calls inside them.
--              Transport/Types is the registered types and the making of transports.
--   Mask       src/common/mask.h: a mask is a list of words of 64 bits, and each `iot_mask_x` is
--              `x`, with a suffix where the name says too little alone (`set_bit`, `clear_bit`,
--              `alloc_bit`; Mask/Sets and Mask/Ranges hold the operations on whole masks and on
--              ranges).
--   Hash       src/common/hash-table.c: an entry is known by its slot, a bucket is the list of the
--              slots on its list, and the chunks are their masks. Hash has the allocation of chunks
--              and entries, Hash/Walk the iteration, and Hash/Ops the operations, `iot_hashtbl_x`
--              being `x`. What `hash` and `comp` of the owner do are parameters.
--   Launcher   src/launcher/daemon: Launcher/Events is event.c, Launcher/Privilege is privilege.c,
--              Launcher/Subscribe is `client_subscribe` of client.c. A JSON request is the record of
--              the fields that its handler reads.
--              Launcher/Apps is application.c: the launcher's state is the list of applications, the
--              pending kill timers and a log of the signals, events and removals. A handler's name is
--              the C function's. Launcher/Apps/Setup is the setup and Launcher/Apps/Listing the two
--              lists. Launcher/Cgroup is cgroup.c, Launcher/Connections the rest of client.c, and
--              Launcher/Dispatch the way of a request through transport.c to its handler.
--   Manifest   src/utils/manifest.c: a manifest that was read, and `iot_manifest_x` as `x`.
--   Requests   src/app/app.c, the library of an application: its state is the transport, the number
--              of the next request, the pending requests and logs of what was sent, completed and
--              seen. Requests/Replies is what arrives, Requests/Messages the payloads that library
--              and launcher exchange.
--   Timers     the timers of src/common/mainloop.c: `ml->timers` with `next_timer`, each operation
--              with the time at which it runs as an argument, and the timeout of
--              `iot_mainloop_prepare`.
--   Deferreds  the two queues of deferred callbacks of src/common/mainloop.c.
--   Bus        the event busses of src/common/mainloop.c: `emit_event` and `pump_events` on one bus,
--              with what each callback does on the bus as the parameter `react`. Bus/Watches is the
--              event names and the making of watches.
--   Wakeups    the wakeup notifications of src/common/mainloop.c, each alone: what the loop, the timer
--              of forced wakeups and a deletion do to it is a `Step`, with the times of the clock.
--   Common     names from the libraries, and lemmas on lists and tests that the parts share.
-- In each part the file at the top holds the definitions, but for the files named above, and the
-- other files below it the theorems; its file Tests has runs at concrete data.
--
-- Numbers: a size_t or uint64_t is a natural number. Where the code casts or multiplies with 32 bits
-- and that shows, the reduction is written out (`Fragbuf.holds`, `Timers.expiry`, `Hash.sub32`; a test
-- against `(int)size` is `ltb_int`). A number of a request is an integer where the launcher reads it.
-- `drain` and `missing` are on fuel. A frame takes four bytes, so `drain` gets one round more than
-- the buffer has bytes. `emit_event` and `pump_events` are on fuel, as callbacks may emit for ever;
-- to callbacks that only queue an emission takes two rounds more than there are watches. `decimal`
-- has one round more than the number, which is at least as many as it has digits.
--
-- Not modelled: system calls, Cynara, json-c and the allocator, whose answers are arguments; and the
-- parts of the code that mainly call these: the mounting of cgroups and the start of processes, the
-- package manager, the reading and validation of manifests, logging, the other transports, the
-- bindings. Of the main loop the dispatch of I/O, signals, timers and deferred callbacks is left
-- out. The callbacks of the library's user do not call the library. A sequence number of the library
-- is a natural number: after 2^31 requests the int of the source overflows.
pub mod Common
pub mod AppId
pub mod Fragbuf
pub mod Hash
pub mod Stream
pub mod Manifest
pub mod Mask
pub mod Launcher
pub mod Requests
pub mod Timers
pub mod Deferreds
pub mod Transport
pub mod Bus
pub mod Wakeups
