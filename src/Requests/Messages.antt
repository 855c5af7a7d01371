-- ===== src/Requests/Messages.antt =====
-- What the messages of src/app/app.c and src/launcher/daemon/application.c say to each other: the
-- payload that the library writes into a request, as the launcher reads it, and the applications that
-- the launcher writes into a reply, as the library reads them.
use iot_app_fw.Common.{Bool, Option, none, some, Bytes, codes, ◌==◌, not, if◌then◌else◌, map}
use iot_app_fw.Launcher.{no_uid, no_pid}
use iot_app_fw.Launcher.Events.{Request}
use iot_app_fw.Launcher.Apps.Listing.{Entry}
use iot_app_fw.Requests.{Body, subscribes, sends, lists, Target}
use iot_app_fw.Requests.Replies.{Wire}

-- the fields "event", "data", "label", "appid", "user" and "process" of a "send-event" request, and no
-- "group"; the launcher does not look at "binary"
unfoldable pub send_payload : Bytes → Option Bytes → Target → Request Bytes
send_payload event payload t = record {
  event = some event;
  label = t.label;
  appid = t.appid;
  user = if not (t.user == no_uid) then some t.user else none;
  group = none;
  process = if not (t.process == no_pid) then some t.process else none;
  payload = payload;
}

-- the field "type" of a "list" request
unfoldable pub list_type : (running : Bool) → Bytes
list_type running = if running then codes "running" else codes "installed"

-- the type of a request, which names its payload too
unfoldable pub request_type : Body → Bytes
request_type (subscribes es) = codes "subscribe-events"
request_type (sends event payload t) = codes "send-event"
request_type (lists running) = codes "list"

-- the object of one application in the reply to a "list" request
unfoldable pub wire_entry : Entry → Option Wire
wire_entry x = some (record {
  app = some x.app;
  description = some x.description;
  desktop = some x.desktop;
  user = some x.user;
  argv = some (map some x.argv);
})
