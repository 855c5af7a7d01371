-- ===== src/Launcher/Dispatch/Samples.antt =====
-- A host that grants everything, and an empty request, for tests.
use iot_app_fw.Common.{true, none, some, []}
use iot_app_fw.Manifest.Samples.{tools}
use iot_app_fw.Launcher.Privilege.{disabled}
use iot_app_fw.Launcher.Dispatch.{Host, Object}

abbrev pub host : Host
host = record {
  read = λ path. some tools;
  mkdir = λ uid base pid. some base;
  hooks = [];
  security = disabled;
  cache = some [];
  memory = record { object = true; copies = true; path = true };
  timer = true;
  listing = λ i. true;
  granted = λ i. true;
  room = λ i. true;
  made = true;
}

abbrev pub nothing : Object
nothing = record {
  setup = record { manifest = none; app = none; user = none; group = none; exec = none };
  cgroup = none;
  which = none;
  app = none;
  send = record {
    event = none;
    label = none;
    appid = none;
    user = none;
    group = none;
    process = none;
    payload = none;
  };
  events = none;
}
