-- ===== src/Manifest/Samples.antt =====
-- A manifest with two applications, for tests.
use iot_app_fw.Common.{none, some, [], ◌∷◌, codes}
use iot_app_fw.Manifest.{AppData, several, Manifest}

abbrev pub clock : AppData
clock = record {
  application = some (codes "clock");
  description = some (codes "shows the time");
  desktop = none;
  privileges = none;
  execute = some (some (codes "/bin/clock") ∷ some (codes "-v") ∷ []);
}

abbrev pub alarm : AppData
alarm = record clock { application = some (codes "alarm"); execute = none }

abbrev pub tools : Manifest
tools = record {
  usr = 7;
  pkg = codes "tools";
  path = [];
  data_of = several (some clock ∷ some alarm ∷ []);
}
