-- ===== src/Launcher/Connections/Tests.antt =====
-- Connections to the launcher, and the theorem on them at concrete data.
use iot_app_fw.Common.{◌≡◌, refl, true, none, some, List, [], ◌∷◌, Bytes, codes}
use iot_app_fw.Mask.{init}
use iot_app_fw.Launcher.{Client}
use iot_app_fw.Launcher.Cgroup.{strip, after, path_from, cgroup_path}
use iot_app_fw.Launcher.Connections.{
  Peer, Server, label_of, placed, get_credentials, created_with, client_create, del_client,
  client_destroy,
}
use iot_app_fw.Launcher.Connections.Created.{Admitted, client_create-Admitted}

abbrev launched : List Bytes
launched = codes "2:cpu:/" ∷ codes "1:name=iot-launch:/user-5/clock-120" ∷ []

finds_path :
    cgroup_path 4096 (codes "iot-launch") (some launched) ≡ some (codes "/user-5/clock-120")
unfolding cgroup_path path_from after strip
finds_path = refl

abbrev peer : Peer
peer = record {
  label = some (codes "User");
  label_copied = true;
  creds = some (5, 6, 120);
  lines = some launched;
  path_copied = true;
}

abbrev server : Server
server = record { lnc = 0; clients = []; closed = [] }

abbrev clock : Client
clock = record { conn = 3; label = some (codes "User"); uid = 5; gid = 6; pid = 120; mask = init }

accepts :
    client_create true (some 3) peer server ≡ (some clock, record server { clients = clock ∷ [] })
unfolding client_create created_with get_credentials label_of placed cgroup_path path_from after
    strip
accepts = refl

-- A process outside of the launcher's cgroups, as the program that starts applications.
turns_away :
    client_create true (some 3) (record peer { lines = some [] }) server
    ≡ (none, record server { closed = 3 ∷ [] })
unfolding client_create created_with get_credentials label_of placed cgroup_path path_from after
    strip
turns_away = refl

leaves :
    client_destroy clock (record server { clients = clock ∷ [] })
    ≡ record server { closed = 3 ∷ [] }
unfolding client_destroy del_client
leaves = refl

client_create-Admitted_example : Admitted 3 peer server (client_create true (some 3) peer server)
client_create-Admitted_example = client_create-Admitted true 3 peer server refl
