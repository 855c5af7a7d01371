-- ===== src/Launcher/Connections.antt =====
-- src/launcher/daemon/client.c: accepting a connection, reading the peer's credentials, and the end of a
-- client.
pub mod Created
mod Tests
use iot_app_fw.Common.{
  ℕ, Bool, true, false, Option, none, some, List, [], ◌∷◌, ◌++◌, Bytes, codes, ◌==◌, not,
  if◌then◌else◌,
}
use iot_app_fw.Mask.{init}
use iot_app_fw.Launcher.{Client}
use iot_app_fw.Launcher.Cgroup.{cgroup_path}

-- `client_type_t`, as `client_create` sets it
pub data ClientType : Type 0 where
  launcher iot_app : ClientType

-- What the peer's kernel says of it, and whether the copies of it can be allocated: the label, the user,
-- group and process, and the lines of its cgroup file.
pub record Peer : Type 0 where
  pub label : Option Bytes
  pub label_copied : Bool
  pub creds : Option (ℕ × ℕ × ℕ)
  pub lines : Option (List Bytes)
  pub path_copied : Bool

-- `launcher_t`: the listening transport, the clients, and the connections that were closed, the last
-- first.
pub record Server : Type 0 where
  pub lnc : ℕ
  pub clients : List Client
  pub closed : List ℕ

-- the label of a client, `none` where the copy fails
unfoldable pub label_of : Peer → Option (Option Bytes)
label_of p = elim p.label [
  | none ↦ some none
  | some s ↦ if p.label_copied then some (some s) else none
]

-- whether the cgroup of a client is found, which a launcher client does not need
unfoldable pub placed : ClientType → Peer → Bool
placed launcher p = true
placed iot_app p = elim (cgroup_path 4096 (codes "iot-launch") p.lines) [
  | none ↦ false
  | some s ↦ p.path_copied
]

-- `get_credentials` of a client on a connection, `none` for -1
unfoldable pub get_credentials : ClientType → ℕ → Peer → Option Client
get_credentials type conn p = elim (label_of p) [
  | none ↦ none
  | some label ↦ elim p.creds [
    | none ↦ none
    | some (uid, gid, pid) ↦
        if placed type p
        then some
            (record { conn = conn; label = label; uid = uid; gid = gid; pid = pid; mask = init })
        else none
  ]
]

-- the type from the comparison of the accepted transport with the listening one
abbrev pub type_of : Server → ℕ → ClientType
type_of l conn = if conn == l.lnc then launcher else iot_app

abbrev pub closing : ℕ → Server → Server
closing conn l = record l { closed = conn ∷ l.closed }

-- `client_create` from the test of the credentials on
unfoldable pub created_with : ℕ → Server → Option Client → Option Client × Server
created_with conn l none = (none, closing conn l)
created_with conn l (some c) = (some c, record l { clients = l.clients ++ c ∷ [] })

-- `client_create`. `granted` is whether the client can be allocated, and the connection is `none` where
-- it cannot be accepted. Without memory it is accepted, and closed again.
unfoldable pub client_create :
    (granted : Bool) → (conn : Option ℕ) → Peer → Server → Option Client × Server
client_create granted none p l = (none, l)
client_create granted (some conn) p l =
    if granted
    then created_with conn l (get_credentials (type_of l conn) conn p)
    else (none, closing conn l)

-- `iot_list_delete` of a client's hook
unfoldable pub del_client : ℕ → List Client → List Client
del_client conn [] = []
del_client conn (c ∷ cs) = if c.conn == conn then cs else c ∷ del_client conn cs

-- `client_destroy` of a client on the list, which `lnc_closed` calls
unfoldable pub client_destroy : Client → Server → Server
client_destroy c l = record l { clients = del_client c.conn l.clients; closed = c.conn ∷ l.closed }
