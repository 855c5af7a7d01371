-- ===== src/Launcher/Connections/Created.antt =====
-- What becomes of a connection to src/launcher/daemon/client.c.
use iot_app_fw.Common.{
  ℕ, ◌≡◌, ◌≢◌, refl, ◌∙◌, sym, Bool, true, false, Option, none, some, [], ◌∷◌, ◌++◌, Bytes, codes,
  ◌==◌, if◌then◌else◌, eq_of_some,
}
use mathlib.Core.Path.{subst}
use iot_app_fw.Mask.{init}
use iot_app_fw.Launcher.{Client}
use iot_app_fw.Launcher.Cgroup.{cgroup_path}
use iot_app_fw.Launcher.Connections.{
  launcher, iot_app, Peer, Server, label_of, placed, get_credentials, type_of, closing,
  created_with, client_create,
}

-- A client with the peer's credentials and no events, of which the cgroup was found.
pub record Known (conn : ℕ) (p : Peer) (c : Client) : Type 0 where
  pub connected : c.conn ≡ conn
  pub labelled : c.label ≡ p.label
  pub credited : p.creds ≡ some (c.uid, c.gid, c.pid)
  pub unmarked : c.mask ≡ init
  pub grouped : cgroup_path 4096 (codes "iot-launch") p.lines ≢ none

-- The result of `client_create` on an accepted connection: a client at the end of the list and nothing
-- closed, or no client and the connection closed.
abbrev pub Admitted : ℕ → Peer → Server → Option Client × Server → Type 0
Admitted conn p l (none, l') = l' ≡ closing conn l
Admitted conn p l (some c, l') = Known conn p c × (l' ≡ record l { clients = l.clients ++ c ∷ [] })

label_of-label : (p : Peer) (s : Option Bytes) → label_of p ≡ some s → s ≡ p.label
unfolding label_of
label_of-label p s = at p.label p.label_copied
  where
    at :
        (o : Option Bytes) (b : Bool)
        → elim o [ none ↦ some none | some x ↦ if b then some (some x) else none ] ≡ some s
        → s ≡ o
    at none b e = sym (eq_of_some e)
    at (some x) true e = sym (eq_of_some e)
    at (some x) false e = absurd (cc)

placed-path :
    (p : Peer) → placed iot_app p ≡ true → cgroup_path 4096 (codes "iot-launch") p.lines ≢ none
unfolding placed
placed-path p = at (cgroup_path 4096 (codes "iot-launch") p.lines)
  where
    at : (o : Option Bytes) → elim o [ none ↦ false | some s ↦ p.path_copied ] ≡ true → o ≢ none
    at none e = absurd (cc)
    at (some s) e = λ q. cc

abbrev peer_client : ℕ → Option Bytes → ℕ × ℕ × ℕ → Client
peer_client conn s (u, g, n) = record {
  conn = conn;
  label = s;
  uid = u;
  gid = g;
  pid = n;
  mask = init;
}

-- The rest of `get_credentials` from the test of the credentials on.
abbrev credited_by : ℕ → Peer → Option Bytes → Option (ℕ × ℕ × ℕ) → Option Client
credited_by conn p s none = none
credited_by conn p s (some (u, g, n)) =
    if placed iot_app p then some (peer_client conn s (u, g, n)) else none

abbrev labelled_by : ℕ → Peer → Option (Option Bytes) → Option Client
labelled_by conn p none = none
labelled_by conn p (some s) = credited_by conn p s p.creds

get_credentials-labelled :
    (conn : ℕ) (p : Peer) → get_credentials iot_app conn p ≡ labelled_by conn p (label_of p)
unfolding get_credentials placed
get_credentials-labelled conn p = at (label_of p) p.creds
  where
    at :
        (o : Option (Option Bytes)) (k : Option (ℕ × ℕ × ℕ))
        → elim o [
          | none ↦ none
          | some s ↦ elim k [
            | none ↦ none
            | some (u, g, n) ↦
                if placed iot_app p
                then some
                    (record { conn = conn; label = s; uid = u; gid = g; pid = n; mask = init })
                else none
          ]
        ]
          ≡ labelled_by conn (record p { creds = k }) o
    at none k = refl
    at (some s) none = refl
    at (some s) (some (u, g, n)) = refl

Known-credited :
    (conn : ℕ) (p : Peer) (s : Option Bytes) (c : Client) (k : Option (ℕ × ℕ × ℕ))
    → s ≡ p.label
    → p.creds ≡ k
    → credited_by conn p s k ≡ some c
    → Known conn p c
Known-credited conn p s c none q r e = absurd (cc)
Known-credited conn p s c (some (u, g, n)) q r e = at (placed iot_app p) refl e
  where
    at :
        (b : Bool)
        → placed iot_app p ≡ b
        → (if b then some (peer_client conn s (u, g, n)) else none) ≡ some c
        → Known conn p c
    at true t e = subst (Known conn p) (eq_of_some e) (record {
      connected = refl;
      labelled = q;
      credited = r;
      unmarked = refl;
      grouped = placed-path p t;
    })
    at false t e = absurd (cc)

Known-labelled :
    (conn : ℕ) (p : Peer) (c : Client) (o : Option (Option Bytes))
    → ((s : Option Bytes) → o ≡ some s → s ≡ p.label)
    → labelled_by conn p o ≡ some c
    → Known conn p c
Known-labelled conn p c none h e = absurd (cc)
Known-labelled conn p c (some s) h e = Known-credited conn p s c p.creds (h s refl) refl e

get_credentials-Known :
    (conn : ℕ) (p : Peer) (c : Client) → get_credentials iot_app conn p ≡ some c → Known conn p c
get_credentials-Known conn p c e =
    Known-labelled conn p c (label_of p) (label_of-label p)
      (sym (get_credentials-labelled conn p) ∙ e)

-- On an accepted connection, which is another transport than the listening one, `client_create` either
-- appends a client to the list that has the peer's label, user, group and process, no events, and a
-- cgroup of the launcher, whatever the program behind it; or it gives none, and the connection is
-- closed and the list as before.
pub client_create-Admitted :
    (granted : Bool) (conn : ℕ) (p : Peer) (l : Server)
    → (conn == l.lnc) ≡ false
    → Admitted conn p l (client_create granted (some conn) p l)
unfolding client_create created_with
client_create-Admitted granted conn p l n = at granted
  where
    given :
        (o : Option Client)
        → ((c : Client) → o ≡ some c → Known conn p c)
        → Admitted conn p l (created_with conn l o)
    given none k = refl
    given (some c) k = (k c refl, refl)

    typed :
        (b : Bool)
        → (conn == l.lnc) ≡ b
        → b ≡ false
        → (c : Client) → get_credentials (if b then launcher else iot_app) conn p ≡ some c
        → Known conn p c
    typed true e f c h = absurd (cc)
    typed false e f c h = get_credentials-Known conn p c h

    at :
        (g : Bool)
        → Admitted conn p l (
            if g
            then created_with conn l (get_credentials (type_of l conn) conn p)
            else (none, closing conn l))
    at true =
        given (get_credentials (type_of l conn) conn p) (λ c h. typed (conn == l.lnc) refl n c h)
    at false = refl
