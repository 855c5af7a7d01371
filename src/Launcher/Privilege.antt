-- ===== src/Launcher/Privilege.antt =====
-- src/launcher/daemon/privilege.c: the question whether a client may do something. The decision is
-- Cynara's, and its connection is a parameter.
use iot_app_fw.Common.{ℕ, Bool, true, false, Option, Bytes, codes, if◌then◌else◌}

-- How the daemon was built and connected: without a security manager, with one that is not
-- connected, or with one that answers for a label, a user and a privilege.
pub data Security : Type 0 where
  disabled : Security
  unconnected : Security
  connected : (Option Bytes → ℕ → Bytes → Bool) → Security

-- the 1, 0 and -1 of `privilege_check`
pub data Verdict : Type 0 where
  allowed denied failed : Verdict

unfoldable pub privilege_check : Security → Option Bytes → ℕ → Bytes → Verdict
privilege_check disabled label uid privilege = allowed
privilege_check unconnected label uid privilege = failed
privilege_check (connected check) label uid privilege =
    if check label uid privilege then allowed else denied

-- `privilege_check(…) != 1` sends the caller away
unfoldable pub is_allowed : Verdict → Bool
is_allowed allowed = true
is_allowed denied = false
is_allowed failed = false

-- `IOT_PRIV_SEND_EVENT` and `IOT_PRIV_LIST_APPS`
abbrev pub send_event_privilege : Bytes
send_event_privilege = codes "ApplicationManagement"

abbrev pub list_apps_privilege : Bytes
list_apps_privilege = codes "ApplicationManagement"
