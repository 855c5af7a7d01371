-- ===== src/Launcher.antt =====
-- The launcher daemon of src/launcher/daemon: the data of launcher.h that its handlers share. The
-- lists of the daemon are Lists, in the order of the hooks. A client is named by its connection.
pub mod Apps
pub mod Cgroup
pub mod Connections
pub mod Dispatch
pub mod Events
pub mod Privilege
pub mod Subscribe
mod Tests
use iot_app_fw.Common.{ℕ, ◌-◌, ◌^◌, Option, List, Bytes}
use iot_app_fw.Mask.{Mask}

-- `NO_UID`, `NO_GID` and `NO_PID`
abbrev pub no_uid : ℕ
no_uid = 2 ^ 32 - 1

abbrev pub no_gid : ℕ
no_gid = 2 ^ 32 - 1

abbrev pub no_pid : ℕ
no_pid = 0

-- the error codes of the replies; `of_call` is the `errno` that a failed system call or hook left
pub data Errno : Type 0 where
  einval enoent enospc enomem eperm ebusy : Errno
  of_call : Errno

-- the status message that answers a request
pub data Status : Type 0 where
  ok : Status
  signalled : Status
  error : Errno → Status

-- `client_t`, with what the handlers read of its `identity_t`
pub record Client : Type 0 where
  pub conn : ℕ
  pub label : Option Bytes
  pub uid : ℕ
  pub gid : ℕ
  pub pid : ℕ
  pub mask : Mask
