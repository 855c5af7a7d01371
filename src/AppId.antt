-- ===== src/AppId.antt =====
-- The application identifiers of src/utils/appid.c: `[<user>:]<package>:<app>`, or a package alone.
-- A C string is the list of its bytes before the terminating 0. A pointer into it is the suffix
-- that it points at, and the difference of two pointers is that of the suffixes' lengths.
pub mod Buffers
pub mod Parse
mod Tests
use iot_app_fw.Common.{
  Bytes, ℕ, ◌-◌, Bool, true, false, Option, none, some, List, [], ◌∷◌, ltb, ltb_int, ◌==◌,
  if◌then◌else◌, length, take,
}

abbrev pub colon : ℕ
colon = b':'

-- `strchr(s, c)`
unfoldable pub strchr : ℕ → Bytes → Option Bytes
strchr c [] = none
strchr c (x ∷ s) = if x == c then some (x ∷ s) else strchr c s

-- `p + 1`
abbrev pub next : Bytes → Bytes
next [] = []
next (x ∷ s) = s

-- the pointers `usr`, `pkg` and `app`, with the lengths `ul` and `pl`
pub record Parts : Type 0 where
  pub usr : Option Bytes
  pub pkg : Bytes
  pub app : Bytes
  pub ul : ℕ
  pub pl : ℕ

-- `p - q` for pointers into one string
abbrev pub distance : Bytes → Bytes → ℕ
distance p q = length q - length p

-- `app = strchr(pkg, ':')`, and what is set in either case
unfoldable pub locate_app : (appid pkg : Bytes) → Option Bytes → Parts
locate_app appid pkg none = record {
  usr = none;
  pkg = appid;
  app = pkg;
  ul = 0;
  pl = distance pkg appid - 1;
}
locate_app appid pkg (some c) = record {
  usr = some appid;
  pkg = pkg;
  app = next c;
  ul = distance pkg appid - 1;
  pl = distance (next c) pkg - 1;
}

-- `pkg = strchr(usr, ':')`, and what is set in either case
unfoldable pub locate_pkg : (appid : Bytes) → Option Bytes → Parts
unfolding locate_app
locate_pkg appid none = record { usr = none; pkg = appid; app = appid; ul = 0; pl = length appid }
locate_pkg appid (some c) = locate_app appid (next c) (strchr colon (next c))

-- the search for the two colons
unfoldable pub locate : Bytes → Parts
unfolding strchr locate_pkg
locate appid = locate_pkg appid (strchr colon appid)

-- What a call does to one buffer: `n` is what `snprintf(buf, size, …)` returns, `text` is what it
-- leaves in the buffer, and nothing is written into a buffer of size 0.
pub record Written : Type 0 where
  pub n : ℕ
  pub text : Option Bytes

unfoldable pub snprintf : ℕ → Bytes → Written
snprintf size s = record {
  n = length s;
  text = if ltb 0 size then some (take (size - 1) s) else none;
}

-- `*buf = '\0'`
abbrev pub cleared : Option Bytes
cleared = some []

-- The contents of the three buffers after a call: `none` where nothing was written.
pub record Texts : Type 0 where
  pub usr_text : Option Bytes
  pub pkg_text : Option Bytes
  pub app_text : Option Bytes

-- the returned 0 or -1, and what stands in the buffers
pub record Outcome : Type 0 where
  pub ok : Bool
  pub bufs : Texts

-- One `if (buf != NULL) … ` block: whether the call goes on, and what was written. A buffer is
-- `none` for NULL, and its size else. The test
-- casts the size to int.
unfoldable pub fill : Option ℕ → Option Bytes → Bool × Option Bytes
unfolding snprintf
fill none part = (true, none)
fill (some size) none = (true, cleared)
fill (some size) (some s) = let w : Written = snprintf size s in (ltb_int w.n size, w.text)

-- `iot_appid_parse`: the blocks run in order, and the first that overflows ends the call.
unfoldable pub parse : Bytes → (usr pkg app : Option ℕ) → Outcome
parse appid usrbuf pkgbuf appbuf =
    let p : Parts = locate appid in
    let (u, ut) = fill usrbuf (elim p.usr [ none ↦ none | some s ↦ some (take p.ul s) ]) in
    let (k, kt) = fill pkgbuf (some (take p.pl p.pkg)) in
    let (a, at) = fill appbuf (some p.app) in
    if u
    then if k
      then record { ok = a; bufs = record { usr_text = ut; pkg_text = kt; app_text = at } }
      else record { ok = false; bufs = record { usr_text = ut; pkg_text = kt; app_text = none } }
    else record { ok = false; bufs = record { usr_text = ut; pkg_text = none; app_text = none } }

-- `iot_appid_user`, `iot_appid_package` and `iot_appid_app`: the buffer, or NULL.
pub user : Bytes → ℕ → Option (Option Bytes)
user appid size =
    let r : Outcome = parse appid (some size) none none in
    if r.ok then some r.bufs.usr_text else none

pub package_of : Bytes → ℕ → Option (Option Bytes)
package_of appid size =
    let r : Outcome = parse appid none (some size) none in
    if r.ok then some r.bufs.pkg_text else none

pub app : Bytes → ℕ → Option (Option Bytes)
app appid size =
    let r : Outcome = parse appid none none (some size) in
    if r.ok then some r.bufs.app_text else none
