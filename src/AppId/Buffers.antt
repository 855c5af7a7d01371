-- ===== src/AppId/Buffers.antt =====
-- What `iot_appid_parse` of src/utils/appid.c leaves in the caller's buffers.
use iot_app_fw.Common.{
  Bytes, ℕ, ◌-◌, ◌<◌, ◌≡◌, ◌↔◌, refl, ◌∙◌, sym, ap, true, Option, none, some, [], ◌∷◌, ◌++◌, arith,
  lt→ltb, ltb→lt, ltb_int-small, ◌^◌, length, take_all,
}
use mathlib.Core.Path.{subst}
use iot_app_fw.AppId.{colon, locate, fill, parse, Outcome}
use iot_app_fw.AppId.Parse.{
  NoColon, Reads, usr_part, pkg_part, locate_three, locate_two, locate_one, Form, form_of, one, two,
  three,
}

-- The text has room, with its terminator, in a buffer that is given.
abbrev pub Fits : Option ℕ → Option Bytes → Type 0
Fits none part = Unit
Fits (some n) none = Unit
Fits (some n) (some s) = length s < n

-- What a buffer holds after a call that had room.
abbrev pub stored : Option ℕ → Option Bytes → Option Bytes
stored none part = none
stored (some n) none = some []
stored (some n) (some s) = some s

-- A buffer's size is a number that the cast to int keeps.
abbrev pub IsSize : Option ℕ → Type 0
IsSize none = Unit
IsSize (some n) = n < 2 ^ 31

pub fill-Fits :
    (buf : Option ℕ) (part : Option Bytes)
    → IsSize buf
    → Fits buf part
    → fill buf part ≡ (true, stored buf part)
unfolding fill
fill-Fits none part z h = refl
fill-Fits (some n) none z h = refl
fill-Fits (some n) (some s) z h = rw (
  ltb_int-small (length s) n z,
  lt→ltb (length s) n h,
  lt→ltb 0 n (omega arith),
  take_all (n - 1) s (omega arith),
)

pub Fits-of_fill :
    (buf : Option ℕ) (part : Option Bytes) → IsSize buf → (fill buf part).0 ≡ true → Fits buf part
unfolding fill
Fits-of_fill none part z h = tt
Fits-of_fill (some n) none z h = tt
Fits-of_fill (some n) (some s) z h = ltb→lt (length s) n (sym (ltb_int-small (length s) n z) ∙ h)

parse-fills :
    (s : Bytes) (ub pb ab : Option ℕ)
    → (parse s ub pb ab).ok ≡ true
    → ((fill ub (usr_part (locate s))).0 ≡ true)
      × ((fill pb (some (pkg_part (locate s)))).0 ≡ true)
      × ((fill ab (some (locate s).app)).0 ≡ true)
unfolding parse
parse-fills s ub pb ab h = ground arith

module _ (s : Bytes) (usr : Option Bytes) (pkg app : Bytes) (r : Reads (locate s) usr pkg app) where
  -- The parts that the search reads, written where they fit.
  pub parse-stored :
      (ub pb ab : Option ℕ)
      → IsSize ub
      → IsSize pb
      → IsSize ab
      → Fits ub usr
      → Fits pb (some pkg)
      → Fits ab (some app)
      → parse s ub pb ab ≡ record {
        ok = true;
        bufs = record {
          usr_text = stored ub usr;
          pkg_text = stored pb (some pkg);
          app_text = stored ab (some app);
        };
      }
  unfolding parse
  parse-stored ub pb ab zu zp za hu hp ha = rw (
    r.reads_usr,
    r.reads_pkg,
    r.reads_app,
    fill-Fits ub usr zu hu,
    fill-Fits pb (some pkg) zp hp,
    fill-Fits ab (some app) za ha,
  )

  -- A call succeeds exactly when each part fits in its buffer.
  parse-ok_iff :
      (ub pb ab : Option ℕ)
      → IsSize ub
      → IsSize pb
      → IsSize ab
      → ((parse s ub pb ab).ok ≡ true) ↔ (Fits ub usr × Fits pb (some pkg) × Fits ab (some app))
  parse-ok_iff ub pb ab zu zp za = (
    λ h.
        let (u, k, a) = parse-fills s ub pb ab h in
        (
          Fits-of_fill ub usr zu (subst (λ x. (fill ub x).0 ≡ true) r.reads_usr u),
          Fits-of_fill pb (some pkg) zp (subst (λ x. (fill pb (some x)).0 ≡ true) r.reads_pkg k),
          Fits-of_fill ab (some app) za (subst (λ x. (fill ab (some x)).0 ≡ true) r.reads_app a),
        ),
    λ (hu, hp, ha). ap (λ (o : Outcome). o.ok) (parse-stored ub pb ab zu zp za hu hp ha),
  )

-- `<user>:<package>:<app>`, with no colon in the first two: each part comes back in its buffer
-- where it fits with its terminator. The sizes are below 2 ^ 31.
pub parse_three :
    (usr pkg app : Bytes) (n m k : ℕ)
    → n < 2 ^ 31
    → m < 2 ^ 31
    → k < 2 ^ 31
    → NoColon usr
    → NoColon pkg
    → length usr < n
    → length pkg < m
    → length app < k
    → parse (usr ++ colon ∷ (pkg ++ colon ∷ app)) (some n) (some m) (some k) ≡ record {
      ok = true;
      bufs = record { usr_text = some usr; pkg_text = some pkg; app_text = some app };
    }
parse_three usr pkg app n m k zn zm zk hu hp ln lm lk =
    parse-stored _ (some usr) pkg app (locate_three usr pkg app hu hp) (some n) (some m) (some k) zn
      zm zk ln lm lk

-- `<package>:<app>` and a name with no colon have an empty user, and such a name is both the
-- package and the application.
pub parse_short :
    (pkg app : Bytes) (n m k : ℕ)
    → n < 2 ^ 31
    → m < 2 ^ 31
    → k < 2 ^ 31
    → NoColon pkg
    → NoColon app
    → length pkg < m
    → length app < k
    → length pkg < k
    → (parse (pkg ++ colon ∷ app) (some n) (some m) (some k) ≡ record {
      ok = true;
      bufs = record { usr_text = some []; pkg_text = some pkg; app_text = some app };
    })
      × (parse pkg (some n) (some m) (some k) ≡ record {
        ok = true;
        bufs = record { usr_text = some []; pkg_text = some pkg; app_text = some pkg };
      })
parse_short pkg app n m k zn zm zk hp ha lm lk lp = (
  parse-stored _ none pkg app (locate_two pkg app hp ha) (some n) (some m) (some k) zn zm zk tt lm
      lk,
  parse-stored _ none pkg pkg (locate_one pkg hp) (some n) (some m) (some k) zn zm zk tt lm lp,
)

-- The texts of an identifier of each form, as a call is to read them.
pub texts_of : {s : Bytes} → Form s → Option Bytes × Bytes × Bytes
texts_of (one s h) = (none, s, s)
texts_of (two pkg app s h h' e) = (none, pkg, app)
texts_of (three usr pkg app s h h' e) = (some usr, pkg, app)

Reads-form :
    {s : Bytes} (f : Form s) → Reads (locate s) (texts_of f).0 (texts_of f).1 (texts_of f).2
unfolding texts_of
Reads-form (one s h) = locate_one s h
Reads-form (two pkg app s h h' e) =
    subst (λ x. Reads (locate x) none pkg app) (sym e) (locate_two pkg app h h')
Reads-form (three usr pkg app s h h' e) =
    subst (λ x. Reads (locate x) (some usr) pkg app) (sym e) (locate_three usr pkg app h h')

-- For every identifier, a call succeeds exactly when the user (if the identifier has one), the
-- package and the application fit in the buffers that are given. The sizes of these are below 2 ^ 31.
pub parse-ok_exactly :
    (s : Bytes) (ub pb ab : Option ℕ)
    → IsSize ub
    → IsSize pb
    → IsSize ab
    → let t : Option Bytes × Bytes × Bytes = texts_of (form_of s) in
      ((parse s ub pb ab).ok ≡ true) ↔ (Fits ub t.0 × Fits pb (some t.1) × Fits ab (some t.2))
parse-ok_exactly s ub pb ab zu zp za =
    parse-ok_iff s _ _ _ (Reads-form (form_of s)) ub pb ab zu zp za
