-- ===== src/AppId/Parse.antt =====
-- What `iot_appid_parse` of src/utils/appid.c finds in an identifier, and what it writes.
use iot_app_fw.Common.{
  Bytes, ◌+◌, ◌-◌, ◌≡◌, refl, sym, ap, ◌∙◌, false, Option, none, some, [], ◌∷◌, ◌++◌, inl, inr,
  arith, ◌==◌, Bool-cases, Option-cases, length, take, All, length-append, take-append, take_all,
}
use mathlib.Core.Path.{subst}
use iot_app_fw.AppId.{colon, strchr, next, Parts, locate_app, locate_pkg, locate}

-- A text with no colon in it.
abbrev pub NoColon : Bytes → Type 0
NoColon = All (λ c. (c == colon) ≡ false)

pub strchr-append : (s t : Bytes) → NoColon s → strchr colon (s ++ colon ∷ t) ≡ some (colon ∷ t)
unfolding strchr
strchr-append [] t h = refl
strchr-append (x ∷ s) t h = ground (arith, strchr-append s t)

pub strchr-none : (s : Bytes) → NoColon s → strchr colon s ≡ none
unfolding strchr
strchr-none [] h = refl
strchr-none (x ∷ s) h = ground (arith, strchr-none s)

pub NoColon-of_none : (s : Bytes) → strchr colon s ≡ none → NoColon s
unfolding strchr
NoColon-of_none [] h = tt
NoColon-of_none (x ∷ s) h = ground (arith, NoColon-of_none s)

-- A colon that is found splits the text in front of it.
pub record Split (s c : Bytes) : Type 0 where
  pub front : Bytes
  pub whole : s ≡ front ++ colon ∷ next c
  pub clean : NoColon front

pub Split-of_some : (s c : Bytes) → strchr colon s ≡ some c → Split s c
unfolding strchr
Split-of_some [] c h = absurd (cc)
Split-of_some (x ∷ s) c h = elim (Bool-cases (x == colon)) [
  | inl e ↦ record { front = []; whole = ground arith; clean = tt }
  | inr e ↦
      let r = Split-of_some s c (ground arith) in
      record { front = x ∷ r.front; whole = ap (λ l. x ∷ l) r.whole; clean = (e, r.clean) }
]

length-suffix : (front t : Bytes) → length (front ++ colon ∷ t) ≡ length front + 1 + length t
length-suffix front t = omega (arith, length-append front (colon ∷ t))

-- The three texts that the pointers and lengths stand for.
abbrev pub usr_part : Parts → Option Bytes
usr_part p = elim p.usr [ none ↦ none | some s ↦ some (take p.ul s) ]

abbrev pub pkg_part : Parts → Bytes
pkg_part p = take p.pl p.pkg

-- The three texts that a call prints.
pub record Reads (p : Parts) (usr : Option Bytes) (pkg app : Bytes) : Type 0 where
  pub reads_usr : usr_part p ≡ usr
  pub reads_pkg : pkg_part p ≡ pkg
  pub reads_app : p.app ≡ app

Reads-of_eq :
    (p q : Parts) (usr : Option Bytes) (pkg app : Bytes)
    → p ≡ q
    → Reads q usr pkg app
    → Reads p usr pkg app
Reads-of_eq p q usr pkg app e r = subst (λ x. Reads x usr pkg app) (sym e) r

pub locate_three :
    (usr pkg app : Bytes)
    → NoColon usr
    → NoColon pkg
    → Reads (locate (usr ++ colon ∷ (pkg ++ colon ∷ app))) (some usr) pkg app
unfolding locate
locate_three usr pkg app hu hp =
    let s = usr ++ colon ∷ (pkg ++ colon ∷ app) in
    let t = pkg ++ colon ∷ app in
    let n1 : length s - length t - 1 ≡ length usr = omega (arith, length-suffix usr t) in
    let n2 : length t - length app - 1 ≡ length pkg = omega (arith, length-suffix pkg app) in
    Reads-of_eq (locate s) (locate_app s t (some (colon ∷ app))) (some usr) pkg app
      (ap (locate_pkg s) (strchr-append usr t hu) ∙ ap (locate_app s t) (strchr-append pkg app hp))
      (record {
        reads_usr = rw n1 (ap some (take-append usr (colon ∷ t)));
        reads_pkg = rw n2 (take-append pkg (colon ∷ app));
        reads_app = refl;
      })

pub locate_two :
    (pkg app : Bytes) → NoColon pkg → NoColon app → Reads (locate (pkg ++ colon ∷ app)) none pkg app
unfolding locate
locate_two pkg app hp ha =
    let s = pkg ++ colon ∷ app in
    let n : length s - length app - 1 ≡ length pkg = omega (arith, length-suffix pkg app) in
    Reads-of_eq (locate s) (locate_app s app none) none pkg app
      (ap (locate_pkg s) (strchr-append pkg app hp) ∙ ap (locate_app s app) (strchr-none app ha))
      (record {
        reads_usr = refl;
        reads_pkg = rw n (take-append pkg (colon ∷ app));
        reads_app = refl;
      })

pub locate_one : (s : Bytes) → NoColon s → Reads (locate s) none s s
unfolding locate
locate_one s h =
    Reads-of_eq (locate s) (locate_pkg s none) none s s (ap (locate_pkg s) (strchr-none s h))
      (record {
        reads_usr = refl;
        reads_pkg = take_all (length s) s (omega arith);
        reads_app = refl;
      })

-- Every identifier is of one of the three forms.
pub data Form : Bytes → Type 0 where
  one : (s : Bytes) → NoColon s → Form s
  two : (pkg app s : Bytes) → NoColon pkg → NoColon app → s ≡ pkg ++ colon ∷ app → Form s
  three :
      (usr pkg app s : Bytes)
      → NoColon usr
      → NoColon pkg
      → s ≡ usr ++ colon ∷ (pkg ++ colon ∷ app)
      → Form s

pub form_of : (s : Bytes) → Form s
form_of s = elim (Option-cases (strchr colon s)) [
  | inl e ↦ one s (NoColon-of_none s e)
  | inr (c, e) ↦
      let f = Split-of_some s c e in
      elim (Option-cases (strchr colon (next c))) [
        | inl e' ↦ two f.front (next c) s f.clean (NoColon-of_none (next c) e') f.whole
        | inr (d, e') ↦
            let g = Split-of_some (next c) d e' in
            three f.front g.front (next d) s f.clean g.clean
              (f.whole ∙ ap (λ t. f.front ++ colon ∷ t) g.whole)
      ]
]
