-- ===== src/Manifest/Lookup.antt =====
-- Which applications of a manifest of src/utils/manifest.c are listed, and which are found by name.
use iot_app_fw.Common.{
  ℕ, suc, ◌+◌, ◌≤◌, ◌<◌, ◌≡◌, ◌≢◌, refl, sym, ap, ◌∙◌, Bool, true, false, Option, none, some, List,
  [], ◌∷◌, Bytes, same, same_refl, ltb, ltb_int, ltb_int-small, ◌^◌, if◌then◌else◌, length, All,
  arith,
}
use iot_app_fw.Manifest.{
  AppData, Content, single, several, unfit, Manifest, Filled, put, names_from, applications,
  find_app, app_data,
}

-- A list of entries knows a name.
abbrev Knows : List (Option AppData) → Bytes → Type 0
Knows os a = find_app a os ≢ none

abbrev first_or : Bool → AppData → Option AppData → Option AppData
first_or b o rest = if b then some o else rest

first_or-some :
    (b : Bool) (o : AppData) (rest : Option AppData) → rest ≢ none → first_or b o rest ≢ none
first_or-some true o rest h = λ e. cc
first_or-some false o rest h = h

Knows-later :
    (o : AppData) (a : Bytes) (os : List (Option AppData))
    → o.application ≡ some a
    → (b : Bytes) → Knows os b
    → Knows (some o ∷ os) b
unfolding find_app
Knows-later o a os e b h = rw e (first_or-some (same a b) o (find_app b os) h)

Knows-first :
    (o : AppData) (a : Bytes) (os : List (Option AppData))
    → o.application ≡ some a
    → Knows (some o ∷ os) a
unfolding find_app
Knows-first o a os e = rw (e, same_refl a) (λ x. cc)

All-weaken :
    {A : Type 0} (P Q : A → Type 0) (xs : List A) → ((x : A) → P x → Q x) → All P xs → All Q xs
All-weaken P Q [] f h = tt
All-weaken P Q (x ∷ xs) f (p, h) = (f x p, All-weaken P Q xs f h)

-- What a scan of the entries from `i` of `n` on leaves in a buffer of `size` names.
abbrev Scanned : (i n size : ℕ) → List (Option AppData) → Filled → Type 0
Scanned i n size os f =
    All (Knows os) f.buf
    × ((k : ℕ) → f.count ≡ some k → (k ≡ n) × (n ≤ size → length f.buf ≡ length os))

names_from-Scanned :
    (i n size : ℕ) (os : List (Option AppData))
    → size < 2 ^ 31
    → i + length os ≡ n
    → Scanned i n size os (names_from i n size os)
unfolding names_from
names_from-Scanned i n size [] z h = (tt, λ k e. (ground arith, λ g. refl))
names_from-Scanned i n size (none ∷ os) z h = (tt, λ k e. absurd (cc))
names_from-Scanned i n size (some o ∷ os) z h =
    at o.application refl (names_from-Scanned (suc i) n size os z (omega (arith, h)))
  where
    rest : Filled
    rest = names_from (suc i) n size os

    beyond : n ≤ size → ltb i size ≡ false → ⊥
    beyond g e = ground (arith, h, g, e)

    full :
        (a : Bytes)
        → o.application ≡ some a
        → (b : Bool) → ltb_int i size ≡ b
        → Scanned (suc i) n size os rest
        → Scanned i n size
            (some o ∷ os)
            (if b then put a rest else record { count = some n; buf = [] })
    full a e true t (s, c) = (
      (
        Knows-first o a os e,
        All-weaken (Knows os) (Knows (some o ∷ os)) rest.buf (Knows-later o a os e) s,
      ),
      λ k q. ((c k q).0, λ g. ap suc ((c k q).1 g)),
    )
    full a e false t s =
        (tt, λ k q. (ground arith, λ g. absurd (beyond g (sym (ltb_int-small i size z) ∙ t))))

    at :
        (p : Option Bytes)
        → o.application ≡ p
        → Scanned (suc i) n size os rest
        → Scanned i n size (some o ∷ os) (elim p [
          | none ↦ record { count = none; buf = [] }
          | some a ↦ if ltb_int i size then put a rest else record { count = some n; buf = [] }
        ])
    at none e s = (tt, λ k q. absurd (cc))
    at (some a) e s = full a e (ltb_int i size) refl s

-- The applications that a manifest lists are those that it knows.
abbrev pub Lists : Manifest → (size : ℕ) → Filled → Type 0
Lists m size f =
    All (λ a. app_data m a ≢ none) f.buf
    × ((k : ℕ) → f.count ≡ some k → k ≤ size → length f.buf ≡ k)

-- Whatever the manifest, every name that `iot_manifest_applications` writes into a buffer of `size`
-- names is one that `app_data` finds; and where it returns a count that is at most `size`, it has
-- written that many names. The size is below 2 ^ 31.
pub applications-app_data :
    (m : Manifest) (size : ℕ) → size < 2 ^ 31 → Lists m size (applications m size)
unfolding applications app_data
applications-app_data m size z = at m.data_of
  where
    at :
        (c : Content)
        → Lists (record m { data_of = c }) size (applications (record m { data_of = c }) size)
    at (single o) = one (ltb 0 size) refl
      where
        one :
            (b : Bool)
            → ltb 0 size ≡ b
            → Lists
                (record m { data_of = single o })
                size
                (if b
                  then record { count = some 1; buf = m.pkg ∷ [] }
                  else record { count = some 1; buf = [] })
        one true t = ((rw (same_refl m.pkg) (λ x. cc), tt), λ k e h. ground arith)
        one false t = (tt, λ k e h. absurd (ground arith))
    at (several os) =
        let (s, c) = names_from-Scanned 0 (length os) size os z (omega arith) in
        (s, λ k e h. (c k e).1 (omega (arith, h, (c k e).0)) ∙ sym (c k e).0)
    at unfit = (tt, λ k e h. absurd (cc))
