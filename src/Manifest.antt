-- ===== src/Manifest.antt =====
-- The manifests of src/utils/manifest.c, as the launcher reads them: the accessors of a manifest that
-- was read. A field of a JSON object is `none` where it is missing or of another type.
pub mod Lookup
pub mod Samples
mod Tests
use iot_app_fw.Common.{
  ℕ, suc, Bool, true, false, Option, none, some, List, [], ◌∷◌, Bytes, same, ltb, ltb_int,
  if◌then◌else◌, length,
}

-- the data of one application; an entry of an array is `none` where it is not a string
pub record AppData : Type 0 where
  pub application : Option Bytes
  pub description : Option Bytes
  pub desktop : Option Bytes
  pub privileges : Option (List (Option Bytes))
  pub execute : Option (List (Option Bytes))

-- `m->data`: an object, an array whose entries are `none` where they are not objects, or a value of
-- another type
pub data Content : Type 0 where
  single : AppData → Content
  several : List (Option AppData) → Content
  unfit : Content

-- `iot_manifest_t`
pub record Manifest : Type 0 where
  pub usr : ℕ
  pub pkg : Bytes
  pub path : Bytes
  pub data_of : Content

-- What a call that fills a buffer returns, `none` for -1, and the strings it wrote, in order.
pub record Filled : Type 0 where
  pub count : Option ℕ
  pub buf : List Bytes

abbrev pub put : Bytes → Filled → Filled
put s f = record f { buf = s ∷ f.buf }

-- The loop of `iot_manifest_applications` from entry `i` of `n` on. The size is cast to int.
unfoldable pub names_from : (i n size : ℕ) → List (Option AppData) → Filled
names_from i n size [] = record { count = some n; buf = [] }
names_from i n size (none ∷ os) = record { count = none; buf = [] }
names_from i n size (some o ∷ os) =
    let rest : Filled = names_from (suc i) n size os in
    elim o.application [
      | none ↦ record { count = none; buf = [] }
      | some a ↦ if ltb_int i size then put a rest else record { count = some n; buf = [] }
    ]

-- `iot_manifest_applications`
unfoldable pub applications : Manifest → (size : ℕ) → Filled
applications m size = elim m.data_of [
  | single o ↦
      if ltb 0 size
      then record { count = some 1; buf = m.pkg ∷ [] }
      else record { count = some 1; buf = [] }
  | several os ↦ names_from 0 (length os) size os
  | unfit ↦ record { count = none; buf = [] }
]

-- The loop of `app_data`.
unfoldable pub find_app : Bytes → List (Option AppData) → Option AppData
find_app app [] = none
find_app app (none ∷ os) = none
find_app app (some o ∷ os) =
    let rest : Option AppData = find_app app os in
    elim o.application [ none ↦ none | some a ↦ if same a app then some o else rest ]

-- `app_data`
unfoldable pub app_data : Manifest → Bytes → Option AppData
app_data m app = elim m.data_of [
  | single o ↦ if same app m.pkg then some o else none
  | several os ↦ find_app app os
  | unfit ↦ none
]

-- `iot_manifest_description` and `iot_manifest_desktop_path`
unfoldable pub description : Manifest → Bytes → Option Bytes
description m app = elim (app_data m app) [ none ↦ none | some o ↦ o.description ]

unfoldable pub desktop_path : Manifest → Bytes → Option Bytes
desktop_path m app = elim (app_data m app) [ none ↦ none | some o ↦ o.desktop ]

-- The loop over the strings of an array, from entry `i` of `n` on. The size is cast to int.
unfoldable pub strings_from : (i n size : ℕ) → List (Option Bytes) → Filled
strings_from i n size [] = record { count = some n; buf = [] }
strings_from i n size (none ∷ ss) = record { count = none; buf = [] }
strings_from i n size (some s ∷ ss) =
    let rest : Filled = strings_from (suc i) n size ss in
    if ltb_int i size then put s rest else record { count = some n; buf = [] }

unfoldable pub fill_strings : (size : ℕ) → Option (List (Option Bytes)) → Filled
fill_strings size none = record { count = none; buf = [] }
fill_strings size (some ss) = strings_from 0 (length ss) size ss

-- `iot_manifest_privileges` and `iot_manifest_arguments`
unfoldable pub privileges : Manifest → Bytes → (size : ℕ) → Filled
privileges m app size = elim (app_data m app) [
  | none ↦ record { count = none; buf = [] }
  | some o ↦ fill_strings size o.privileges
]

unfoldable pub arguments : Manifest → Bytes → (size : ℕ) → Filled
arguments m app size = elim (app_data m app) [
  | none ↦ record { count = none; buf = [] }
  | some o ↦ fill_strings size o.execute
]
