-- ===== src/Manifest/Tests.antt =====
-- Lookups in manifests, and the theorems on them at concrete manifests.
use iot_app_fw.Common.{◌≡◌, ◌^◌, arith, refl, some, [], ◌∷◌, codes}
use iot_app_fw.Manifest.{
  names_from, applications, app_data, find_app, description, arguments, fill_strings, strings_from,
}
use iot_app_fw.Manifest.Samples.{tools}
use iot_app_fw.Manifest.Lookup.{Lists, applications-app_data}

describes : description tools (codes "alarm") ≡ some (codes "shows the time")
unfolding description app_data find_app
describes = refl

runs : (arguments tools (codes "clock") 64).buf ≡ codes "/bin/clock" ∷ codes "-v" ∷ []
unfolding arguments app_data find_app fill_strings strings_from
runs = refl

lists : (applications tools 64).buf ≡ codes "clock" ∷ codes "alarm" ∷ []
unfolding applications names_from
lists = refl

-- the cast of the size to int makes a large buffer one of a negative size
too_large : (applications tools (2 ^ 31)).buf ≡ []
unfolding applications names_from
too_large = refl

applications-app_data_example : Lists tools 64 (applications tools 64)
applications-app_data_example = applications-app_data tools 64 (omega arith)
