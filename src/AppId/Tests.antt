-- ===== src/AppId/Tests.antt =====
-- Runs of `iot_appid_parse` at concrete identifiers, and the theorems at them.
use iot_app_fw.Common.{
  Bytes, ◌^◌, arith, ◌≡◌, ◌↔◌, refl, false, true, none, some, [], ◌∷◌, ◌++◌, codes,
}
use iot_app_fw.AppId.{colon, locate, snprintf, fill, parse, user, package_of, app}
use iot_app_fw.AppId.Parse.{form_of}
use iot_app_fw.AppId.Buffers.{Fits, texts_of, parse_three, parse-ok_exactly}

all : Unit {0}
unfolding fill snprintf locate parse user package_of app
all = tt

abbrev joe : Bytes
joe = codes "joe"

abbrev www : Bytes
www = codes "www"

abbrev web : Bytes
web = codes "web"

-- more colons belong to the application
more_colons : app (codes "u:p:a:b") 8 ≡ some (some (codes "a:b"))
unfolding all
more_colons = refl

-- a text that does not fit is cut, and the call fails
cut : parse (codes "joe:www") none (some 3) none ≡ record {
  ok = false;
  bufs = record { usr_text = none; pkg_text = some (codes "jo"); app_text = none };
}
unfolding all
cut = refl

-- the cast of the size to int makes a large buffer one of a negative size
too_large : (parse joe none (some (2 ^ 31)) none).ok ≡ false
unfolding all
too_large = refl

user_empty : user (codes "joe:www") 8 ≡ some (some [])
unfolding all
user_empty = refl

package_alone : package_of joe 8 ≡ some (some joe)
unfolding all
package_alone = refl

parse_three_example :
    parse (joe ++ colon ∷ (www ++ colon ∷ web)) (some 4) (some 4) (some 4) ≡ record {
      ok = true;
      bufs = record { usr_text = some joe; pkg_text = some www; app_text = some web };
    }
parse_three_example =
    parse_three joe www web 4 4 4 (omega arith) (omega arith) (omega arith)
      (refl, (refl, (refl, tt))) (refl, (refl, (refl, tt))) (omega arith) (omega arith)
      (omega arith)

parse-ok_exactly_example : ((parse joe none (some 3) none).ok ≡ true) ↔ (
    Fits none (texts_of (form_of joe)).0
    × Fits (some 3) (some (texts_of (form_of joe)).1)
    × Fits none (some (texts_of (form_of joe)).2))
parse-ok_exactly_example = parse-ok_exactly joe none (some 3) none tt (omega arith) tt
