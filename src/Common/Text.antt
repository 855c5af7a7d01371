-- ===== src/Common/Text.antt =====
-- Byte strings, and the bytes of an ASCII text.
use Prim.Native.Nat.{ℕ}
use Prim.Native.Char.{code}
use Prim.Native.String.{String}
use mathlib.Core.List.{List, [], ◌∷◌}
use mathlib.Core.Bool.{Bool, true, false, ◌&&◌}
use mathlib.Core.Path.{◌≡◌, refl}
use native.Mathlib.Omega.{arith}
use iot_app_fw.Common.Tests.{◌==◌}

abbrev pub Bytes : Type 0
Bytes = List ℕ

abbrev pub codes : String → Bytes
codes String.[] = []
codes (String.◌∷◌ c s) = code c ∷ codes s

-- `strcmp(a, b) == 0`
abbrev pub same : Bytes → Bytes → Bool
same [] [] = true
same [] (y ∷ b) = false
same (x ∷ a) [] = false
same (x ∷ a) (y ∷ b) = (x == y) && same a b

pub same→eq : (a b : Bytes) → same a b ≡ true → a ≡ b
same→eq [] [] h = refl
same→eq [] (y ∷ b) h = cc
same→eq (x ∷ a) [] h = cc
same→eq (x ∷ a) (y ∷ b) h = ground (arith, same→eq a b)

pub same_refl : (a : Bytes) → same a a ≡ true
same_refl [] = refl
same_refl (x ∷ a) = ground (arith, same_refl a)
