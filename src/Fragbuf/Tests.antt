-- ===== src/Fragbuf/Tests.antt =====
-- Runs of the fragment buffer, and its theorems at them.
use iot_app_fw.Common.{◌≡◌, refl, true, false, none, some, [], ◌∷◌, ◌++◌, arith, codes}
use iot_app_fw.Fragbuf.{
  Fragbuf, be32, create, push, trim, pull, shift, missing, IsValid, write_at, holds, ensure,
  push_at, pull_first, pull_frame, pull_next, walk,
}
use iot_app_fw.Fragbuf.Push.{Appended, push-Appended}
use iot_app_fw.Fragbuf.Pull.{frame, be32_bytes}

all : Unit {0}
unfolding create push trim pull shift missing be32 write_at holds ensure push_at pull_first
    pull_frame pull_next walk frame be32_bytes
all = tt

abbrev empty : Fragbuf
empty = record { bytes = none; size = 0; used = 0; framed = true }

create-empty : create true true true 0 ≡ some empty
unfolding all
create-empty = refl

-- a frame of three bytes, and one that is not complete
abbrev two : Fragbuf
two = record {
  bytes = some (0 ∷ 0 ∷ 0 ∷ 3 ∷ b'a' ∷ b'b' ∷ b'c' ∷ 0 ∷ 0 ∷ 0 ∷ 9 ∷ b'x' ∷ []);
  size = 12;
  used = 12;
  framed = true;
}

push-two : push true empty (frame (codes "abc") ++ (0 ∷ 0 ∷ 0 ∷ 9 ∷ b'x' ∷ [])) ≡ (true, two)
unfolding all
push-two = refl

pull-two : pull two none 0 ≡ some (record { ok = true; datap = some 4; sizep = 3; buf = two })
unfolding all
pull-two = refl

-- eight bytes of the second frame are missing, and the code says 2
missing-two : missing 100 two ≡ some 2
unfolding all
missing-two = refl

trim-two : trim two 7 5 2 ≡ (true, record two { used = 9 })
unfolding all
trim-two = refl

two-IsValid : IsValid two
two-IsValid = record { within = omega arith; sized = refl; int = omega arith }

push-Appended_example :
    ((push true two (codes "yz")).0 ≡ true
      → Appended two (push true two (codes "yz")).1 (codes "yz"))
    × ((push true two (codes "yz")).0 ≡ false → (push true two (codes "yz")).1 ≡ two)
push-Appended_example = push-Appended true two (codes "yz") two-IsValid (omega arith)

-- a first length with all but two of its bits set
abbrev endless : Fragbuf
endless = record { bytes = some (255 ∷ 255 ∷ 255 ∷ 252 ∷ []); size = 4; used = 4; framed = true }
