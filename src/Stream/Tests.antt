-- ===== src/Stream/Tests.antt =====
-- A connection over which two messages arrive in three pieces, and the theorems at it.
use iot_app_fw.Common.{ℕ, ◌≡◌, refl, true, List, [], ◌∷◌, arith, Bytes, codes, map}
use iot_app_fw.Fragbuf.{
  Fragbuf, content, write_at, be32, holds, ensure, alloc_at, alloc, trim, shift, pull_first,
  pull_frame, pull_next, pull,
}
use iot_app_fw.Fragbuf.Pull.{frame, be32_bytes, short}
use iot_app_fw.Stream.{
  waits, Reaction, goes_on, hand_on, store, round_at, round, read_all, pulled, drain, receive,
}
use iot_app_fw.Stream.Receive.{reads, announced, arrived}
use iot_app_fw.Stream.Delivery.{frames, Delivers, receive-frames}
use iot_app_fw.Stream.Session.{fresh, all_arrived, session, session_delivers}

all : Unit {0}
unfolding write_at be32 holds ensure alloc_at alloc trim shift pull_first pull_frame pull_next pull
    frame be32_bytes hand_on store round_at round read_all pulled drain receive announced arrived
    frames all_arrived session
all = tt

accept : Bytes → Reaction
accept m = goes_on

abbrev ab : Bytes
ab = codes "ab"

abbrev c : Bytes
c = codes "c"

-- the second `read` gets less than was announced
abbrev first : List (ℕ × Bytes)
first = (3, 0 ∷ 0 ∷ 0 ∷ []) ∷ (9, 2 ∷ b'a' ∷ []) ∷ []

abbrev second : List (ℕ × Bytes)
second = (7, b'b' ∷ 0 ∷ 0 ∷ 0 ∷ 1 ∷ b'c' ∷ []) ∷ []

session_runs : (b : Fragbuf) × (session accept fresh (first ∷ second ∷ []) ≡ waits (ab ∷ c ∷ []) b)
unfolding all accept
session_runs = (_, refl)

session_delivers_example :
    (b : Fragbuf) × (session accept fresh (first ∷ second ∷ []) ≡ waits (ab ∷ c ∷ []) b)
    × (content b ≡ [])
unfolding all accept
session_delivers_example =
    session_delivers accept 6 (first ∷ second ∷ []) (ab ∷ c ∷ []) (omega arith) (omega arith)
      (omega arith) (omega arith) (refl, (refl, tt)) refl

receive-frames_example :
    Delivers accept true
      (ab ∷ [])
      (0 ∷ [])
      (receive accept fresh (map reads ((9, 0 ∷ 0 ∷ 0 ∷ 2 ∷ b'a' ∷ b'b' ∷ 0 ∷ []) ∷ [])))
unfolding all accept
receive-frames_example =
    receive-frames accept fresh ((9, 0 ∷ 0 ∷ 0 ∷ 2 ∷ b'a' ∷ b'b' ∷ 0 ∷ []) ∷ []) (ab ∷ []) (0 ∷ [])
      (omega arith) refl (omega arith) (omega arith) (omega arith) (refl, tt) (short (omega arith))
      refl
