-- ===== src/Mask/Bits.antt =====
-- Single bits of the masks of src/common/mask.h: setting, clearing, testing and growing.
use iot_app_fw.Common.{
  eq_of_some, ℕ, zero, suc, ◌+◌, ◌-◌, ◌*◌, ◌/◌, ◌%◌, ◌≤◌, ◌<◌, ◌≡◌, ◌≢◌, refl, sym, ap, ◌∙◌, Bool,
  true, false, some, List, [], ◌∷◌, ◌++◌, arith, leb, ltb, ◌==◌, inl, inr, ◌⊎◌, if◌then◌else◌,
  length, get_or, set, replicate, All, Bool-cases, Option-cases, length-append, length-replicate,
  length-set, get_or-set_self, get_or-set_ne,
}
use mathlib.Core.Path.{subst}
use mathlib.Core.Option.{none-ne-some}
use iot_app_fw.Mask.{
  Word, clear_word, Mask, nword, bit_of, write_bit, init, grow, set_in, set_bit, clear_bit, test,
  copy_words, copied, copy, IsMask,
}

All-get_or {ℓ κ} :
    {A : Type ℓ} (P : A → Type κ) (xs : List A) (i : ℕ) (d : A) → All P xs → P d → P (get_or xs i d)
All-get_or P [] i d h k = k
All-get_or P (x ∷ xs) zero d h k = h.0
All-get_or P (x ∷ xs) (suc i) d h k = All-get_or P xs i d h.1 k

All-set {ℓ κ} :
    {A : Type ℓ} (P : A → Type κ) (xs : List A) (i : ℕ) (v : A)
    → All P xs
    → P v
    → All P (set xs i v)
All-set P [] i v h k = tt
All-set P (x ∷ xs) zero v h k = (k, h.1)
All-set P (x ∷ xs) (suc i) v h k = (h.0, All-set P xs i v h.1 k)

All-append_intro {ℓ κ} :
    {A : Type ℓ} (P : A → Type κ) (xs ys : List A) → All P xs → All P ys → All P (xs ++ ys)
All-append_intro P [] ys h k = k
All-append_intro P (x ∷ xs) ys h k = (h.0, All-append_intro P xs ys h.1 k)

All-replicate {ℓ κ} : {A : Type ℓ} (P : A → Type κ) (n : ℕ) (a : A) → P a → All P (replicate n a)
All-replicate P zero a h = tt
All-replicate P (suc n) a h = (h, All-replicate P n a h)

get_or-append_default {ℓ} :
    {A : Type ℓ} (xs : List A) (n i : ℕ) (d : A) → get_or (xs ++ replicate n d) i d ≡ get_or xs i d
get_or-append_default [] zero i d = refl
get_or-append_default [] (suc n) zero d = refl
get_or-append_default [] (suc n) (suc i) d = get_or-append_default [] n i d
get_or-append_default (x ∷ xs) n zero d = refl
get_or-append_default (x ∷ xs) n (suc i) d = get_or-append_default xs n i d

abbrev pub Whole : List Word → Type 0
Whole ws = All (λ w. length w ≡ 64) ws

pub bit_of-write_bit :
    (ws : List Word) (b c : ℕ) (v : Bool)
    → Whole ws
    → b < 64 * length ws
    → bit_of (write_bit ws b v) c ≡ (if c == b then v else bit_of ws c)
unfolding bit_of write_bit
bit_of-write_bit ws b c v whole inside =
    let w : Word = get_or ws (b / 64) clear_word in
    let w' : Word = set w (b % 64) v in
    let size : length w ≡ 64 = All-get_or (λ x. length x ≡ 64) ws (b / 64) clear_word whole refl in
    let here : get_or (set ws (b / 64) w') (b / 64) clear_word ≡ w' =
      get_or-set_self ws (b / 64) w' clear_word (omega arith) in
    elim (Bool-cases (c / 64 == b / 64)) [
      | inr t ↦
          let other : b / 64 ≢ c / 64 = ground arith in
          let ne : (c == b) ≡ false = ground arith in
          rw (get_or-set_ne ws (b / 64) (c / 64) w' clear_word other, ne)
      | inl t ↦
          let same : c / 64 ≡ b / 64 = ground arith in
          rw (same, here)
            (elim (Bool-cases (c % 64 == b % 64)) [
              | inl s ↦
                  let eq : c % 64 ≡ b % 64 = ground arith in
                  let all : (c == b) ≡ true = ground arith in
                  rw (eq, all) (get_or-set_self w (b % 64) v false (omega arith))
              | inr s ↦
                  let other : b % 64 ≢ c % 64 = ground arith in
                  let ne : (c == b) ≡ false = ground arith in
                  rw ne (get_or-set_ne w (b % 64) (c % 64) v false other)
            ])
    ]

pub Whole-write_bit : (ws : List Word) (b : ℕ) (v : Bool) → Whole ws → Whole (write_bit ws b v)
unfolding write_bit
Whole-write_bit ws b v h =
    All-set (λ x. length x ≡ 64) ws (b / 64) _ h
      (length-set (get_or ws (b / 64) clear_word) (b % 64) v
        ∙ All-get_or (λ x. length x ≡ 64) ws (b / 64) clear_word h refl)

length-write_bit : (ws : List Word) (b : ℕ) (v : Bool) → length (write_bit ws b v) ≡ length ws
unfolding write_bit
length-write_bit ws b v = length-set ws (b / 64) _

-- In a mask a bit is what its word says.
pub test-bit_of : (m : Mask) (b : ℕ) → IsMask m → test m b ≡ bit_of m.words b
unfolding test
test-bit_of m b v = ground (arith, v.clean b)

pub bit_of-init : (b : ℕ) → bit_of init.words b ≡ false
unfolding init bit_of
bit_of-init b =
    ap (λ w. get_or w (b % 64) false) (get_or-append_default [] 1 (b / 64) clear_word)
    ∙ get_or-append_default [] 64 (b % 64) false

pub init-IsMask : IsMask init
unfolding init
init-IsMask = record { count = refl; whole = (refl, tt); clean = λ b h. bit_of-init b }

pub record Grown (m m' : Mask) (nbit : ℕ) : Type 0 where
  pub mask : IsMask m'
  pub same : (b : ℕ) → bit_of m'.words b ≡ bit_of m.words b
  pub room : nword nbit ≤ nword m'.nbit

abbrev widened : Mask → ℕ → Mask
widened m nbit = record m {
  nbit = nbit;
  words = m.words ++ replicate (nword nbit - nword m.nbit) clear_word;
}

grow-cases :
    (granted : Bool) (m m' : Mask) (nbit : ℕ)
    → grow granted m nbit ≡ some m'
    → ((m' ≡ m) × (nword nbit ≤ nword m.nbit))
      ⊎ ((m' ≡ widened m nbit) × (nword m.nbit < nword nbit))
unfolding grow
grow-cases granted m m' nbit e = elim (Bool-cases (leb (nword nbit) (nword m.nbit))) [
  | inl t ↦ inl (ground arith, ground arith)
  | inr t ↦ inr (ground arith, ground arith)
]

widened-Grown :
    (m : Mask) (nbit : ℕ) → IsMask m → nword m.nbit < nword nbit → Grown m (widened m nbit) nbit
unfolding bit_of
widened-Grown m nbit v h =
    let same : (b : ℕ) → bit_of (widened m nbit).words b ≡ bit_of m.words b = λ b.
      ap (λ w. get_or w (b % 64) false)
        (get_or-append_default m.words (nword nbit - nword m.nbit) (b / 64) clear_word) in
    record {
      mask = record {
        count =
            length-append m.words (replicate (nword nbit - nword m.nbit) clear_word)
            ∙ omega (arith, v.count, length-replicate (nword nbit - nword m.nbit) clear_word);
        whole =
            All-append_intro (λ w. length w ≡ 64) m.words _ v.whole
              (All-replicate (λ w. length w ≡ 64) (nword nbit - nword m.nbit) clear_word refl);
        clean = λ b l. same b ∙ v.clean b (omega arith);
      };
      same = same;
      room = omega arith;
    }

pub grow-Grown :
    (granted : Bool) (m m' : Mask) (nbit : ℕ)
    → IsMask m
    → grow granted m nbit ≡ some m'
    → Grown m m' nbit
grow-Grown granted m m' nbit v e = elim (grow-cases granted m m' nbit e) [
  | inl (same, room) ↦
      subst (λ x. Grown m x nbit) (sym same) (record { mask = v; same = λ b. refl; room = room })
  | inr (wide, room) ↦ subst (λ x. Grown m x nbit) (sym wide) (widened-Grown m nbit v room)
]

set_in-bit :
    (g : Mask) (b : ℕ)
    → IsMask g
    → nword (b + 1) ≤ nword g.nbit
    → (m : Mask) × (set_in b (some g) ≡ some m)
      × IsMask m
      × ((c : ℕ) → bit_of m.words c ≡ (if c == b then true else bit_of g.words c))
unfolding set_in
set_in-bit g b v room =
    let bits = λ (c : ℕ). bit_of-write_bit g.words b c true v.whole (omega (arith, v.count)) in
    (
      _,
      refl,
      record {
        count = length-write_bit g.words b true ∙ v.count ∙ ground arith;
        whole = Whole-write_bit g.words b true v.whole;
        clean = λ c h. bits c ∙ ground (arith, v.clean c);
      },
      bits,
    )

-- Where `iot_mask_set` succeeds on a mask, the result is a mask in which the bit is set, and every
-- other bit tests as before, also if words had to be added.
pub test-set_bit :
    (granted : Bool) (m m' : Mask) (b : ℕ)
    → IsMask m
    → set_bit granted m b ≡ some m'
    → IsMask m' × ((c : ℕ) → test m' c ≡ (if c == b then true else test m c))
unfolding set_bit set_in
test-set_bit granted m m' b v e = elim (Option-cases (grow granted m (b + 1))) [
  | inl n ↦ absurd (none-ne-some m' (sym (ap (set_in b) n) ∙ e))
  | inr (g, n) ↦
      let w = grow-Grown granted m g (b + 1) v n in
      let (r, run, mask, bits) = set_in-bit g b w.mask w.room in
      let same : r ≡ m' = eq_of_some (sym run ∙ sym (ap (set_in b) n) ∙ e) in
      subst (λ x. IsMask x × ((c : ℕ) → test x c ≡ (if c == b then true else test m c))) same
        (
          mask,
          λ c.
              test-bit_of r c mask
              ∙ bits c
              ∙ ap (λ x. if c == b then true else x) (w.same c ∙ sym (test-bit_of m c v)),
        )
]

test_beyond : (m : Mask) (b : ℕ) → ltb m.nbit (b + 1) ≡ true → test m b ≡ false
unfolding test
test_beyond m b t = rw t

clear_within :
    (m : Mask) (b : ℕ)
    → IsMask m
    → b < m.nbit
    → (r : Mask) → r ≡ record m { words = write_bit m.words b false }
    → IsMask r × ((c : ℕ) → test r c ≡ (if c == b then false else test m c))
clear_within m b v h r e =
    let bits = λ (c : ℕ). bit_of-write_bit m.words b c false v.whole (omega (arith, v.count)) in
    let mask : IsMask (record m { words = write_bit m.words b false }) = record {
      count = length-write_bit m.words b false ∙ v.count;
      whole = Whole-write_bit m.words b false v.whole;
      clean = λ c l. bits c ∙ ground (arith, v.clean c);
    } in
    subst (λ x. IsMask x × ((c : ℕ) → test x c ≡ (if c == b then false else test m c))) (sym e)
      (
        mask,
        λ c.
            test-bit_of (record m { words = write_bit m.words b false }) c mask
            ∙ bits c
            ∙ ap (λ x. if c == b then false else x) (sym (test-bit_of m c v)),
      )

-- `iot_mask_clear` gives a mask in which the bit is clear, and every other bit tests as before.
pub test-clear_bit :
    (m : Mask) (b : ℕ)
    → IsMask m
    → IsMask (clear_bit m b)
      × ((c : ℕ) → test (clear_bit m b) c ≡ (if c == b then false else test m c))
unfolding clear_bit
test-clear_bit m b v = elim (Bool-cases (ltb m.nbit (b + 1))) [
  | inl t ↦ rw t (v, λ c. ground (arith, test_beyond m b t))
  | inr t ↦ clear_within m b v (ground arith) _ (rw t)
]

copy_words_all : (n : ℕ) (s d : List Word) → length s ≡ n → length d ≡ n → copy_words n s d ≡ d
unfolding copy_words
copy_words_all zero [] [] h k = refl
copy_words_all zero [] (y ∷ d) h k = absurd (omega arith)
copy_words_all zero (x ∷ s) d h k = absurd (omega arith)
copy_words_all (suc n) [] d h k = absurd (omega arith)
copy_words_all (suc n) (x ∷ s) [] h k = absurd (omega arith)
copy_words_all (suc n) (x ∷ s) (y ∷ d) h k =
    ap (λ l. y ∷ l) (copy_words_all n s d (omega arith) (omega arith))

-- Between masks of one size `iot_mask_copy` leaves the destination as it is, and writes the
-- destination's words over the source's.
pub copy_backwards :
    (granted : Bool) (dst src : Mask)
    → IsMask dst
    → IsMask src
    → src.nbit ≡ dst.nbit
    → copy granted dst src ≡ (true, dst, record src { words = dst.words })
unfolding copy copied
copy_backwards granted dst src d s e =
    let n1 : ltb dst.nbit src.nbit ≡ false = ground arith in
    let n2 : ltb src.nbit dst.nbit ≡ false = ground arith in
    let w : copy_words (nword src.nbit) src.words dst.words ≡ dst.words =
      copy_words_all (nword src.nbit) src.words dst.words s.count (omega (arith, d.count)) in
    rw (n1, n2, w)
