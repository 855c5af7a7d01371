-- ===== src/Stream/Receive.antt =====
-- The read loop of `strm_recv_cb` in src/common/stream-transport.c adds what was read.
use iot_app_fw.Common.{
  ℕ, ◌+◌, ◌-◌, ◌^◌, ◌≤◌, ◌<◌, ◌≡◌, refl, sym, ap, ◌∙◌, true, Option, some, List, [], ◌∷◌, ◌++◌, inl,
  inr, arith, Bytes, leb, ltb, ◌==◌, length, Bool-cases, All, map, ==_refl, le→leb, is_some,
  length-append,
}
use mathlib.Core.List.{append_assoc, append-nil}
use iot_app_fw.Fragbuf.{Fragbuf, memory, content, write_at, ensure, alloc, trim, IsValid}
use iot_app_fw.Fragbuf.Push.{Ensured, ensure-Ensured, Appended, take-write_at, length-write_at}
use iot_app_fw.Stream.{got, again, Round, store, round_at, round, read_all}

-- What `iot_fragbuf_alloc` gives where it succeeds: `c` is the buffer before its `used` is raised.
record Allocated (b : Fragbuf) (n : ℕ) (o : Option ℕ × Fragbuf) : Type 0 where
  base : Fragbuf
  ensured : Ensured b base n
  at : o.0 ≡ some base.used
  raised : o.1 ≡ record base { used = base.used + n }

ensure_granted : (b : Fragbuf) (n : ℕ) → IsValid b → 0 < n → is_some (ensure true b n).0 ≡ true
unfolding ensure
ensure_granted b n v pos = ground (arith, v.sized, v.within)

alloc-Allocated :
    (b : Fragbuf) (n : ℕ) → IsValid b → b.used + n < 2 ^ 31 → 0 < n → Allocated b n (alloc true b n)
unfolding alloc
alloc-Allocated b n v h pos =
    let (e, g) = ensure-Ensured true b n v h (ensure_granted b n v pos) in
    let at : (ensure true b n).0 ≡ some (ensure true b n).1.used = e ∙ ap some (sym g.used) in
    record { base = (ensure true b n).1; ensured = g; at = rw at; raised = rw at }

store-Appended :
    (b c : Fragbuf) (n : ℕ) (v : Bytes)
    → Ensured b c n
    → length v ≤ n
    → Appended b (store (record c { used = c.used + n }) c.used n v) v
unfolding store trim
store-Appended b c n v g h =
    let w : Appended b
        (record c { bytes = some (write_at (memory c) c.used v); used = c.used + length v }) v =
      record {
        valid = record {
          within = omega (arith, g.room);
          sized =
              length-write_at (memory c) c.used v (omega (arith, g.valid.sized, g.room))
              ∙ g.valid.sized;
          int = g.valid.int;
        };
        framed = g.framed;
        added =
            take-write_at (memory c) c.used v (omega (arith, g.valid.sized, g.valid.within))
            ∙ ap (λ l. l ++ v) g.same;
        counted = ap (λ n. n + length v) g.used;
      } in
    elim (Bool-cases (ltb (length v) n)) [
      | inl t ↦
          let e : c.used + n - (n - length v) ≡ c.used + length v = omega arith in
          let q : (c.used + n == c.used + n) ≡ true = ==_refl (c.used + n) in
          let l : leb (length v) n ≡ true = le→leb (length v) n h in rw (t, q, l, e) w
      | inr t ↦ let e : n ≡ length v = ground arith in rw (t, e) w
    ]

-- A round in which `read` returns the bytes `v`, of which there are at most as many as announced.
abbrev pub reads : ℕ × Bytes → Round
reads (n, v) = record { pending = n; granted = true; outcome = got v }

abbrev pub IsRead : ℕ × Bytes → Type 0
IsRead (n, v) = (0 < n) × (length v ≤ n)

unfoldable pub announced : List (ℕ × Bytes) → ℕ
announced [] = 0
announced ((n, v) ∷ rs) = n + announced rs

unfoldable pub arrived : List (ℕ × Bytes) → Bytes
arrived [] = []
arrived ((n, v) ∷ rs) = v ++ arrived rs

round-Appended :
    (b : Fragbuf) (n : ℕ) (v : Bytes)
    → IsValid b
    → 0 < n
    → length v ≤ n
    → b.used + n < 2 ^ 31
    → (b' : Fragbuf) × (round b (reads (n, v)) ≡ some b') × Appended b b' v
unfolding round round_at
round-Appended b n v valid pos le fits =
    let a = alloc-Allocated b n valid fits pos in
    (
      store (record a.base { used = a.base.used + n }) a.base.used n v,
      rw (a.at, a.raised),
      store-Appended b a.base n v a.ensured le,
    )

-- After the read loop the content is the old content and all that was read, in order.
pub read_all-arrived :
    (b : Fragbuf) (rs : List (ℕ × Bytes))
    → IsValid b
    → All IsRead rs
    → b.used + announced rs < 2 ^ 31
    → (b' : Fragbuf) × (read_all b (map reads rs) ≡ some b') × Appended b b' (arrived rs)
unfolding read_all announced arrived
read_all-arrived b [] valid ok fits = (
  b,
  refl,
  record {
    valid = valid;
    framed = refl;
    added = sym (append-nil (content b));
    counted = omega arith;
  },
)
read_all-arrived b ((n, v) ∷ rs) valid ok fits =
    let (c, run, a) = round-Appended b n v valid ok.0.0 ok.0.1 (omega arith) in
    let (d, runs, a') = read_all-arrived c rs a.valid ok.1 (omega (arith, a.counted, ok.0.1)) in
    (
      d,
      rw (run, read_all) runs,
      record {
        valid = a'.valid;
        framed = a'.framed ∙ a.framed;
        added =
            a'.added ∙ ap (λ l. l ++ arrived rs) a.added ∙ append_assoc (content b) v (arrived rs);
        counted = omega (arith, a.counted, a'.counted, length-append v (arrived rs));
      },
    )

-- A `read` that fails with `EAGAIN` leaves the announced bytes in the buffer, though none of them
-- was read: as many bytes more count as content.
pub round_again :
    (b : Fragbuf) (n : ℕ)
    → IsValid b
    → 0 < n
    → b.used + n < 2 ^ 31
    → (b' : Fragbuf) × (round b (record { pending = n; granted = true; outcome = again }) ≡ some b')
      × (b'.used ≡ b.used + n)
unfolding round round_at
round_again b n valid pos fits =
    let a = alloc-Allocated b n valid fits pos in
    (record a.base { used = a.base.used + n }, rw (a.at, a.raised), ap (λ k. k + n) a.ensured.used)
