-- ===== src/Launcher/Cgroup/Tasks.antt =====
-- Which processes `cgroup_signal` of src/launcher/daemon/cgroup.c signals.
use iot_app_fw.Common.{
  ℕ, zero, suc, ◌+◌, ◌-◌, ◌*◌, ◌/◌, ◌%◌, ◌<◌, ◌≤◌, ◌≡◌, refl, sym, ap, ◌∙◌, Bool, true, false, List,
  [], ◌∷◌, ◌++◌, Bytes, codes, ltb, ◌==◌, if◌then◌else◌, length, take, replicate, arith, lt→ltb,
  lt→leb,
}
use iot_app_fw.Launcher.Cgroup.{
  path_max, digits, decimal, scan, Read, got, interrupted, tries, cgroup_signal,
}

digits-append : (fuel n : ℕ) (s t : Bytes) → digits fuel n (s ++ t) ≡ digits fuel n s ++ t
unfolding digits
digits-append zero n s t = refl
digits-append (suc fuel) n s t = at (ltb n 10) (digits-append fuel (n / 10) ((48 + n % 10) ∷ s) t)
  where
    at :
        (b : Bool)
        → digits fuel (n / 10) ((48 + n % 10) ∷ (s ++ t))
          ≡ digits fuel (n / 10) ((48 + n % 10) ∷ s) ++ t
        → (if b then (48 + n % 10) ∷ (s ++ t) else digits fuel (n / 10) ((48 + n % 10) ∷ (s ++ t)))
          ≡ (if b then (48 + n % 10) ∷ s else digits fuel (n / 10) ((48 + n % 10) ∷ s)) ++ t
    at true h = refl
    at false h = h

scan_digit : (p d : ℕ) (s : Bytes) → d < 10 → scan p ((48 + d) ∷ s) ≡ scan (p * 10 + d) s
unfolding scan
scan_digit p d s h =
    ap
      (λ b.
        if b then [] else if 48 + d == 10 then p ∷ scan 0 s else scan (p * 10 + (48 + d) - 48) s)
      nul
    ∙ ap (λ b. if b then p ∷ scan 0 s else scan (p * 10 + (48 + d) - 48) s) newline
    ∙ ap (λ n. scan n s) value
  where
    nul : (48 + d == 0) ≡ false
    nul = ground arith

    newline : (48 + d == 10) ≡ false
    newline = ground arith

    value : p * 10 + (48 + d) - 48 ≡ p * 10 + d
    value = omega arith

scan-digits : (fuel n : ℕ) (s : Bytes) → n < fuel → scan 0 (digits fuel n s) ≡ scan n s
unfolding digits
scan-digits zero n s h = absurd (omega arith)
scan-digits (suc fuel) n s h =
    at (ltb n 10) refl (λ g. scan-digits fuel (n / 10) ((48 + n % 10) ∷ s) g)
  where
    small : n < 10 → 0 * 10 + n % 10 ≡ n
    small g = omega arith

    whole : n / 10 * 10 + n % 10 ≡ n
    whole = omega arith

    rest : n % 10 < 10
    rest = omega arith

    at :
        (b : Bool)
        → ltb n 10 ≡ b
        → (n / 10 < fuel
            → scan 0 (digits fuel (n / 10) ((48 + n % 10) ∷ s)) ≡ scan (n / 10) ((48 + n % 10) ∷ s))
        → scan 0 (if b then (48 + n % 10) ∷ s else digits fuel (n / 10) ((48 + n % 10) ∷ s))
          ≡ scan n s
    at true e k = scan_digit 0 (n % 10) s rest ∙ ap (λ m. scan m s) (small (ground (arith, e)))
    at false e k =
        k (ground (arith, e, h)) ∙ scan_digit (n / 10) (n % 10) s rest ∙ ap (λ m. scan m s) whole

-- The text of a tasks file: the process ids in decimal, a line each.
abbrev pub tasks : List ℕ → Bytes
tasks [] = []
tasks (p ∷ ps) = decimal p ++ 10 ∷ tasks ps

scan_line : (p : ℕ) (t : Bytes) → scan p (10 ∷ t) ≡ p ∷ scan 0 t
unfolding scan
scan_line p t = refl

scan-tasks : (ps : List ℕ) → scan 0 (tasks ps) ≡ ps
unfolding scan
scan-tasks [] = refl
scan-tasks (p ∷ ps) =
    ap (scan 0) (sym (digits-append (suc p) p [] (10 ∷ tasks ps)))
    ∙ scan-digits (suc p) p (10 ∷ tasks ps) (omega arith)
    ∙ scan_line p (tasks ps)
    ∙ ap (λ qs. p ∷ qs) (scan-tasks ps)

tries-got :
    (ps : List ℕ) (rs : List Read)
    → length (tasks ps) < 4095
    → tries (got (tasks ps) ∷ rs) ≡ (true, ps)
unfolding tries
tries-got ps rs h =
    ap
      (λ b.
        if b then (true, scan 0 (tasks ps)) else ((tries rs).0, scan 0 (tasks ps) ++ (tries rs).1))
      (lt→ltb (length (tasks ps)) 4095 h)
    ∙ ap (λ qs. (true, qs)) (scan-tasks ps)

tries-interrupted :
    (n : ℕ) (r : Read) (rs : List Read)
    → n ≤ 2
    → tries (take 3 (replicate n interrupted ++ r ∷ rs)) ≡ tries (r ∷ take (2 - n) rs)
unfolding tries
tries-interrupted zero r rs h = refl
tries-interrupted (suc zero) r rs h = refl
tries-interrupted (suc (suc zero)) r rs h = refl
tries-interrupted (suc (suc (suc n))) r rs h = absurd (omega arith)

-- Where the path of the tasks file is short enough, and the file is read whole in one of three tries
-- after reads that were interrupted, `cgroup_signal` succeeds and signals exactly the processes that
-- the file lists, in their order.
pub cgroup_signal-tasks :
    (cgdir dir : Bytes) (ps : List ℕ) (n : ℕ) (rs : List Read)
    → length (cgdir ++ b'/' ∷ (dir ++ codes "/tasks")) < path_max
    → length (tasks ps) < 4095
    → n ≤ 2
    → cgroup_signal cgdir dir (replicate n interrupted ++ got (tasks ps) ∷ rs) ≡ (true, ps)
unfolding cgroup_signal
cgroup_signal-tasks cgdir dir ps n rs short fits few =
    ap
      (λ b.
        if b then (false, []) else tries (take 3 (replicate n interrupted ++ got (tasks ps) ∷ rs)))
      (lt→leb path_max (length (cgdir ++ b'/' ∷ (dir ++ codes "/tasks"))) short)
    ∙ tries-interrupted n (got (tasks ps)) rs few
    ∙ tries-got ps (take (2 - n) rs) fits
