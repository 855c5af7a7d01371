-- ===== src/Requests/Conserved.antt =====
-- The pending requests of src/app/app.c: each request that was sent is pending or was completed once.
use iot_app_fw.Common.{
  ℕ, suc, ◌+◌, ◌≡◌, refl, sym, ap, ◌∙◌, Bool, true, false, Option, none, some, List, [], ◌∷◌, ◌++◌,
  map, ◌==◌, not, if◌then◌else◌, arith, eq_of_some,
}
use iot_app_fw.Requests.{Body, subscribes, sends, lists, Pending, Info, Done}
use iot_app_fw.Requests.Replies.{
  Wire, Extracted, extracted, invalid, unset, extract_applist, finish_with, finish_list,
  finish_body, is_for, Notified, notified, undefined, keep, add_done, notify_from,
}

abbrev pub count : ℕ → List ℕ → ℕ
count s [] = 0
count s (x ∷ xs) = if x == s then suc (count s xs) else count s xs

abbrev pub waiting : ℕ → List Pending → ℕ
waiting s ps = count s (map (λ p. p.seqno) ps)

abbrev pub completed : ℕ → List Done → ℕ
completed s ds = count s (map (λ d. d.seqno) ds)

pub count-append : (s : ℕ) (xs ys : List ℕ) → count s (xs ++ ys) ≡ count s xs + count s ys
count-append s [] ys = omega arith
count-append s (x ∷ xs) ys = ground (arith, count-append s xs ys)

pub completed-append :
    (s : ℕ) (ds es : List Done) → completed s (ds ++ es) ≡ completed s ds + completed s es
completed-append s [] es = omega arith
completed-append s (d ∷ ds) es = ground (arith, completed-append s ds es)

pub waiting-append :
    (s : ℕ) (ps qs : List Pending) → waiting s (ps ++ qs) ≡ waiting s ps + waiting s qs
waiting-append s [] qs = omega arith
waiting-append s (p ∷ ps) qs = ground (arith, waiting-append s ps qs)

-- The requests that a reply is not for.
abbrev pub others : Option ℕ → List Pending → List Pending
others k [] = []
others k (p ∷ ps) = if is_for k p.seqno then others k ps else p ∷ others k ps

-- What `pending_notify` makes of the queue: the requests that the reply is not for are pending, in their
-- order, and each of the rest is completed once.
abbrev pub Splits : Option ℕ → List Pending → Notified → Type 0
Splits k ps (notified qs ds) =
    (qs ≡ others k ps) × ((s : ℕ) → waiting s ps ≡ waiting s qs + completed s ds)
Splits k ps undefined = Unit

Splits-keep :
    (k : Option ℕ) (p : Pending) (ps : List Pending) (n : Notified)
    → is_for k p.seqno ≡ false
    → Splits k ps n
    → Splits k (p ∷ ps) (keep p n)
Splits-keep k p ps undefined e h = tt
Splits-keep k p ps (notified qs ds) e (h, c) = (
  ap (λ t. p ∷ t) h ∙ sym (ap (λ b. if b then others k ps else p ∷ others k ps) e),
  λ s. ground (arith, c s),
)

Splits-add :
    (k : Option ℕ) (p : Pending) (ps : List Pending) (d : Done) (n : Notified)
    → is_for k p.seqno ≡ true
    → d.seqno ≡ p.seqno
    → Splits k ps n
    → Splits k (p ∷ ps) (add_done d n)
Splits-add k p ps d undefined e q h = tt
Splits-add k p ps d (notified qs ds) e q (h, c) =
    (h ∙ sym (ap (λ b. if b then others k ps else p ∷ others k ps) e), λ s. ground (arith, c s, q))

-- A completed request keeps its number.
abbrev Numbered : Pending → Option (Done × ℕ) → Type 0
Numbered p o = (d : Done) (st : ℕ) → o ≡ some (d, st) → d.seqno ≡ p.seqno

finish_with-Numbered : (p : Pending) (st : ℕ) (is : List Info) → Numbered p (finish_with p st is)
finish_with-Numbered p st is d t e = ap (λ x. (x.0).seqno) (sym (eq_of_some e))

Numbered-if :
    (b : Bool) (p : Pending) (x y : Option (Done × ℕ))
    → Numbered p x
    → Numbered p y
    → Numbered p (if b then x else y)
Numbered-if true p x y hx hy = hx
Numbered-if false p x y hx hy = hy

finish_list-Numbered : (p : Pending) (x : Extracted) → Numbered p (finish_list p x)
unfolding finish_list
finish_list-Numbered p (extracted is) = finish_with-Numbered p 0 is
finish_list-Numbered p (invalid e) = finish_with-Numbered p e []
finish_list-Numbered p unset = λ d st e. absurd (cc)

finish_body-Numbered :
    (left : ℕ) (b : Body) (p : Pending) (st : ℕ) (w : Option (List (Option Wire)))
    → Numbered p (finish_body left b p st w)
unfolding finish_body
finish_body-Numbered left (subscribes es) p st w = finish_with-Numbered p st []
finish_body-Numbered left (sends e d t) p st w = finish_with-Numbered p st []
finish_body-Numbered left (lists running) p st w =
    Numbered-if (not p.called) p none
      (if not (st == 0) then finish_with p st [] else finish_list p (extract_applist left w))
      (λ d t e. absurd (cc))
      (Numbered-if (not (st == 0)) p (finish_with p st []) (finish_list p (extract_applist left w))
        (finish_with-Numbered p st []) (finish_list-Numbered p (extract_applist left w)))

pub notify_from-Splits :
    (left : ℕ) (k : Option ℕ) (st : ℕ) (w : Option (List (Option Wire))) (ps : List Pending)
    → Splits k ps (notify_from left k st w ps)
unfolding notify_from
notify_from-Splits left k st w [] = (refl, λ s. omega arith)
notify_from-Splits left k st w (p ∷ ps) =
    at (λ t. notify_from-Splits left k t w ps) (is_for k p.seqno) refl
  where
    go :
        ((t : ℕ) → Splits k ps (notify_from left k t w ps))
        → is_for k p.seqno ≡ true
        → (o : Option (Done × ℕ)) → Numbered p o
        → Splits k
            (p ∷ ps)
            (elim o [ none ↦ undefined | some (d, t) ↦ add_done d (notify_from left k t w ps) ])
    go r e none n = tt
    go r e (some (d, t)) n = Splits-add k p ps d (notify_from left k t w ps) e (n d t refl) (r t)

    at :
        ((t : ℕ) → Splits k ps (notify_from left k t w ps))
        → (b : Bool) → is_for k p.seqno ≡ b
        → Splits k (p ∷ ps) (
            if not b
            then keep p (notify_from left k st w ps)
            else elim (finish_body left p.body p st w) [
              | none ↦ undefined
              | some (d, t) ↦ add_done d (notify_from left k t w ps)
            ])
    at r true e = go r e (finish_body left p.body p st w) (finish_body-Numbered left p.body p st w)
    at r false e = Splits-keep k p ps (notify_from left k st w ps) e (r st)
