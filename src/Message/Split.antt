-- ===== src/Message/Split.antt =====
-- Streams that come in parts: what tcp_conn::handle_read of src/tcp_conn.cc is to find in a part, and
-- in what follows it.
use mathlib.Core.Bool.{false≢true}
use easy_reactor.Base.{
  Bool, arith, ap, sym, subst, ◌∙◌, ℕ, zero, suc, ◌+◌, ◌≤◌, ◌≡◌, refl, inl, inr, Bool, List, [],
  ◌∷◌, ◌++◌, some, true, false, length, length-append, take, drop, length-drop,
}
use easy_reactor.Message.{CommuHead, is_malformed, read_head}
use easy_reactor.Message.Frames.{
  Frame, Ending, waits, refuses, Parses, short_head, short_body, bad_head, message, head_length,
  Parses-total,
}
use easy_reactor.Message.Unique.{Parses-unique}

drop-append_le : (n : ℕ) (xs ys : List ℕ) → n ≤ length xs → drop n (xs ++ ys) ≡ drop n xs ++ ys
drop-append_le zero xs ys h = refl
drop-append_le (suc n) [] ys h = absurd (omega arith)
drop-append_le (suc n) (x ∷ xs) ys h = drop-append_le n xs ys (omega arith)

take-append_le : (n : ℕ) (xs ys : List ℕ) → n ≤ length xs → take n (xs ++ ys) ≡ take n xs
take-append_le zero xs ys h = refl
take-append_le (suc n) [] ys h = absurd (omega arith)
take-append_le (suc n) (x ∷ xs) ys h = ap (◌∷◌ x) (take-append_le n xs ys (omega arith))

-- A head is read from the first eight bytes.
pub read_head-append :
    (xs ys : List ℕ) (h : CommuHead) → read_head xs ≡ some h → read_head (xs ++ ys) ≡ some h
unfolding read_head
read_head-append (a ∷ b ∷ c ∷ d ∷ e ∷ f ∷ g ∷ h ∷ rest) ys hd at = at
read_head-append xs ys hd at = absurd (omega (arith, head_length xs hd at))

-- A message that is complete stays the first one, whatever is behind it.
message-append :
    (known : ℕ → Bool) (xs ys : List ℕ) (h : CommuHead) {gs : List Frame} {e : Ending}
    → read_head xs ≡ some h
    → is_malformed h.length ≡ false
    → 8 + h.length ≤ length xs
    → known h.cmdid ≡ true
    → Parses known (drop h.length (drop 8 xs) ++ ys) gs e
    → Parses known (xs ++ ys) (record { cmdid = h.cmdid; body = take h.length (drop 8 xs) } ∷ gs) e
message-append known xs ys h {gs} {e} at good whole mine p =
    let n = h.length in
    let behind : drop 8 (xs ++ ys) ≡ drop 8 xs ++ ys = drop-append_le 8 xs ys (omega arith) in
    let inside : n ≤ length (drop 8 xs) = omega (arith, length-drop 8 xs) in
    let body : take n (drop 8 (xs ++ ys)) ≡ take n (drop 8 xs) =
      ap (take n) behind ∙ take-append_le n (drop 8 xs) ys inside in
    let left : drop n (drop 8 (xs ++ ys)) ≡ drop n (drop 8 xs) ++ ys =
      ap (drop n) behind ∙ drop-append_le n (drop 8 xs) ys inside in
    subst (λ b. Parses known (xs ++ ys) (record { cmdid = h.cmdid; body = b } ∷ gs) e) body
      (message (xs ++ ys) h (read_head-append xs ys h at) good (omega (arith, length-append xs ys))
        mine (subst (λ zs. Parses known zs gs e) (sym left) p))

-- More bytes do not undo a refusal.
refuses-append :
    (known : ℕ → Bool) {xs : List ℕ} {fs : List Frame} (ys : List ℕ)
    → Parses known xs fs refuses
    → Parses known (xs ++ ys) fs refuses
refuses-append known ys (bad_head xs h at (inl bad)) =
    bad_head (xs ++ ys) h (read_head-append xs ys h at) (inl bad)
refuses-append known ys (bad_head xs h at (inr (good, whole, unknown))) =
    bad_head (xs ++ ys) h (read_head-append xs ys h at)
      (inr (good, omega (arith, length-append xs ys), unknown))
refuses-append known ys (message xs h at good whole mine p) =
    message-append known xs ys h at good whole mine (refuses-append known ys p)

-- The messages of a part, and then those of what it leaves over with the bytes behind it.
waits-append :
    (known : ℕ → Bool) {xs rest : List ℕ} {fs gs : List Frame} {e : Ending} (ys : List ℕ)
    → Parses known xs fs (waits rest)
    → Parses known (rest ++ ys) gs e
    → Parses known (xs ++ ys) (fs ++ gs) e
waits-append known ys (short_head xs short) q = q
waits-append known ys (short_body xs h at good short) q = q
waits-append known ys (message xs h at good whole mine p) q =
    message-append known xs ys h at good whole mine (waits-append known ys p q)

-- What is waited behind, of an ending.
unfoldable pub left_of : Ending → List ℕ
left_of (waits rest) = rest
left_of refuses = []

is_waiting : Ending → Bool
is_waiting (waits rest) = true
is_waiting refuses = false

-- A stream that ends with bytes to wait behind, read in two parts.
pub Parses-split :
    (known : ℕ → Bool) (xs ys : List ℕ) (fs : List Frame) (rest : List ℕ)
    → Parses known (xs ++ ys) fs (waits rest)
    → (first : List Frame) × (left : List ℕ) × (second : List Frame) × Parses known xs first
        (waits left)
      × Parses known (left ++ ys) second (waits rest)
      × (fs ≡ first ++ second)
unfolding is_waiting left_of
Parses-split known xs ys fs rest p =
    let (first, e, q) = Parses-total known (suc (length xs)) xs (omega arith) in go first e q
  where
    go :
        (first : List Frame) (e : Ending)
        → Parses known xs first e
        → (first : List Frame) × (left : List ℕ) × (second : List Frame) × Parses known xs first
            (waits left)
          × Parses known (left ++ ys) second (waits rest)
          × (fs ≡ first ++ second)
    go first refuses q =
        absurd
          (false≢true (ap is_waiting (sym (Parses-unique known p (refuses-append known ys q)).1)))
    go first (waits left) q =
        let (second, e, r) =
          Parses-total known (suc (length (left ++ ys))) (left ++ ys) (omega arith) in
        let (same, end) = Parses-unique known p (waits-append known ys q r) in
        (first, left, second, q, subst (Parses known (left ++ ys) second) (sym end) r, same)
