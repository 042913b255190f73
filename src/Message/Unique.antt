-- ===== src/Message/Unique.antt =====
-- A stream of bytes has one reading: the messages that tcp_conn::handle_read of src/tcp_conn.cc is to
-- find in it are determined.
use mathlib.Core.Bool.{false≢true}
use easy_reactor.Base.{
  arith, ap, sym, subst, ◌∙◌, ℕ, suc, ◌+◌, ◌≤◌, ◌<◌, ◌≡◌, refl, inl, inr, List, ◌∷◌, Option, none,
  some, Bool, true, false, length, take, drop,
}
use easy_reactor.Message.{CommuHead, is_malformed, read_head}
use easy_reactor.Message.Frames.{
  Frame, Ending, Refused, Parses, short_head, short_body, bad_head, message, head_length,
  Parses-total,
}

head_or : CommuHead → Option CommuHead → CommuHead
head_or h none = h
head_or h (some k) = k

same_head : (xs : List ℕ) (h k : CommuHead) → read_head xs ≡ some h → read_head xs ≡ some k → h ≡ k
unfolding head_or
same_head xs h k e f = ap (head_or h) (sym e ∙ f)

-- The reasons to end in front of a head, and to take its message, exclude each other.
module _ (known : ℕ → Bool) (xs : List ℕ) (h k : CommuHead) (same : h ≡ k) where
  part-Refused : is_malformed h.length ≡ false → length xs < 8 + h.length → Refused known xs k → ⊥
  part-Refused good part (inl bad) =
      false≢true (sym good ∙ ap (λ x. is_malformed x.length) same ∙ bad)
  part-Refused good part (inr (fine, whole, unknown)) = omega (arith, ap (λ x. x.length) same)

  part_taken : length xs < 8 + h.length → 8 + k.length ≤ length xs → ⊥
  part_taken part whole = omega (arith, ap (λ x. x.length) same)

  Refused-taken : Refused known xs h → is_malformed k.length ≡ false → known k.cmdid ≡ true → ⊥
  Refused-taken (inl bad) good mine =
      false≢true (sym good ∙ sym (ap (λ x. is_malformed x.length) same) ∙ bad)
  Refused-taken (inr (fine, whole, unknown)) good mine =
      false≢true (sym unknown ∙ ap (λ x. known x.cmdid) same ∙ mine)

no_head : (xs : List ℕ) (h : CommuHead) → length xs < 8 → read_head xs ≡ some h → ⊥
no_head xs h short at = omega (arith, head_length xs h at)

pub Parses-unique :
    (known : ℕ → Bool) {xs : List ℕ} {fs gs : List Frame} {e e' : Ending}
    → Parses known xs fs e
    → Parses known xs gs e'
    → (fs ≡ gs) × (e ≡ e')
Parses-unique known (short_head xs a) (short_head _ b) = (refl, refl)
Parses-unique known (short_head xs a) (short_body _ k at' good' part') = absurd (no_head xs k a at')
Parses-unique known (short_head xs a) (bad_head _ k at' bad') = absurd (no_head xs k a at')
Parses-unique known (short_head xs a) (message _ k at' good' whole' mine' q) =
    absurd (no_head xs k a at')
Parses-unique known (short_body xs h at good part) (short_head _ b) = absurd (no_head xs h b at)
Parses-unique known (short_body xs h at good part) (short_body _ k at' good' part') = (refl, refl)
Parses-unique known (short_body xs h at good part) (bad_head _ k at' bad') =
    absurd (part-Refused known xs h k (same_head xs h k at at') good part bad')
Parses-unique known (short_body xs h at good part) (message _ k at' good' whole' mine' q) =
    absurd (part_taken known xs h k (same_head xs h k at at') part whole')
Parses-unique known (bad_head xs h at bad) (short_head _ b) = absurd (no_head xs h b at)
Parses-unique known (bad_head xs h at bad) (short_body _ k at' good' part') =
    absurd (part-Refused known xs k h (same_head xs k h at' at) good' part' bad)
Parses-unique known (bad_head xs h at bad) (bad_head _ k at' bad') = (refl, refl)
Parses-unique known (bad_head xs h at bad) (message _ k at' good' whole' mine' q) =
    absurd (Refused-taken known xs h k (same_head xs h k at at') bad good' mine')
Parses-unique known (message xs h at good whole mine p) (short_head _ b) =
    absurd (no_head xs h b at)
Parses-unique known (message xs h at good whole mine p) (short_body _ k at' good' part') =
    absurd (part_taken known xs k h (same_head xs k h at' at) part' whole)
Parses-unique known (message xs h at good whole mine p) (bad_head _ k at' bad') =
    absurd (Refused-taken known xs k h (same_head xs k h at' at) bad' good mine)
Parses-unique known (message xs h {fs} at good whole mine p)
      (message _ k {fs = gs} {e = e'} at' good' whole' mine' q) =
    let same = same_head xs h k at at' in
    let (rest, end) =
      Parses-unique known p
        (subst (λ x. Parses known (drop x.length (drop 8 xs)) gs e') (sym same) q) in
    (
      ap (λ ms. record { cmdid = h.cmdid; body = take h.length (drop 8 xs) } ∷ ms) rest
          ∙ ap (λ x. record { cmdid = x.cmdid; body = take x.length (drop 8 xs) } ∷ gs) same,
      end,
    )

-- Every stream of bytes has exactly one reading: messages with known ids, in order, and an ending,
-- which is what is left to wait behind or the refusal of the next message.
pub Parses-exactly_one :
    (known : ℕ → Bool) (xs : List ℕ)
    → (fs : List Frame) × (e : Ending) × Parses known xs fs e
      × ((gs : List Frame) (e' : Ending) → Parses known xs gs e' → (gs ≡ fs) × (e' ≡ e))
Parses-exactly_one known xs =
    let (fs, e, p) = Parses-total known (suc (length xs)) xs (omega arith) in
    (fs, e, p, λ gs e' q. Parses-unique known q p)
