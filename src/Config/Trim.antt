-- ===== src/Config/Trim.antt =====
-- trim, trimLeft and trimRight of src/config_reader.cc against what they are for.
use mathlib.Core.List.{reverse, reverse-cons, reverse-reverse, reverse-append, append_assoc}
use easy_reactor.Base.{
  take_all, sym, subst, inr, ◌∙◌, inl, Bool-cases, ap, ◌-◌, take, ◌≤◌, length-append, arith,
  if◌then◌else◌, ℕ, zero, suc, ◌≡◌, refl, [], ◌∷◌, ◌++◌, Bool, true, length,
}
use easy_reactor.Base.Text.{Bytes, AllTest, AllTest-append, StartsOff}
use easy_reactor.Config.{is_space, last_not_empty, trim_left, trim_right, trim}

-- The text behind the spaces at its front.
unfoldable pub strip : Bytes → Bytes
strip [] = []
strip (c ∷ s) = let rest = strip s in if is_space c then rest else c ∷ s

trim_left-strip : (s : Bytes) → trim_left s ≡ strip s
unfolding trim_left strip
trim_left-strip [] = refl
trim_left-strip (c ∷ s) = ground (arith, trim_left-strip s)

length-reverse : (s : Bytes) → length (reverse s) ≡ length s
length-reverse [] = refl
length-reverse (c ∷ s) =
    rw (reverse-cons c s, length-append (reverse s) (c ∷ [])) (omega (arith, length-reverse s))

last_not_empty-le : (s : Bytes) (n : ℕ) → last_not_empty s n ≤ n
unfolding last_not_empty
last_not_empty-le [] n = omega arith
last_not_empty-le (c ∷ s) n = ground (arith, last_not_empty-le s (n - 1))

take-append_le : (n : ℕ) (s t : Bytes) → n ≤ length s → take n (s ++ t) ≡ take n s
take-append_le zero s t h = refl
take-append_le (suc n) [] t h = absurd (omega arith)
take-append_le (suc n) (c ∷ s) t h = ap (◌∷◌ c) (take-append_le n s t (omega arith))

-- The loop of trimRight, on a text that is given from the end.
right-strip : (s : Bytes) → take (last_not_empty s (length s)) (reverse s) ≡ reverse (strip s)
unfolding last_not_empty strip
right-strip [] = refl
right-strip (c ∷ s) = elim (Bool-cases (is_space c)) [
  | inl e ↦
      let back : suc (length s) - 1 ≡ length s = omega arith in
      rw (e, back, reverse-cons c s)
        (take-append_le (last_not_empty s (length s)) (reverse s) (c ∷ [])
            (omega (arith, last_not_empty-le s (length s), length-reverse s))
          ∙ right-strip s)
  | inr e ↦ rw e (
      subst (λ n. take n (reverse (c ∷ s)) ≡ reverse (c ∷ s)) (length-reverse (c ∷ s))
        (take_all (reverse (c ∷ s))))
]

trim_right-strip : (s : Bytes) → trim_right s ≡ reverse (strip (reverse s))
unfolding trim_right
trim_right-strip s = rw (length-reverse s, reverse-reverse s) at (right-strip (reverse s))

-- The spaces that strip takes off.
strip_split :
    (s : Bytes)
    → (pre : Bytes) × AllTest is_space true pre
      × (s ≡ pre ++ strip s)
      × StartsOff is_space (strip s)
unfolding strip
strip_split [] = ([], tt, refl, tt)
strip_split (c ∷ s) = elim (Bool-cases (is_space c)) [
  | inl e ↦
      let (pre, spaces, same, clean) = strip_split s in
      rw e (c ∷ pre, (e, spaces), ap (◌∷◌ c) same, clean)
  | inr e ↦ rw e ([], tt, refl, e)
]

AllTest-reverse :
    (test : ℕ → Bool) (b : Bool) (s : Bytes) → AllTest test b s → AllTest test b (reverse s)
AllTest-reverse test b [] h = tt
AllTest-reverse test b (c ∷ s) (hc, h) =
    rw (reverse-cons c s)
      (AllTest-append test b (reverse s) (c ∷ []) (AllTest-reverse test b s h) (hc, tt))

StartsOff-append : (test : ℕ → Bool) (s t : Bytes) → StartsOff test (s ++ t) → StartsOff test s
StartsOff-append test [] t h = tt
StartsOff-append test (c ∷ s) t h = h

-- `t` is `s` without the spaces at its two ends, and has none there.
pub record Trims (s t : Bytes) : Type 0 where
  pub front : Bytes
  pub back : Bytes
  pub whole : s ≡ front ++ (t ++ back)
  pub front_spaces : AllTest is_space true front
  pub back_spaces : AllTest is_space true back
  pub starts : StartsOff is_space t
  pub ends : StartsOff is_space (reverse t)

-- trim takes spaces off the two ends, nothing else, and leaves none there.
pub trim_correct : (s : Bytes) → Trims s (trim s)
unfolding trim
trim_correct s =
    let r = reverse (strip (reverse s)) in
    let (back, back_spaces, back_whole, back_clean) = strip_split (reverse s) in
    let (front, front_spaces, front_whole, front_clean) = strip_split r in
    let same : trim s ≡ strip r = trim_left-strip (trim_right s) ∙ ap strip (trim_right-strip s) in
    let split : s ≡ r ++ reverse back =
      sym (reverse-reverse s) ∙ ap reverse back_whole ∙ reverse-append back (strip (reverse s)) in
    rw same (record {
      front = front;
      back = reverse back;
      whole =
          split
          ∙ ap (λ u. u ++ reverse back) front_whole
          ∙ append_assoc front (strip r) (reverse back);
      front_spaces = front_spaces;
      back_spaces = AllTest-reverse is_space true back back_spaces;
      starts = front_clean;
      ends = StartsOff-append is_space (reverse (strip r)) (reverse front) (
          subst (StartsOff is_space)
            (sym (reverse-reverse (strip (reverse s)))
              ∙ ap reverse front_whole
              ∙ reverse-append front (strip r))
            back_clean);
    })

strip_clean : (s : Bytes) → StartsOff is_space s → strip s ≡ s
unfolding strip
strip_clean [] h = refl
strip_clean (c ∷ s) h = rw h refl

-- A text without spaces at its ends stays.
pub trim_clean : (s : Bytes) → StartsOff is_space s → StartsOff is_space (reverse s) → trim s ≡ s
unfolding trim
trim_clean s starts ends =
    trim_left-strip (trim_right s)
    ∙ ap strip (trim_right-strip s ∙ ap reverse (strip_clean (reverse s) ends) ∙ reverse-reverse s)
    ∙ strip_clean s starts
