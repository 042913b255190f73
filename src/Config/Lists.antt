-- ===== src/Config/Lists.antt =====
-- GetStringList of src/config_reader.cc against the words of the text.
use mathlib.Core.List.{append_assoc, append-nil}
use easy_reactor.Base.{
  inr, inl, sym, ap, subst, ◌∙◌, inr, sym, subst, inl, ap, ◌∙◌, take-append, length-append, arith,
  drop-append, ℕ, zero, suc, ◌+◌, ◌-◌, ◌<◌, ◌≡◌, refl, List, [], ◌∷◌, ◌++◌, none, some, Bool, true,
  false, not, length, take, drop,
}
use easy_reactor.Base.Run.{ok}
use easy_reactor.Base.Text.{Span-total, Bytes, AllTest, index_of, index_of-none, index_of-append}
use easy_reactor.Config.{ConfigReader, is_sep, find_from, split_loop, get_string, get_string_list}

-- `s` is these words, with separators between them and perhaps behind them.
pub data Words : Bytes → List Bytes → Type 0 where
  last_word : (w : Bytes) → AllTest is_sep false w → Words w (w ∷ [])
  closed_word :
      (w : Bytes) (c : ℕ) (gap : Bytes)
      → AllTest is_sep false w
      → AllTest is_sep true (c ∷ gap)
      → Words (w ++ c ∷ gap) (w ∷ [])
  word :
      (w : Bytes) (c : ℕ) (gap : Bytes) (d : ℕ) (rest : Bytes) {ws : List Bytes}
      → AllTest is_sep false w
      → AllTest is_sep true (c ∷ gap)
      → is_sep d ≡ false
      → Words (d ∷ rest) ws
      → Words (w ++ (c ∷ gap ++ d ∷ rest)) (w ∷ ws)

flip : (b : Bool) (s : Bytes) → AllTest is_sep b s → AllTest (λ c. not (is_sep c)) (not b) s
flip b [] h = tt
flip b (c ∷ s) (hc, h) = (rw hc refl, flip b s h)

-- The search from the length of what stands before.
find_from-append :
    (test : ℕ → Bool) (front s : Bytes) (i : ℕ)
    → index_of test s ≡ some i
    → find_from test (front ++ s) (length front) ≡ some (length front + i)
unfolding find_from
find_from-append test front s i e = rw (drop-append front s, e, find_from) refl

find_from-none :
    (test : ℕ → Bool) (front s : Bytes)
    → index_of test s ≡ none
    → find_from test (front ++ s) (length front) ≡ none
unfolding find_from
find_from-none test front s e = rw (drop-append front s, e, find_from) refl

-- The same, from the length of two texts that stand before.
find_from-append2 :
    (test : ℕ → Bool) (front w s : Bytes) (i : ℕ)
    → index_of test s ≡ some i
    → find_from test (front ++ (w ++ s)) (length front + length w)
      ≡ some (length front + length w + i)
find_from-append2 test front w s i e =
    rw (append_assoc front w s, length-append front w) at (find_from-append test (front ++ w) s i e)

find_from-none2 :
    (test : ℕ → Bool) (front w s : Bytes)
    → index_of test s ≡ none
    → find_from test (front ++ (w ++ s)) (length front + length w) ≡ none
find_from-none2 test front w s e =
    rw (append_assoc front w s, length-append front w) at (find_from-none test (front ++ w) s e)

-- The word that a round cuts out.
cut_word :
    (front w s : Bytes)
    → take (length front + length w - length front) (drop (length front) (front ++ (w ++ s))) ≡ w
cut_word front w s =
    let size : length front + length w - length front ≡ length w = omega arith in
    rw (size, drop-append front (w ++ s)) (take-append w s)

-- The loop, from the text `front` on, which is behind it.
split_loop_runs :
    (fuel : ℕ) (front s : Bytes) (v : List Bytes) {ws : List Bytes}
    → length s < fuel
    → Words s ws
    → split_loop fuel (front ++ s) (length front) v ≡ ok (v ++ ws)
unfolding split_loop
split_loop_runs zero front s v lt words = absurd (omega arith)
split_loop_runs (suc fuel) front s v lt (last_word _ plain) =
    rw
      (
        find_from-none is_sep front s (index_of-none is_sep s plain),
        split_loop,
        drop-append front s,
      )
      refl
split_loop_runs (suc fuel) front s v lt (closed_word w c gap plain (hc, seps)) =
    let test : ℕ → Bool = λ c. not (is_sep c) in
    rw
      (
        find_from-append is_sep front (w ++ c ∷ gap) (length w)
            (index_of-append is_sep w c gap plain hc),
        split_loop,
        find_from-none2 test front w (c ∷ gap)
            (index_of-none test (c ∷ gap) (flip true (c ∷ gap) (hc, seps))),
        split_loop,
        cut_word front w (c ∷ gap),
      )
      refl
split_loop_runs (suc fuel) front s v lt (word w c gap d rest {ws} plain (hc, seps) hd words) =
    let test : ℕ → Bool = λ c. not (is_sep c) in
    let behind = (c ∷ gap) ++ d ∷ rest in
    let front' = (front ++ w) ++ (c ∷ gap) in
    let size : length front' ≡ length front + length w + length (c ∷ gap) =
      length-append (front ++ w) (c ∷ gap)
      ∙ ap (λ n. n + length (c ∷ gap)) (length-append front w) in
    let whole : front' ++ d ∷ rest ≡ front ++ (w ++ behind) =
      append_assoc (front ++ w) (c ∷ gap) (d ∷ rest) ∙ append_assoc front w behind in
    let later =
      split_loop_runs fuel front' (d ∷ rest) (v ++ w ∷ [])
        (omega (arith, length-append w behind, length-append (c ∷ gap) (d ∷ rest))) words in
    rw
      (
        find_from-append is_sep front (w ++ behind) (length w)
            (index_of-append is_sep w c (gap ++ d ∷ rest) plain hc),
        split_loop,
        find_from-append2 test front w behind (length (c ∷ gap))
            (index_of-append test (c ∷ gap) d rest (flip true (c ∷ gap) (hc, seps)) (rw hd refl)),
        split_loop,
        cut_word front w behind,
      )
      (rw (whole, size, append_assoc v (w ∷ []) ws) at later)

-- GetStringList of a value that is some words, with commas, spaces and tabs between them and perhaps
-- behind them, gives exactly these words, in order.
pub get_string_list_correct :
    (c : ConfigReader) (section key : Bytes) (ws : List Bytes)
    → Words (get_string c section key []) ws
    → get_string_list c section key ≡ ok ws
unfolding get_string_list
get_string_list_correct c section key ws words =
    let str = get_string c section key [] in
    split_loop_runs (length str + 1) [] str [] (omega arith) words

-- Every text is some words.
Words-total : (n : ℕ) (s : Bytes) → length s < n → (ws : List Bytes) × Words s ws
Words-total zero s lt = absurd (omega arith)
Words-total (suc n) s lt =
    let first = Span-total is_sep false s in
    elim first.stops [
      | inl end ↦ (
        first.front ∷ [],
        subst (λ t. Words t (first.front ∷ []))
            (sym (first.whole ∙ ap (◌++◌ first.front) end ∙ append-nil first.front))
            (last_word first.front first.all),
      )
      | inr (c, t, e, hit) ↦
          let gap = Span-total is_sep true t in
          elim gap.stops [
            | inl end ↦
                let back : t ≡ gap.front =
                  gap.whole ∙ ap (◌++◌ gap.front) end ∙ append-nil gap.front in
                (
                  first.front ∷ [],
                  subst (λ u. Words u (first.front ∷ []))
                      (sym (first.whole ∙ ap (◌++◌ first.front) (e ∙ ap (◌∷◌ c) back)))
                      (closed_word first.front c gap.front first.all (hit, gap.all)),
                )
            | inr (d, u, f, miss) ↦
                let behind : s ≡ first.front ++ ((c ∷ gap.front) ++ d ∷ u) =
                  first.whole
                  ∙ ap (◌++◌ first.front) (e ∙ ap (◌∷◌ c) (gap.whole ∙ ap (◌++◌ gap.front) f)) in
                let (ws, words) = Words-total n (d ∷ u) (
                  omega (
                    arith,
                    ap length behind,
                    length-append first.front ((c ∷ gap.front) ++ d ∷ u),
                    length-append (c ∷ gap.front) (d ∷ u),
                  )) in
                (
                  first.front ∷ ws,
                  subst (λ v. Words v (first.front ∷ ws)) (sym behind)
                      (word first.front c gap.front d u first.all (hit, gap.all) miss words),
                )
          ]
    ]

-- GetStringList ends for every value, with its words.
pub get_string_list_total :
    (c : ConfigReader) (section key : Bytes)
    → (ws : List Bytes) × Words (get_string c section key []) ws
      × (get_string_list c section key ≡ ok ws)
get_string_list_total c section key =
    let str = get_string c section key [] in
    let (ws, words) = Words-total (length str + 1) str (omega arith) in
    (ws, words, get_string_list_correct c section key ws words)
