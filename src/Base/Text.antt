-- ===== src/Base/Text.antt =====
-- Texts as lists of bytes: equality, search for a byte, and splits by a test.
use Prim.Native.Nat.{ℕ, suc}
use mathlib.Core.Path.{◌≡◌, refl, ap, ◌∙◌}
use mathlib.Core.Bool.{Bool, true, false, not, ◌&&◌}
use mathlib.Core.Logic.{◌⊎◌, inl, inr}
use mathlib.Core.Option.{Option, none, some}
use mathlib.Core.List.{List, [], ◌∷◌, ◌++◌}
use native.Mathlib.Omega.{arith}
use easy_reactor.Base.Tests.{Bool-cases, ◌==◌, if◌then◌else◌}
use easy_reactor.Base.Lists.{length}

abbrev pub Bytes : Type 0
Bytes = List ℕ

unfoldable pub equal : Bytes → Bytes → Bool
equal [] [] = true
equal (x ∷ xs) (y ∷ ys) = (x == y) && equal xs ys
equal _ _ = false

pub equal_refl : (s : Bytes) → equal s s ≡ true
unfolding equal
equal_refl [] = refl
equal_refl (x ∷ s) = ground (arith, equal_refl s)

pub eq_of_equal : (s t : Bytes) → equal s t ≡ true → s ≡ t
unfolding equal
eq_of_equal [] [] h = refl
eq_of_equal (x ∷ s) (y ∷ t) h =
    let (same, rest) : (x ≡ y) × (equal s t ≡ true) = ground arith in
    ap (λ c. c ∷ s) same ∙ ap (◌∷◌ y) (eq_of_equal s t rest)
eq_of_equal [] (y ∷ t) h = cc
eq_of_equal (x ∷ s) [] h = cc

pub equal-cases : (s t : Bytes) → ((equal s t ≡ true) × (s ≡ t)) ⊎ (equal s t ≡ false)
equal-cases s t = elim (Bool-cases (equal s t)) [
  | inl same ↦ inl (same, eq_of_equal s t same)
  | inr other ↦ inr other
]

-- A map from texts, as a function.
abbrev pub TextMap : Type 0 → Type 0
TextMap A = Bytes → Option A

abbrev pub put : {A : Type 0} → TextMap A → Bytes → A → TextMap A
put m key value k = if equal key k then some value else m k

-- The index of the first byte that passes the test.
unfoldable pub index_of : (ℕ → Bool) → Bytes → Option ℕ
index_of test [] = none
index_of test (c ∷ s) =
    if test c then some 0 else elim (index_of test s) [ none ↦ none | some i ↦ some (suc i) ]

-- The test gives `b` for every byte.
abbrev pub AllTest : (ℕ → Bool) → Bool → Bytes → Type 0
AllTest test b [] = Unit {0}
AllTest test b (c ∷ s) = (test c ≡ b) × AllTest test b s

pub AllTest-append :
    (test : ℕ → Bool) (b : Bool) (s t : Bytes)
    → AllTest test b s
    → AllTest test b t
    → AllTest test b (s ++ t)
AllTest-append test b [] t h k = k
AllTest-append test b (c ∷ s) t (hc, h) k = (hc, AllTest-append test b s t h k)

pub index_of-none : (test : ℕ → Bool) (s : Bytes) → AllTest test false s → index_of test s ≡ none
unfolding index_of
index_of-none test [] h = refl
index_of-none test (c ∷ s) (hc, h) = rw (hc, index_of-none test s h) refl

pub index_of-append :
    (test : ℕ → Bool) (s : Bytes) (c : ℕ) (t : Bytes)
    → AllTest test false s
    → test c ≡ true
    → index_of test (s ++ c ∷ t) ≡ some (length s)
unfolding index_of
index_of-append test [] c t h hit = rw hit refl
index_of-append test (x ∷ s) c t (hx, h) hit = rw (hx, index_of-append test s c t h hit) refl

-- The first byte, if there is one, fails the test.
abbrev pub StartsOff : (ℕ → Bool) → Bytes → Type 0
StartsOff test [] = Unit {0}
StartsOff test (c ∷ s) = test c ≡ false

-- The bytes at the front for which the test gives `b`, and the others.
pub record Span (test : ℕ → Bool) (b : Bool) (s : Bytes) : Type 0 where
  pub front : Bytes
  pub rest : Bytes
  pub whole : s ≡ front ++ rest
  pub all : AllTest test b front
  pub stops : (rest ≡ []) ⊎ ((c : ℕ) × (t : Bytes) × (rest ≡ c ∷ t) × (test c ≡ not b))

pub Span-total : (test : ℕ → Bool) (b : Bool) (s : Bytes) → Span test b s
Span-total test b [] = record { front = []; rest = []; whole = refl; all = tt; stops = inl refl }
Span-total test b (c ∷ s) =
    let later = Span-total test b s in
    elim (same-cases (test c) b) [
      | inl e ↦ record {
        front = c ∷ later.front;
        rest = later.rest;
        whole = ap (◌∷◌ c) later.whole;
        all = (e, later.all);
        stops = later.stops;
      }
      | inr e ↦ record {
        front = [];
        rest = c ∷ s;
        whole = refl;
        all = tt;
        stops = inr (c, s, refl, e);
      }
    ]
  where
    same-cases : (a b : Bool) → (a ≡ b) ⊎ (a ≡ not b)
    same-cases true true = inl refl
    same-cases false false = inl refl
    same-cases true false = inr refl
    same-cases false true = inr refl
