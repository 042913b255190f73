-- ===== src/Base/Lists/Nth.antt =====
-- Reads with a default, and what writes, exchanges and cuts do to them.
use Prim.Native.Nat.{ℕ, zero, suc, ◌<◌}
use mathlib.Core.Path.{◌≡◌, refl, ap, ◌∙◌}
use mathlib.Core.Option.{some}
use mathlib.Core.List.{
  Mem, mem-cons_self, mem-cons_of_mem, not-mem-nil, forall_mem-cons, List, [], ◌∷◌, ◌++◌, Perm,
  perm_middle, append-nil,
}
use mathlib.Core.List.Perm
use native.Mathlib.Omega.{arith}
use easy_reactor.Base.Tests.{◌==◌, if◌then◌else◌}
use easy_reactor.Base.Lists.{length, get_elem?, set, take, length-set}

module _ {ℓ} {A : Type ℓ} where
  unfoldable pub nth : A → List A → ℕ → A
  nth d [] i = d
  nth d (x ∷ xs) zero = x
  nth d (x ∷ xs) (suc i) = nth d xs i

  pub get_elem?-nth :
      (d : A) (xs : List A) (i : ℕ) → i < length xs → get_elem? xs i ≡ some (nth d xs i)
  unfolding nth
  get_elem?-nth d [] i h = absurd (omega arith)
  get_elem?-nth d (x ∷ xs) zero h = refl
  get_elem?-nth d (x ∷ xs) (suc i) h = get_elem?-nth d xs i (omega arith)

  pub nth-set :
      (d : A) (xs : List A) (i j : ℕ) (v : A)
      → i < length xs
      → nth d (set xs i v) j ≡ (if i == j then v else nth d xs j)
  unfolding nth
  nth-set d [] i j v h = absurd (omega arith)
  nth-set d (x ∷ xs) zero zero v h = refl
  nth-set d (x ∷ xs) (suc i) (suc j) v h = ground (arith, nth-set d xs i j v)
  nth-set d (x ∷ xs) i j v h = ground arith

  pub nth-append :
      (d : A) (xs ys : List A) (i : ℕ) → i < length xs → nth d (xs ++ ys) i ≡ nth d xs i
  unfolding nth
  nth-append d [] ys i h = absurd (omega arith)
  nth-append d (x ∷ xs) ys zero h = refl
  nth-append d (x ∷ xs) ys (suc i) h = nth-append d xs ys i (omega arith)

  pub nth-append_last : (d : A) (xs : List A) (x : A) → nth d (xs ++ x ∷ []) (length xs) ≡ x
  unfolding nth
  nth-append_last d [] x = refl
  nth-append_last d (y ∷ xs) x = nth-append_last d xs x

  pub nth-take : (d : A) (n : ℕ) (xs : List A) (i : ℕ) → i < n → nth d (take n xs) i ≡ nth d xs i
  unfolding nth
  nth-take d zero xs i h = absurd (omega arith)
  nth-take d (suc n) [] i h = refl
  nth-take d (suc n) (x ∷ xs) zero h = refl
  nth-take d (suc n) (x ∷ xs) (suc i) h = nth-take d n xs i (omega arith)

  pub take-nth_last :
      (d : A) (n : ℕ) (xs : List A) → length xs ≡ suc n → take n xs ++ nth d xs n ∷ [] ≡ xs
  unfolding nth
  take-nth_last d zero (x ∷ []) h = refl
  take-nth_last d (suc n) (x ∷ xs) h = ap (◌∷◌ x) (take-nth_last d n xs (omega arith))
  take-nth_last d n xs h = absurd (omega arith)

  pub perm_last : (xs : List A) (x : A) → Perm (xs ++ x ∷ []) (x ∷ xs)
  perm_last xs x = rw (append-nil xs) at (perm_middle {a = x} xs [])

  -- A write trades the old entry for the new one.
  pub set-perm :
      (d : A) (xs : List A) (i : ℕ) (v : A)
      → i < length xs
      → Perm (nth d xs i ∷ set xs i v) (v ∷ xs)
  unfolding nth
  set-perm d [] i v h = absurd (omega arith)
  set-perm d (x ∷ xs) zero v h = Perm.swap v x xs
  set-perm d (x ∷ xs) (suc i) v h =
      Perm.trans (Perm.swap x _ _)
        (Perm.trans (Perm.cons x (set-perm d xs i v (omega arith))) (Perm.swap v x xs))

  -- Two entries trade places.
  unfoldable pub exchange : A → List A → ℕ → ℕ → List A
  exchange d xs i j = set (set xs i (nth d xs j)) j (nth d xs i)

  pub length-exchange : (d : A) (xs : List A) (i j : ℕ) → length (exchange d xs i j) ≡ length xs
  unfolding exchange
  length-exchange d xs i j = simp length-set

  module _ (d : A) (xs : List A) (i j : ℕ) (hi : i < length xs) (hj : j < length xs) where
    pub nth-exchange :
        (c : ℕ)
        → nth d (exchange d xs i j) c
          ≡ (if j == c then nth d xs i else if i == c then nth d xs j else nth d xs c)
    unfolding exchange
    nth-exchange c = rw (
      nth-set d (set xs i (nth d xs j)) j c (nth d xs i) (rw length-set hj),
      nth-set d xs i c (nth d xs j) hi,
    )

    pub exchange-perm : Perm (exchange d xs i j) xs
    unfolding exchange
    exchange-perm =
        let ys = set xs i (nth d xs j) in
        let same : nth d ys j ≡ nth d xs j = ground (arith, nth-set d xs i j (nth d xs j)) in
        let second = rw same at (set-perm d ys j (nth d xs i) (rw length-set hj)) in
        Perm.cons_inv (Perm.trans second (set-perm d xs i (nth d xs j) hi))

  -- The last entry takes the place of entry `i`, and the end is cut off.
  unfoldable pub fill : A → List A → ℕ → ℕ → List A
  fill d xs i n = take n (set xs i (nth d xs n))

  module _ (d : A) (xs : List A) (i n : ℕ) (size : length xs ≡ suc n) (hi : i < suc n) where
    pub nth-fill :
        (c : ℕ) → c < n → nth d (fill d xs i n) c ≡ (if i == c then nth d xs n else nth d xs c)
    unfolding fill
    nth-fill c h =
        rw (nth-take d n (set xs i (nth d xs n)) c h) (nth-set d xs i c (nth d xs n) (omega arith))

    pub fill-perm : Perm (nth d xs i ∷ fill d xs i n) xs
    unfolding fill
    fill-perm =
        let ys = set xs i (nth d xs n) in
        let last : nth d ys n ≡ nth d xs n = ground (arith, nth-set d xs i n (nth d xs n)) in
        let cut = rw last at (take-nth_last d n ys (length-set xs i _ ∙ size)) in
        let whole : Perm (nth d xs n ∷ take n ys) ys =
          Perm.trans (Perm.symm (perm_last (take n ys) (nth d xs n))) (rw cut Perm.rfl) in
        Perm.cons_inv (
          Perm.trans (Perm.swap _ _ _) (
            Perm.trans (Perm.cons (nth d xs i) whole) (set-perm d xs i (nth d xs n) (omega arith))))

  pub nth-Mem : (d : A) (xs : List A) (i : ℕ) → i < length xs → Mem (nth d xs i) xs
  unfolding nth
  nth-Mem d [] i h = absurd (omega arith)
  nth-Mem d (x ∷ xs) zero h = mem-cons_self
  nth-Mem d (x ∷ xs) (suc i) h = mem-cons_of_mem x (nth-Mem d xs i (omega arith))

  -- What holds at every index holds of every member.
  pub forall_of_nth {κ} :
      (P : A → Type κ)
      → ((a : A) → IsProp (P a))
      → (d : A) (xs : List A) → ((i : ℕ) → i < length xs → P (nth d xs i))
      → (a : A) → Mem a xs
      → P a
  unfolding nth
  forall_of_nth P is_prop d [] h = λ a m. absurd (not-mem-nil m)
  forall_of_nth P is_prop d (x ∷ xs) h =
      (forall_mem-cons is_prop).1
        (h 0 (omega arith), forall_of_nth P is_prop d xs (λ i p. h (suc i) (omega arith)))

-- `P` holds of every member.
abbrev pub Each {ℓ κ} : {A : Type ℓ} → (A → Type κ) → List A → Type (ℓ ⊔ κ)
Each {A} P xs = (a : A) → Mem a xs → P a

module _ {ℓ κ} {A : Type ℓ} (P : A → Type κ) where
  pub Each-cons :
      ((a : A) → IsProp (P a)) → (x : A) (xs : List A) → P x → Each P xs → Each P (x ∷ xs)
  Each-cons is_prop x xs h hs = (forall_mem-cons is_prop).1 (h, hs)

  pub Each-perm : {xs ys : List A} → Perm xs ys → Each P ys → Each P xs
  Each-perm p h a m = h a ((Perm.mem_iff p).0 m)

  pub Each-nil : Each P []
  Each-nil a m = absurd (not-mem-nil m)
