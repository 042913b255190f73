-- ===== src/Memory.antt =====
-- Arrays of bytes: `memcpy`, `memmove` and what is read from them.
use easy_reactor.Base.{
  ℕ, zero, suc, ◌+◌, ◌-◌, ◌≤◌, ◌<◌, ◌≡◌, refl, ap, List, [], ◌∷◌, ◌++◌, arith, ◌==◌, if◌then◌else◌,
  length, drop,
}

-- The bytes at an address, by their offset.
abbrev pub Memory : Type 0
Memory = ℕ → ℕ

-- `memcpy(mem + off, xs, xs.length)`
unfoldable pub store : Memory → ℕ → List ℕ → Memory
store mem off [] i = mem i
store mem off (x ∷ xs) i = if i == off then x else store mem (off + 1) xs i

-- The `n` bytes at `mem + off`.
unfoldable pub span : Memory → ℕ → ℕ → List ℕ
span mem off zero = []
span mem off (suc n) = mem off ∷ span mem (off + 1) n

pub length-span : (mem : Memory) (off n : ℕ) → length (span mem off n) ≡ n
unfolding span
length-span mem off zero = refl
length-span mem off (suc n) = ap suc (length-span mem (off + 1) n)

span_ext :
    (f g : Memory) (off n : ℕ)
    → ((i : ℕ) → off ≤ i → i < off + n → f i ≡ g i)
    → span f off n ≡ span g off n
unfolding span
span_ext f g off zero h = refl
span_ext f g off (suc n) h =
    rw (h off (omega arith) (omega arith))
      (ap (◌∷◌ (g off)) (span_ext f g (off + 1) n λ i p q. h i (omega arith) (omega arith)))

store_below : (mem : Memory) (off : ℕ) (xs : List ℕ) (i : ℕ) → i < off → store mem off xs i ≡ mem i
unfolding store
store_below mem off [] i h = refl
store_below mem off (x ∷ xs) i h = ground (arith, store_below mem (off + 1) xs i)

-- What is stored is what is read back.
pub span-store :
    (mem : Memory) (off : ℕ) (xs : List ℕ) → span (store mem off xs) off (length xs) ≡ xs
unfolding store span
span-store mem off [] = refl
span-store mem off (x ∷ xs) =
    rw
      (span_ext (store mem off (x ∷ xs)) (store mem (off + 1) xs) (off + 1) (length xs)
        (λ i p q. ground arith))
      (ground (arith, span-store mem (off + 1) xs))

-- A store behind the bytes that are read does not show.
pub span-store_behind :
    (mem : Memory) (off n at : ℕ) (xs : List ℕ)
    → off + n ≤ at
    → span (store mem at xs) off n ≡ span mem off n
span-store_behind mem off n at xs h =
    span_ext (store mem at xs) mem off n (λ i p q. store_below mem at xs i (omega arith))

pub span-append :
    (mem : Memory) (off m n : ℕ) → span mem off (m + n) ≡ span mem off m ++ span mem (off + m) n
unfolding span
span-append mem off zero n =
    let a : 0 + n ≡ n = omega arith in let b : off + 0 ≡ off = omega arith in rw (a, b)
span-append mem off (suc m) n =
    let a : suc m + n ≡ suc (m + n) = omega arith in
    let b : off + suc m ≡ off + 1 + m = omega arith in
    rw (a, b) (ap (◌∷◌ (mem off)) (span-append mem (off + 1) m n))

pub drop-span :
    (mem : Memory) (off n k : ℕ) → k ≤ n → drop k (span mem off n) ≡ span mem (off + k) (n - k)
unfolding span
drop-span mem off n zero h =
    let a : off + 0 ≡ off = omega arith in let b : n - 0 ≡ n = omega arith in rw (a, b)
drop-span mem off zero (suc k) h = absurd (omega arith)
drop-span mem off (suc n) (suc k) h =
    let a : off + suc k ≡ off + 1 + k = omega arith in
    let b : suc n - suc k ≡ n - k = omega arith in
    rw (a, b) (drop-span mem (off + 1) n k (omega arith))
