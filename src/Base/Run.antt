-- ===== src/Base/Run.antt =====
-- How a call ends: with a value, in an abort (a failed `assert`, or an access that C++ leaves
-- undefined), in `exit`, or with the model's fuel or its list of system call results used up.
use mathlib.Core.Path.{◌≡◌, refl}
use mathlib.Core.Bool.{Bool, true, false}
use mathlib.Core.Option.{Option, none, some}
use easy_reactor.Base.Tests.{if◌then◌else◌}

pub data Run {ℓ} (A : Type ℓ) : Type ℓ where
  ok : A → Run A
  abort exited starved : Run A

infixl 5 ◌>>=◌ ◌>>◌
abbrev pub ◌>>=◌ {ℓ κ} : {A : Type ℓ} {B : Type κ} → Run A → (A → Run B) → Run B
ok a >>= f = f a
abort >>= f = abort
exited >>= f = exited
starved >>= f = starved

abbrev pub ◌>>◌ {ℓ} : {B : Type ℓ} → Run (Unit {0}) → Run B → Run B
m >> k = m >>= λ _. k

-- `assert(b)`
abbrev pub assert : Bool → Run (Unit {0})
assert true = ok tt
assert false = abort

-- the pointer or the element that must be there
abbrev pub deref {ℓ} : {A : Type ℓ} → Option A → Run A
deref (some a) = ok a
deref none = abort

-- The call ends normally, with a value for which `P` holds.
pub data Gives {ℓ κ} {A : Type ℓ} (P : A → Type κ) : Run A → Type (ℓ ⊔ κ) where
  gives : {a : A} → P a → Gives P (ok a)

module _ {ℓ κ} {A : Type ℓ} {P : A → Type κ} where
  pub Gives-bind {ℓ' κ'} :
      {B : Type ℓ'} {Q : B → Type κ'} {r : Run A} {f : A → Run B}
      → Gives P r
      → ((a : A) → P a → Gives Q (f a))
      → Gives Q (r >>= f)
  Gives-bind (gives p) rest = rest _ p

  pub Gives-weaken {κ'} :
      {Q : A → Type κ'} {r : Run A} → Gives P r → ((a : A) → P a → Q a) → Gives Q r
  Gives-weaken (gives p) imp = gives (imp _ p)

  pub Gives-if :
      {x y : Run A} (b : Bool)
      → (b ≡ true → Gives P x)
      → (b ≡ false → Gives P y)
      → Gives P (if b then x else y)
  Gives-if true yes_case no_case = yes_case refl
  Gives-if false yes_case no_case = no_case refl

  -- where the end of the call is known
  pub Gives-ok : {a : A} → Gives P (ok a) → P a
  Gives-ok (gives p) = p

  -- the value that the call ends with
  pub Gives-value : {r : Run A} → Gives P r → (a : A) × (r ≡ ok a) × P a
  Gives-value (gives p) = (_, refl, p)

  -- with what the call ends with
  pub Gives-known : {r : Run A} → Gives P r → Gives (λ a. P a × (r ≡ ok a)) r
  Gives-known (gives p) = gives (p, refl)

  pub Gives-of_eq : {r : Run A} {a : A} → r ≡ ok a → P a → Gives P r
  Gives-of_eq e p = rw e (gives p)

  -- What a call that ends leads to, where that aborts.
  pub Gives-abort {ℓ'} :
      {B : Type ℓ'} {r : Run A} {f : A → Run B}
      → Gives P r
      → ((a : A) → P a → f a ≡ abort)
      → (r >>= f) ≡ abort
  Gives-abort (gives p) fails = fails _ p

-- What follows `deref`, where the element is there.
pub Gives-deref {ℓ ℓ' κ} :
    {A : Type ℓ} {B : Type ℓ'} {Q : B → Type κ} {a : A} (o : Option A) (f : A → Run B)
    → o ≡ some a
    → Gives Q (f a)
    → Gives Q (deref o >>= f)
Gives-deref o f e g = rw e g

-- What follows an `assert` that holds.
pub Gives-assert {ℓ κ} :
    {B : Type ℓ} {Q : B → Type κ} (b : Bool) (r : Run B)
    → b ≡ true
    → Gives Q r
    → Gives Q (assert b >> r)
Gives-assert b r e g = rw e g
