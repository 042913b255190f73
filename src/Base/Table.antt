-- ===== src/Base/Table.antt =====
-- `hash_map` as a function: the value of a key, or `none` for a key that is missing.
use Prim.Native.Nat.{ℕ}
use mathlib.Core.Option.{Option, none, some}
use easy_reactor.Base.Tests.{◌==◌, if◌then◌else◌}

abbrev pub Table {ℓ} : Type ℓ → Type ℓ
Table A = ℕ → Option A

module _ {ℓ} {A : Type ℓ} where
  abbrev pub empty : Table A
  empty k = none

  -- `m[key] = value`
  abbrev pub insert : Table A → ℕ → A → Table A
  insert m key value k = if key == k then some value else m k

  -- `m.erase(key)`
  abbrev pub erase : Table A → ℕ → Table A
  erase m key k = if key == k then none else m k
