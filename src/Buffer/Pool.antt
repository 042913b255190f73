-- ===== src/Buffer/Pool.antt =====
-- buffer_pool of src/io_buffer.cc: what alloc lends and revert takes back.
use mathlib.Core.List.{mem-cons_self, mem-cons_of_mem}
use easy_reactor.Base.{
  subst, sym, eq-cases, ℕ, ◌+◌, ◌/◌, ◌≤◌, ◌<◌, ◌≡◌, refl, inl, inr, List, [], ◌∷◌, Option, none,
  some, arith, leb, Option-cases,
}
use easy_reactor.Base.Lists.Nth.{Each-nil, Each, Each-cons}
use easy_reactor.Base.Run.{Gives, gives, Gives-if}
use easy_reactor.Base.Table.{Table, insert}
use easy_reactor.Memory.{Memory}
use easy_reactor.Buffer.{
  IoBuffer, BufferPool, new_buffer, size_class, take_buffer, alloc, revert, buffer_clear, u8m,
  extra_mem_limit,
}

-- A capacity that the pool deals in.
abbrev pub IsClass : ℕ → Type 0
IsClass k = size_class k ≡ some k

-- A buffer of a class, with its bytes inside.
pub record IsWhole (b : IoBuffer) : Type 0 where
  pub class : IsClass b.capacity
  pub inside : b.head + b.length ≤ b.capacity

-- What lies in the chain of class `k`: empty buffers of that class.
pub record IsIdle (k : ℕ) (b : IoBuffer) : Type 0 where
  pub capacity : b.capacity ≡ k
  pub length : b.length ≡ 0
  pub head : b.head ≡ 0

pub record IsValid (p : BufferPool) : Type 0 where
  pub stocked : (k : ℕ) → IsClass k → (l : List IoBuffer) × (p.pool k ≡ some l)
  pub clean : (k : ℕ) (l : List IoBuffer) → p.pool k ≡ some l → Each (IsIdle k) l

-- One more buffer can be made without reaching the limit.
abbrev pub HasRoom : BufferPool → Type 0
HasRoom p = p.total_mem + 8192 < extra_mem_limit

pub size_class_bounds :
    (n k : ℕ) → size_class n ≡ some k → (n ≤ k) × (k ≤ u8m) × IsClass k × (4096 ≤ k)
unfolding size_class
size_class_bounds n k e = ground arith

pub size_class-none : (n : ℕ) → size_class n ≡ none → u8m < n
unfolding size_class
size_class-none n e = ground arith

pub size_class-some : (n : ℕ) → n ≤ u8m → (k : ℕ) × (size_class n ≡ some k)
size_class-some n h = elim (Option-cases (size_class n)) [
  | inl e ↦ absurd (omega (arith, size_class-none n e))
  | inr found ↦ found
]

pub IsIdle-prop : (k : ℕ) (b : IoBuffer) → IsProp (IsIdle k b)
IsIdle-prop k b = hlevel

-- A buffer as alloc lends it for `n` bytes.
pub record IsFresh (n : ℕ) (b : IoBuffer) : Type 0 where
  pub room : n ≤ b.capacity
  pub class : size_class n ≡ some b.capacity
  pub length : b.length ≡ 0
  pub head : b.head ≡ 0

-- NULL only for more than 8 MB, with the pool untouched; else a fresh buffer, and the pool valid,
-- its total grown by that buffer's size or not at all.
abbrev pub Lent : BufferPool → ℕ → Option IoBuffer × BufferPool → Type 0
Lent p n (none, q) = (u8m < n) × (q ≡ p)
Lent p n (some b, q) =
    IsFresh n b
    × IsValid q
    × (p.total_mem ≤ q.total_mem)
    × (q.total_mem ≤ p.total_mem + b.capacity / 1024)

-- What lies in each chain of a table fits it.
abbrev pub IsClean : Table (List IoBuffer) → Type 0
IsClean t = (k : ℕ) (l : List IoBuffer) → t k ≡ some l → Each (IsIdle k) l

pub insert-IsClean :
    (t : Table (List IoBuffer)) (k : ℕ) (l : List IoBuffer)
    → IsClean t
    → Each (IsIdle k) l
    → IsClean (insert t k l)
insert-IsClean t k l clean idle j m at = elim (eq-cases k j) [
  | inl same ↦ let lm : m ≡ l = ground (arith, at) in rw (lm, ← same) idle
  | inr other ↦ clean j m (ground (arith, at))
]

pub insert-IsValid :
    (p q : BufferPool) (k : ℕ) (l : List IoBuffer)
    → IsValid p
    → Each (IsIdle k) l
    → q.pool ≡ insert p.pool k l
    → IsValid q
insert-IsValid p q k l v idle e = record {
  stocked = λ j class. rw e (elim (eq-cases k j) [
    | inl same ↦ (l, ground arith)
    | inr other ↦ let (m, at) = v.stocked j class in (m, ground arith)
  ]);
  clean = subst IsClean (sym e) (insert-IsClean p.pool k l v.clean idle);
}

take_buffer-Lent :
    (found : Memory) (p : BufferPool) (n k : ℕ) (l : List IoBuffer)
    → IsValid p
    → HasRoom p
    → size_class n ≡ some k
    → p.pool k ≡ some l
    → Gives (Lent p n) (take_buffer found p k l)
unfolding take_buffer new_buffer
take_buffer-Lent found p n k [] v room e at =
    let (fits, most, class, least) = size_class_bounds n k e in
    Gives-if (leb extra_mem_limit (p.total_mem + k / 1024)) (λ over. absurd (ground arith))
      λ _. gives (
        record { room = fits; class = e; length = refl; head = refl },
        insert-IsValid p _ k [] v (Each-nil _) refl,
        omega arith,
        omega arith,
      )
take_buffer-Lent found p n k (b ∷ l) v room e at =
    let (fits, most, class, least) = size_class_bounds n k e in
    let idle = v.clean k (b ∷ l) at in
    let own = idle b mem-cons_self in
    gives (
      record {
        room = omega (arith, own.capacity);
        class = rw own.capacity e;
        length = own.length;
        head = own.head;
      },
      insert-IsValid p _ k l v (λ x m. idle x (mem-cons_of_mem b m)) refl,
      omega arith,
      omega arith,
    )

-- buffer_pool::alloc, with room for one more buffer in the pool: NULL, and the pool as it was, only
-- for more than 8 MB; else an empty buffer of the smallest class that holds `n` bytes, and a valid
-- pool.
pub alloc_correct :
    (found : Memory) (p : BufferPool) (n : ℕ)
    → IsValid p
    → HasRoom p
    → Gives (Lent p n) (alloc found p n)
unfolding alloc
alloc_correct found p n v room = elim (Option-cases (size_class n)) [
  | inl e ↦ rw (e, alloc) (gives (size_class-none n e, refl))
  | inr (k, e) ↦
      let (l, at) = v.stocked k (size_class_bounds n k e).2 in
      rw (e, alloc, at) (take_buffer-Lent found p n k l v room e at)
]

-- What revert does to a whole buffer: it lies first in its chain, emptied, and nothing else changes.
pub record Reverted (p : BufferPool) (b : IoBuffer) (q : BufferPool) : Type 0 where
  pub valid : IsValid q
  pub total : q.total_mem ≡ p.total_mem
  pub first :
      (l : List IoBuffer) × (p.pool b.capacity ≡ some l)
      × (q.pool ≡ insert p.pool b.capacity (record b { length = 0; head = 0 } ∷ l))

-- buffer_pool::revert puts a buffer first in the chain of its class, emptied; the other chains and
-- the total stay, and the pool is valid.
pub revert_correct :
    (p : BufferPool) (b : IoBuffer)
    → IsValid p
    → IsClass b.capacity
    → Gives (Reverted p b) (revert p b)
unfolding revert buffer_clear
revert_correct p b v class =
    let (l, at) = v.stocked b.capacity class in
    rw (at, revert)
      (gives (record {
        valid =
            insert-IsValid p _ b.capacity _ v
              (Each-cons _ (IsIdle-prop b.capacity) _ l
                (record { capacity = refl; length = refl; head = refl }) (v.clean b.capacity l at))
              refl;
        total = refl;
        first = (l, at, refl);
      }))
