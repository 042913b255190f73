-- ===== src/Buffer/Ledger.antt =====
-- buffer_pool of src/io_buffer.cc over any run of its calls: no buffer is lost, and the memory is
-- bounded.
use mathlib.Core.List.Perm
use mathlib.Core.List.{Permᴰ, mem-cons_self, mem-cons_of_mem}
use mathlib.Core.Logic.{∥∥₁_elim}
use native.Mathlib.Nat.{ℕ_set}
use easy_reactor.Base.{
  ap, sym, subst, ◌∙◌, ℕ, zero, suc, ◌+◌, ◌*◌, ◌/◌, ◌<◌, ◌≡◌, refl, inl, inr, List, [], ◌∷◌, Option,
  none, some, Perm, arith, ==_ne, eq-cases, ◌==◌, if◌then◌else◌, true, leb, length, Bool-cases,
  Option-cases,
}
use easy_reactor.Base.Lists.Nth.{Each, Each-nil, Each-cons}
use easy_reactor.Base.Run.{Gives-ok, Run, ok, Gives}
use easy_reactor.Base.Table.{Table, insert}
use easy_reactor.Memory.{Memory}
use easy_reactor.Buffer.{
  IoBuffer, BufferPool, new_buffer, size_class, chain, take_buffer, alloc, revert, make_chain,
  init_pool, extra_mem_limit, u4k, u16k, u64k, u256k, u1m, u4m, u8m,
}
use easy_reactor.Buffer.Pool.{
  IsClass, IsIdle, IsValid, Reverted, revert_correct, IsIdle-prop, size_class_bounds,
  insert-IsValid, insert-IsClean, IsClean,
}

-- The pools that a run from the constructor leads to, with the capacities of the buffers that are lent.
-- A buffer comes back with any contents.
pub data Uses (found : Memory) : BufferPool → List ℕ → Type 0 where
  starts : Uses found (init_pool found) []
  takes :
      {p q : BufferPool} {lent : List ℕ} (n : ℕ) (b : IoBuffer)
      → Uses found p lent
      → alloc found p n ≡ ok (some b, q)
      → Uses found q (b.capacity ∷ lent)
  refused :
      {p q : BufferPool} {lent : List ℕ} (n : ℕ)
      → Uses found p lent
      → alloc found p n ≡ ok (none, q)
      → Uses found q lent
  gives_back :
      {p q : BufferPool} {lent rest : List ℕ} (b : IoBuffer)
      → Uses found p lent
      → Perm lent (b.capacity ∷ rest)
      → revert p b ≡ ok q
      → Uses found q rest

abbrev pub classes : List ℕ
classes = u4k ∷ u16k ∷ u64k ∷ u256k ∷ u1m ∷ u4m ∷ u8m ∷ []

-- The KB of the buffers in the chains of these classes.
unfoldable pub mem_over : List ℕ → Table (List IoBuffer) → ℕ
mem_over [] t = 0
mem_over (k ∷ ks) t = length (chain (t k)) * (k / 1024) + mem_over ks t

abbrev pub idle_mem : BufferPool → ℕ
idle_mem p = mem_over classes p.pool

-- The KB of the buffers that are lent.
abbrev pub lent_mem : List ℕ → ℕ
lent_mem [] = 0
lent_mem (c ∷ lent) = c / 1024 + lent_mem lent

lent_mem-permᴰ : {xs ys : List ℕ} → Permᴰ xs ys → lent_mem xs ≡ lent_mem ys
lent_mem-permᴰ (Permᴰ.trans half rest) = lent_mem-permᴰ half ∙ lent_mem-permᴰ rest
lent_mem-permᴰ (Permᴰ.swap a b) = omega arith
lent_mem-permᴰ (Permᴰ.cons e same) = omega (arith, ap (λ n. n / 1024) e, lent_mem-permᴰ same)
lent_mem-permᴰ Permᴰ.nil = refl

lent_mem-perm : {xs ys : List ℕ} → Perm xs ys → lent_mem xs ≡ lent_mem ys
lent_mem-perm p = ∥∥₁_elim p (ℕ_set _ _) lent_mem-permᴰ

-- What holds of the seven classes holds of every class.
class_elim :
    (P : ℕ → Type 0)
    → P u4k
    → P u16k
    → P u64k
    → P u256k
    → P u1m
    → P u4m
    → P u8m
    → (k : ℕ) → IsClass k
    → P k
unfolding size_class
class_elim P a b c d e f g k class = elim (eq-cases k u4k) [
  | inl same ↦ subst P (sym same) a
  | inr n1 ↦ elim (eq-cases k u16k) [
    | inl same ↦ subst P (sym same) b
    | inr n2 ↦ elim (eq-cases k u64k) [
      | inl same ↦ subst P (sym same) c
      | inr n3 ↦ elim (eq-cases k u256k) [
        | inl same ↦ subst P (sym same) d
        | inr n4 ↦ elim (eq-cases k u1m) [
          | inl same ↦ subst P (sym same) e
          | inr n5 ↦ elim (eq-cases k u4m) [
            | inl same ↦ subst P (sym same) f
            | inr n6 ↦ subst P (ground arith) g
          ]
        ]
      ]
    ]
  ]
]

-- How often `k` is in a list, and a number taken that often.
times : ℕ → List ℕ → ℕ
times k [] = 0
times k (x ∷ ks) = if k == x then suc (times k ks) else times k ks

rep : ℕ → ℕ → ℕ
rep zero a = 0
rep (suc n) a = a + rep n a

once : (k : ℕ) → IsClass k → times k classes ≡ 1
unfolding times
once = class_elim (λ k. times k classes ≡ 1) refl refl refl refl refl refl refl

-- A change of one chain.
mem_over-insert :
    (ks : List ℕ) (t : Table (List IoBuffer)) (k : ℕ) (l m : List IoBuffer)
    → t k ≡ some l
    → mem_over ks (insert t k m) + rep (times k ks) (length l * (k / 1024))
      ≡ mem_over ks t + rep (times k ks) (length m * (k / 1024))
unfolding mem_over times rep
mem_over-insert [] t k l m at = refl
mem_over-insert (x ∷ ks) t k l m at = elim (eq-cases k x) [
  | inl same ↦
      let here : (k == x) ≡ true = ground (arith, same) in
      let found : t x ≡ some l = ap t (sym same) ∙ at in
      let share : k / 1024 ≡ x / 1024 = ap (λ n. n / 1024) same in
      rw (here, found, share, times) (omega (arith, rw share at (mem_over-insert ks t k l m at)))
  | inr other ↦ rw (==_ne k x other, times) (omega (arith, mem_over-insert ks t k l m at))
]

idle_mem-insert :
    (p : BufferPool) (k n : ℕ) (l m : List IoBuffer)
    → IsClass k
    → p.pool k ≡ some l
    → idle_mem (record { pool = insert p.pool k m; total_mem = n }) + length l * (k / 1024)
      ≡ idle_mem p + length m * (k / 1024)
unfolding rep
idle_mem-insert p k n l m class at =
    let counted = once k class in
    let changed = rw counted at (mem_over-insert classes p.pool k l m at) in omega (arith, changed)

-- What holds along a run.
pub record Balanced (p : BufferPool) (lent : List ℕ) : Type 0 where
  pub valid : IsValid p
  pub bounded : p.total_mem < extra_mem_limit
  pub conserved : idle_mem p + lent_mem lent ≡ p.total_mem
  pub classes : Each IsClass lent

-- What a call leads to, where it gives a result.
abbrev IfOk : {A : Type 0} → (A → Type 0) → Run A → Type 0
IfOk P (ok a) = P a
IfOk P r = Unit {0}

IsClass-prop : (k : ℕ) → IsProp (IsClass k)
IsClass-prop k = hlevel

-- What alloc leads to.
abbrev Handed : List ℕ → Option IoBuffer × BufferPool → Type 0
Handed lent (none, q) = Balanced q lent
Handed lent (some b, q) = Balanced q (b.capacity ∷ lent)

take_buffer-Balanced :
    (found : Memory) (p : BufferPool) (lent : List ℕ) (k : ℕ) (l : List IoBuffer)
    → Balanced p lent
    → IsClass k
    → p.pool k ≡ some l
    → IfOk (Handed lent) (take_buffer found p k l)
unfolding take_buffer new_buffer
take_buffer-Balanced found p lent k [] b class at =
    elim (Bool-cases (leb extra_mem_limit (p.total_mem + k / 1024))) [
      | inl over ↦ rw (over, take_buffer) tt
      | inr under ↦
          rw (under, take_buffer)
            (record {
              valid = insert-IsValid p _ k [] b.valid (Each-nil _) refl;
              bounded = ground arith;
              conserved =
                  omega (
                    arith,
                    b.conserved,
                    idle_mem-insert p k (p.total_mem + k / 1024) [] [] class at,
                  );
              classes = Each-cons IsClass (λ c. IsClass-prop c) k lent class b.classes;
            })
    ]
take_buffer-Balanced found p lent k (c ∷ l) b class at =
    let idle = b.valid.clean k (c ∷ l) at in
    let own = idle c mem-cons_self in
    rw own.capacity (record {
      valid = insert-IsValid p _ k l b.valid (λ x m. idle x (mem-cons_of_mem c m)) refl;
      bounded = b.bounded;
      conserved = omega (arith, b.conserved, idle_mem-insert p k p.total_mem (c ∷ l) l class at);
      classes = Each-cons IsClass (λ c. IsClass-prop c) k lent class b.classes;
    })

alloc-Balanced :
    (found : Memory) (p : BufferPool) (lent : List ℕ) (n : ℕ)
    → Balanced p lent
    → IfOk (Handed lent) (alloc found p n)
unfolding alloc
alloc-Balanced found p lent n b = elim (Option-cases (size_class n)) [
  | inl e ↦ rw (e, alloc) b
  | inr (k, e) ↦
      let class = (size_class_bounds n k e).2 in
      let (l, at) = b.valid.stocked k class in
      rw (e, alloc, at) (take_buffer-Balanced found p lent k l b class at)
]

revert-Balanced :
    (p q : BufferPool) (lent rest : List ℕ) (c : IoBuffer)
    → Balanced p lent
    → Perm lent (c.capacity ∷ rest)
    → revert p c ≡ ok q
    → Balanced q rest
revert-Balanced p q lent rest c b perm e =
    let class : IsClass c.capacity = b.classes c.capacity ((Perm.mem_iff perm).1 mem-cons_self) in
    let r : Reverted p c q =
      Gives-ok (subst (Gives (Reverted p c)) e (revert_correct p c b.valid class)) in
    let (l, at, pool) = r.first in
    record {
      valid = r.valid;
      bounded = omega (arith, b.bounded, r.total);
      conserved = omega (
        arith,
        b.conserved,
        r.total,
        lent_mem-perm perm,
        ap (mem_over classes) pool,
        idle_mem-insert p c.capacity 0 l (record c { length = 0; head = 0 } ∷ l) class at,
      );
      classes = λ k m. b.classes k ((Perm.mem_iff perm).1 (mem-cons_of_mem c.capacity m));
    }

length-make_chain : (found : Memory) (size n : ℕ) → length (make_chain found size n) ≡ n
unfolding make_chain
length-make_chain found size zero = refl
length-make_chain found size (suc n) = ap suc (length-make_chain found size n)

make_chain-IsIdle : (found : Memory) (size n : ℕ) → Each (IsIdle size) (make_chain found size n)
unfolding make_chain new_buffer
make_chain-IsIdle found size zero = Each-nil _
make_chain-IsIdle found size (suc n) =
    Each-cons _ (IsIdle-prop size) _ _ (record { capacity = refl; length = refl; head = refl })
      (make_chain-IsIdle found size n)

-- A chain of the constructor in a table.
with_chain-IsClean :
    (found : Memory) (t : Table (List IoBuffer)) (size n : ℕ)
    → IsClean t
    → IsClean (insert t size (make_chain found size n))
with_chain-IsClean found t size n clean =
    insert-IsClean t size (make_chain found size n) clean (make_chain-IsIdle found size n)

init_pool-IsValid : (found : Memory) → IsValid (init_pool found)
unfolding init_pool
init_pool-IsValid found = record {
  stocked =
      class_elim (λ k. (l : List IoBuffer) × ((init_pool found).pool k ≡ some l)) (_, refl)
        (_, refl) (_, refl) (_, refl) (_, refl) (_, refl) (_, refl);
  clean = with_chain-IsClean found _ u8m 10 (
      with_chain-IsClean found _ u4m 20 (
        with_chain-IsClean found _ u1m 50 (
          with_chain-IsClean found _ u256k 200 (
            with_chain-IsClean found _ u64k 500 (
              with_chain-IsClean found _ u16k 1000
                (with_chain-IsClean found _ u4k 5000 (λ k l none_yet. cc)))))));
}

init_pool-Balanced : (found : Memory) → Balanced (init_pool found) []
unfolding init_pool mem_over
init_pool-Balanced found = record {
  valid = init_pool-IsValid found;
  bounded = omega arith;
  conserved = omega (
    arith,
    length-make_chain found u4k 5000,
    length-make_chain found u16k 1000,
    length-make_chain found u64k 500,
    length-make_chain found u256k 200,
    length-make_chain found u1m 50,
    length-make_chain found u4m 20,
    length-make_chain found u8m 10,
  );
  classes = Each-nil IsClass;
}

-- Over any run of alloc and revert from the constructor, in which what comes back was lent: the pool is
-- valid, its total stays below 5 GB, and it is exactly the memory of the buffers that lie in the chains
-- and of those that are lent, so no buffer is lost or counted twice.
pub Uses-Balanced :
    (found : Memory) (p : BufferPool) (lent : List ℕ) → Uses found p lent → Balanced p lent
Uses-Balanced found _ _ starts = init_pool-Balanced found
Uses-Balanced found q _ (takes {p} {lent} n b u e) =
    subst (IfOk (Handed lent)) e (alloc-Balanced found p lent n (Uses-Balanced found p lent u))
Uses-Balanced found q _ (refused {p} {lent} n u e) =
    subst (IfOk (Handed lent)) e (alloc-Balanced found p lent n (Uses-Balanced found p lent u))
Uses-Balanced found q rest (gives_back {p} {lent} c u perm e) =
    revert-Balanced p q lent rest c (Uses-Balanced found p lent u) perm e
