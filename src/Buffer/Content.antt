-- ===== src/Buffer/Content.antt =====
-- io_buffer of include/io_buffer.h as a queue of bytes.
use easy_reactor.Base.{
  ==_ne, true, inr, sym, inl, leb_le, eq-cases, subst, ℕ, ◌+◌, ◌-◌, ◌≤◌, ◌≡◌, refl, List, ◌++◌,
  arith, ◌==◌, length, drop,
}
use easy_reactor.Base.Run.{Gives, gives}
use easy_reactor.Memory.{
  Memory, store, span, length-span, span-store, span-store_behind, span-append, drop-span,
}
use easy_reactor.Buffer.{IoBuffer, buffer_adjust, buffer_copy, buffer_pop, buffer_append}
use easy_reactor.Buffer.Pool.{IsWhole}

-- The bytes that a buffer holds.
abbrev pub content : IoBuffer → List ℕ
content b = span b.bytes b.head b.length

pub length-content : (b : IoBuffer) → length (content b) ≡ b.length
length-content b = length-span b.bytes b.head b.length

-- The buffer `c` is of the size of `b`, whole, and holds `xs` from its start.
pub record Holds (b : IoBuffer) (xs : List ℕ) (c : IoBuffer) : Type 0 where
  pub whole : IsWhole c
  pub capacity : c.capacity ≡ b.capacity
  pub head : c.head ≡ 0
  pub bytes : content c ≡ xs

stored :
    (mem other : Memory) (off n : ℕ) → span (store mem 0 (span other off n)) 0 n ≡ span other off n
stored mem other off n =
    subst (λ k. span (store mem 0 (span other off n)) 0 k ≡ span other off n)
      (length-span other off n) (span-store mem 0 (span other off n))

appended :
    (mem : Memory) (n : ℕ) (xs : List ℕ)
    → span (store mem n xs) 0 (n + length xs) ≡ span mem 0 n ++ xs
appended mem n xs =
    let start : 0 + n ≡ n = omega arith in
    rw (
      span-append (store mem n xs) 0 n (length xs),
      start,
      span-store mem n xs,
      span-store_behind mem 0 n n xs (omega arith),
    )

-- memmove to the front keeps the bytes.
pub buffer_adjust_lem : (b : IoBuffer) → IsWhole b → Gives (Holds b (content b)) (buffer_adjust b)
unfolding buffer_adjust span
buffer_adjust_lem b w = elim (eq-cases b.head 0) [
  | inl e ↦
      let at : (b.head == 0) ≡ true = ground arith in
      rw at (gives (record { whole = w; capacity = refl; head = e; bytes = refl }))
  | inr moved ↦ rw (==_ne b.head 0 moved) (elim (eq-cases b.length 0) [
    | inl none_held ↦
        let at : (b.length == 0) ≡ true = ground arith in
        rw at (
          gives (record {
            whole = record { class = w.class; inside = omega (arith, w.inside) };
            capacity = refl;
            head = refl;
            bytes = rw none_held;
          }))
    | inr held ↦
        rw (==_ne b.length 0 held, leb_le (b.head + b.length) b.capacity w.inside)
          (gives (record {
            whole = record { class = w.class; inside = omega (arith, w.inside) };
            capacity = refl;
            head = refl;
            bytes = stored b.bytes b.bytes b.head b.length;
          }))
  ])
]

pub buffer_copy_lem :
    (b other : IoBuffer)
    → IsWhole b
    → IsWhole other
    → other.length ≤ b.capacity
    → Gives (Holds b (content other)) (buffer_copy b other)
unfolding buffer_copy
buffer_copy_lem b other w v fits =
    rw
      (
        leb_le other.length b.capacity fits,
        leb_le (other.head + other.length) other.capacity v.inside,
      )
      (gives (record {
        whole = record { class = w.class; inside = omega arith };
        capacity = refl;
        head = refl;
        bytes = stored b.bytes other.bytes other.head other.length;
      }))

pub buffer_append_lem :
    (b : IoBuffer) (xs : List ℕ)
    → IsWhole b
    → b.head ≡ 0
    → b.length + length xs ≤ b.capacity
    → Gives (Holds b (content b ++ xs)) (buffer_append b xs)
unfolding buffer_append
buffer_append_lem b xs w front fits = rw (leb_le (b.length + length xs) b.capacity fits) (
    gives (record {
      whole = record { class = w.class; inside = omega arith };
      capacity = refl;
      head = front;
      bytes = rw front (appended b.bytes b.length xs);
    }))

-- What is popped is the front.
pub buffer_pop_lem :
    (b : IoBuffer) (n : ℕ)
    → IsWhole b
    → n ≤ b.length
    → Gives
        (λ c.
          IsWhole c
          × (c.capacity ≡ b.capacity)
          × (c.length ≡ b.length - n)
          × (content c ≡ drop n (content b)))
        (buffer_pop b n)
unfolding buffer_pop
buffer_pop_lem b n w fits = rw (leb_le n b.length fits) (
    gives (
      record { class = w.class; inside = omega arith },
      refl,
      refl,
      sym (drop-span b.bytes b.head b.length n fits),
    ))
