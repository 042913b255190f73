-- ===== src/Buffer/Stream.antt =====
-- tcp_buffer, input_buffer and output_buffer of src/io_buffer.cc as streams of bytes.
use easy_reactor.Base.{
  ap, ℕ, ◌+◌, ◌≤◌, ◌<◌, ◌≡◌, refl, ◌∙◌, List, [], ◌++◌, arith, ltb, ◌==◌, length, Option, none,
  some, Bool, true, false,
}
use easy_reactor.Base.Run.{ok, ◌>>=◌, Gives, gives, Gives-bind, Gives-weaken, Gives-if}
use easy_reactor.Memory.{Memory, span}
use easy_reactor.Buffer.{
  IoBuffer, BufferPool, TcpBuffer, u8m, revert, make_room, send_bytes, buffer_append, buffer_copy,
}
use easy_reactor.Buffer.Pool.{
  IsValid, HasRoom, IsWhole, IsFresh, Lent, alloc_correct, revert_correct, size_class_bounds,
}
use easy_reactor.Buffer.Content.{content, length-content, buffer_copy_lem, buffer_append_lem}

-- The bytes behind `_buf`.
abbrev pub contents : TcpBuffer → List ℕ
contents none = []
contents (some b) = content b

-- `_buf` is NULL or a whole buffer.
abbrev pub IsSound : TcpBuffer → Type 0
IsSound none = Unit {0}
IsSound (some b) = IsWhole b

-- Its bytes start at the front.
abbrev pub IsFront : TcpBuffer → Type 0
IsFront none = Unit {0}
IsFront (some b) = b.head ≡ 0

-- Room for `n` more bytes behind those of `buf`; or NULL for more than 8 MB, with nothing changed.
abbrev pub Roomy : BufferPool → TcpBuffer → ℕ → Option IoBuffer × BufferPool → Type 0
Roomy p buf n (none, q) = (u8m < length (contents buf) + n) × (q ≡ p)
Roomy p buf n (some b, q) =
    IsWhole b
    × (b.head ≡ 0)
    × (content b ≡ contents buf)
    × (b.length + n ≤ b.capacity)
    × IsValid q
    × (q.total_mem ≤ p.total_mem + 8192)

fresh-Roomy :
    (p : BufferPool) (n : ℕ) (r : Option IoBuffer × BufferPool) → Lent p n r → Roomy p none n r
unfolding span
fresh-Roomy p n (none, q) l = (omega arith, l.1)
fresh-Roomy p n (some b, q) (f, v, least, most) =
    let (_, top, class, _) = size_class_bounds n b.capacity f.class in
    (
      record { class = class; inside = omega (arith, f.length, f.head) },
      f.head,
      rw f.length,
      omega (arith, f.length, f.room),
      v,
      omega arith,
    )

-- The copy into a larger buffer, and the return of the old one.
moved-Roomy :
    (p q : BufferPool) (b c : IoBuffer) (n : ℕ)
    → IsWhole b
    → IsFresh (n + b.length) c
    → IsValid q
    → q.total_mem ≤ p.total_mem + 8192
    → Gives (Roomy p (some b) n) (do d ← buffer_copy c b; s ← revert q b; ok (some d, s))
moved-Roomy p q b c n w f v grown =
    let class = (size_class_bounds (n + b.length) c.capacity f.class).2 in
    let whole : IsWhole c = record { class = class; inside = omega (arith, f.length, f.head) } in
    Gives-bind (buffer_copy_lem c b whole w (omega (arith, f.room))) λ d h.
      Gives-bind (revert_correct q b v w.class) λ s t. gives (
        h.whole,
        h.head,
        h.bytes,
        omega (arith, f.room, h.capacity, ap length h.bytes, length-content d, length-content b),
        t.valid,
        omega (arith, t.total),
      )

pub make_room_lem :
    (found : Memory) (p : BufferPool) (buf : TcpBuffer) (n : ℕ)
    → IsValid p
    → HasRoom p
    → IsSound buf
    → IsFront buf
    → Gives (Roomy p buf n) (make_room found p buf n)
unfolding make_room
make_room_lem found p none n v room w front =
    Gives-weaken (alloc_correct found p n v room) (fresh-Roomy p n)
make_room_lem found p (some b) n v room w front =
    let at : (b.head == 0) ≡ true = ground arith in
    rw at (
      Gives-if (ltb b.capacity (n + b.length))
        (λ grows. Gives-bind (alloc_correct found p (n + b.length) v room) λ (r, q) l. grown r q l)
        (λ fits. gives (w, front, refl, ground arith, v, omega arith)))
  where
    grown :
        (r : Option IoBuffer) (q : BufferPool)
        → Lent p (n + b.length) (r, q)
        → Gives (Roomy p (some b) n) (elim r [
          | none ↦ ok (none, q)
          | some c ↦ (do d ← buffer_copy c b; s ← revert q b; ok (some d, s))
        ])
    grown none q l = gives (omega (arith, length-content b), l.1)
    grown (some c) q (f, u, least, most) =
        moved-Roomy p q b c n w f u
          (omega (arith, most, (size_class_bounds (n + b.length) c.capacity f.class).1))

-- `buf` has turned into `c`, which holds `xs` from the front of a whole buffer.
pub record Streams (xs : List ℕ) (p : BufferPool) (c : TcpBuffer) (q : BufferPool) : Type 0 where
  pub sound : IsSound c
  pub front : IsFront c
  pub bytes : contents c ≡ xs
  pub valid : IsValid q
  pub total : q.total_mem ≤ p.total_mem + 8192

-- Where send_data returns 0 and where it returns -1.
abbrev pub SendResult : BufferPool → TcpBuffer → List ℕ → Bool × TcpBuffer × BufferPool → Type 0
SendResult p buf xs (true, c, q) = Streams (contents buf ++ xs) p c q
SendResult p buf xs (false, c, q) = (u8m < length (contents buf) + length xs) × (c ≡ buf) × (q ≡ p)

pub append-Streams :
    (p q : BufferPool) (buf : TcpBuffer) (b : IoBuffer) (xs : List ℕ)
    → Roomy p buf (length xs) (some b, q)
    → Gives (λ c. Streams (contents buf ++ xs) p (some c) q) (buffer_append b xs)
append-Streams p q buf b xs (w, front, same, fits, v, total) =
    Gives-weaken (buffer_append_lem b xs w front fits) λ c h. record {
      sound = h.whole;
      front = h.head;
      bytes = h.bytes ∙ ap (λ ys. ys ++ xs) same;
      valid = v;
      total = total;
    }

-- With room for one more buffer in a valid pool and the bytes held at the front of a whole buffer,
-- output_buffer::send_data appends all of the bytes, or fails and changes nothing; it fails only
-- if they and what is held already come to more than 8 MB.
pub send_bytes_correct :
    (found : Memory) (p : BufferPool) (buf : TcpBuffer) (xs : List ℕ)
    → IsValid p
    → HasRoom p
    → IsSound buf
    → IsFront buf
    → Gives (SendResult p buf xs) (send_bytes found p buf xs)
unfolding send_bytes
send_bytes_correct found p buf xs v room w front =
    Gives-bind (make_room_lem found p buf (length xs) v room w front) λ (r, q) s. place r q s
  where
    place :
        (r : Option IoBuffer) (q : BufferPool)
        → Roomy p buf (length xs) (r, q)
        → Gives (SendResult p buf xs) (elim r [
          | none ↦ ok (false, buf, q)
          | some b ↦ (do c ← buffer_append b xs; ok (true, some c, q))
        ])
    place none q (over, same) = gives (over, refl, same)
    place (some b) q s = Gives-bind (append-Streams p q buf b xs s) λ c t. gives t
