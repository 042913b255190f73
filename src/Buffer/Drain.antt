-- ===== src/Buffer/Drain.antt =====
-- What leaves the buffers of src/io_buffer.cc: tcp_buffer::pop, output_buffer::write_fd; and
-- input_buffer::read_data.
use mathlib.Core.List.{append-nil}
use easy_reactor.Base.{
  ap, sym, leb_le, ℕ, zero, suc, ◌+◌, ◌≤◌, ◌<◌, ◌≡◌, refl, ◌∙◌, ◌↔◌, ◌⊎◌, inl, inr, List, [], ◌∷◌,
  ◌++◌, arith, ◌==◌, length, drop, Option, none, some, true,
}
use easy_reactor.Base.Run.{ok, ◌>>=◌, ◌>>◌, assert, Gives, gives, Gives-bind, Gives-if}
use easy_reactor.Memory.{Memory, span}
use easy_reactor.Buffer.{
  IoBuffer, BufferPool, TcpBuffer, u8m, buf_pop, buffer_append, buffer_pop, buffer_adjust, Sent,
  write_fd, retry_write, Received, retry_read, read_data, ReadResult, read_error, read_closed,
  read_some,
}
use easy_reactor.Buffer.Pool.{IsValid, HasRoom, IsWhole, revert_correct}
use easy_reactor.Buffer.Content.{content, length-content, Holds, buffer_pop_lem, buffer_adjust_lem}
use easy_reactor.Buffer.Stream.{
  contents, IsSound, IsFront, Roomy, make_room_lem, Streams, append-Streams,
}

-- What a pop of `n` bytes leaves: the rest, and NULL exactly if nothing is left.
pub record Popped (p : BufferPool) (buf : TcpBuffer) (n : ℕ) (s : TcpBuffer × BufferPool)
    : Type 0 where
  pub sound : IsSound s.0
  pub bytes : contents s.0 ≡ drop n (contents buf)
  pub released : (s.0 ≡ none) ↔ (length (contents buf) ≡ n)
  pub valid : IsValid s.1
  pub total : s.1.total_mem ≡ p.total_mem

-- On a whole buffer that holds at least `n` bytes, tcp_buffer::pop takes the first `n` off, hands the
-- buffer back to the pool exactly if that empties it, and keeps the pool valid and its total.
pub buf_pop_correct :
    (p : BufferPool) (b : IoBuffer) (n : ℕ)
    → IsValid p
    → IsWhole b
    → n ≤ b.length
    → Gives (Popped p (some b) n) (buf_pop p (some b) n)
unfolding buf_pop span
buf_pop_correct p b n v w fits = rw (leb_le n b.length fits) (
    Gives-bind (buffer_pop_lem b n w fits) λ c (whole, cap, size, rest).
      Gives-if (c.length == 0)
        (λ e.
          let emptied : c.length ≡ 0 = ground arith in
          Gives-bind (revert_correct p c v whole.class) λ q r. gives (record {
            sound = tt;
            bytes = rw emptied at rest;
            released = (λ _. omega (arith, length-content b), λ _. refl);
            valid = r.valid;
            total = r.total;
          }))
        (λ e. gives (record {
          sound = whole;
          bytes = rest;
          released = (λ none_left. cc, λ all_gone. absurd (ground (arith, length-content b)));
          valid = v;
          total = refl;
        })))

-- The results that `write` may give for `n` bytes: no more than these.
abbrev pub Writes : ℕ → Option ℕ → Type 0
Writes n none = Unit {0}
Writes n (some k) = k ≤ n

-- How much a result of `write` takes off.
abbrev pub taken : Option ℕ → ℕ
taken none = 0
taken (some n) = n

-- What write_fd returns, when `write` returned `r` and `rest` are the results of later calls.
pub record Written (b : IoBuffer) (r : Option ℕ) (rest : List Sent)
    (s : Option ℕ × TcpBuffer × List Sent) : Type 0 where
  pub result : s.0 ≡ r
  pub more : s.2 ≡ rest
  pub held : (c : IoBuffer) × (s.1 ≡ some c) × Holds b (drop (taken r) (content b)) c

-- On a whole buffer with its bytes at the front, and a `write` that takes no more than there is,
-- output_buffer::write_fd returns what the first `write` that is not interrupted returns, with 0 in
-- place of EAGAIN; it takes exactly the bytes off that were written, and moves the others to the
-- front of the same buffer.
pub write_fd_correct :
    (b : IoBuffer) (writes rest : List Sent) (r : Option ℕ)
    → IsWhole b
    → b.head ≡ 0
    → retry_write writes ≡ ok (r, rest)
    → Writes b.length r
    → Gives (Written b r rest) (write_fd writes (some b))
unfolding write_fd
write_fd_correct b writes rest r w front e honest =
    let at : (b.head == 0) ≡ true = ground arith in rw (at, e) (go r honest)
  where
    kept : Holds b (content b) b
    kept = record { whole = w; capacity = refl; head = front; bytes = refl }

    go :
        (r : Option ℕ)
        → Writes b.length r
        → Gives (Written b r rest) (elim r [
          | none ↦ ok (none, some b, rest)
          | some n ↦ elim n [
            | zero ↦ ok (some 0, some b, rest)
            | suc n ↦ (do
              c ← buffer_pop b (suc n)
              d ← buffer_adjust c
              ok (some (suc n), some d, rest))
          ]
        ])
    go none honest = gives (record { result = refl; more = refl; held = (b, refl, kept) })
    go (some zero) honest = gives (record { result = refl; more = refl; held = (b, refl, kept) })
    go (some (suc n)) honest =
        Gives-bind (buffer_pop_lem b (suc n) w honest) λ c (whole, cap, size, popped).
          Gives-bind (buffer_adjust_lem c whole) λ d h. gives (record {
            result = refl;
            more = refl;
            held = (
              d,
              refl,
              record {
                whole = h.whole;
                capacity = h.capacity ∙ cap;
                head = h.head;
                bytes = h.bytes ∙ popped;
              },
            );
          })

-- What `read` may give when FIONREAD announced `rn` bytes: an error, the end, or all of them.
abbrev pub Reads : ℕ → Option (List ℕ) → Type 0
Reads rn none = Unit {0}
Reads rn (some []) = Unit {0}
Reads rn (some (x ∷ xs)) = length (x ∷ xs) ≡ rn

-- The bytes that a result of `read` brings.
abbrev pub brought : Option (List ℕ) → List ℕ
brought none = []
brought (some xs) = xs

abbrev pub result_of : Option (List ℕ) → ReadResult
result_of none = read_error
result_of (some []) = read_closed
result_of (some (x ∷ xs)) = read_some (length (x ∷ xs))

-- read_data read `r`, and holds its bytes behind the others; or it failed for want of a buffer.
abbrev pub ReadDone :
    BufferPool → TcpBuffer → ℕ → Option (List ℕ) → ReadResult × TcpBuffer × BufferPool → Type 0
ReadDone p buf rn r (res, c, q) =
    ((res ≡ result_of r) × Streams (contents buf ++ brought r) p c q)
    ⊎ ((res ≡ read_error) × (u8m < length (contents buf) + rn) × (c ≡ buf) × (q ≡ p))

-- With room for one more buffer in a valid pool and the bytes held at the front of a whole buffer:
-- input_buffer::read_data, where FIONREAD gives `rn` and the first `read` that is not interrupted
-- gives `r`: its result is that of `read`, and the bytes are held behind those that were there. It
-- is -1, with nothing changed, if they come to more than 8 MB.
pub read_data_correct :
    (found : Memory) (rn : ℕ) (reads : List Received) (p : BufferPool) (buf : TcpBuffer)
    (r : Option (List ℕ))
    → IsValid p
    → HasRoom p
    → IsSound buf
    → IsFront buf
    → retry_read reads ≡ ok r
    → Reads rn r
    → Gives (ReadDone p buf rn r) (read_data found (some rn) reads p buf)
unfolding read_data
read_data_correct found rn reads p buf r v room w front e honest =
    Gives-bind (make_room_lem found p buf rn v room w front) λ (room_for, q) s. place room_for q s
  where
    kept :
        (q : BufferPool) (b : IoBuffer)
        → Roomy p buf rn (some b, q)
        → Streams (contents buf ++ []) p (some b) q
    kept q b (whole, at_front, same, fits, valid, total) = record {
      sound = whole;
      front = at_front;
      bytes = same ∙ sym (append-nil (contents buf));
      valid = valid;
      total = total;
    }

    get :
        (q : BufferPool) (b : IoBuffer) (r : Option (List ℕ))
        → Reads rn r
        → Roomy p buf rn (some b, q)
        → Gives (ReadDone p buf rn r) (elim r [
          | none ↦ ok (read_error, some b, q)
          | some xs ↦ elim xs [
            | [] ↦ ok (read_closed, some b, q)
            | x ∷ xs ↦ (do
              assert (length (x ∷ xs) == rn)
              c ← buffer_append b (x ∷ xs)
              ok (read_some rn, some c, q))
          ]
        ])
    get q b none h s = gives (inl (refl, kept q b s))
    get q b (some []) h s = gives (inl (refl, kept q b s))
    get q b (some (x ∷ xs)) h s =
        let at : (length (x ∷ xs) == rn) ≡ true = ground arith in
        rw at (
          Gives-bind (append-Streams p q buf b (x ∷ xs) (rw h s))
            λ c t. gives (inl (ap read_some (sym h), t)))

    place :
        (room_for : Option IoBuffer) (q : BufferPool)
        → Roomy p buf rn (room_for, q)
        → Gives (ReadDone p buf rn r) (elim room_for [
          | none ↦ ok (read_error, buf, q)
          | some b ↦ retry_read reads >>= λ ret. elim ret [
            | none ↦ ok (read_error, some b, q)
            | some [] ↦ ok (read_closed, some b, q)
            | some (x ∷ xs) ↦ (do
              assert (length (x ∷ xs) == rn)
              c ← buffer_append b (x ∷ xs)
              ok (read_some rn, some c, q))
          ]
        ])
    place none q (over, same) = gives (inr (refl, over, refl, same))
    place (some b) q s = rw e (get q b r honest s)
