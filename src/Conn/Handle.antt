-- ===== src/Conn/Handle.antt =====
-- tcp_conn::handle_read of src/tcp_conn.cc, whole.
use native.Mathlib.Numerals.{add-one}
use easy_reactor.Base.{
  ap, ℕ, ◌+◌, ◌≤◌, ◌<◌, ◌≡◌, ◌≢◌, refl, ◌∙◌, inl, inr, List, [], ◌∷◌, ◌++◌, Option, none, some,
  true, arith, length, subst, sym,
}
use easy_reactor.Base.Lists.Nth.{Each}
use easy_reactor.Base.Run.{Gives-abort, Gives-known, ok, abort, Gives, Gives-bind, Gives-weaken}
use easy_reactor.Buffer.{
  BufferPool, TcpBuffer, ReadResult, u8m, Received, retry_read, read_data, buf_length,
}
use easy_reactor.Buffer.Pool.{HasRoom, IsValid}
use easy_reactor.Buffer.Stream.{contents, IsSound, IsFront}
use easy_reactor.Buffer.Drain.{read_data_correct, brought}
use easy_reactor.Message.{Call, exist, read_head, CommuHead}
use easy_reactor.Message.Frames.{Frame, Ending, waits, refuses, Parses}
use easy_reactor.Conn.{World, Handlers, with_ibuf, clean_conn, handle_read}
use easy_reactor.Conn.Live.{
  IsLive, IsPolite, Closed, Returned, clean_conn_correct, clean_conn_returns,
}
use easy_reactor.Conn.Live.{deliver, call_of}
use easy_reactor.Conn.Reading.{with_ibuf-IsLive}
use easy_reactor.Conn.Rounds.{read_messages_empty, Serves}
use easy_reactor.Conn.Serving.{Handled, handle_read_serves}

-- How the message loop leaves the connection, when the stream held `fs` and then ended with `e`.
abbrev pub ReadEnd :
    {U : Type 0} → (Call → U → U) → (U → U) → World U → List Frame → Ending → World U → Type 0
ReadEnd react leave w fs (waits rest) v =
    IsLive v
    × (contents v.conn.ibuf ≡ rest)
    × (v.dispatcher ≡ w.dispatcher)
    × (v.user ≡ deliver react w.dispatcher fs w.user)
ReadEnd react leave w fs refuses v =
    (v.conn.connfd ≡ none)
    × (v.conn.ibuf ≡ none)
    × (v.conn.obuf ≡ none)
    × (v.user ≡ leave (deliver react w.dispatcher fs w.user))

-- ReadEnd, with the bytes to wait behind at the front of the buffer.
abbrev pub HandleEnd :
    {U : Type 0} → (Call → U → U) → (U → U) → World U → List Frame → Ending → World U → Type 0
HandleEnd react leave w fs e v = ReadEnd react leave w fs e v × IsFront v.conn.ibuf

-- Polite callbacks can take every message: what is ahead of them leads to what all of them do.
abbrev PoliteReady :
    {U : Type 0} → (Call → U → U) → World U → List Frame → List Frame → World U → Type 0
PoliteReady react w all fs v =
    (v.dispatcher ≡ w.dispatcher)
    × (deliver react w.dispatcher fs v.user ≡ deliver react w.dispatcher all w.user)

-- How closing leaves the connection behind all messages.
abbrev PoliteShut :
    {U : Type 0} → (Call → U → U) → (U → U) → World U → List Frame → World U → Type 0
PoliteShut react leave w all v =
    (v.conn.connfd ≡ none)
    × (v.conn.obuf ≡ none)
    × (v.user ≡ leave (deliver react w.dispatcher all w.user))

module _ {U : Type 0} (h : Handlers U) (react : Call → U → U) (leave : U → U)
    (polite : IsPolite h react leave) where
  polite_serves :
      (w : World U) (all : List Frame)
      → Serves h (PoliteReady react w all) (PoliteShut react leave w all)
  unfolding deliver
  polite_serves w all = record {
    message = λ f fs v live (disp, ahead).
        Gives-weaken (polite.message (call_of v.dispatcher f) v live)
          λ u (alive, same, disp', user). (
            alive,
            same,
            disp',
            (
              disp' ∙ disp,
              ap (deliver react w.dispatcher fs) (user ∙ ap (λ d. react (call_of d f) v.user) disp)
                  ∙ ahead,
            ),
          );
    steady = λ fs v c p total ready. ready;
    close = λ v live (disp, user).
        Gives-weaken (clean_conn_correct h leave polite.close v live)
          λ u c. (c.ibuf, (c.connfd, c.obuf, c.user ∙ ap leave user));
  }

  polite_end :
      (w : World U) (fs : List Frame) (e : Ending) (v : World U)
      → Handled (PoliteReady react w fs) (PoliteShut react leave w fs) w e v
      → HandleEnd react leave w fs e v
  unfolding deliver
  polite_end w fs (waits rest) v ((live, left, disp, (same, user)), front) =
      ((live, left, disp, user), front)
  polite_end w fs refuses v ((gone, (fd, o, user)), front) = ((fd, gone, o, user), front)

  -- On an open connection with its input at the front of the buffer, with room for one more buffer in
  -- the pool, polite callbacks, and at most 8 MB held: when `read` brings all the bytes that FIONREAD
  -- announced, handle_read delivers to the callbacks
  -- exactly the messages that these bytes complete, in order, and keeps what is left over at the
  -- front of the buffer; or it closes the connection at the first message that is malformed or that
  -- has no callback. No message may have an empty body.
  pub handle_read_correct :
      (w : World U) (reads : List Received) (xs : List ℕ) (fs : List Frame) (e : Ending)
      → IsLive w
      → IsFront w.conn.ibuf
      → HasRoom w.pool
      → retry_read reads ≡ ok (some xs)
      → 0 < length xs
      → length (contents w.conn.ibuf) + length xs ≤ u8m
      → Parses (exist w.dispatcher) (contents w.conn.ibuf ++ xs) fs e
      → Each (λ f. f.body ≢ []) fs
      → Gives (HandleEnd react leave w fs e) (handle_read h (some (length xs)) reads w)
  handle_read_correct w reads xs fs e live front room got some_bytes fits parses full =
      Gives-weaken
        (handle_read_serves h (PoliteReady react w fs) (PoliteShut react leave w fs)
          (polite_serves w fs) w reads xs fs e live front room got some_bytes fits
          (λ c p total. (refl, refl)) parses full)
        λ v. polite_end w fs e v

  -- What handle_read does after read_data, where it closes the connection.
  closing :
      (w : World U) (i : TcpBuffer) (p : BufferPool)
      → IsLive w
      → IsSound i
      → IsValid p
      → Gives
          (λ v. Returned h (with_ibuf w i p) v × Closed leave w v)
          (clean_conn h (with_ibuf w i p))
  closing w i p live sound valid =
      Gives-weaken
        (clean_conn_returns h leave polite.close (with_ibuf w i p)
          (with_ibuf-IsLive w i p live sound valid))
        λ v (back, c). (
          back,
          record {
            pool = c.pool;
            ibuf = c.ibuf;
            obuf = c.obuf;
            connfd = c.connfd;
            looped = c.looped;
            counted = c.counted;
            released = c.released;
            user = c.user;
          },
        )

  -- The connection of `w` is closed behind a read: the buffer that read_data leaves is given back, and the
  -- output buffer.
  pub record ReadClosed (w : World U) (rn : ℕ) (reads : List Received) (v : World U) : Type 0 where
    pub ret : ReadResult
    pub buf : TcpBuffer
    pub pool : BufferPool
    pub read : read_data h.found (some rn) reads w.pool w.conn.ibuf ≡ ok (ret, buf, pool)
    pub back : Returned h (with_ibuf w buf pool) v
    pub closed : Closed leave w v

  closing_read :
      (w : World U) (rn : ℕ) (reads : List Received) (ret : ReadResult) (i : TcpBuffer)
      (p : BufferPool)
      → IsLive w
      → IsSound i
      → IsValid p
      → read_data h.found (some rn) reads w.pool w.conn.ibuf ≡ ok (ret, i, p)
      → Gives (ReadClosed w rn reads) (clean_conn h (with_ibuf w i p))
  closing_read w rn reads ret i p live sound valid read =
      Gives-weaken (closing w i p live sound valid)
        λ v (back, c). record { ret = ret; buf = i; pool = p; read = read; back = back; closed = c }

  -- On an open connection with its input at the front of the buffer, with room for one more buffer in
  -- the pool and polite callbacks: when `read` fails or finds that the peer has closed, handle_read closes
  -- the connection: the input buffer as read_data leaves it and the output buffer are given back to the
  -- pool behind the close callback, the descriptor leaves the loop and is closed, and the server counts
  -- one connection less.
  pub handle_read_closes :
      (w : World U) (rn : ℕ) (reads : List Received) (r : Option (List ℕ))
      → IsLive w
      → IsFront w.conn.ibuf
      → HasRoom w.pool
      → retry_read reads ≡ ok r
      → brought r ≡ []
      → Gives (ReadClosed w rn reads) (handle_read h (some rn) reads w)
  unfolding handle_read
  handle_read_closes w rn reads none live front room got nothing =
      Gives-bind
        (Gives-known (
          read_data_correct h.found rn reads w.pool w.conn.ibuf none live.pool room live.ibuf front
            got tt))
        λ (ret, i, p) (done, read). elim done [
          | inl (same, s) ↦ rw same (closing_read w rn reads ret i p live s.sound s.valid read)
          | inr (same, over, kept, rest) ↦ rw same (
              closing_read w rn reads ret i p live (subst IsSound (sym kept) live.ibuf)
                (subst IsValid (sym rest) live.pool) read)
        ]
  handle_read_closes w rn reads (some []) live front room got nothing =
      Gives-bind
        (Gives-known (
          read_data_correct h.found rn reads w.pool w.conn.ibuf (some []) live.pool room live.ibuf
            front got tt))
        λ (ret, i, p) (done, read). elim done [
          | inl (same, s) ↦ rw same (closing_read w rn reads ret i p live s.sound s.valid read)
          | inr (same, over, kept, rest) ↦ rw same (
              closing_read w rn reads ret i p live (subst IsSound (sym kept) live.ibuf)
                (subst IsValid (sym rest) live.pool) read)
        ]
  handle_read_closes w rn reads (some (x ∷ xs)) live front room got nothing =
      absurd (omega (arith, ap length nothing))

  -- On an open connection that holds no input, with room for one more buffer in the pool and polite
  -- callbacks, a read of eight bytes that are the head of a message with a known id and no body aborts
  -- the server.
  pub handle_read_empty_body :
      (w : World U) (reads : List Received) (xs : List ℕ) (hd : CommuHead)
      → IsLive w
      → IsFront w.conn.ibuf
      → HasRoom w.pool
      → contents w.conn.ibuf ≡ []
      → retry_read reads ≡ ok (some xs)
      → length xs ≡ 8
      → read_head xs ≡ some hd
      → hd.length ≡ 0
      → exist w.dispatcher hd.cmdid ≡ true
      → handle_read h (some 8) reads w ≡ abort
  unfolding handle_read
  handle_read_empty_body w reads [] hd live front room clear got eight at empty known =
      absurd (omega arith)
  handle_read_empty_body w reads (x ∷ xs) hd live front room clear got eight at empty known =
      Gives-abort
        (read_data_correct h.found 8 reads w.pool w.conn.ibuf (some (x ∷ xs)) live.pool room
          live.ibuf front got eight)
        λ (ret, i, p) done. elim done [
          | inl (same, s) ↦
              let bytes : contents i ≡ x ∷ xs = s.bytes ∙ ap (λ ys. ys ++ x ∷ xs) clear in
              rw (
                same,
                handle_read,
                add-one (buf_length i),
                read_messages_empty h react leave polite (buf_length i) (with_ibuf w i p) hd
                    (with_ibuf-IsLive w i p live s.sound s.valid) (ap length bytes ∙ eight)
                    (ap read_head bytes ∙ at) empty known,
              )
          | inr (same, over, kept, rest) ↦ absurd (omega (arith, ap length clear))
        ]
