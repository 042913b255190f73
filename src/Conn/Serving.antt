-- ===== src/Conn/Serving.antt =====
-- tcp_conn::handle_read of src/tcp_conn.cc for callbacks that can take the messages which come in.
use easy_reactor.Base.{
  subst, ℕ, ◌+◌, ◌≤◌, ◌<◌, ◌≡◌, ◌≢◌, refl, ◌∙◌, inl, inr, List, [], ◌∷◌, ◌++◌, none, some, arith,
  length,
}
use easy_reactor.Base.Lists.Nth.{Each}
use easy_reactor.Base.Run.{ok, ◌>>=◌, Gives, gives, Gives-bind, Gives-weaken}
use easy_reactor.Buffer.{BufferPool, TcpBuffer, u8m, Received, retry_read, buf_length, buf_adjust}
use easy_reactor.Buffer.Pool.{HasRoom}
use easy_reactor.Buffer.Content.{buffer_adjust_lem}
use easy_reactor.Buffer.Stream.{contents, IsSound, IsFront, Streams}
use easy_reactor.Buffer.Drain.{read_data_correct}
use easy_reactor.Message.{exist}
use easy_reactor.Message.Frames.{Frame, Ending, waits, refuses, Parses}
use easy_reactor.Conn.{World, Handlers, with_ibuf, handle_read, read_messages}
use easy_reactor.Conn.Live.{IsLive}
use easy_reactor.Conn.Reading.{length-contents, with_ibuf-IsLive}
use easy_reactor.Conn.Rounds.{Serves, Served, read_messages_serves}

buf_adjust_lem :
    (c : TcpBuffer)
    → IsSound c
    → Gives (λ d. IsSound d × IsFront d × (contents d ≡ contents c)) (buf_adjust c)
unfolding buf_adjust
buf_adjust_lem none s = gives (tt, tt, refl)
buf_adjust_lem (some b) s =
    Gives-bind (buffer_adjust_lem b s) λ d h. gives (h.whole, h.head, h.bytes)

-- Served, with the bytes to wait behind at the front of the buffer.
abbrev pub Handled :
    {U : Type 0}
    → (List Frame → World U → Type 0)
    → (World U → Type 0)
    → World U
    → Ending
    → World U
    → Type 0
Handled Ready Shut w e v = Served Ready Shut w e v × IsFront v.conn.ibuf

module _ {U : Type 0} (h : Handlers U) (Ready : List Frame → World U → Type 0)
    (Shut : World U → Type 0) (serves : Serves h Ready Shut) where
  adjusted :
      (w u : World U) (e : Ending)
      → Served Ready Shut w e u
      → Gives (Handled Ready Shut w e) (do j ← buf_adjust u.conn.ibuf; ok (with_ibuf u j u.pool))
  unfolding buf_adjust
  adjusted w u (waits rest) (live, left, disp, ready) =
      Gives-bind (buf_adjust_lem u.conn.ibuf live.ibuf) λ j (sound, front, same). gives (
        (
          with_ibuf-IsLive u j u.pool live sound live.pool,
          same ∙ left,
          disp,
          serves.steady [] u j u.pool refl ready,
        ),
        front,
      )
  adjusted w u refuses (gone, shut) =
      rw (gone, buf_adjust) (gives ((refl, subst (λ c. Shut (with_ibuf u c u.pool)) gone shut), tt))

  read_then :
      (w : World U) (fs : List Frame) (e : Ending) (xs : List ℕ) (i : TcpBuffer) (p : BufferPool)
      → IsLive w
      → Ready fs (with_ibuf w i p)
      → Streams (contents w.conn.ibuf ++ xs) w.pool i p
      → Parses (exist w.dispatcher) (contents w.conn.ibuf ++ xs) fs e
      → Each (λ f. f.body ≢ []) fs
      → Gives (Handled Ready Shut (with_ibuf w i p) e) (do
        u ← read_messages h (buf_length i + 1) (with_ibuf w i p)
        j ← buf_adjust u.conn.ibuf
        ok (with_ibuf u j u.pool))
  read_then w fs e xs i p live ready s parses full =
      Gives-bind
        (read_messages_serves h Ready Shut serves (buf_length i + 1) (with_ibuf w i p) fs e
          (omega (arith, length-contents i)) (with_ibuf-IsLive w i p live s.sound s.valid) ready
          (rw s.bytes parses) full)
        λ u end. adjusted (with_ibuf w i p) u e end

  Handled-with_ibuf :
      (w : World U) (i : TcpBuffer) (p : BufferPool) (e : Ending) (v : World U)
      → Handled Ready Shut (with_ibuf w i p) e v
      → Handled Ready Shut w e v
  Handled-with_ibuf w i p (waits rest) v end = end
  Handled-with_ibuf w i p refuses v end = end

  -- When `read` brings all the bytes that FIONREAD announced, and the callbacks can take the messages
  -- that these bytes complete.
  pub handle_read_serves :
      (w : World U) (reads : List Received) (xs : List ℕ) (fs : List Frame) (e : Ending)
      → IsLive w
      → IsFront w.conn.ibuf
      → HasRoom w.pool
      → retry_read reads ≡ ok (some xs)
      → 0 < length xs
      → length (contents w.conn.ibuf) + length xs ≤ u8m
      → ((c : TcpBuffer) (p : BufferPool)
          → p.total_mem ≤ w.pool.total_mem + 8192
          → Ready fs (with_ibuf w c p))
      → Parses (exist w.dispatcher) (contents w.conn.ibuf ++ xs) fs e
      → Each (λ f. f.body ≢ []) fs
      → Gives (Handled Ready Shut w e) (handle_read h (some (length xs)) reads w)
  unfolding handle_read
  handle_read_serves w reads [] fs e live front room got some_bytes fits ready parses full =
      absurd (omega arith)
  handle_read_serves w reads (x ∷ xs) fs e live front room got some_bytes fits ready parses full =
      Gives-bind
        (read_data_correct h.found (length (x ∷ xs)) reads w.pool w.conn.ibuf (some (x ∷ xs))
          live.pool room live.ibuf front got refl)
        λ (ret, i, p) done. elim done [
          | inl (same, s) ↦ rw same (
              Gives-weaken (read_then w fs e (x ∷ xs) i p live (ready i p s.total) s parses full)
                λ v end. Handled-with_ibuf w i p e v end)
          | inr (same, over, kept, rest) ↦ absurd (omega arith)
        ]
