-- ===== src/Client/Flushing.antt =====
-- tcp_client::handle_write of src/tcp_client.cc: the writes of the pending bytes, until the socket
-- takes no more.
use easy_reactor.Base.{
  ap, ◌∙◌, sym, ℕ, zero, suc, ◌+◌, ◌-◌, ◌<◌, ◌≡◌, refl, Bool, true, false, not, List, [], ◌∷◌, some,
  none, arith, drop, drop-drop, length, length-drop, ◌==◌, ==_ne, if◌then◌else◌,
}
use easy_reactor.Base.Run.{Gives-deref, ok, ◌>>=◌, deref, Gives, gives, Gives-bind, Gives-weaken}
use easy_reactor.Buffer.{IoBuffer, Sent}
use easy_reactor.Buffer.Pool.{IsWhole}
use easy_reactor.Buffer.Content.{content, length-content, buffer_pop_lem, buffer_adjust_lem}
use easy_reactor.Loop.{only_out, del_ioev, del_ioev_mask}
use easy_reactor.Conn.Flushing.{
  Outcome, drained, blocked, failed, Flushes, flush_done, flush_failed, flush_blocked, flush_wrote,
}
use easy_reactor.Client.{TcpClient, ClientCallbacks, in_progress, client_write_all, client_write}
use easy_reactor.Client.Talks.{Behaves}
use easy_reactor.Client.Closing.{Begun, clean_client_correct}

abbrev pub with_output : {U : Type 0} → TcpClient U → IoBuffer → TcpClient U
with_output c o = record c { obuf = o }

-- The loop does not wait any more to write.
abbrev pub unwatched : {U : Type 0} → ℕ → TcpClient U → TcpClient U
unwatched fd c = record c { loop = del_ioev_mask c.loop fd only_out }

-- `k` of the pending bytes of `c` have been written, and nothing else has happened.
pub record Wrote {U : Type 0} (c : TcpClient U) (k : ℕ) (v : TcpClient U) : Type 0 where
  pub whole : IsWhole v.obuf
  pub front : v.obuf.head ≡ 0
  pub bytes : content v.obuf ≡ drop k (content c.obuf)
  pub rest : v ≡ with_output c v.obuf

-- How the loop of handle_write does.
abbrev pub WriteEnd : {U : Type 0} → TcpClient U → ℕ → ℕ → ℕ → Outcome → Bool × TcpClient U → Type 0
WriteEnd c fd new_fd k drained (alive, v) = (alive ≡ true) × Wrote c k v × (v.obuf.length ≡ 0)
WriteEnd c fd new_fd k blocked (alive, v) = (alive ≡ true) × Wrote c k v × (0 < v.obuf.length)
WriteEnd {U} c fd new_fd k failed (alive, v) =
    (alive ≡ false) × ((w : TcpClient U) × Wrote c k w × Begun w (fd ∷ fd ∷ []) new_fd v)

module _ {U : Type 0} where
  further :
      (c d : TcpClient U) (fd new_fd n k : ℕ) (o : Outcome) (r : Bool × TcpClient U)
      → Wrote c n d
      → WriteEnd d fd new_fd k o r
      → WriteEnd c fd new_fd (n + k) o r
  further c d fd new_fd n k o r a end = go o end
    where
      both : (v : TcpClient U) → Wrote d k v → Wrote c (n + k) v
      both v b = record {
        whole = b.whole;
        front = b.front;
        bytes = b.bytes ∙ ap (drop k) a.bytes ∙ drop-drop n k (content c.obuf);
        rest = b.rest ∙ ap (λ (x : TcpClient U). with_output x v.obuf) a.rest;
      }

      go : (o : Outcome) → WriteEnd d fd new_fd k o r → WriteEnd c fd new_fd (n + k) o r
      go drained (alive, b, done) = (alive, both r.1 b, done)
      go blocked (alive, b, left) = (alive, both r.1 b, left)
      go failed (alive, (w, b, begun)) = (alive, (w, both w b, begun))

module _ {U : Type 0} (h : ClientCallbacks U) (behaves : Behaves h) where
  write_all_runs :
      (fuel : ℕ) (c : TcpClient U) (fd new_fd n : ℕ) (ws : List Sent) (k : ℕ) (o : Outcome)
      → n < fuel
      → n ≡ c.obuf.length
      → c.sockfd ≡ some fd
      → (del_ioev c.loop fd).io_evs new_fd ≡ none
      → IsWhole c.obuf
      → c.obuf.head ≡ 0
      → Flushes n ws k o
      → Gives (WriteEnd c fd new_fd k o) (client_write_all h fuel ws (some new_fd) in_progress c)
  unfolding client_write_all
  write_all_runs zero c fd new_fd n ws k o lt size at new whole front f = absurd (omega arith)
  write_all_runs (suc fuel) c fd new_fd n ws k o lt size at new whole front (flush_done _) =
      let clear : (c.obuf.length == 0) ≡ true = ground (arith, size) in
      rw clear
        (gives (refl, record { whole = whole; front = front; bytes = refl; rest = refl }, sym size))
  write_all_runs (suc fuel) c fd new_fd n ws k o lt size at new whole front
        (flush_failed _ _ rest some_bytes e) =
      rw (==_ne c.obuf.length 0 (λ z. omega arith), e)
        (Gives-bind (clean_client_correct h behaves c fd new_fd at new) λ v b.
          gives (refl, (c, record { whole = whole; front = front; bytes = refl; rest = refl }, b)))
  write_all_runs (suc fuel) c fd new_fd n ws k o lt size at new whole front
        (flush_blocked _ _ rest some_bytes e) =
      rw (==_ne c.obuf.length 0 (λ z. omega arith), e)
        (gives
          (refl, record { whole = whole; front = front; bytes = refl; rest = refl }, omega arith))
  write_all_runs (suc fuel) c fd new_fd n ws k o lt size at new whole front
        (flush_wrote _ m _ rest le e f) =
      rw (==_ne c.obuf.length 0 (λ z. omega arith), e)
        (Gives-bind (buffer_pop_lem c.obuf (suc m) whole (omega arith)) λ p (good, cap, less, left).
          Gives-bind (buffer_adjust_lem p good) λ q s.
            Gives-weaken
              (write_all_runs fuel (with_output c q) fd new_fd (n - suc m) rest _ o (omega arith)
                (omega (
                  arith,
                  ap length (s.bytes ∙ left),
                  length-drop (suc m) (content c.obuf),
                  length-content q,
                  length-content c.obuf,
                ))
                at new s.whole s.head f)
              λ r end.
                further c (with_output c q) fd new_fd (suc m) _ o r
                  (record { whole = s.whole; front = s.head; bytes = s.bytes ∙ left; rest = refl })
                  end)

  -- How handle_write leaves the client: with all written, the loop does not wait to write any more; if
  -- the socket takes no more, exactly what was written is gone; if a write fails, the client waits for a new
  -- connection, with the bytes that were not written.
  abbrev pub ClientFlushed : TcpClient U → ℕ → ℕ → ℕ → Outcome → Bool × TcpClient U → Type 0
  ClientFlushed c fd new_fd k drained (alive, v) =
      (alive ≡ true) × Wrote (unwatched fd c) k v × (v.obuf.length ≡ 0)
  ClientFlushed c fd new_fd k blocked r = WriteEnd c fd new_fd k blocked r
  ClientFlushed c fd new_fd k failed r = WriteEnd c fd new_fd k failed r

  -- On a client with a socket, bytes pending at the front of its buffer, and callbacks that only send and
  -- change their own state, for results of `write` that never exceed what is pending, and where `socket`
  -- would give a new descriptor that the loop does not watch and `connect` EINPROGRESS on it, handle_write
  -- ends. When all is written, nothing is pending and
  -- the loop is told not to wait to write; when the socket takes no more, exactly the bytes that were
  -- written are gone, and nothing else has changed; when a write fails, the client waits for a new
  -- connection, and keeps for it the bytes that were not written.
  pub client_write_correct :
      (c : TcpClient U) (fd new_fd : ℕ) (ws : List Sent) (k : ℕ) (o : Outcome)
      → c.sockfd ≡ some fd
      → (del_ioev c.loop fd).io_evs new_fd ≡ none
      → IsWhole c.obuf
      → c.obuf.head ≡ 0
      → 0 < c.obuf.length
      → Flushes c.obuf.length ws k o
      → Gives (ClientFlushed c fd new_fd k o) (client_write h ws (some new_fd) in_progress c)
  unfolding client_write
  client_write_correct c fd new_fd ws k o at new whole front some_bytes f =
      let at_front : (c.obuf.head == 0) ≡ true = ground (arith, front) in
      rw (at_front, ==_ne c.obuf.length 0 (λ z. omega arith))
        (Gives-bind
          (write_all_runs (c.obuf.length + 1) c fd new_fd c.obuf.length ws k o (omega arith) refl at
            new whole front f)
          λ r end. ends o r end)
    where
      ends :
          (o : Outcome) (r : Bool × TcpClient U)
          → WriteEnd c fd new_fd k o r
          → Gives (ClientFlushed c fd new_fd k o) (
              if not r.0
              then ok (false, r.1)
              else if r.1.obuf.length == 0
              then (do s ← deref r.1.sockfd; ok (true, unwatched s r.1))
              else ok (true, r.1))
      ends drained (alive, v) (e, w, done) =
          let clear : (v.obuf.length == 0) ≡ true = ground (arith, done) in
          let here : v.sockfd ≡ some fd = ap (λ (x : TcpClient U). x.sockfd) w.rest ∙ at in
          let end : Wrote (unwatched fd c) k (unwatched fd v) = record {
            whole = w.whole;
            front = w.front;
            bytes = w.bytes;
            rest = ap (unwatched fd) w.rest;
          } in
          rw (e, clear) (Gives-deref v.sockfd _ here (gives (refl, end, done)))
      ends blocked (alive, v) (e, w, left) =
          rw (e, ==_ne v.obuf.length 0 (λ z. omega arith)) (gives (refl, w, left))
      ends failed (alive, v) (e, end) = rw e (gives (refl, end))
