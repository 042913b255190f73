-- ===== src/Conn/Flushing.antt =====
-- tcp_conn::handle_write of src/tcp_conn.cc: the writes of the pending bytes, until the socket takes
-- no more.
use easy_reactor.Base.{
  not, drop-drop, ◌∙◌, length-drop, ap, ==_refl, sym, ==_ne, ◌∷◌, nil_of_length, ◌==◌,
  if◌then◌else◌, arith, Option, drop, ◌-◌, refl, ◌≤◌, length, inr, some, inl, [], none,
  Option-cases, true, false, Bool, ◌<◌, ◌≡◌, List, ℕ, zero, suc, ◌+◌,
}
use easy_reactor.Buffer.{buf_length, write_fd, TcpBuffer, Sent, retry_write}
use easy_reactor.Loop.{
  is_empty, ctl_mod, ctl_del, IoEvent, EventLoop, only_out, mask_without, del_ioev_mask,
}
use easy_reactor.Conn.Live.{Closed, IsLive, clean_conn_correct}
use easy_reactor.Buffer.Drain.{write_fd_correct, Writes, taken}
use easy_reactor.Base.Table.{insert, erase}
use easy_reactor.Base.Run.{deref, assert, ◌>>◌, Gives-value, Gives-bind, gives, ◌>>=◌}
use easy_reactor.Buffer.Content.{length-content}
use easy_reactor.Conn.Reading.{length-contents}
use easy_reactor.Conn.Sending.{writes_of, with_obuf-IsLive}
use easy_reactor.Conn.{handle_write, with_obuf, clean_conn, write_all, Handlers, World}
use easy_reactor.Conn.Live.{LeavesConn}
use easy_reactor.Base.Run.{◌>>◌, Gives-weaken, Gives, ok}
use easy_reactor.Buffer.Stream.{IsSound, IsFront, contents}

-- How a run of writes ends: nothing is left, the socket takes no more, or it failed.
pub data Outcome : Type 0 where
  drained blocked failed : Outcome

-- With `n` bytes pending, the results `ws` of `write` take `k` bytes and end in this way.
pub data Flushes : ℕ → List Sent → ℕ → Outcome → Type 0 where
  flush_done : (ws : List Sent) → Flushes 0 ws 0 drained
  flush_failed :
      (n : ℕ) (ws rest : List Sent)
      → 0 < n
      → retry_write ws ≡ ok (none, rest)
      → Flushes n ws 0 failed
  flush_blocked :
      (n : ℕ) (ws rest : List Sent)
      → 0 < n
      → retry_write ws ≡ ok (some 0, rest)
      → Flushes n ws 0 blocked
  flush_wrote :
      (n m : ℕ) (ws rest : List Sent) {k : ℕ} {o : Outcome}
      → suc m ≤ n
      → retry_write ws ≡ ok (some (suc m), rest)
      → Flushes (n - suc m) rest k o
      → Flushes n ws (suc m + k) o

-- How handle_write leaves the connection when the writes took `k` bytes.
abbrev pub FlushEnd : {U : Type 0} → (U → U) → World U → ℕ → Outcome → World U → Type 0
FlushEnd leave w k drained v =
    IsLive v
    × IsFront v.conn.obuf
    × (contents v.conn.obuf ≡ [])
    × ((fd : ℕ) × (w.conn.connfd ≡ some fd) × (writes_of (v.loop.io_evs fd) ≡ false))
FlushEnd leave w k blocked v =
    IsLive v
    × IsFront v.conn.obuf
    × (contents v.conn.obuf ≡ drop k (contents w.conn.obuf))
    × (0 < length (contents v.conn.obuf))
    × (v.loop ≡ w.loop)
FlushEnd leave w k failed v = Closed leave w v

-- How the loop of handle_write does.
abbrev pub WriteEnd : {U : Type 0} → (U → U) → World U → ℕ → Outcome → Bool × World U → Type 0
WriteEnd leave w k drained (alive, v) =
    (alive ≡ true)
    × IsLive v
    × IsFront v.conn.obuf
    × (contents v.conn.obuf ≡ [])
    × (v.loop ≡ w.loop)
    × (v.conn.connfd ≡ w.conn.connfd)
WriteEnd leave w k blocked (alive, v) = (alive ≡ true) × FlushEnd leave w k blocked v
WriteEnd leave w k failed (alive, v) = (alive ≡ false) × Closed leave w v

del_ioev_mask-writes_of :
    (l : EventLoop) (fd : ℕ) → writes_of ((del_ioev_mask l fd only_out).io_evs fd) ≡ false
unfolding del_ioev_mask
del_ioev_mask-writes_of l fd = elim (Option-cases (l.io_evs fd)) [
  | inl e ↦ rw (e, del_ioev_mask, e) refl
  | inr (ev, e) ↦ rw (e, del_ioev_mask) (go ev (is_empty (mask_without ev.mask only_out)))
]
  where
    go :
        (ev : IoEvent) (b : Bool)
        → writes_of (
            (if b
                then record l {
                  io_evs = erase l.io_evs fd;
                  listening = λ k. if fd == k then false else l.listening k;
                  ctls = ctl_del fd ∷ l.ctls;
                }
                else record l {
                  io_evs = insert l.io_evs fd (record ev { mask = mask_without ev.mask only_out });
                  ctls = ctl_mod fd (mask_without ev.mask only_out) ∷ l.ctls;
                }).io_evs
              fd)
          ≡ false
    go ev true = rw (==_refl fd) refl
    go ev false = rw (==_refl fd) (ground arith)

write_fd_lem :
    (c : TcpBuffer) (ws rest : List Sent) (r : Option ℕ)
    → IsSound c
    → IsFront c
    → 0 < length (contents c)
    → retry_write ws ≡ ok (r, rest)
    → Writes (length (contents c)) r
    → (d : TcpBuffer) × (write_fd ws c ≡ ok (r, d, rest))
      × IsSound d
      × IsFront d
      × (contents d ≡ drop (taken r) (contents c))
write_fd_lem none ws rest r s front lt e honest = absurd (omega arith)
write_fd_lem (some b) ws rest r s front lt e honest =
    let (a, runs, t) =
      Gives-value (write_fd_correct b ws rest r s front e (rw (length-content b) at honest)) in
    let (d, same, h) = t.held in
    (
      some d,
      runs
          ∙ ap (λ x. ok (x, a.1, a.2)) t.result
          ∙ ap (λ y. ok (r, a.1, y)) t.more
          ∙ ap (λ c. ok (r, c, rest)) same,
      h.whole,
      h.head,
      h.bytes,
    )

module _ {U : Type 0} (h : Handlers U) (leave : U → U) (leaves : LeavesConn h leave) where
  round :
      (fuel : ℕ) (ws : List Sent) (w : World U)
      → 0 < buf_length w.conn.obuf
      → write_all h (suc fuel) ws w ≡ (
          write_fd ws w.conn.obuf >>= λ (ret, c, rest). elim ret [
            | none ↦ (do u ← clean_conn h (with_obuf w c w.pool); ok (false, u))
            | some zero ↦ ok (true, with_obuf w c w.pool)
            | some (suc n) ↦ write_all h fuel rest (with_obuf w c w.pool)
          ])
  unfolding write_all
  round fuel ws w lt = rw (==_ne (buf_length w.conn.obuf) 0 (λ clear. omega arith)) refl

  -- The step of the loop when bytes are pending.
  pending :
      (fuel : ℕ) (w : World U) (ws rest : List Sent) (r : Option ℕ)
      → IsLive w
      → IsFront w.conn.obuf
      → 0 < length (contents w.conn.obuf)
      → retry_write ws ≡ ok (r, rest)
      → Writes (length (contents w.conn.obuf)) r
      → {Q : Bool × World U → Type 0}
      → ((c : TcpBuffer)
          → IsSound c
          → IsFront c
          → contents c ≡ drop (taken r) (contents w.conn.obuf)
          → Gives Q (elim r [
            | none ↦ (do u ← clean_conn h (with_obuf w c w.pool); ok (false, u))
            | some zero ↦ ok (true, with_obuf w c w.pool)
            | some (suc n) ↦ write_all h fuel rest (with_obuf w c w.pool)
          ]))
      → Gives Q (write_all h (suc fuel) ws w)
  pending fuel w ws rest r live front some_bytes e honest next =
      rw (round fuel ws w (omega (arith, length-contents w.conn.obuf))) (
        let (c, runs, sound, at_front, bytes) =
          write_fd_lem w.conn.obuf ws rest r live.obuf front some_bytes e honest in
        rw runs (next c sound at_front bytes))

  Closed-with_obuf :
      (w : World U) (c : TcpBuffer) (v : World U)
      → Closed leave (with_obuf w c w.pool) v
      → Closed leave w v
  Closed-with_obuf w c v e = record {
    pool = e.pool;
    ibuf = e.ibuf;
    obuf = e.obuf;
    connfd = e.connfd;
    looped = e.looped;
    counted = e.counted;
    released = e.released;
    user = e.user;
  }

  further :
      (w : World U) (c : TcpBuffer) (n k : ℕ) (o : Outcome) (r : Bool × World U)
      → contents c ≡ drop n (contents w.conn.obuf)
      → WriteEnd leave (with_obuf w c w.pool) k o r
      → WriteEnd leave w (n + k) o r
  further w c n k drained r bytes end = end
  further w c n k blocked r bytes (alive, (live, front, left, some_bytes, same)) = (
    alive,
    (
      live,
      front,
      left ∙ ap (drop k) bytes ∙ drop-drop n k (contents w.conn.obuf),
      some_bytes,
      same,
    ),
  )
  further w c n k failed r bytes (alive, end) = (alive, Closed-with_obuf w c r.1 end)

  pub write_all_runs :
      (fuel : ℕ) (w : World U) (n : ℕ) (ws : List Sent) (k : ℕ) (o : Outcome)
      → n < fuel
      → n ≡ length (contents w.conn.obuf)
      → IsLive w
      → IsFront w.conn.obuf
      → Flushes n ws k o
      → Gives (WriteEnd leave w k o) (write_all h fuel ws w)
  unfolding write_all
  write_all_runs zero w n ws k o lt size live front f = absurd (omega arith)
  write_all_runs (suc fuel) w n ws k o lt size live front (Flushes.flush_done _) =
      let clear : buf_length w.conn.obuf ≡ 0 = omega (arith, length-contents w.conn.obuf) in
      rw clear
        (gives (refl, live, front, nil_of_length (contents w.conn.obuf) (sym size), refl, refl))
  write_all_runs (suc fuel) w n ws k o lt size live front
        (Flushes.flush_failed _ _ rest some_bytes e) =
      pending fuel w ws rest none live front (omega arith) e tt λ c s f bytes.
        Gives-bind
          (clean_conn_correct h leave leaves (with_obuf w c w.pool)
            (with_obuf-IsLive w c w.pool live s live.pool))
          λ u end. gives (refl, Closed-with_obuf w c u end)
  write_all_runs (suc fuel) w n ws k o lt size live front
        (Flushes.flush_blocked _ _ rest some_bytes e) =
      pending fuel w ws rest (some 0) live front (omega arith) e (omega arith) λ c s f bytes.
        gives (
          refl,
          (
            with_obuf-IsLive w c w.pool live s live.pool,
            f,
            bytes,
            rw bytes (rw size at some_bytes),
            refl,
          ),
        )
  write_all_runs (suc fuel) w n ws k o lt size live front (Flushes.flush_wrote _ m _ rest le e f) =
      pending fuel w ws rest (some (suc m)) live front (omega arith) e (omega arith)
        λ c s front' bytes.
          Gives-weaken
            (write_all_runs fuel (with_obuf w c w.pool) (n - suc m) rest _ o (omega arith)
              (omega (arith, ap length bytes, length-drop {A = ℕ} (suc m) (contents w.conn.obuf)))
              (with_obuf-IsLive w c w.pool live s live.pool) front' f)
            λ r end. further w c (suc m) _ o r bytes end

  -- On an open connection with its output at the front of the buffer, if the close callback leaves it as it is, for results of `write` that never exceed what is pending, handle_write
  -- ends. When all is written, nothing is pending and the loop does not watch the descriptor for
  -- writing; when the socket takes no more, exactly the bytes that were written are gone and the loop
  -- is as it was; when a write fails, the connection is closed.
  pub handle_write_correct :
      (w : World U) (ws : List Sent) (k : ℕ) (o : Outcome)
      → IsLive w
      → IsFront w.conn.obuf
      → Flushes (length (contents w.conn.obuf)) ws k o
      → Gives (FlushEnd leave w k o) (handle_write h ws w)
  unfolding handle_write
  handle_write_correct w ws k o live front f =
      Gives-bind
        (write_all_runs (buf_length w.conn.obuf + 1) w (length (contents w.conn.obuf)) ws k o
          (omega (arith, length-contents w.conn.obuf)) refl live front f)
        λ r end. ends o r end
    where
      ends :
          (o : Outcome) (r : Bool × World U)
          → WriteEnd leave w k o r
          → Gives (FlushEnd leave w k o) (
              if not r.0
              then ok r.1
              else if buf_length r.1.conn.obuf == 0
              then (do
                assert r.1.conn.looped
                fd ← deref r.1.conn.connfd
                ok (record (r.1) { loop = del_ioev_mask r.1.loop fd only_out }))
              else ok r.1)
      ends drained (alive, v) (e, live', front', clear, same, fd_same) =
          let none_left : buf_length v.conn.obuf ≡ 0 =
            length-contents v.conn.obuf ∙ ap length clear in
          let (fd, at) = live'.open_fd in
          rw (e, none_left, live'.looped, at)
            (gives (
              record {
                pool = live'.pool;
                ibuf = live'.ibuf;
                obuf = live'.obuf;
                looped = refl;
                open_fd = (fd, refl);
                paired = live'.paired;
              },
              front',
              clear,
              (fd, sym fd_same ∙ at, del_ioev_mask-writes_of v.loop fd),
            ))
      ends blocked (alive, v) (e, (live', front', left, some_bytes, same)) =
          rw
            (
              e,
              ==_ne (buf_length v.conn.obuf) 0 (λ z. omega (arith, z, length-contents v.conn.obuf)),
            )
            (gives (live', front', left, some_bytes, same))
      ends failed (alive, v) (e, end) = rw e (gives end)
