-- ===== src/Client/Life/Writing.antt =====
-- What a client of src/tcp_client.cc sends and writes.

use easy_reactor.Base.{ap, ◌∙◌, sym, subst, ℕ, ◌<◌, ◌≡◌, refl, Bool, false, inl, inr, List, arith}
use easy_reactor.Base.Run.{Gives, gives, Gives-bind}
use easy_reactor.Buffer.{IoBuffer, Sent}
use easy_reactor.Buffer.Pool.{IsWhole}
use easy_reactor.Message.Frames.{Frame}
use easy_reactor.Loop.{EventLoop, del_ioev_mask, only_out}
use easy_reactor.Conn.Flushing.{Outcome, drained, blocked, failed}
use easy_reactor.Client.{TcpClient, ClientCallbacks}
use easy_reactor.Client.Talks.{Behaves, Talks, CanSend, Talks-Talked, Talks-offline}
use easy_reactor.Client.Messages.{client_send_correct}
use easy_reactor.Base.Run.{Gives-value}
use easy_reactor.Client.Flushing.{client_write_correct, ClientFlushed}
use easy_reactor.Client.Phases.{drop_out, IsUp, Phase, connecting, up, resting, Talked-IsUp}
use easy_reactor.Client.Life.{sends, writes, serve, Allowed, IsAlive}
use easy_reactor.Client.Life.Keeping.{
  Begun-IsAlive, writing-IsUp, keeping-Phase, Talked-IsAlive, del_timers,
}

module _ {U : Type 0} (h : ClientCallbacks U) where
  offline-Phase :
      (c v : TcpClient U) (fd : ℕ) → Talks h c v → c.net_ok ≡ false → Phase c fd → Phase v fd
  offline-Phase c v fd talks off p =
      let (u, e) = Talks-offline h c v talks off in
      subst (λ x. Phase x fd) (sym e) (keeping-Phase c u fd p)

  Talks-Phase : (c v : TcpClient U) (fd : ℕ) → CanSend c fd → Talks h c v → Phase c fd → Phase v fd
  Talks-Phase c v fd can talks (up w) = up (Talked-IsUp c v fd w (Talks-Talked h c v fd talks can))
  Talks-Phase c v fd can talks (connecting w) = offline-Phase c v fd talks w.net_ok (connecting w)
  Talks-Phase c v fd can talks (resting w) = offline-Phase c v fd talks w.net_ok (resting w)

  pub sends-IsAlive :
      (c : TcpClient U) (f : Frame) → IsAlive c → Gives IsAlive (serve h (sends f) c)
  unfolding serve
  sends-IsAlive c f a =
      let (r, e, s) =
        Gives-value (client_send_correct h c f a.fd a.can.at a.can.whole a.can.front) in
      let talks : Talks h c r.1 = Talks.says c r.1 r.1 f r.0 e (Talks.done r.1 r.1 r.1.user refl) in
      rw e (
        gives (
          Talked-IsAlive c r.1 a (Talks-Talked h c r.1 a.fd talks a.can)
            (Talks-Phase c r.1 a.fd a.can talks a.phase)))

module _ {U : Type 0} (h : ClientCallbacks U) (behaves : Behaves h) where
  pub writes-IsAlive :
      (c : TcpClient U) (ws : List Sent) (new_fd : ℕ)
      → IsAlive c
      → Allowed (writes ws new_fd) c
      → Gives IsAlive (serve h (writes ws new_fd) c)
  unfolding serve
  writes-IsAlive c ws new_fd a (r, unused, (k, o, f)) =
      let (w, some_bytes) = writing-IsUp c a r in
      Gives-bind
        (client_write_correct h behaves c a.fd new_fd ws k o a.can.at (unused a.fd a.can.at)
          a.can.whole a.can.front some_bytes f)
        λ (alive, v) end. gives (after w some_bytes o k alive v end)
    where
      with_output_alive :
          (l : EventLoop) (ob : IoBuffer)
          → l.timer_que ≡ c.loop.timer_que
          → IsWhole ob
          → ob.head ≡ 0
          → IsUp (record c { loop = l; obuf = ob }) a.fd
          → IsAlive (record c { loop = l; obuf = ob })
      with_output_alive l ob timers whole front on = record {
        fd = a.fd;
        can = record { whole = whole; front = front; at = a.can.at };
        input = a.input;
        input_front = a.input_front;
        input_empty = a.input_empty;
        paired = a.paired;
        timers = rw timers a.timers;
        phase = up on;
      }

      after :
          IsUp c a.fd
          → 0 < c.obuf.length
          → (o : Outcome) (k : ℕ) (alive : Bool) (v : TcpClient U)
          → ClientFlushed h behaves c a.fd new_fd k o (alive, v)
          → IsAlive v
      after w some_bytes drained k alive v (e, wrote, done) =
          let (ev, reads, off) = drop_out c.loop a.fd c.self w.ev w.reads in
          subst IsAlive (sym wrote.rest) (
            with_output_alive (del_ioev_mask c.loop a.fd only_out) v.obuf (del_timers c.loop a.fd)
              wrote.whole wrote.front
              (record { net_ok = w.net_ok; ev = ev; reads = reads; writing = inr (done, off) }))
      after w some_bytes blocked k alive v (e, wrote, left) = subst IsAlive (sym wrote.rest) (
          with_output_alive c.loop v.obuf refl wrote.whole wrote.front (record {
            net_ok = w.net_ok;
            ev = w.ev;
            reads = w.reads;
            writing = elim w.writing [
              | inl (lt, out, cb, args) ↦ inl (left, out, cb, args)
              | inr (z, off) ↦ absurd (omega arith)
            ];
          }))
      after w some_bytes failed k alive v (e, (x, wrote, b)) =
          Begun-IsAlive x v _ a.fd new_fd b
            (record {
              whole = wrote.whole;
              front = wrote.front;
              at = ap (λ (y : TcpClient U). y.sockfd) wrote.rest ∙ a.can.at;
            })
            (rw wrote.rest a.input) (rw wrote.rest a.input_front) (rw wrote.rest a.input_empty)
            (rw wrote.rest a.paired) (rw wrote.rest a.timers)
