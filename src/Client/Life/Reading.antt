-- ===== src/Client/Life/Reading.antt =====
-- The reads of a client of src/tcp_client.cc, and the end of its connection.

use easy_reactor.Base.{
  if◌then◌else◌, ◌+◌, ap, ◌∙◌, sym, subst, ℕ, ◌≡◌, Bool, false, Option, some, none, List, [], ◌∷◌,
  length, arith, ◌==◌, leb_le, ◌-◌, if◌then◌else◌,
}
use easy_reactor.Base.Run.{ok, ◌>>=◌, ◌>>◌, assert, Gives, gives, Gives-bind, Gives-ok}
use easy_reactor.Buffer.{buffer_adjust, buffer_append, Received}
use easy_reactor.Buffer.Content.{length-content}
use easy_reactor.Buffer.Drain.{brought}
use easy_reactor.Message.Frames.{Frame}
use easy_reactor.Client.{client_messages}
use easy_reactor.Client.{
  clean_client, TcpClient, ClientCallbacks, in_progress, refused, client_read,
}
use easy_reactor.Client.Talks.{Behaves, Talks, Talks-Talked}
use easy_reactor.Base.Run.{Gives-assert}
use easy_reactor.Client.Closing.{clean_client_correct}
use easy_reactor.Client.Receiving.{Delivered, with_input, client_read_delivers}
use easy_reactor.Client.Phases.{IsUp, up, Talked-IsUp}
use easy_reactor.Client.Life.{comes, ends, serve, Unused, Allowed, IsAlive}
use easy_reactor.Client.Life.Keeping.{Begun-IsAlive, reading-IsUp, waits_timers}

module _ {U : Type 0} (h : ClientCallbacks U) (behaves : Behaves h) where
  pub comes-IsAlive :
      (c : TcpClient U) (f : Frame) (reads : List Received)
      → IsAlive c
      → Allowed (comes f reads) c
      → Gives IsAlive (serve h (comes f reads) c)
  unfolding serve
  comes-IsAlive c f reads a (r, sendable, fits, got) =
      let w = reading-IsUp c a r in
      Gives-bind
        (client_read_delivers h behaves c a.fd f reads none refused w.net_ok a.paired sendable a.can
          a.input a.input_front a.input_empty fits got)
        λ (alive, v) (d, front). gives (after w v alive d front)
    where
      after :
          IsUp c a.fd
          → (v : TcpClient U) (alive : Bool) → Delivered h c f (alive, v)
          → v.ibuf.head ≡ 0
          → IsAlive v
      after w v alive d front =
          let b = with_input c d.input in
          let talks : Talks h b d.after = Gives-ok (
            subst (Gives (Talks h b)) d.called (
              behaves.on_message f b a.fd w.net_ok
                (record { whole = a.can.whole; front = a.can.front; at = a.can.at }))) in
          let t =
            Talks-Talked h b d.after a.fd talks
              (record { whole = a.can.whole; front = a.can.front; at = a.can.at }) in
          let on =
            Talked-IsUp b d.after a.fd
              (record { net_ok = w.net_ok; ev = w.ev; reads = w.reads; writing = w.writing }) t in
          subst IsAlive (sym d.rest) (record {
            fd = a.fd;
            can = record { whole = t.can.whole; front = t.can.front; at = t.can.at };
            input = d.whole;
            input_front = front;
            input_empty = sym (length-content v.ibuf) ∙ ap length d.empty;
            paired = rw t.dispatcher a.paired;
            timers = rw (waits_timers b d.after a.fd t.waits) a.timers;
            phase =
                up (record {
                  net_ok = on.net_ok;
                  ev = on.ev;
                  reads = on.reads;
                  writing = on.writing;
                });
          })

  pub closes :
      (c : TcpClient U) (new_fd : ℕ)
      → IsAlive c
      → Unused c new_fd
      → Gives
          (λ (r : Bool × TcpClient U). IsAlive r.1)
          (do v ← clean_client h (some new_fd) in_progress c; ok (false, v))
  closes c new_fd a unused =
      Gives-bind (clean_client_correct h behaves c a.fd new_fd a.can.at (unused a.fd a.can.at))
        λ v b. gives (
          Begun-IsAlive c v _ a.fd new_fd b a.can a.input a.input_front a.input_empty a.paired
            a.timers)

  pub ends-IsAlive :
      (c : TcpClient U) (reads : List Received) (new_fd : ℕ)
      → IsAlive c
      → Allowed (ends reads new_fd) c
      → Gives IsAlive (serve h (ends reads new_fd) c)
  unfolding serve client_read
  ends-IsAlive c reads new_fd a (r, unused, (result, got, nothing)) =
      Gives-bind
        (Gives-assert c.net_ok _ (reading-IsUp c a r).net_ok
          (rw (leb_le 0 (c.ibuf.capacity - c.ibuf.length) (omega arith), got) (go result nothing)))
        λ x alive. gives alive
    where
      go :
          (result : Option (List ℕ))
          → brought result ≡ []
          → Gives
              (λ (x : Bool × TcpClient U). IsAlive x.1)
              (elim result [
                | none ↦ (do v ← clean_client h (some new_fd) in_progress c; ok (false, v))
                | some [] ↦ (do v ← clean_client h (some new_fd) in_progress c; ok (false, v))
                | some (x ∷ xs) ↦ (do
                  assert (length (x ∷ xs) == 0)
                  i ← buffer_append c.ibuf (x ∷ xs)
                  (alive, v) ←
                      client_messages h (i.length + 1) (some new_fd) in_progress (with_input c i)
                  j ← buffer_adjust v.ibuf
                  ok (alive, if alive then with_input v j else v))
              ])
      go none e = closes c new_fd a unused
      go (some []) e = closes c new_fd a unused
      go (some (x ∷ xs)) e = absurd (omega (arith, ap length e))
