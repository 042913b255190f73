-- ===== src/Client/Life/Keeping.antt =====
-- What the phases of a client of src/tcp_client.cc say of the calls that reach it, and what sending
-- leaves of them.

use mathlib.Core.Bool.{false≢true}
use easy_reactor.Base.{
  if◌then◌else◌, ap, ◌∙◌, sym, ℕ, ◌<◌, ◌≡◌, Bool, true, false, inl, inr, Option, some, none, List,
  arith, if◌then◌else◌,
}
use easy_reactor.Buffer.Pool.{IsWhole}
use easy_reactor.Loop.{EventLoop, IoEvent, event_of, del_ioev_mask, only_out}
use easy_reactor.Timer.{TimerQueue}
use easy_reactor.Timer.Schedule.{IsGood}
use easy_reactor.Conn.Live.{IsPaired}
use easy_reactor.Conn.Sending.{writes_of}
use easy_reactor.Client.{TcpClient, client_rcb_ptr, client_wcb_ptr, connection_cb_ptr}
use easy_reactor.Client.Talks.{CanSend, Talked, Waits, silent, already, newly, keeping}
use easy_reactor.Loop.{add_ioev}
use easy_reactor.Client.Closing.{Begun}
use easy_reactor.Client.Phases.{IsUp, Phase, connecting, up, resting}
use easy_reactor.Client.Life.{Registered, IsAlive}

same_callback : (o : Option ℕ) (m n : ℕ) → o ≡ some m → o ≡ some n → m ≡ n
same_callback o m n e f = cc

no_callback : (o : Option ℕ) (n : ℕ) → o ≡ none → o ≡ some n → ⊥
no_callback o n e f = cc

-- What is called when the loop finds a descriptor writable.
abbrev write_cb_of : Option IoEvent → Option ℕ
write_cb_of o = (event_of o).write_cb

abbrev read_cb_of : Option IoEvent → Option ℕ
read_cb_of o = (event_of o).read_cb

not_out :
    (o : Option IoEvent) (ev : IoEvent)
    → o ≡ some ev
    → ev.mask.epollout ≡ false
    → writes_of o ≡ true
    → ⊥
not_out o ev e off on = false≢true (sym (ap writes_of e ∙ off) ∙ on)

pub del_timers : (l : EventLoop) (fd : ℕ) → (del_ioev_mask l fd only_out).timer_que ≡ l.timer_que
unfolding del_ioev_mask
del_timers l fd = ground arith

pub if_timers :
    (q : TimerQueue) (b : Bool) (l m : EventLoop)
    → l.timer_que ≡ q
    → m.timer_que ≡ q
    → (if b then l else m).timer_que ≡ q
if_timers q true l m e f = e
if_timers q false l m e f = f

module _ {U : Type 0} where
  pub Begun-IsAlive :
      (b c : TcpClient U) (shut : List ℕ) (fd new_fd : ℕ)
      → Begun b shut new_fd c
      → CanSend b fd
      → IsWhole b.ibuf
      → b.ibuf.head ≡ 0
      → b.ibuf.length ≡ 0
      → IsPaired b.dispatcher
      → IsGood b.loop.timer_que
      → IsAlive c
  Begun-IsAlive b c shut fd new_fd s can whole front clear paired timers = record {
    fd = new_fd;
    can = record {
      whole = rw s.obuf can.whole;
      front = rw s.obuf can.front;
      at = s.connecting.sockfd;
    };
    input = rw s.ibuf whole;
    input_front = rw s.ibuf front;
    input_empty = rw s.ibuf clear;
    paired = rw s.dispatcher paired;
    timers = rw s.timers timers;
    phase = connecting s.connecting;
  }

  -- What is registered for the client's socket.
  registered :
      (c : TcpClient U) (a : IsAlive c) (P : IoEvent → Type 0) (r : Registered c P)
      → c.loop.io_evs a.fd ≡ some r.ev
  registered c a P r =
      let same : r.fd ≡ a.fd = let one = r.at in let two = a.can.at in cc in
      ap c.loop.io_evs (sym same) ∙ r.found

  -- The loop calls read_cb only on a client that is connected.
  pub reading-IsUp :
      (c : TcpClient U) (a : IsAlive c)
      → Registered c (λ e. e.read_cb ≡ some client_rcb_ptr)
      → IsUp c a.fd
  reading-IsUp c a r = go a.phase
    where
      cb : read_cb_of (c.loop.io_evs a.fd) ≡ some client_rcb_ptr
      cb = ap read_cb_of (registered c a _ r) ∙ r.fits

      go : Phase c a.fd → IsUp c a.fd
      go (up w) = w
      go (connecting w) = absurd (no_callback _ client_rcb_ptr (ap read_cb_of w.waits) cb)
      go (resting w) = absurd (no_callback _ client_rcb_ptr (ap read_cb_of w.unwatched) cb)

  -- It calls write_cb only on one that is connected and has bytes pending.
  pub writing-IsUp :
      (c : TcpClient U) (a : IsAlive c)
      → Registered c (λ e. (e.write_cb ≡ some client_wcb_ptr) × (e.mask.epollout ≡ true))
      → IsUp c a.fd × (0 < c.obuf.length)
  writing-IsUp c a r = go a.phase
    where
      cb : write_cb_of (c.loop.io_evs a.fd) ≡ some client_wcb_ptr
      cb = ap write_cb_of (registered c a _ r) ∙ r.fits.0

      out : writes_of (c.loop.io_evs a.fd) ≡ true
      out = ap writes_of (registered c a _ r) ∙ r.fits.1

      go : Phase c a.fd → IsUp c a.fd × (0 < c.obuf.length)
      go (up w) = (
        w,
        elim w.writing [
          | inl (lt, o, cb', args) ↦ lt
          | inr (z, off) ↦ absurd (not_out _ w.ev w.reads.at off out)
        ],
      )
      go (connecting w) = absurd (
          omega
            (arith, same_callback _ client_wcb_ptr connection_cb_ptr cb (ap write_cb_of w.waits)))
      go (resting w) = absurd (no_callback _ client_wcb_ptr (ap write_cb_of w.unwatched) cb)

  -- It calls connection_cb only on one that builds a connection.
  pub building :
      (c : TcpClient U) (a : IsAlive c)
      → Registered c (λ e. (e.write_cb ≡ some connection_cb_ptr) × (e.mask.epollout ≡ true))
      → c.net_ok ≡ false
  building c a r = go a.phase
    where
      cb : write_cb_of (c.loop.io_evs a.fd) ≡ some connection_cb_ptr
      cb = ap write_cb_of (registered c a _ r) ∙ r.fits.0

      out : writes_of (c.loop.io_evs a.fd) ≡ true
      out = ap writes_of (registered c a _ r) ∙ r.fits.1

      go : Phase c a.fd → c.net_ok ≡ false
      go (up w) = elim w.writing [
        | inl (lt, o, cb', args) ↦ absurd (
            omega (
              arith,
              same_callback _ connection_cb_ptr client_wcb_ptr cb (ap write_cb_of w.reads.at ∙ cb'),
            ))
        | inr (z, off) ↦ absurd (not_out _ w.ev w.reads.at off out)
      ]
      go (connecting w) = w.net_ok
      go (resting w) = w.net_ok

  pub waits_timers :
      (c v : TcpClient U) (fd : ℕ) → Waits c fd v → v.loop.timer_que ≡ c.loop.timer_que
  unfolding add_ioev
  waits_timers c v fd (silent z y same) = ap (λ (l : EventLoop). l.timer_que) same
  waits_timers c v fd (already p q same) = ap (λ (l : EventLoop). l.timer_que) same
  waits_timers c v fd (newly z q same) = ap (λ (l : EventLoop). l.timer_que) same

  pub keeping-Phase : (c : TcpClient U) (u : U) (fd : ℕ) → Phase c fd → Phase (keeping u c) fd
  keeping-Phase c u fd (connecting w) =
      connecting (record { net_ok = w.net_ok; sockfd = w.sockfd; waits = w.waits })
  keeping-Phase c u fd (up w) =
      up (record { net_ok = w.net_ok; ev = w.ev; reads = w.reads; writing = w.writing })
  keeping-Phase c u fd (resting w) = resting (record {
    net_ok = w.net_ok;
    unwatched = w.unwatched;
    timer = w.timer;
    armed = w.armed;
    cb = w.cb;
    cb_data = w.cb_data;
  })

  pub Talked-IsAlive :
      (c v : TcpClient U) (a : IsAlive c) → Talked c a.fd v → Phase v a.fd → IsAlive v
  Talked-IsAlive c v a t p = record {
    fd = a.fd;
    can = t.can;
    input = rw t.ibuf a.input;
    input_front = rw t.ibuf a.input_front;
    input_empty = rw t.ibuf a.input_empty;
    paired = rw t.dispatcher a.paired;
    timers = rw (waits_timers c v a.fd t.waits) a.timers;
    phase = p;
  }
