-- ===== src/Client/Phases.antt =====
-- The phases of a client of src/tcp_client.cc, by what its loop has registered for it.
use easy_reactor.Base.{
  if◌then◌else◌, ◌∙◌, ℕ, ◌<◌, ◌≡◌, refl, true, false, ◌⊎◌, inl, inr, some, none, Option-cases, Mem,
  arith, ◌==◌, ==_refl, ==_ne, eq-cases, ◌||◌, if◌then◌else◌,
}
use easy_reactor.Loop.{
  EventLoop, IoEvent, event_of, no_event, mask_or, only_in, only_out, add_ioev, del_ioev_mask,
  mask_without, with_callback, is_empty,
}
use easy_reactor.Timer.{TimerEvent}
use easy_reactor.Client.{TcpClient, client_rcb_ptr, client_wcb_ptr, reconn_cb_ptr}
use easy_reactor.Client.Talks.{Waits, silent, already, newly, Talked}
use easy_reactor.Client.Closing.{IsConnecting}

-- The loop waits to write exactly if bytes are pending.
abbrev pub Writing : ℕ → ℕ → IoEvent → Type 0
Writing pending self ev =
    ((0 < pending)
      × (ev.mask.epollout ≡ true)
      × (ev.write_cb ≡ some client_wcb_ptr)
      × (ev.wcb_args ≡ some self))
    ⊎ ((pending ≡ 0) × (ev.mask.epollout ≡ false))

-- The loop waits to read.
pub record Reads (l : EventLoop) (fd self : ℕ) (ev : IoEvent) : Type 0 where
  pub at : l.io_evs fd ≡ some ev
  pub epollin : ev.mask.epollin ≡ true
  pub read_cb : ev.read_cb ≡ some client_rcb_ptr
  pub rcb_args : ev.rcb_args ≡ some self

pub record IsUp {U : Type 0} (c : TcpClient U) (fd : ℕ) : Type 0 where
  pub net_ok : c.net_ok ≡ true
  pub ev : IoEvent
  pub reads : Reads c.loop fd c.self ev
  pub writing : Writing c.obuf.length c.self ev

-- A timer that will connect again is set.
pub record IsResting {U : Type 0} (c : TcpClient U) (fd : ℕ) : Type 0 where
  pub net_ok : c.net_ok ≡ false
  pub unwatched : c.loop.io_evs fd ≡ none
  pub timer : TimerEvent
  pub armed : Mem timer c.loop.timer_que.event_lst
  pub cb : timer.cb ≡ reconn_cb_ptr
  pub cb_data : timer.cb_data ≡ c.self

pub data Phase {U : Type 0} (c : TcpClient U) (fd : ℕ) : Type 0 where
  connecting : IsConnecting c fd → Phase c fd
  up : IsUp c fd → Phase c fd
  resting : IsResting c fd → Phase c fd

-- What a registration for writing makes of one that reads.
add_out :
    (l : EventLoop) (fd self : ℕ) (ev : IoEvent)
    → Reads l fd self ev
    → (new : IoEvent) × Reads (add_ioev l fd client_wcb_ptr only_out self) fd self new
      × (new.mask.epollout ≡ true)
      × (new.write_cb ≡ some client_wcb_ptr)
      × (new.wcb_args ≡ some self)
unfolding add_ioev with_callback
add_out l fd self ev r = (
  record ev {
    write_cb = some client_wcb_ptr;
    wcb_args = some self;
    mask = record { epollin = ev.mask.epollin || false; epollout = ev.mask.epollout || true };
  },
  record {
    at = rw (==_refl fd, r.at) refl;
    epollin = rw r.epollin refl;
    read_cb = r.read_cb;
    rcb_args = r.rcb_args;
  },
  ground arith,
  refl,
  refl,
)

-- A registration for reading.
add_in :
    (l : EventLoop) (fd self : ℕ)
    → (new : IoEvent) × Reads (add_ioev l fd client_rcb_ptr only_in self) fd self new
      × (new.mask.epollout ≡ (event_of (l.io_evs fd)).mask.epollout)
unfolding add_ioev with_callback
add_in l fd self = elim (Option-cases (l.io_evs fd)) [
  | inl e ↦ (
    record no_event { mask = only_in; read_cb = some client_rcb_ptr; rcb_args = some self },
    record { at = rw (==_refl fd, e) refl; epollin = refl; read_cb = refl; rcb_args = refl },
    rw e refl,
  )
  | inr (ev, e) ↦ (
    record ev {
      mask = mask_or ev.mask only_in;
      read_cb = some client_rcb_ptr;
      rcb_args = some self;
    },
    record {
      at = rw (==_refl fd, e) refl;
      epollin = ground arith;
      read_cb = refl;
      rcb_args = refl;
    },
    rw e (ground arith),
  )
]

-- Without the registration for writing, that for reading stays.
pub drop_out :
    (l : EventLoop) (fd self : ℕ) (ev : IoEvent)
    → Reads l fd self ev
    → (new : IoEvent) × Reads (del_ioev_mask l fd only_out) fd self new
      × (new.mask.epollout ≡ false)
unfolding del_ioev_mask
drop_out l fd self ev r =
    let some_left : is_empty (mask_without ev.mask only_out) ≡ false = ground (arith, r.epollin) in
    (
      record ev { mask = mask_without ev.mask only_out },
      record {
        at = rw (r.at, del_ioev_mask, some_left) (rw (==_refl fd) refl);
        epollin = ground (arith, r.epollin);
        read_cb = r.read_cb;
        rcb_args = r.rcb_args;
      },
      ground arith,
    )

module _ {U : Type 0} (c v : TcpClient U) (fd : ℕ) where
  -- Sending keeps a client that is connected in that phase.
  pub Talked-IsUp : IsUp c fd → Talked c fd v → IsUp v fd
  Talked-IsUp w t = go t.waits
    where
      net_ok : v.net_ok ≡ true
      net_ok = t.net_ok ∙ w.net_ok

      kept : v.loop ≡ c.loop → Writing v.obuf.length c.self w.ev → IsUp v fd
      kept same writing = record {
        net_ok = net_ok;
        ev = w.ev;
        reads = rw (same, t.self) w.reads;
        writing = rw t.self writing;
      }

      go : Waits c fd v → IsUp v fd
      go (silent z y same) = kept same (elim w.writing [
        | inl (lt, out, cb, args) ↦ absurd (omega arith)
        | inr (z', off) ↦ inr (y, off)
      ])
      go (already p q same) = kept same (elim w.writing [
        | inl (lt, out, cb, args) ↦ inl (q, out, cb, args)
        | inr (z, off) ↦ absurd (omega arith)
      ])
      go (newly z q same) =
          let (ev, reads, out, cb, args) = add_out c.loop fd c.self w.ev w.reads in
          record {
            net_ok = net_ok;
            ev = ev;
            reads = rw (same, t.self) reads;
            writing = rw t.self (inl (q, out, cb, args));
          }

  -- The registrations behind the callback of a new connection.
  pub Talked-new :
      c.net_ok ≡ true
      → c.loop.io_evs fd ≡ none
      → Talked c fd v
      → let reading = add_ioev v.loop fd client_rcb_ptr only_in v.self in
        IsUp
          (record v {
            loop =
                if v.obuf.length == 0
                then reading
                else add_ioev reading fd client_wcb_ptr only_out v.self;
          })
          fd
  Talked-new on clear t =
      let (ev, reads, out) = add_in v.loop fd v.self in
      elim (eq-cases v.obuf.length 0) [
        | inl z ↦
            let none_pending : (v.obuf.length == 0) ≡ true = ground (arith, z) in
            rw none_pending (record {
              net_ok = t.net_ok ∙ on;
              ev = ev;
              reads = reads;
              writing = inr (z, out ∙ not_writing z t.waits);
            })
        | inr nz ↦
            let (ev', reads', out', cb, args) =
              add_out (add_ioev v.loop fd client_rcb_ptr only_in v.self) fd v.self ev reads in
            rw (==_ne v.obuf.length 0 nz) (record {
              net_ok = t.net_ok ∙ on;
              ev = ev';
              reads = reads';
              writing = inl (omega arith, out', cb, args);
            })
      ]
    where
      not_writing :
          v.obuf.length ≡ 0 → Waits c fd v → (event_of (v.loop.io_evs fd)).mask.epollout ≡ false
      not_writing z (silent y w same) = rw (same, clear) refl
      not_writing z (already p q same) = absurd (omega arith)
      not_writing z (newly y q e) = absurd (omega arith)
