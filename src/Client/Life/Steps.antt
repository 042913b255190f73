-- ===== src/Client/Life/Steps.antt =====
-- What each call leaves of a client of src/tcp_client.cc: it stays alive.
use mathlib.Core.List.Perm
use mathlib.Core.List.{mem-cons_self}
use easy_reactor.Base.{ap, sym, subst, ℕ, refl, true, ◌==◌, ==_refl}
use easy_reactor.Base.Run.{Gives, gives, Gives-bind, Gives-weaken, Gives-deref}
use easy_reactor.Message.{MsgDispatcher}
use easy_reactor.Message.Dispatch.{add_msg_cb-IsPaired}
use easy_reactor.Loop.{EventLoop, del_ioev}
use easy_reactor.Loop.Alarms.{run_after_sets}
use easy_reactor.Timer.{TimerQueue}
use easy_reactor.Timer.Clock.{stamped}
use easy_reactor.Loop.{timer_of}
use easy_reactor.Client.{MsgDispatcher, reconn_cb_ptr}
use easy_reactor.Timer.Schedule.{IsGood}
use easy_reactor.Client.{TcpClient, ClientCallbacks, connection_cb}
use easy_reactor.Client.Talks.{Behaves, Talks-Talked}
use easy_reactor.Loop.{add_ioev}
use easy_reactor.Client.Closing.{do_connect_lem}
use easy_reactor.Client.Phases.{Phase, connecting, up, resting, Talked-new}
use easy_reactor.Client.Life.{
  Event, sends, comes, ends, writes, built, fails, retries, registers, serve, Allowed, IsAlive,
}
use easy_reactor.Client.Life.Keeping.{Begun-IsAlive, building, waits_timers, if_timers}
use easy_reactor.Client.Life.Reading.{comes-IsAlive, ends-IsAlive}
use easy_reactor.Client.Life.Writing.{sends-IsAlive, writes-IsAlive}

module _ {U : Type 0} where
  dispatching :
      (c : TcpClient U) (d : MsgDispatcher) (fd : ℕ)
      → Phase c fd
      → Phase (record c { dispatcher = d }) fd
  dispatching c d fd (connecting w) =
      connecting (record { net_ok = w.net_ok; sockfd = w.sockfd; waits = w.waits })
  dispatching c d fd (up w) =
      up (record { net_ok = w.net_ok; ev = w.ev; reads = w.reads; writing = w.writing })
  dispatching c d fd (resting w) = resting (record {
    net_ok = w.net_ok;
    unwatched = w.unwatched;
    timer = w.timer;
    armed = w.armed;
    cb = w.cb;
    cb_data = w.cb_data;
  })

module _ {U : Type 0} (h : ClientCallbacks U) (behaves : Behaves h) where
  built-IsAlive : (c : TcpClient U) → IsAlive c → Allowed built c → Gives IsAlive (serve h built c)
  unfolding serve connection_cb del_ioev add_ioev
  built-IsAlive c a r = Gives-deref c.sockfd _ a.can.at (
      Gives-bind
        (behaves.on_connection _ a.fd refl
          (record { whole = a.can.whole; front = a.can.front; at = a.can.at }))
        λ v talks.
          let t =
            Talks-Talked h (record c { loop = del_ioev c.loop a.fd; net_ok = true }) v a.fd talks
              (record { whole = a.can.whole; front = a.can.front; at = a.can.at }) in
          gives (record {
            fd = a.fd;
            can = record { whole = t.can.whole; front = t.can.front; at = t.can.at };
            input = rw t.ibuf a.input;
            input_front = rw t.ibuf a.input_front;
            input_empty = rw t.ibuf a.input_empty;
            paired = rw t.dispatcher a.paired;
            timers =
                subst IsGood
                  (sym (
                    if_timers _ (v.obuf.length == 0) _ _ (waits_timers _ v a.fd t.waits)
                      (waits_timers _ v a.fd t.waits)))
                  a.timers;
            phase = up (
                Talked-new (record c { loop = del_ioev c.loop a.fd; net_ok = true }) v a.fd refl
                  (rw (==_refl a.fd) refl) t);
          }))

  fails-IsAlive :
      (c : TcpClient U) (tv_sec tv_nsec : ℕ)
      → IsAlive c
      → Allowed (fails tv_sec tv_nsec) c
      → Gives IsAlive (serve h (fails tv_sec tv_nsec) c)
  unfolding serve connection_cb del_ioev
  fails-IsAlive c tv_sec tv_nsec a r = Gives-deref c.sockfd _ a.can.at (
      Gives-bind
        (run_after_sets (del_ioev c.loop a.fd) a.timers tv_sec tv_nsec reconn_cb_ptr c.self 2 0)
        λ (id, l) (ts, s). gives (record {
          fd = a.fd;
          can = record { whole = a.can.whole; front = a.can.front; at = a.can.at };
          input = a.input;
          input_front = a.input_front;
          input_empty = a.input_empty;
          paired = a.paired;
          timers = (s.armed.valid, s.armed.timely);
          phase = resting (record {
            net_ok = building c a r;
            unwatched = rw (ap (λ (m : EventLoop). m.io_evs) s.rest, ==_refl a.fd) refl;
            timer = stamped c.loop.timer_que (timer_of reconn_cb_ptr c.self ts 0);
            armed = (Perm.mem_iff s.armed.perm).1 mem-cons_self;
            cb = refl;
            cb_data = refl;
          });
        }))

  retries-IsAlive :
      (c : TcpClient U) (q : TimerQueue) (new_fd : ℕ)
      → IsAlive c
      → Allowed (retries q new_fd) c
      → Gives IsAlive (serve h (retries q new_fd) c)
  unfolding serve
  retries-IsAlive c q new_fd a (off, unused, good) =
      Gives-weaken
        (do_connect_lem h (record c { loop = record (c.loop) { timer_que = q } }) a.fd new_fd
          a.can.at off unused)
        λ v b.
          Begun-IsAlive _ v _ a.fd new_fd b
            (record { whole = a.can.whole; front = a.can.front; at = a.can.at }) a.input
            a.input_front a.input_empty a.paired good

  registers-IsAlive :
      (c : TcpClient U) (cmdid msg_cb usr_data : ℕ)
      → IsAlive c
      → Gives IsAlive (serve h (registers cmdid msg_cb usr_data) c)
  unfolding serve
  registers-IsAlive c cmdid msg_cb usr_data a = gives (record {
    fd = a.fd;
    can = record { whole = a.can.whole; front = a.can.front; at = a.can.at };
    input = a.input;
    input_front = a.input_front;
    input_empty = a.input_empty;
    paired = add_msg_cb-IsPaired c.dispatcher cmdid msg_cb usr_data a.paired;
    timers = a.timers;
    phase = dispatching c _ a.fd a.phase;
  })

  -- Whichever call of `Allowed` is made on a client that is alive, where the user's callbacks only send
  -- messages and change their own state: the call ends and leaves the client alive. It is connected and
  -- watched for reading, and for writing exactly while bytes are pending; or it waits for its connection;
  -- or a timer is set that connects again.
  pub serve-IsAlive :
      (c : TcpClient U) (e : Event) → IsAlive c → Allowed e c → Gives IsAlive (serve h e c)
  serve-IsAlive c (sends f) a ok_now = sends-IsAlive h c f a
  serve-IsAlive c (comes f reads) a ok_now = comes-IsAlive h behaves c f reads a ok_now
  serve-IsAlive c (ends reads new_fd) a ok_now = ends-IsAlive h behaves c reads new_fd a ok_now
  serve-IsAlive c (writes ws new_fd) a ok_now = writes-IsAlive h behaves c ws new_fd a ok_now
  serve-IsAlive c (registers cmdid cb usr_data) a ok_now = registers-IsAlive c cmdid cb usr_data a
  serve-IsAlive c built a ok_now = built-IsAlive c a ok_now
  serve-IsAlive c (fails tv_sec tv_nsec) a ok_now = fails-IsAlive c tv_sec tv_nsec a ok_now
  serve-IsAlive c (retries q new_fd) a ok_now = retries-IsAlive c q new_fd a ok_now
