-- ===== src/Client/Life/Runs.antt =====
-- A client of src/tcp_client.cc from its constructor on.
use easy_reactor.Base.{subst, ℕ, ◌≡◌, refl, some, none}
use easy_reactor.Base.Run.{ok, Gives, gives, Gives-ok}
use easy_reactor.Memory.{Memory}
use easy_reactor.Loop.{EventLoop, add_ioev, with_callback}
use easy_reactor.Timer.Schedule.{IsGood}
use easy_reactor.Client.{
  TcpClient, ClientCallbacks, in_progress, new_client, do_connect, connect_on,
}
use easy_reactor.Base.{arith, ==_refl}
use easy_reactor.Buffer.{new_buffer, size_class}
use easy_reactor.Buffer.Pool.{IsWhole}
use easy_reactor.Message.Dispatch.{new_dispatcher-IsPaired}
use easy_reactor.Client.Phases.{connecting}
use easy_reactor.Client.Talks.{Behaves}
use easy_reactor.Client.Life.{Event, serve, Allowed, IsAlive}
use easy_reactor.Client.Life.Steps.{serve-IsAlive}

new_buffer-IsWhole : (found : Memory) → IsWhole (new_buffer found 4194304)
unfolding new_buffer size_class
new_buffer-IsWhole found = record { class = refl; inside = omega arith }

module _ {U : Type 0} (h : ClientCallbacks U) where
  -- Calls that are allowed lead from `c` to `v`.
  pub data Reaches : TcpClient U → TcpClient U → Type 0 where
    stays : (c v : TcpClient U) → c ≡ v → Reaches c v
    steps :
        (c v w : TcpClient U) (e : Event)
        → Allowed e c
        → serve h e c ≡ ok v
        → Reaches v w
        → Reaches c w

  module _ (behaves : Behaves h) where
    Reaches-IsAlive : (c v : TcpClient U) → Reaches c v → IsAlive c → IsAlive v
    Reaches-IsAlive c v (stays _ _ e) a = subst IsAlive e a
    Reaches-IsAlive c v (steps _ w _ e now same rest) a =
        Reaches-IsAlive w v rest
          (Gives-ok (subst (Gives IsAlive) same (serve-IsAlive h behaves c e a now)))

    new_client-IsAlive :
        (found : Memory) (self fd : ℕ) (loop : EventLoop) (user : U)
        → loop.io_evs fd ≡ none
        → IsGood loop.timer_que
        → Gives IsAlive (new_client h found self loop user (some fd) in_progress)
    unfolding new_client do_connect connect_on add_ioev with_callback new_buffer
    new_client-IsAlive found self fd loop user free good = gives (record {
      fd = fd;
      can = record { whole = new_buffer-IsWhole found; front = refl; at = refl };
      input = new_buffer-IsWhole found;
      input_front = refl;
      input_empty = refl;
      paired = new_dispatcher-IsPaired;
      timers = good;
      phase =
          connecting (record { net_ok = refl; sockfd = refl; waits = rw (==_refl fd, free) refl });
    })

    -- From the constructor on, where `socket` always gives a new descriptor and `connect` EINPROGRESS, and
    -- the callbacks only send and change their own state: after any run of calls that `Allowed` admits,
    -- the client is alive, and the next such call ends and leaves it alive again. `Allowed` lets a read
    -- bring exactly one whole message with a registered id that fits the buffer, or find the connection
    -- at its end or failing with no EAGAIN; parts of messages and several at once are left out.
    pub client_lives :
        (found : Memory) (self fd : ℕ) (loop : EventLoop) (user : U) (c v : TcpClient U) (e : Event)
        → loop.io_evs fd ≡ none
        → IsGood loop.timer_que
        → new_client h found self loop user (some fd) in_progress ≡ ok c
        → Reaches c v
        → Allowed e v
        → IsAlive v × Gives IsAlive (serve h e v)
    client_lives found self fd loop user c v e free good made reached now =
        let alive = Reaches-IsAlive c v reached (
          Gives-ok
            (subst (Gives IsAlive) made (new_client-IsAlive found self fd loop user free good))) in
        (alive, serve-IsAlive h behaves v e alive now)
