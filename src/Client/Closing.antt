-- ===== src/Client/Closing.antt =====
-- clean_conn and do_connect of src/tcp_client.cc: the end of a connection, and the next one.
use easy_reactor.Base.{==_refl, [], ◌++◌, ap, ◌∙◌, ℕ, ◌≡◌, refl, false, List, ◌∷◌, some, none}
use easy_reactor.Base.Run.{Gives-weaken, Gives, gives, Gives-bind}
use easy_reactor.Loop.{with_callback, IoEvent, no_event, only_out, add_ioev, del_ioev}
use easy_reactor.Client.{
  connect_on, TcpClient, ClientCallbacks, in_progress, clean_client, do_connect, connection_cb_ptr,
}
use easy_reactor.Client.Talks.{Behaves, Talks-offline}

-- The registration with which a client waits for its connection.
abbrev pub connecting_event : ℕ → IoEvent
connecting_event self = record no_event {
  mask = only_out;
  write_cb = some connection_cb_ptr;
  wcb_args = some self;
}

-- The client waits for the connection `fd` that it has begun to build.
pub record IsConnecting {U : Type 0} (c : TcpClient U) (fd : ℕ) : Type 0 where
  pub net_ok : c.net_ok ≡ false
  pub sockfd : c.sockfd ≡ some fd
  pub waits : c.loop.io_evs fd ≡ some (connecting_event c.self)

-- `c`, begun from `b`, waits for the connection `new_fd`, with the buffers and timers of `b`, and
-- has closed the descriptors `shut` besides.
pub record Begun {U : Type 0} (b : TcpClient U) (shut : List ℕ) (new_fd : ℕ) (c : TcpClient U)
    : Type 0 where
  pub connecting : IsConnecting c new_fd
  pub self : c.self ≡ b.self
  pub obuf : c.obuf ≡ b.obuf
  pub ibuf : c.ibuf ≡ b.ibuf
  pub dispatcher : c.dispatcher ≡ b.dispatcher
  pub timers : c.loop.timer_que ≡ b.loop.timer_que
  pub closed : c.closed ≡ shut ++ b.closed

module _ {U : Type 0} (h : ClientCallbacks U) where
  pub do_connect_lem :
      (c : TcpClient U) (fd new_fd : ℕ)
      → c.sockfd ≡ some fd
      → c.net_ok ≡ false
      → c.loop.io_evs new_fd ≡ none
      → Gives (Begun c (fd ∷ []) new_fd) (do_connect h (some new_fd) in_progress c)
  unfolding do_connect connect_on add_ioev with_callback
  do_connect_lem c fd new_fd at off new = gives (record {
    connecting = record { net_ok = off; sockfd = refl; waits = rw (==_refl new_fd, new) refl };
    self = refl;
    obuf = refl;
    ibuf = refl;
    dispatcher = refl;
    timers = refl;
    closed = rw at refl;
  })

  module _ (behaves : Behaves h) where
    -- Where the user's callbacks only send and change their own state, `socket` gives a new descriptor that
    -- the loop does not watch, and `connect` gives EINPROGRESS on it, clean_conn ends with the client
    -- waiting for a new connection. What was pending and what was read of the old connection are kept for
    -- the new one, and the old descriptor is closed twice.
    pub clean_client_correct :
        (c : TcpClient U) (fd new_fd : ℕ)
        → c.sockfd ≡ some fd
        → (del_ioev c.loop fd).io_evs new_fd ≡ none
        → Gives (Begun c (fd ∷ fd ∷ []) new_fd) (clean_client h (some new_fd) in_progress c)
    unfolding clean_client del_ioev
    clean_client_correct c fd new_fd at new = Gives-bind (behaves.on_close _ refl) λ v talks.
        let (u, e) = Talks-offline h _ v talks refl in
        Gives-weaken
          (do_connect_lem v fd new_fd (ap (λ (x : TcpClient U). x.sockfd) e ∙ at)
            (ap (λ (x : TcpClient U). x.net_ok) e)
            (ap (λ (x : TcpClient U). x.loop.io_evs new_fd) e ∙ (rw at new)))
          λ w b. record {
            connecting = b.connecting;
            self = b.self ∙ ap (λ (x : TcpClient U). x.self) e;
            obuf = b.obuf ∙ ap (λ (x : TcpClient U). x.obuf) e;
            ibuf = b.ibuf ∙ ap (λ (x : TcpClient U). x.ibuf) e;
            dispatcher = b.dispatcher ∙ ap (λ (x : TcpClient U). x.dispatcher) e;
            timers = b.timers ∙ ap (λ (x : TcpClient U). x.loop.timer_que) e ∙ rw at refl;
            closed = b.closed ∙ ap (λ (x : TcpClient U). fd ∷ x.closed) e ∙ rw at refl;
          }
