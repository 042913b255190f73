-- ===== src/Client/Life.antt =====
-- The life of a client of src/tcp_client.cc: calls of the loop and the user in any order that `Allowed`
-- admits, and the client that is connected, or builds a connection, or has a timer set to try again.
pub mod Keeping
pub mod Reading
pub mod Writing
pub mod Steps
pub mod Runs
use easy_reactor.Base.{
  ap, ◌∙◌, sym, subst, ℕ, ◌<◌, ◌≤◌, ◌≡◌, refl, Bool, true, false, ◌⊎◌, inl, inr, Option, some, none,
  List, [], ◌∷◌, length, Mem, Perm, arith, ◌==◌, ==_refl,
}
use easy_reactor.Base.Run.{
  Run, ok, ◌>>=◌, deref, Gives, gives, Gives-bind, Gives-ok, Gives-weaken, Gives-deref,
}
use easy_reactor.Buffer.{Received, Sent}
use easy_reactor.Buffer.Pool.{IsWhole}
use easy_reactor.Buffer.Content.{content, length-content}
use easy_reactor.Buffer.Drain.{brought}
use easy_reactor.Message.{add_msg_cb, exist}
use easy_reactor.Message.Frames.{Frame, IsSendable, encode}
use easy_reactor.Loop.{EventLoop, IoEvent, del_ioev, del_ioev_mask, only_out}
use easy_reactor.Loop.Alarms.{run_after_sets}
use easy_reactor.Timer.{TimerQueue}
use easy_reactor.Timer.Schedule.{IsGood}
use easy_reactor.Conn.Flushing.{Flushes, Outcome, drained, blocked, failed}
use easy_reactor.Conn.Live.{IsPaired}
use easy_reactor.Client.{
  TcpClient, ClientCallbacks, Connected, in_progress, refused, client_send, client_read,
  client_retry, client_write, connection_cb, do_connect, client_rcb_ptr, client_wcb_ptr,
  connection_cb_ptr,
}
use easy_reactor.Client.Talks.{Behaves, Talks, CanSend, Talked, Waits, Talks-Talked}
use easy_reactor.Client.Closing.{IsConnecting, Begun, do_connect_lem, clean_client_correct}
use easy_reactor.Client.Flushing.{client_write_correct, Wrote, unwatched}
use easy_reactor.Client.Receiving.{Delivered, with_input, client_read_delivers}
use easy_reactor.Client.Phases.{
  IsUp, IsResting, Phase, connecting, up, resting, Talked-IsUp, Talked-new,
}

-- What happens to a client. A read brings one whole message, or finds that the connection has ended; a
-- number is the descriptor that `socket` gives for the next connection, on which `connect` then gives
-- EINPROGRESS.
pub data Event : Type 0 where
  sends : Frame → Event
  comes : Frame → List Received → Event
  ends : List Received → ℕ → Event
  writes : List Sent → ℕ → Event
  built : Event
  fails : ℕ → ℕ → Event
  retries : TimerQueue → ℕ → Event
  registers : ℕ → ℕ → ℕ → Event

module _ {U : Type 0} (h : ClientCallbacks U) where
  -- The call that it makes; `retries` is the callback of the timer, behind get_timo.
  unfoldable pub serve : Event → TcpClient U → Run (TcpClient U)
  serve (sends f) c = do (sent, v) ← client_send h f.body f.cmdid c; ok v
  serve (comes f reads) c = do
    (alive, v) ← client_read h (some (length (encode f))) reads none refused c
    ok v
  serve (ends reads new_fd) c = do
    (alive, v) ← client_read h (some 0) reads (some new_fd) in_progress c
    ok v
  serve (writes ws new_fd) c = do (alive, v) ← client_write h ws (some new_fd) in_progress c; ok v
  serve built c = do fd ← deref c.sockfd; connection_cb h fd true 0 0 c
  serve (fails tv_sec tv_nsec) c = do fd ← deref c.sockfd; connection_cb h fd false tv_sec tv_nsec c
  serve (registers cmdid msg_cb usr_data) c =
      ok (record c { dispatcher = (add_msg_cb c.dispatcher cmdid msg_cb usr_data).1 })
  serve (retries q new_fd) c =
      do_connect h (some new_fd) in_progress (record c { loop = record (c.loop) { timer_que = q } })

-- The client's socket is registered in the loop, with such an event.
pub record Registered {U : Type 0} (c : TcpClient U) (P : IoEvent → Type 0) : Type 0 where
  pub fd : ℕ
  pub ev : IoEvent
  pub at : c.sockfd ≡ some fd
  pub found : c.loop.io_evs fd ≡ some ev
  pub fits : P ev

-- The next descriptor is not in the loop, once the present one is out.
abbrev pub Unused : {U : Type 0} → TcpClient U → ℕ → Type 0
Unused c new_fd = (fd : ℕ) → c.sockfd ≡ some fd → (del_ioev c.loop fd).io_evs new_fd ≡ none

-- When it can happen: the loop calls what is registered; a read brings exactly one whole message with a
-- registered id, or nothing because the connection has ended, and fails with no EAGAIN.
abbrev pub Allowed : {U : Type 0} → Event → TcpClient U → Type 0
Allowed (sends f) c = Unit {0}
Allowed (registers cmdid msg_cb usr_data) c = Unit {0}
Allowed (comes f reads) c =
    Registered c (λ e. e.read_cb ≡ some client_rcb_ptr)
    × IsSendable (exist c.dispatcher) f
    × (length (encode f) ≤ c.ibuf.capacity)
    × (client_retry reads ≡ ok (some (encode f)))
Allowed (ends reads new_fd) c =
    Registered c (λ e. e.read_cb ≡ some client_rcb_ptr)
    × Unused c new_fd
    × ((r : Option (List ℕ)) × (client_retry reads ≡ ok r) × (brought r ≡ []))
Allowed (writes ws new_fd) c =
    Registered c (λ e. (e.write_cb ≡ some client_wcb_ptr) × (e.mask.epollout ≡ true))
    × Unused c new_fd
    × ((k : ℕ) × (o : Outcome) × Flushes c.obuf.length ws k o)
Allowed built c =
    Registered c (λ e. (e.write_cb ≡ some connection_cb_ptr) × (e.mask.epollout ≡ true))
Allowed (fails tv_sec tv_nsec) c =
    Registered c (λ e. (e.write_cb ≡ some connection_cb_ptr) × (e.mask.epollout ≡ true))
Allowed (retries q new_fd) c = (c.net_ok ≡ false) × (c.loop.io_evs new_fd ≡ none) × IsGood q

-- The client can go on: with a connection or one under way, or with a timer for the next.
pub record IsAlive {U : Type 0} (c : TcpClient U) : Type 0 where
  pub fd : ℕ
  pub can : CanSend c fd
  pub input : IsWhole c.ibuf
  pub input_front : c.ibuf.head ≡ 0
  pub input_empty : c.ibuf.length ≡ 0
  pub paired : IsPaired c.dispatcher
  pub timers : IsGood c.loop.timer_que
  pub phase : Phase c fd
