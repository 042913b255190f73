-- ===== src/Accept.antt =====
-- do_accept of src/tcp_server.cc, include/tcp_server.h: the accepter, with a thread pool or without.
pub mod Admission
pub mod Settings
use easy_reactor.Base.{
  ◌-◌, ◌==◌, zero, ◌&&◌, ◌^◌, not, suc, ◌+◌, ℕ, List, [], ◌∷◌, Option, none, some, Bool, true,
  false, ltb, if◌then◌else◌,
}
use easy_reactor.Base.Int.{ℤ, pos, negsuc, int_of_unsigned, reaches}
use easy_reactor.Base.Text.{Bytes}
use easy_reactor.Config.{ConfigReader, ins, get_number}
use easy_reactor.Loop.{EventLoop, add_ioev, del_ioev, only_in}
use easy_reactor.Base.Run.{abort, Run, ok, exited, starved, ◌>>=◌, ◌>>◌, assert}
use easy_reactor.Threads.{new_pool, ThreadPool, get_next_thread, send_to, new_conn}

-- What one round meets: `accepted` has the descriptor, what get_conn_num gives then, and what `open`
-- would give for the reserve descriptor. The others are -1 with EINTR, EMFILE, EAGAIN or another
-- error.
pub data Accepted : Type 0 where
  accepted : ℕ → ℤ → Option ℕ → Accepted
  interrupted out_of_files no_more accept_failed : Accepted

-- `W` is what the connections of the server's own thread work on; `_thd_pool` is `none` for NULL.
-- `_curr_conns` is among the results of accept. `closed` lists the descriptors given to `close`, the newest first.
pub record Server (W : Type 0) : Type 0 where
  pub sockfd : ℕ
  pub reservfd : Option ℕ
  pub keepalive : Bool
  pub thd_pool : Option ThreadPool
  pub max_conns : ℤ
  pub conns_size : ℕ
  pub closed : List ℕ
  pub own : W

-- `close`, which fails on -1
abbrev pub shut : Option ℕ → List ℕ → List ℕ
shut none closed = closed
shut (some fd) closed = fd ∷ closed

-- The number of pointers in `conns`, where `next_fd` is the result of `dup`. A negative number makes
-- `new` throw, and a sum of 2 ^ 31 or more overflows.
unfoldable pub table_size : ℤ → Option ℕ → Run ℕ
table_size (pos m) (some next_fd) = do assert (ltb (m + next_fd) (2 ^ 31)); ok (m + next_fd)
table_size (pos m) none = do assert (not (m == 0)); ok (m - 1)
table_size (negsuc m) (some next_fd) = do assert (ltb m next_fd); ok (next_fd - (m + 1))
table_size (negsuc m) none = abort

-- The thread pool, for the results of `eventfd`.
unfoldable pub make_threads : ℕ → List (Option ℕ) → Run (Option ThreadPool)
make_threads zero fds = ok none
make_threads (suc n) fds = do p ← new_pool (int_of_unsigned (suc n)) fds; ok (some p)

-- The names and the address that the constructor uses.
abbrev pub reactor_text : Bytes
reactor_text = b'r' ∷ b'e' ∷ b'a' ∷ b'c' ∷ b't' ∷ b'o' ∷ b'r' ∷ []

abbrev pub thread_num_text : Bytes
thread_num_text = b't' ∷ b'h' ∷ b'r' ∷ b'e' ∷ b'a' ∷ b'd' ∷ b'N' ∷ b'u' ∷ b'm' ∷ []

abbrev pub max_conns_text : Bytes
max_conns_text = b'm' ∷ b'a' ∷ b'x' ∷ b'C' ∷ b'o' ∷ b'n' ∷ b'n' ∷ b's' ∷ []

abbrev pub accepter_cb_ptr : ℕ
accepter_cb_ptr = 9

-- The results of the system calls of the constructor. The Booleans say that a call succeeds.
pub record ServerCalls : Type 0 where
  pub socket : Option ℕ
  pub open_reserve : Option ℕ
  pub inet_aton : Bool
  pub bind : Bool
  pub listen : Bool
  pub eventfds : List (Option ℕ)
  pub dup : Option ℕ

-- The part of the constructor behind the calls on the socket.
pub configure :
    {W : Type 0} → ServerCalls → ConfigReader → ℕ → ℕ → EventLoop → W → Run (Server W × EventLoop)
unfolding table_size make_threads
configure calls config fd self loop own = do
  threads ← make_threads (get_number config reactor_text thread_num_text 0) calls.eventfds
  let most = int_of_unsigned (get_number config reactor_text max_conns_text 10000)
  size ← table_size most calls.dup
  ok (
    record {
      sockfd = fd;
      reservfd = calls.open_reserve;
      keepalive = false;
      thd_pool = threads;
      max_conns = most;
      conns_size = size;
      closed = [];
      own = own;
    },
    add_ioev loop fd accepter_cb_ptr only_in self,
  )

-- The constructor; `config` is that of config_reader.
pub new_server :
    {W : Type 0}
    → ServerCalls
    → Option ConfigReader
    → ℕ
    → EventLoop
    → W
    → Run (Server W × EventLoop)
unfolding configure
new_server calls config self loop own = elim calls.socket [
  | none ↦ exited
  | some fd ↦
      if not (calls.inet_aton && (calls.bind && calls.listen))
      then exited
      else do c ← ins config; configure calls c fd self loop own
]

pub keep_alive : {W : Type 0} → Server W → Server W
keep_alive s = record s { keepalive = true }

-- The destructor.
pub end_server : {W : Type 0} → Server W → EventLoop → Server W × EventLoop
end_server s loop =
    (record s { closed = shut s.reservfd (s.sockfd ∷ s.closed) }, del_ioev loop s.sockfd)

abbrev pub refuse : {W : Type 0} → Server W → ℕ → Server W
refuse s fd = record s { closed = fd ∷ s.closed }

-- With `init`, what the connection's own init does, on an object that is there or made.
module _ {W : Type 0} (init : ℕ → W → Run W) where
  -- A connection for the next thread, or for the server's own.
  pub next_owner : Option ThreadPool → W → ℕ → Run (Option ThreadPool × W)
  next_owner (some p) own connfd = do
    let (i, q) = get_next_thread p
    r ← send_to q i (new_conn connfd)
    ok (some r, own)
  next_owner none own connfd = do v ← init connfd own; ok (none, v)

  pub hand_over : Server W → ℕ → Run (Server W)
  unfolding next_owner
  hand_over s connfd = do
    (p, v) ← next_owner s.thd_pool s.own connfd
    ok (record s { thd_pool = p; own = v })

  pub accept_one : Server W → ℕ → ℤ → Run (Server W)
  accept_one s connfd curr_conns =
      if reaches s.max_conns curr_conns
      then ok (refuse s connfd)
      else do assert (ltb connfd s.conns_size); hand_over s connfd

  -- The loop; the Boolean is `conn_full`.
  pub accept_loop : Bool → List Accepted → Server W → Run (Server W)
  accept_loop full [] s = starved
  accept_loop full (interrupted ∷ rest) s = accept_loop full rest s
  accept_loop full (out_of_files ∷ rest) s =
      accept_loop true rest (record s { closed = shut s.reservfd s.closed })
  accept_loop full (no_more ∷ rest) s = ok s
  accept_loop full (accept_failed ∷ rest) s = exited
  accept_loop true (accepted connfd curr_conns opened ∷ rest) s =
      accept_loop true rest (record s { reservfd = opened; closed = connfd ∷ s.closed })
  accept_loop false (accepted connfd curr_conns opened ∷ rest) s = do
    r ← accept_one s connfd curr_conns
    accept_loop false rest r

  pub do_accept : List Accepted → Server W → Run (Server W)
  do_accept results s = accept_loop false results s
