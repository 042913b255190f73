-- ===== src/Accept/Settings.antt =====
-- The constructor of src/tcp_server.cc on what src/config_reader.cc reads.
use easy_reactor.Base.{
  ◌∙◌, sym, arith, ℕ, ◌+◌, ◌^◌, ◌<◌, ◌≤◌, ◌≡◌, refl, List, [], ◌∷◌, ◌++◌, Option, none, some, true,
  false, ltb, ◌==◌, length, map,
}
use easy_reactor.Base.Int.{pos, int_of_unsigned}
use easy_reactor.Base.Run.{ok, ◌>>=◌, Gives, gives, Gives-bind}
use easy_reactor.Base.Text.{Bytes}
use easy_reactor.Config.{ins, ConfigReader, empty_config, lines, load, find_value, get_number}
use easy_reactor.Config.Meanings.{Meaning, Says, has_orphan, last_set}
use easy_reactor.Config.Entries.{load-find_value}
use easy_reactor.Config.Numbers.{Spells, EndsNumber, Sign, get_number_correct}
use easy_reactor.Threads.{make_queue, ThreadQueue, ThreadPool, new_queues, new_pool}
use easy_reactor.Loop.{EventLoop, add_ioev, only_in}
use easy_reactor.Accept.{
  ServerCalls, make_threads, table_size, configure, new_server, reactor_text, thread_num_text,
  max_conns_text, accepter_cb_ptr,
}

-- The setting `o` is the number `n`, or is missing and `n` is the default.
pub data SetTo (default_value : ℕ) (o : Option Bytes) (n : ℕ) : Type 0 where
  missing : o ≡ none → n ≡ default_value → SetTo default_value o n
  written :
      (s rest : Bytes)
      → o ≡ some (s ++ rest)
      → Spells s n
      → EndsNumber rest
      → SetTo default_value o n

get_number-SetTo :
    (c : ConfigReader) (section key : Bytes) (default_value n : ℕ) (o : Option Bytes)
    → find_value c section key ≡ o
    → SetTo default_value o n
    → n < 2 ^ 31
    → get_number c section key default_value ≡ n
unfolding get_number
get_number-SetTo c section key default_value n o found (SetTo.missing e same) fits =
    rw (found, e, get_number) (sym same)
get_number-SetTo c section key default_value n o found (SetTo.written s rest e spells end) fits =
    get_number_correct c section key default_value [] s rest Sign.unsigned n (found ∙ e) tt spells
      end (omega arith)
    ∙ omega arith

int_of_small : (n : ℕ) → n < 2 ^ 31 → int_of_unsigned n ≡ pos n
unfolding int_of_unsigned
int_of_small n h = ground arith

abbrev pub fresh_queue : ℕ → ThreadQueue
fresh_queue fd = record { evfd = fd; queue = []; signals = 0 }

new_queues-map : (fds : List ℕ) → new_queues (length fds) (map some fds) ≡ ok (map fresh_queue fds)
unfolding new_queues make_queue
new_queues-map [] = refl
new_queues-map (fd ∷ fds) = rw (new_queues-map fds) refl

-- The threads for these eventfds: none, or a pool with an empty queue for each.
abbrev pub threads_on : List ℕ → Option ThreadPool
threads_on [] = none
threads_on (fd ∷ fds) =
    some
      (record { curr_index = 0; thread_cnt = length (fd ∷ fds); pool = map fresh_queue (fd ∷ fds) })

make_threads-some :
    (fds : List ℕ)
    → length fds ≤ 30
    → make_threads (length fds) (map some fds) ≡ ok (threads_on fds)
unfolding make_threads new_pool
make_threads-some [] few = refl
make_threads-some (fd ∷ fds) few =
    let fits : int_of_unsigned (length (fd ∷ fds)) ≡ pos (length (fd ∷ fds)) =
      int_of_small (length (fd ∷ fds)) (omega arith) in
    let in_range : ltb 30 (length (fd ∷ fds)) ≡ false = ground arith in
    let some_thread : (length (fd ∷ fds) == 0) ≡ false = ground arith in
    rw (fits, some_thread, in_range, new_queues-map (fd ∷ fds)) refl

table_size-some :
    (m next_fd : ℕ) → m + next_fd < 2 ^ 31 → table_size (pos m) (some next_fd) ≡ ok (m + next_fd)
unfolding table_size
table_size-some m next_fd h =
    let fits : ltb (m + next_fd) (2 ^ 31) ≡ true = ground arith in rw fits refl

-- The calls of the constructor succeed: the socket is `fd`, the eventfds are `fds`, and `dup` gives
-- `next_fd`.
pub record Succeed (calls : ServerCalls) (fd next_fd : ℕ) (fds : List ℕ) : Type 0 where
  pub socket : calls.socket ≡ some fd
  pub inet_aton : calls.inet_aton ≡ true
  pub bind : calls.bind ≡ true
  pub listen : calls.listen ≡ true
  pub eventfds : calls.eventfds ≡ map some fds
  pub dup : calls.dup ≡ some next_fd

-- For a file whose lines say `ms`, with no assignment before a section, that sets at most 30 for
-- threadNum (0 where it says nothing) and `n` for maxConns (10000 where it says nothing) in the section
-- reactor, and system calls that succeed, with one eventfd for each thread: behind Load the server's
-- constructor starts that many threads with empty queues, takes `n` as the limit and makes room for
-- the descriptors below the limit and the next free one together, and the loop watches the socket.
pub new_server_correct :
    {W : Type 0} (calls : ServerCalls) (fd next_fd : ℕ) (fds : List ℕ) (n : ℕ) (file : Bytes)
    (ms : List Meaning) (self : ℕ) (loop : EventLoop) (own : W)
    → Succeed calls fd next_fd fds
    → Says (lines file) ms
    → has_orphan false ms ≡ false
    → SetTo 0 (last_set reactor_text thread_num_text false none ms) (length fds)
    → SetTo 10000 (last_set reactor_text max_conns_text false none ms) n
    → length fds ≤ 30
    → n + next_fd < 2 ^ 31
    → Gives
        (λ (s, l).
          (s.thd_pool ≡ threads_on fds)
          × (s.max_conns ≡ pos n)
          × (s.conns_size ≡ n + next_fd)
          × (l ≡ add_ioev loop fd accepter_cb_ptr only_in self))
        (load (some file) empty_config >>= λ (b, c). new_server calls (some c) self loop own)
unfolding new_server configure ins
new_server_correct calls fd next_fd fds n file ms self loop own done says tidy threads most few
      fits =
    Gives-bind (load-find_value file ms says tidy) λ (b, c) (loaded, finds).
      let count =
        get_number-SetTo c reactor_text thread_num_text 0 (length fds) _
          (finds reactor_text thread_num_text) threads (omega arith) in
      let limit =
        get_number-SetTo c reactor_text max_conns_text 10000 n _ (finds reactor_text max_conns_text)
          most (omega arith) in
      rw
        (
          done.socket,
          done.inet_aton,
          done.bind,
          done.listen,
          done.eventfds,
          done.dup,
          count,
          limit,
          make_threads-some fds few,
          int_of_small n (omega arith),
          table_size-some n next_fd fits,
        )
        (gives (refl, refl, refl, refl))
