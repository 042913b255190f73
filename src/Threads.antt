-- ===== src/Threads.antt =====
-- include/thread_queue.h, src/thread_pool.cc, include/thread_pool.h and queue_msg of
-- include/msg_head.h. The calls on a queue run under its mutex, so each is one step.
pub mod Order
use easy_reactor.Base.{
  length, ℕ, zero, suc, ◌+◌, List, [], ◌∷◌, ◌++◌, Option, none, some, ltb, ◌==◌, ◌||◌,
  if◌then◌else◌, get_elem?, set,
}
use easy_reactor.Base.Int.{ℤ, pos, negsuc}
use easy_reactor.Base.Run.{Run, ok, exited, starved, ◌>>=◌, deref}
use easy_reactor.Loop.{EventLoop, add_ioev, only_in, add_task}

pub data QueueMsg : Type 0 where
  new_conn : ℕ → QueueMsg
  stop_thd : QueueMsg
  new_task : ℕ → Option ℕ → QueueMsg

-- `signals` is the counter of the eventfd.
pub record ThreadQueue : Type 0 where
  pub evfd : ℕ
  pub queue : List QueueMsg
  pub signals : ℕ

-- The constructor; `none` is a failed `eventfd`.
unfoldable pub make_queue : Option ℕ → Run ThreadQueue
make_queue none = exited
make_queue (some fd) = ok (record { evfd = fd; queue = []; signals = 0 })

unfoldable pub send_msg : ThreadQueue → QueueMsg → ThreadQueue
send_msg q item = record q { queue = q.queue ++ item ∷ []; signals = q.signals + 1 }

-- The caller's queue and the thread's change places. A `read` of the eventfd resets its counter.
unfoldable pub recv_msg : ThreadQueue → List QueueMsg → List QueueMsg × ThreadQueue
recv_msg q tmp_queue = (q.queue, record q { queue = tmp_queue; signals = 0 })

pub set_loop : ThreadQueue → EventLoop → ℕ → ℕ → EventLoop
set_loop q loop proc args = add_ioev loop q.evfd proc only_in args

-- What the messages do in msg_comming_cb: `init` is the connection's own, on an object that is there
-- or made, and `grow` is the vector's.
module _ (init : ℕ → EventLoop → Run EventLoop) (grow : ℕ → ℕ) (null_ptr : ℕ) where
  pub handle_msg : QueueMsg → EventLoop → Run EventLoop
  handle_msg (new_conn connfd) l = init connfd l
  handle_msg (new_task task none) l = ok (add_task grow l task null_ptr)
  handle_msg (new_task task (some args)) l = ok (add_task grow l task args)
  handle_msg stop_thd l = ok l

  pub handle_msgs : List QueueMsg → EventLoop → Run EventLoop
  handle_msgs [] l = ok l
  handle_msgs (m ∷ rest) l = do k ← handle_msg m l; handle_msgs rest k

  pub msg_comming_cb : ThreadQueue → EventLoop → Run (ThreadQueue × EventLoop)
  msg_comming_cb q l = do let (msgs, r) = recv_msg q []; k ← handle_msgs msgs l; ok (r, k)

pub record ThreadPool : Type 0 where
  pub curr_index : ℕ
  pub thread_cnt : ℕ
  pub pool : List ThreadQueue

-- The queues of the constructor's loop, for the results of `eventfd`.
unfoldable pub new_queues : ℕ → List (Option ℕ) → Run (List ThreadQueue)
new_queues zero fds = ok []
new_queues (suc n) [] = starved
new_queues (suc n) (fd ∷ fds) = do q ← make_queue fd; qs ← new_queues n fds; ok (q ∷ qs)

-- `pthread_create` never gives -1.
unfoldable pub new_pool : ℤ → List (Option ℕ) → Run ThreadPool
new_pool (negsuc n) fds = exited
new_pool (pos n) fds =
    let start : Run ThreadPool = do
      qs ← new_queues n fds
      ok (record { curr_index = 0; thread_cnt = n; pool = qs })
    in if (n == 0) || ltb 30 n then exited else start

-- The index of the thread whose queue is returned.
unfoldable pub get_next_thread : ThreadPool → ℕ × ThreadPool
get_next_thread p =
    let i = if p.curr_index == p.thread_cnt then 0 else p.curr_index in
    (i, record p { curr_index = i + 1 })

-- A message for the queue at `i`.
unfoldable pub send_to : ThreadPool → ℕ → QueueMsg → Run ThreadPool
send_to p i m = do
  q ← deref (get_elem? p.pool i)
  ok (record p { pool = set p.pool i (send_msg q m) })

pub run_task_at : ThreadPool → ℕ → ℕ → Option ℕ → Run ThreadPool
run_task_at p thd_index task args = send_to p thd_index (new_task task args)

pub run_task_from : ℕ → ℕ → ThreadPool → ℕ → Run ThreadPool
run_task_from zero i p task = ok p
run_task_from (suc n) i p task = do q ← run_task_at p i task none; run_task_from n (i + 1) q task

-- `run_task` for all threads: its `args` are not handed on.
pub run_task_all : ThreadPool → ℕ → Option ℕ → Run ThreadPool
run_task_all p task args = run_task_from p.thread_cnt 0 p task
