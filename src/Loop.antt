-- ===== src/Loop.antt =====
-- src/event_loop.cc, include/event_loop.h and io_event of include/event_base.h. Callbacks and their
-- arguments are pointers, kept as numbers, with `none` for NULL. `ctls` lists the epoll_ctl calls,
-- the newest first; their results are only logged by the code.
pub mod Watch
pub mod Pending
pub mod Alarms
pub mod Dispatch
use easy_reactor.Base.{
  get_elem?, ℕ, zero, suc, ◌+◌, ◌-◌, ◌*◌, ◌/◌, ◌%◌, ◌^◌, List, [], ◌∷◌, ◌++◌, Option, none, some,
  Bool, true, false, not, ◌&&◌, ◌||◌, ltb, ◌==◌, if◌then◌else◌, length,
}
use easy_reactor.Base.Run.{starved, Run, ok, abort, exited, ◌>>=◌, deref}
use easy_reactor.Base.Table.{Table, empty, insert, erase}
use easy_reactor.Timer.{TimerEvent, TimerQueue, create, add_timer, del_timer, get_timo}
use easy_reactor.Timer

-- The two bits of a mask that the code registers.
pub record Mask : Type 0 where
  pub epollin : Bool
  pub epollout : Bool

abbrev pub only_in : Mask
only_in = record { epollin = true; epollout = false }

abbrev pub only_out : Mask
only_out = record { epollin = false; epollout = true }

-- `a | b`
abbrev pub mask_or : Mask → Mask → Mask
mask_or a b = record { epollin = a.epollin || b.epollin; epollout = a.epollout || b.epollout }

-- `a & ~b`
abbrev pub mask_without : Mask → Mask → Mask
mask_without a b = record {
  epollin = a.epollin && not b.epollin;
  epollout = a.epollout && not b.epollout;
}

-- `m == 0`
abbrev pub is_empty : Mask → Bool
is_empty m = not (m.epollin || m.epollout)

pub record IoEvent : Type 0 where
  pub mask : Mask
  pub read_cb : Option ℕ
  pub write_cb : Option ℕ
  pub rcb_args : Option ℕ
  pub wcb_args : Option ℕ

-- What `_io_evs[fd]` makes for a new key.
abbrev pub no_event : IoEvent
no_event = record {
  mask = record { epollin = false; epollout = false };
  read_cb = none;
  write_cb = none;
  rcb_args = none;
  wcb_args = none;
}

-- A call of epoll_ctl.
pub data Ctl : Type 0 where
  ctl_add ctl_mod : ℕ → Mask → Ctl
  ctl_del : ℕ → Ctl

pub record EventLoop : Type 0 where
  pub epfd : ℕ
  pub io_evs : Table IoEvent
  pub timer_que : TimerQueue
  pub pending_factors : List (ℕ × ℕ)
  pub pending_capacity : ℕ
  pub listening : ℕ → Bool
  pub ctls : List Ctl

-- `it->second`, or what `_io_evs[fd]` makes
abbrev pub event_of : Option IoEvent → IoEvent
event_of none = no_event
event_of (some e) = e

-- The callback that add_ioev stores, by the first bit that is set.
unfoldable pub with_callback : IoEvent → ℕ → Mask → ℕ → IoEvent
with_callback e proc mask args =
    if mask.epollin
    then record e { read_cb = some proc; rcb_args = some args }
    else if mask.epollout
    then record e { write_cb = some proc; wcb_args = some args }
    else e

-- The mask and the operation of add_ioev, for what `_io_evs.find(fd)` gives.
abbrev pub merged_mask : Option IoEvent → Mask → Mask
merged_mask none mask = mask
merged_mask (some e) mask = mask_or e.mask mask

abbrev pub ctl_of : Option IoEvent → ℕ → Mask → Ctl
ctl_of none fd f_mask = ctl_add fd f_mask
ctl_of (some e) fd f_mask = ctl_mod fd f_mask

unfoldable pub add_ioev : EventLoop → ℕ → ℕ → Mask → ℕ → EventLoop
add_ioev l fd proc mask args =
    let old = event_of (l.io_evs fd) in
    let f_mask = merged_mask (l.io_evs fd) mask in
    record l {
      io_evs = insert l.io_evs fd (record (with_callback old proc mask args) { mask = f_mask });
      listening = λ k. if fd == k then true else l.listening k;
      ctls = ctl_of (l.io_evs fd) fd f_mask ∷ l.ctls;
    }

-- `del_ioev(fd, mask)`
unfoldable pub del_ioev_mask : EventLoop → ℕ → Mask → EventLoop
del_ioev_mask l fd mask = elim (l.io_evs fd) [
  | none ↦ l
  | some e ↦
      let o_mask = mask_without e.mask mask in
      if is_empty o_mask
      then record l {
        io_evs = erase l.io_evs fd;
        listening = λ k. if fd == k then false else l.listening k;
        ctls = ctl_del fd ∷ l.ctls;
      }
      else record l {
        io_evs = insert l.io_evs fd (record e { mask = o_mask });
        ctls = ctl_mod fd o_mask ∷ l.ctls;
      }
]

-- `del_ioev(fd)`
unfoldable pub del_ioev : EventLoop → ℕ → EventLoop
del_ioev l fd = record l {
  io_evs = erase l.io_evs fd;
  listening = λ k. if fd == k then false else l.listening k;
  ctls = ctl_del fd ∷ l.ctls;
}

-- `nlistenings`
pub nlistenings : EventLoop → ℕ → Bool
nlistenings l = l.listening

-- The address of timerqueue_cb, and that of the timer queue.
abbrev pub timerqueue_cb_ptr : ℕ
timerqueue_cb_ptr = 1

-- The constructor: `epoll` is what epoll_create1 returned and `timerfd` what timerfd_create did.
pub new_loop : Option ℕ → Option ℕ → ℕ → Run EventLoop
new_loop none timerfd que_ptr = exited
new_loop (some epfd) timerfd que_ptr = do
  q ← create timerfd
  let l : EventLoop = record {
    epfd = epfd;
    io_evs = empty;
    timer_que = q;
    pending_factors = [];
    pending_capacity = 0;
    listening = λ k. false;
    ctls = [];
  }
  ok (add_ioev l q.timerfd timerqueue_cb_ptr only_in que_ptr)

-- `tv_sec * 1000 + tv_nsec / 1000000`, a uint64_t
abbrev pub now_millis : ℕ → ℕ → ℕ
now_millis tv_sec tv_nsec = (tv_sec * 1000 + tv_nsec / 1000000) % 2 ^ 64

abbrev pub timer_of : ℕ → ℕ → ℕ → ℕ → TimerEvent
timer_of cb args ts interval = record {
  cb = cb;
  cb_data = args;
  ts = ts;
  interval = interval;
  timer_id = 0;
}

add_to_loop : EventLoop → TimerEvent → Run (ℕ × EventLoop)
add_to_loop l te = do (id, q) ← add_timer l.timer_que te; ok (id, record l { timer_que = q })

pub run_at : EventLoop → ℕ → ℕ → ℕ → Run (ℕ × EventLoop)
unfolding add_to_loop
run_at l cb args ts = add_to_loop l (timer_of cb args ts 0)

-- `sec` and `millis` are not negative, and `sec * 1000 + millis` fits an `int`.
pub run_after : EventLoop → ℕ → ℕ → ℕ → ℕ → ℕ → ℕ → Run (ℕ × EventLoop)
unfolding add_to_loop
run_after l tv_sec tv_nsec cb args sec millis =
    add_to_loop l
      (timer_of cb args ((now_millis tv_sec tv_nsec + (sec * 1000 + millis)) % 2 ^ 64) 0)

pub run_every : EventLoop → ℕ → ℕ → ℕ → ℕ → ℕ → ℕ → Run (ℕ × EventLoop)
unfolding add_to_loop
run_every l tv_sec tv_nsec cb args sec millis =
    let interval = (sec * 1000 + millis) % 2 ^ 32 in
    add_to_loop l (timer_of cb args ((now_millis tv_sec tv_nsec + interval) % 2 ^ 64) interval)

pub loop_del_timer : EventLoop → ℕ → Run EventLoop
loop_del_timer l timer_id = do q ← del_timer l.timer_que timer_id; ok (record l { timer_que = q })

-- `push_back`: a full vector moves to a larger one, of the capacity that `grow` gives.
pub add_task : (ℕ → ℕ) → EventLoop → ℕ → ℕ → EventLoop
add_task grow l func args = record l {
  pending_factors = l.pending_factors ++ (func, args) ∷ [];
  pending_capacity =
      if ltb (length l.pending_factors) l.pending_capacity
      then l.pending_capacity
      else grow l.pending_capacity;
}

-- An entry of `_fired_evs`; `failed` is EPOLLHUP or EPOLLERR.
pub record FiredEvent : Type 0 where
  pub fd : ℕ
  pub readable : Bool
  pub writable : Bool
  pub failed : Bool

-- What the loop runs: `io cb fd args` a callback of an io_event, `timer cb args` one of a timer, and
-- `task func args` a pending task. `W` is the state that they work on, the loop in it.
pub record Callbacks (W : Type 0) : Type 0 where
  pub loop : W → EventLoop
  pub with_loop : W → EventLoop → W
  pub io : ℕ → ℕ → Option ℕ → W → Run W
  pub timer : ℕ → ℕ → W → Run W
  pub task : ℕ → ℕ → W → Run W

module _ {W : Type 0} (c : Callbacks W) where
  open c use {loop, with_loop, io, timer, task}

  -- The call of a callback pointer: NULL aborts.
  pub call_io : Option ℕ → ℕ → Option ℕ → W → Run W
  call_io none fd args w = abort
  call_io (some cb) fd args w = io cb fd args w

  -- The chain of tests in process_evs, on the io_event that was found.
  pub handle_event : FiredEvent → IoEvent → W → Run W
  handle_event f ev w =
      if f.readable
      then call_io ev.read_cb f.fd ev.rcb_args w
      else if f.writable
      then call_io ev.write_cb f.fd ev.wcb_args w
      else if f.failed
      then elim ev.read_cb [
        | some cb ↦ io cb f.fd ev.rcb_args w
        | none ↦ elim ev.write_cb [
          | some cb ↦ io cb f.fd ev.wcb_args w
          | none ↦ ok (with_loop w (del_ioev (loop w) f.fd))
        ]
      ]
      else ok w

  pub handle_events : List FiredEvent → W → Run W
  handle_events [] w = ok w
  handle_events (f ∷ rest) w = do
    ev ← deref ((loop w).io_evs f.fd)
    v ← handle_event f ev w
    handle_events rest v

  -- The loop of run_task, from the iterator at index `i`. If a task adds tasks until the vector
  -- moves, the iterator dangles, and its next use aborts; else the new tasks are run too.
  pub run_each : ℕ → ℕ → W → Run W
  run_each zero i w = starved
  run_each (suc fuel) i w =
      let func_args = get_elem? (loop w).pending_factors i in
      let step : Run W = do
        (func, args) ← deref func_args
        v ← task func args w
        let next = run_each fuel (i + 1) v
        if (loop v).pending_capacity == (loop w).pending_capacity then next else abort
      in if i == length (loop w).pending_factors then ok w else step

  pub run_task : W → Run W
  run_task w = do
    v ← run_each ((loop w).pending_capacity + 1) 0 w
    ok (with_loop v (record (loop v) { pending_factors = [] }))

  -- process_evs, for the results of epoll_wait in turn.
  pub process_evs : List (List FiredEvent) → W → Run W
  process_evs [] w = ok w
  process_evs (fired ∷ rounds) w = do
    v ← handle_events fired w
    u ← run_task v
    process_evs rounds u

  pub run_timers : List TimerEvent → W → Run W
  run_timers [] w = ok w
  run_timers (t ∷ rest) w = do v ← timer t.cb t.cb_data w; run_timers rest v

  -- timerqueue_cb: what fired is a list of copies, which the callbacks cannot change.
  pub timerqueue_cb : W → Run W
  timerqueue_cb w = do
    (q, fired_evs) ← get_timo (loop w).timer_que []
    run_timers fired_evs (with_loop w (record (loop w) { timer_que = q }))
