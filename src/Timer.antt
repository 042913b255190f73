-- ===== src/Timer.antt =====
-- src/timer_queue.cc, include/timer_queue.h and timer_event of include/event_base.h: a binary
-- min-heap of timers in a vector, with a map from timer ids to positions in it.
-- Ids and positions are C++ `int`s; they stay in range below 2 ^ 30 timers, and 2 ^ 31 ids.
pub mod Order
pub mod Rise
pub mod Hold
pub mod Remove
pub mod Clock
pub mod Cancel
pub mod Fire
pub mod Timeout
pub mod Expiry
pub mod Schedule
use easy_reactor.Base.{
  ℕ, zero, suc, ◌+◌, ◌-◌, ◌*◌, ◌/◌, ◌%◌, ◌^◌, List, [], ◌∷◌, ◌++◌, Option, none, some, ltb, leb,
  ◌==◌, if◌then◌else◌, ◌&&◌, not, get_elem?, set, take, length, Bool, true, false,
}
use easy_reactor.Base.Run.{Run, ok, exited, starved, ◌>>=◌, deref}
use easy_reactor.Base.Table.{Table, empty, insert, erase}

-- The callback and its argument are pointers, kept as numbers; `ts` is a uint64_t and `interval`
-- a uint32_t, in milliseconds.
pub record TimerEvent : Type 0 where
  pub cb : ℕ
  pub cb_data : ℕ
  pub ts : ℕ
  pub interval : ℕ
  pub timer_id : ℕ

-- `armed` is the time that `timerfd_settime` was last given, in seconds and nanoseconds; (0, 0) disarms.
pub record TimerQueue : Type 0 where
  pub event_lst : List TimerEvent
  pub position : Table ℕ
  pub count : ℕ
  pub next_timer_id : ℕ
  pub timerfd : ℕ
  pub pioneer : ℕ
  pub armed : ℕ × ℕ

-- `(uint64_t)-1`
abbrev pub no_pioneer : ℕ
no_pioneer = 2 ^ 64 - 1

-- the constructor; `none` is a failed `timerfd_create`
pub create : Option ℕ → Run TimerQueue
create none = exited
create (some fd) = ok (record {
  event_lst = [];
  position = empty;
  count = 0;
  next_timer_id = 0;
  timerfd = fd;
  pioneer = no_pioneer;
  armed = (0, 0);
})

pub reset_timo : TimerQueue → TimerQueue
reset_timo q = record q {
  armed =
      if not (q.pioneer == no_pioneer)
      then (q.pioneer / 1000, q.pioneer % 1000 * 1000000)
      else (0, 0);
}

-- `_event_lst[i]`
abbrev pub event_at : List TimerEvent → ℕ → Run TimerEvent
event_at l i = deref (get_elem? l i)

-- The exchange of two entries that heap_add and heap_hold spell out, with their positions.
pub swap_events : TimerQueue → ℕ → ℕ → Run TimerQueue
swap_events q i j = do
  tmp ← event_at q.event_lst i
  other ← event_at q.event_lst j
  let l = set (set q.event_lst i other) j tmp
  moved ← event_at l i
  ok (record q {
    event_lst = l;
    position = insert (insert q.position moved.timer_id i) tmp.timer_id j;
  })

-- The loop of heap_add. `(0 - 1) / 2` is 0 in C++ too, so `prt_pos >= 0` always holds.
pub rise : ℕ → TimerQueue → ℕ → Run TimerQueue
rise zero q curr_pos = starved
rise (suc fuel) q curr_pos =
    let prt_pos = (curr_pos - 1) / 2 in
    let next = swap_events q curr_pos prt_pos >>= λ r. rise fuel r prt_pos in
    do
      curr ← event_at q.event_lst curr_pos
      prt ← event_at q.event_lst prt_pos
      if ltb curr.ts prt.ts then next else ok q

pub heap_add : TimerQueue → TimerEvent → Run TimerQueue
heap_add q te =
    rise (q.count + 1)
      (record q {
        event_lst = q.event_lst ++ te ∷ [];
        position = insert q.position te.timer_id q.count;
        count = q.count + 1;
      })
      q.count

-- `if (child < _count && _event_lst[min_pos].ts > _event_lst[child].ts) min_pos = child;`
pub lesser : TimerQueue → ℕ → ℕ → Run ℕ
lesser q min_pos child =
    if ltb child q.count
    then (do
      least ← event_at q.event_lst min_pos
      other ← event_at q.event_lst child
      ok (if ltb other.ts least.ts then child else min_pos))
    else ok min_pos

pub heap_hold_loop : ℕ → TimerQueue → ℕ → Run TimerQueue
heap_hold_loop zero q pos = starved
heap_hold_loop (suc fuel) q pos = do
  left_min ← lesser q pos (2 * pos + 1)
  min_pos ← lesser q left_min (2 * pos + 2)
  let next = swap_events q min_pos pos >>= λ r. heap_hold_loop fuel r min_pos
  if min_pos == pos then ok q else next

pub heap_hold : TimerQueue → ℕ → Run TimerQueue
heap_hold q pos = heap_hold_loop (q.count + 1) q pos

pub heap_del : TimerQueue → ℕ → Run TimerQueue
heap_del q pos = do
  to_del ← event_at q.event_lst pos
  tmp ← event_at q.event_lst (q.count - 1)
  let l = set q.event_lst pos tmp
  let r = record q {
    event_lst = take (length l - 1) l;
    position = erase (insert q.position tmp.timer_id pos) to_del.timer_id;
    count = q.count - 1;
  }
  heap_hold r pos

pub heap_pop : TimerQueue → Run TimerQueue
heap_pop q = if q.count == 0 then ok q else do
  root ← event_at q.event_lst 0
  let rest = erase q.position root.timer_id
  let last = event_at q.event_lst (q.count - 1) >>= λ tmp.
      let l = set q.event_lst 0 tmp in
      heap_hold
        (record q {
          event_lst = take (length l - 1) l;
          position = insert rest tmp.timer_id 0;
          count = q.count - 1;
        })
        0
  if ltb 1 q.count then last else ok (record q { event_lst = []; position = rest; count = 0 })

-- Returns the id, and the queue.
pub add_timer : TimerQueue → TimerEvent → Run (ℕ × TimerQueue)
add_timer q te = do
  r ←
      heap_add (record q { next_timer_id = q.next_timer_id + 1 })
        (record te { timer_id = q.next_timer_id })
  root ← event_at r.event_lst 0
  ok (
    q.next_timer_id,
    if ltb root.ts r.pioneer then reset_timo (record r { pioneer = root.ts }) else r,
  )

-- What del_timer does behind the removal.
pub retarget : TimerQueue → Run TimerQueue
retarget q = if q.count == 0 then ok (reset_timo (record q { pioneer = no_pioneer })) else do
  root ← event_at q.event_lst 0
  ok (if ltb root.ts q.pioneer then reset_timo (record q { pioneer = root.ts }) else q)

pub del_timer : TimerQueue → ℕ → Run TimerQueue
del_timer q timer_id = elim (q.position timer_id) [
  | none ↦ ok q
  | some pos ↦ heap_del q pos >>= retarget
]

-- The first loop of get_timo: the queue, `fired_evs` and `_reuse_lst`.
pub fire_loop :
    ℕ
    → TimerQueue
    → List TimerEvent
    → List TimerEvent
    → Run (TimerQueue × List TimerEvent × List TimerEvent)
fire_loop zero q fired reuse = starved
fire_loop (suc fuel) q fired reuse = if q.count == 0 then ok (q, fired, reuse) else do
  te ← event_at q.event_lst 0
  let again = record te { ts = (te.ts + te.interval) % 2 ^ 64 }
  let reuse' = if te.interval == 0 then reuse else reuse ++ again ∷ []
  let next = heap_pop q >>= λ r. fire_loop fuel r (fired ++ te ∷ []) reuse'
  if q.pioneer == te.ts then next else ok (q, fired, reuse)

-- The second loop of get_timo.
pub add_all : TimerQueue → List TimerEvent → Run TimerQueue
add_all q [] = ok q
add_all q (te ∷ rest) = do (_, r) ← add_timer q te; add_all r rest

-- The end of get_timo.
pub rearm : TimerQueue → Run TimerQueue
rearm q =
    if q.count == 0
    then ok (reset_timo (record q { pioneer = no_pioneer }))
    else do root ← event_at q.event_lst 0; ok (reset_timo (record q { pioneer = root.ts }))

-- Returns the queue, and what is appended to the caller's `fired_evs`.
pub get_timo : TimerQueue → List TimerEvent → Run (TimerQueue × List TimerEvent)
get_timo q fired_evs = do
  (r, fired, reuse) ← fire_loop (q.count + 1) q fired_evs []
  s ← add_all r reuse
  t ← rearm s
  ok (t, fired)

pub size : TimerQueue → ℕ
size q = q.count
