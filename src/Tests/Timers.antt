-- ===== src/Tests/Timers.antt =====
-- Timers: a queue of two, and one where a removal breaks the heap.
use easy_reactor.Base.{
  ◌⊎◌, zero, ◌∙◌, ◌≤◌, ◌<◌, suc, arith, ltb, inl, eq-cases, ◌==◌, inr, if◌then◌else◌, ℕ, ◌≡◌, refl,
  List, [], ◌∷◌, some, none,
}
use easy_reactor.Base.Lists.Nth.{forall_of_nth, nth}
use easy_reactor.Base.Run.{◌>>=◌, Gives}
use easy_reactor.Timer.{TimerEvent, TimerQueue, create, add_timer, del_timer, get_timo, heap_del}
use native.Mathlib.Bridge.{le_prop}
use easy_reactor.Timer.Order.{id_at, ts_at, parent, null_event, IsHeap, IsIndexed}
use easy_reactor.Timer.Clock.{IsValid, IsTimely}
use easy_reactor.Timer.Timeout.{TimedOut, get_timo_correct}
use native.Mathlib.Nat.{ℕ_set}
use easy_reactor.Timer.Expiry.{Drained, expire_all, timers_fire}
use easy_reactor.Timer.Schedule.{
  arms, expires, serve_all, IsGood, reachable-IsGood, Armed, Disarmed, Wakes, add_timer-Wakes,
  del_timer_correct,
}
use easy_reactor.Timer.Remove.{heap_del_breaks}

-- `P` holds of every number below `n`.
abbrev Upto : ℕ → (ℕ → Type 0) → Type 0
Upto zero P = Unit {0}
Upto (suc n) P = P n × Upto n P

upto : (P : ℕ → Type 0) (n : ℕ) → Upto n P → (i : ℕ) → i < n → P i
upto P zero u i h = absurd (omega arith)
upto P (suc n) (p, u) i h = elim (eq-cases i n) [
  | inl e ↦ rw e p
  | inr ne ↦ upto P n u i (omega arith)
]

-- A timer that is due at `ts`, under `id`; every `period` ms if it is the first.
abbrev due_at : ℕ → ℕ → ℕ → TimerEvent
due_at period ts id = record {
  cb = 10;
  cb_data = 20;
  ts = ts;
  interval = if id == 0 then period else 0;
  timer_id = id;
}

abbrev pub two_timers : ℕ → TimerQueue
two_timers period = record {
  event_lst = due_at period 100 0 ∷ due_at period 200 1 ∷ [];
  position = λ k. if ltb k 2 then some k else none;
  count = 2;
  next_timer_id = 2;
  timerfd = 4;
  pioneer = 100;
  armed = (0, 100000000);
}

two_timers_ids : (period i : ℕ) → i < 2 → id_at (two_timers period).event_lst i ≡ i
unfolding nth
two_timers_ids period = upto (λ i. id_at (two_timers period).event_lst i ≡ i) 2 (refl, (refl, tt))

two_timers-IsIndexed : (period : ℕ) → IsIndexed (two_timers period)
two_timers-IsIndexed period = record {
  sized = refl;
  placed = λ i h. rw (two_timers_ids period i h) (ground arith);
  found = λ k i e.
      let (lt, same) : (i < 2) × (i ≡ k) = ground (arith, e) in
      (lt, two_timers_ids period i lt ∙ same);
}

pub two_timers-IsValid : (period : ℕ) → IsValid (two_timers period)
unfolding nth
two_timers-IsValid period = record {
  indexed = two_timers-IsIndexed period;
  fresh =
      forall_of_nth (λ t. t.timer_id < 2) (λ t. le_prop) null_event (two_timers period).event_lst
        (upto (λ i. id_at (two_timers period).event_lst i < 2) 2
          (ground arith, (ground arith, tt)));
  aimed = refl;
}

pub two_timers-IsTimely : (period : ℕ) → IsTimely (two_timers period)
unfolding nth
two_timers-IsTimely period = record {
  heap = λ c p h.
      upto
        (λ c.
          ts_at (two_timers period).event_lst (parent c) ≤ ts_at (two_timers period).event_lst c)
        2 (ground arith, (ground arith, tt)) c h;
  early =
      forall_of_nth (λ t. 100 ≤ t.ts) (λ t. le_prop) null_event (two_timers period).event_lst
        (upto (λ i. 100 ≤ ts_at (two_timers period).event_lst i) 2
          (ground arith, (ground arith, tt)));
}

get_timo_correct_example : Gives (TimedOut (two_timers 50) []) (get_timo (two_timers 50) [])
get_timo_correct_example =
    get_timo_correct (two_timers 50) [] (two_timers-IsValid 50) (two_timers-IsTimely 50)

add_timer-Wakes_example :
    Gives
      (λ r. Armed (two_timers 50) (due_at 50 70 0) r × Wakes r.1)
      (add_timer (two_timers 50) (due_at 50 70 0))
add_timer-Wakes_example =
    add_timer-Wakes (two_timers 50) (due_at 50 70 0) (two_timers-IsValid 50)
      (two_timers-IsTimely 50) (omega arith) (omega arith)

del_timer_correct_example : Gives (Disarmed (two_timers 50) 0) (del_timer (two_timers 50) 0)
del_timer_correct_example =
    del_timer_correct (two_timers 50) 0 0 (two_timers-IsValid 50) (two_timers-IsTimely 50) refl
      (inr (inl refl))

reachable-IsGood_example :
    Gives
      (λ q. IsGood q × (Wakes q ⊎ ((q.pioneer ≡ 0) × (q.armed ≡ (0, 0)))))
      (create (some 4) >>= λ q.
        serve_all q (arms (due_at 50 100 0) ∷ arms (due_at 50 60 1) ∷ expires ∷ []))
reachable-IsGood_example =
    reachable-IsGood 4 (arms (due_at 50 100 0) ∷ arms (due_at 50 60 1) ∷ expires ∷ [])

-- A heap whose rear, in the root's right branch, is due before what stands in the left one.
abbrev lopsided : List TimerEvent
lopsided =
    due_at 50 1 0
    ∷ due_at 50 10 1
    ∷ due_at 50 2 2
    ∷ due_at 50 11 3
    ∷ due_at 50 12 4
    ∷ due_at 50 3 5
    ∷ []

abbrev lopsided_queue : TimerQueue
lopsided_queue = record {
  event_lst = lopsided;
  position = λ k. if ltb k 6 then some k else none;
  count = 6;
  next_timer_id = 6;
  timerfd = 4;
  pioneer = 1;
  armed = (0, 1000000);
}

lopsided-IsHeap : IsHeap lopsided
unfolding nth
lopsided-IsHeap c p h =
    upto (λ c. ts_at lopsided (parent c) ≤ ts_at lopsided c) 6
      (
        ground arith,
        (ground arith, (ground arith, (ground arith, (ground arith, (ground arith, tt))))),
      )
      c h

lopsided_ids : (i : ℕ) → i < 6 → id_at lopsided i ≡ i
unfolding nth
lopsided_ids = upto (λ i. id_at lopsided i ≡ i) 6 (refl, (refl, (refl, (refl, (refl, (refl, tt))))))

lopsided_queue-IsIndexed : IsIndexed lopsided_queue
lopsided_queue-IsIndexed = record {
  sized = refl;
  placed = λ i h. rw (lopsided_ids i h) (ground arith);
  found = λ k i e.
      let (lt, same) : (i < 6) × (i ≡ k) = ground (arith, e) in (lt, lopsided_ids i lt ∙ same);
}

heap_del_breaks_example : Gives (λ r. ¬ IsHeap r.event_lst) (heap_del lopsided_queue 3)
unfolding nth
heap_del_breaks_example =
    heap_del_breaks lopsided_queue 3 lopsided_queue-IsIndexed lopsided-IsHeap (ground arith)
      (ground arith) (ground arith)

timers_fire_example : Gives (Drained (two_timers 0).event_lst []) (expire_all 3 (two_timers 0) [])
unfolding nth
timers_fire_example = timers_fire (two_timers 0) (two_timers-IsValid 0) (two_timers-IsTimely 0) (
    forall_of_nth (λ t. t.interval ≡ 0) (λ t. ℕ_set _ _) null_event (two_timers 0).event_lst
      (upto (λ i. (nth null_event (two_timers 0).event_lst i).interval ≡ 0) 2
        (ground arith, (ground arith, tt))))
