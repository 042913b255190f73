-- ===== src/Timer/Hold.antt =====
-- heap_hold of src/timer_queue.cc: an entry sinks below the children that are due before it.

use native.Mathlib.Numerals.{add-one}
use easy_reactor.Base.{
  ℕ, zero, suc, ◌+◌, ◌-◌, ◌*◌, ◌≤◌, ◌<◌, ◌≡◌, ◌≢◌, ◌⊎◌, List, arith, ltb, ◌==◌, if◌then◌else◌,
  length,
}
use easy_reactor.Base.Lists.Nth.{exchange, nth-exchange, length-exchange}
use easy_reactor.Base.Run.{ok, ◌>>=◌, Gives, gives, Gives-if, Gives-weaken}
use easy_reactor.Timer.{swap_events, TimerEvent, TimerQueue, lesser, heap_hold_loop, heap_hold}
use easy_reactor.Timer.Order.{
  null_event, ts_at, parent, IsHeap, IsIndexed, Keeps, Keeps-refl, Keeps-trans, exchanged,
  exchanged-Keeps, event_at-ok, swap_events-ok,
}

-- Only the entry at `i` may be due after its children.
pub record HoldInv (l : List TimerEvent) (i : ℕ) : Type 0 where
  pub edges : (c : ℕ) → 0 < c → c < length l → parent c ≢ i → ts_at l (parent c) ≤ ts_at l c
  pub bridged :
      (c : ℕ) → 0 < c → c < length l → parent c ≡ i → 0 < i → ts_at l (parent i) ≤ ts_at l c

-- The index that heap_hold's tests choose.
abbrev lesser_of : List TimerEvent → ℕ → ℕ → ℕ
lesser_of l m c = if ltb c (length l) then (if ltb (ts_at l c) (ts_at l m) then c else m) else m

abbrev chosen : List TimerEvent → ℕ → ℕ
chosen l i = lesser_of l (lesser_of l i (2 * i + 1)) (2 * i + 2)

lesser-ok :
    (q : TimerQueue) (m c : ℕ)
    → q.count ≡ length q.event_lst
    → (c < length q.event_lst → m < length q.event_lst)
    → lesser q m c ≡ ok (lesser_of q.event_lst m c)
unfolding lesser
lesser-ok q m c sized inside = ground (arith, event_at-ok q.event_lst m, event_at-ok q.event_lst c)

-- The least of an entry and its children.
record IsLeast (l : List TimerEvent) (i m : ℕ) : Type 0 where
  place : (m ≡ i) ⊎ ((m < length l) × (i < m) × (parent m ≡ i) × (ts_at l m < ts_at l i))
  least : (c : ℕ) → 0 < c → c < length l → parent c ≡ i → ts_at l m ≤ ts_at l c

child-cases : (c i : ℕ) → 0 < c → parent c ≡ i → (c ≡ 2 * i + 1) ⊎ (c ≡ 2 * i + 2)
child-cases c i p e = omega arith

chosen-IsLeast : (l : List TimerEvent) (i : ℕ) → IsLeast l i (chosen l i)
chosen-IsLeast l i = record {
  place = ground arith;
  least = λ c p s e. ground (arith, child-cases c i p e);
}

exchange-HoldInv :
    (l : List TimerEvent) (i m : ℕ)
    → HoldInv l i
    → i < length l
    → m < length l
    → i < m
    → parent m ≡ i
    → ts_at l m < ts_at l i
    → ((c : ℕ) → 0 < c → c < length l → parent c ≡ i → ts_at l m ≤ ts_at l c)
    → HoldInv (exchange null_event l m i) m
exchange-HoldInv l i m v hi hm lt pm below least =
    let size = length-exchange null_event l m i in
    let at = nth-exchange null_event l m i hm hi in
    record {
      edges = λ c p s n. ground (arith, size, at c, at (parent c), v.edges c, v.bridged m, least c);
      bridged = λ c p s e n. ground (arith, size, at c, at (parent m), v.edges c);
    }

-- One round of the loop, given that the rounds behind it restore the heap.
sink :
    (k : ℕ) (q : TimerQueue) (i m : ℕ)
    → IsIndexed q
    → IsLeast q.event_lst i m
    → m ≢ i
    → ((r : TimerQueue)
        → length r.event_lst ≡ length q.event_lst
        → IsIndexed r
        → Gives
            (λ t. Keeps r t × (HoldInv r.event_lst m → IsHeap t.event_lst))
            (heap_hold_loop k r m))
    → Gives
        (λ r. Keeps q r × (HoldInv q.event_lst i → IsHeap r.event_lst))
        (swap_events q m i >>= λ r. heap_hold_loop k r m)
sink k q i m v s ne rest =
    let l = q.event_lst in
    let at : (m < length l) × (i < m) × (parent m ≡ i) × (ts_at l m < ts_at l i) =
      ground (arith, s.place) in
    let hi : i < length l = omega arith in
    let step = exchanged-Keeps q m i at.0 hi ne v in
    rw (swap_events-ok q m i at.0 hi ne) (
      Gives-weaken (rest (exchanged q m i) (length-exchange null_event l m i) step.indexed)
        (λ r (kept, heap). (
          Keeps-trans step kept,
          λ u. heap (exchange-HoldInv l i m u hi at.0 at.1 at.2 at.3 s.least),
        )))

pub hold_restores :
    (k : ℕ) (q : TimerQueue) (i : ℕ)
    → length q.event_lst - i < k
    → IsIndexed q
    → Gives (λ r. Keeps q r × (HoldInv q.event_lst i → IsHeap r.event_lst)) (heap_hold_loop k q i)
unfolding heap_hold_loop
hold_restores zero q i f v = absurd (omega arith)
hold_restores (suc k) q i f v =
    let l = q.event_lst in
    let m = chosen l i in
    let s = chosen-IsLeast l i in
    rw
      (
        lesser-ok q i (2 * i + 1) v.sized (λ h. omega arith),
        lesser-ok q (lesser_of l i (2 * i + 1)) (2 * i + 2) v.sized (λ h. ground arith),
      )
      (Gives-if (m == i)
        (λ same. gives (Keeps-refl v, λ u c p inside. ground (arith, u.edges c, s.least c)))
        (λ moved.
          sink k q i m v s (ground arith)
            (λ r size w. hold_restores k r m (ground (arith, s.place)) w)))

-- heap_hold always ends, and makes a heap of a queue where only the entry at `i` may be due late.
pub heap_hold_lem :
    (q : TimerQueue) (i : ℕ)
    → IsIndexed q
    → Gives (λ r. Keeps q r × (HoldInv q.event_lst i → IsHeap r.event_lst)) (heap_hold q i)
unfolding heap_hold
heap_hold_lem q i v = hold_restores (q.count + 1) q i (omega (arith, v.sized)) v

-- An entry that is due before none of its children's deadlines stays where it is.
pub heap_hold_stays :
    (q : TimerQueue) (i : ℕ)
    → IsIndexed q
    → ((c : ℕ)
        → 0 < c
        → c < length q.event_lst
        → parent c ≡ i
        → ts_at q.event_lst i ≤ ts_at q.event_lst c)
    → heap_hold q i ≡ ok q
unfolding heap_hold heap_hold_loop
heap_hold_stays q i v least =
    let l = q.event_lst in
    let left = least (2 * i + 1) (omega arith) in
    let right = least (2 * i + 2) (omega arith) in
    rw
      (
        add-one q.count,
        heap_hold_loop,
        lesser-ok q i (2 * i + 1) v.sized (λ h. omega arith),
        lesser-ok q (lesser_of l i (2 * i + 1)) (2 * i + 2) v.sized (λ h. ground arith),
      )
      (ground (arith, left, right))
