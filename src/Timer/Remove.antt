-- ===== src/Timer/Remove.antt =====
-- heap_del and heap_pop of src/timer_queue.cc: the rear timer fills the gap, and only sinks.
use mathlib.Core.List.Perm
use easy_reactor.Base.{
  subst, length-take, ℕ, suc, ◌-◌, ◌≤◌, ◌<◌, ◌≡◌, ◌≢◌, refl, List, [], ◌∷◌, Perm, arith, ltb, ◌==◌,
  length, length-set, set, none, fun_ext,
}
use easy_reactor.Base.Lists.Nth.{take-nth_last, nth, fill, nth-fill, fill-perm}
use easy_reactor.Base.Table.{insert, erase}
use easy_reactor.Base.Run.{ok, Gives, gives, Gives-if, Gives-weaken}
use easy_reactor.Timer.{TimerEvent, TimerQueue, heap_hold, heap_del, heap_pop}
use easy_reactor.Base.Lists.Nth.{Each-perm}
use easy_reactor.Timer.Order.{
  absent_position, position_absent, null_event, ts_at, id_at, parent, IsHeap, IsIndexed, SameClock,
  event_at-ok,
}
use easy_reactor.Timer.Hold.{heap_hold_stays, HoldInv, heap_hold_lem}

-- The queue whose last timer has taken the place of the one at `i`.
abbrev pub filled : TimerQueue → ℕ → TimerQueue
filled q i = record q {
  event_lst = fill null_event q.event_lst i (q.count - 1);
  position = erase (insert q.position (id_at q.event_lst (q.count - 1)) i) (id_at q.event_lst i);
  count = q.count - 1;
}

-- The rear timer may stand below the parent of entry `i`.
abbrev pub FitsBelow : List TimerEvent → ℕ → Type 0
FitsBelow l i = i ≢ length l - 1 → 0 < i → ts_at l (parent i) ≤ ts_at l (length l - 1)

-- What a removal of entry `i` gives.
pub record Removed (q : TimerQueue) (i : ℕ) (r : TimerQueue) : Type 0 where
  pub indexed : IsIndexed r
  pub perm : Perm (nth null_event q.event_lst i ∷ r.event_lst) q.event_lst
  pub clock : SameClock q r
  pub gone : r.position (id_at q.event_lst i) ≡ none
  pub heap : IsHeap q.event_lst → FitsBelow q.event_lst i → IsHeap r.event_lst

module _ (q : TimerQueue) (i : ℕ) (v : IsIndexed q) (hi : i < length q.event_lst) where
  abbrev rear : ℕ
  rear = q.count - 1

  rear-suc : length q.event_lst ≡ suc rear
  rear-suc = omega (arith, v.sized)

  pub length-filled : length (filled q i).event_lst ≡ rear
  unfolding fill
  length-filled =
      length-take rear (set q.event_lst i (nth null_event q.event_lst rear))
        (omega (arith, length-set q.event_lst i (nth null_event q.event_lst rear), rear-suc))

  filled-IsIndexed : IsIndexed (filled q i)
  filled-IsIndexed =
      let l = q.event_lst in
      let at = nth-fill null_event l i rear rear-suc (omega (arith, rear-suc)) in
      record {
        sized = omega (arith, length-filled);
        placed = λ c h.
            ground (arith, at c, length-filled, rear-suc, v.placed c, v.placed i hi, v.placed rear);
        found = λ k c h.
            ground
              (arith, at c, length-filled, rear-suc, v.found k c, v.placed i hi, v.placed rear);
      }

  filled-HoldInv : IsHeap q.event_lst → FitsBelow q.event_lst i → HoldInv (filled q i).event_lst i
  filled-HoldInv h fits =
      let l = q.event_lst in
      let at = nth-fill null_event l i rear rear-suc (omega (arith, rear-suc)) in
      let last : length l - 1 ≡ rear = omega (arith, v.sized) in
      record {
        edges = λ c p s n.
            ground (arith, at c, at (parent c), length-filled, rear-suc, h c, rw last at fits);
        bridged =
            λ c p s e n. ground (arith, at c, at (parent i), length-filled, rear-suc, h c, h i);
      }

  filled_gone : (filled q i).position (id_at q.event_lst i) ≡ none
  filled_gone = ground arith

  filled-Removed : Gives (Removed q i) (heap_hold (filled q i) i)
  filled-Removed = Gives-weaken (heap_hold_lem (filled q i) i filled-IsIndexed) λ r (kept, heap).
      record {
        indexed = kept.indexed;
        perm =
            Perm.trans (Perm.cons _ kept.perm)
              (fill-perm null_event q.event_lst i rear rear-suc (omega (arith, rear-suc)));
        clock = record {
          ids = kept.clock.ids;
          fd = kept.clock.fd;
          pioneer = kept.clock.pioneer;
          armed = kept.clock.armed;
        };
        gone = absent_position r (id_at q.event_lst i) kept.indexed (
            Each-perm _ kept.perm
              (position_absent (filled q i) (id_at q.event_lst i) filled-IsIndexed filled_gone));
        heap = λ h fits. heap (filled-HoldInv h fits);
      }

  heap_del-hold : heap_del q i ≡ heap_hold (filled q i) i
  unfolding heap_del fill
  heap_del-hold =
      let l = set q.event_lst i (nth null_event q.event_lst rear) in
      let cut : length l - 1 ≡ rear =
        omega (arith, length-set q.event_lst i (nth null_event q.event_lst rear), rear-suc) in
      rw (event_at-ok q.event_lst i hi, event_at-ok q.event_lst rear (omega (arith, rear-suc)), cut)

  -- heap_del at a position in use takes exactly that timer out.
  pub heap_del_correct : Gives (Removed q i) (heap_del q i)
  heap_del_correct = rw heap_del-hold filled-Removed

-- heap_pop erases the root's id before it inserts the rear timer's: the same map.
pop_position :
    (q : TimerQueue)
    → IsIndexed q
    → 1 < length q.event_lst
    → insert (erase q.position (id_at q.event_lst 0)) (id_at q.event_lst (q.count - 1)) 0
      ≡ (filled q 0).position
pop_position q v h = fun_ext λ k. ground (arith, v.placed 0, v.placed (q.count - 1), v.sized)

-- With one timer left heap_pop clears the vector.
pop_last-Removed :
    (q : TimerQueue)
    → IsIndexed q
    → length q.event_lst ≡ 1
    → Removed q 0
        (record q { event_lst = []; position = erase q.position (id_at q.event_lst 0); count = 0 })
unfolding nth
pop_last-Removed q v one = record {
  indexed = record {
    sized = refl;
    placed = λ c h. absurd (omega arith);
    found = λ k c h. ground (arith, v.found k c, v.placed 0);
  };
  perm =
      subst (Perm (nth null_event q.event_lst 0 ∷ [])) (take-nth_last null_event 0 q.event_lst one)
        Perm.rfl;
  clock = record { ids = refl; fd = refl; pioneer = refl; armed = refl };
  gone = ground arith;
  heap = λ h fits c p s. absurd (omega arith);
}

-- heap_pop of a queue that is not empty takes exactly the root out, and keeps a heap a heap.
pub heap_pop_correct :
    (q : TimerQueue) → IsIndexed q → 0 < length q.event_lst → Gives (Removed q 0) (heap_pop q)
unfolding heap_pop fill
heap_pop_correct q v h =
    let cut : length (set q.event_lst 0 (nth null_event q.event_lst (q.count - 1))) - 1
        ≡ q.count - 1 =
      omega (arith, length-set q.event_lst 0 (nth null_event q.event_lst (q.count - 1)), v.sized) in
    rw (event_at-ok q.event_lst 0 h) (
      Gives-if (q.count == 0) (λ e. absurd (ground (arith, v.sized)))
        λ _.
          Gives-if (ltb 1 q.count)
            (λ many.
              rw
                (
                  event_at-ok q.event_lst (q.count - 1) (omega (arith, v.sized)),
                  cut,
                  pop_position q v (ground (arith, v.sized)),
                )
                (filled-Removed q 0 v h))
            (λ few. gives (pop_last-Removed q v (ground (arith, v.sized)))))

-- The gap's children are due after the gap's parent, so a rear timer that is due before that parent
-- stays in the gap.
heap_del-filled :
    (q : TimerQueue) (i : ℕ)
    → IsIndexed q
    → IsHeap q.event_lst
    → 0 < i
    → i < length q.event_lst
    → ts_at q.event_lst (q.count - 1) < ts_at q.event_lst (parent i)
    → heap_del q i ≡ ok (filled q i)
heap_del-filled q i v h pos hi below = rw (heap_del-hold q i v hi) (
    heap_hold_stays (filled q i) i (filled-IsIndexed q i v hi) λ c p s e.
      let at =
        nth-fill null_event q.event_lst i (q.count - 1) (rear-suc q i v hi)
          (omega (arith, v.sized)) in
      ground (arith, at c, at i, length-filled q i v hi, h c, h i, v.sized))

-- If the rear timer is due before the parent of the gap that it fills, heap_del leaves no heap.
pub heap_del_breaks :
    (q : TimerQueue) (i : ℕ)
    → IsIndexed q
    → IsHeap q.event_lst
    → 0 < i
    → i < length q.event_lst - 1
    → ts_at q.event_lst (length q.event_lst - 1) < ts_at q.event_lst (parent i)
    → Gives (λ r. ¬ IsHeap r.event_lst) (heap_del q i)
heap_del_breaks q i v h pos inside below =
    let hi : i < length q.event_lst = omega arith in
    let last : length q.event_lst - 1 ≡ q.count - 1 = omega (arith, v.sized) in
    let below' : ts_at q.event_lst (q.count - 1) < ts_at q.event_lst (parent i) =
      rw last at below in
    let at =
      nth-fill null_event q.event_lst i (q.count - 1) (rear-suc q i v hi)
        (omega (arith, v.sized)) in
    rw (heap_del-filled q i v h pos hi below')
      (gives λ heap. ground (arith, heap i, at i, at (parent i), length-filled q i v hi, v.sized))
