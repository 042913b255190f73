-- ===== src/Timer/Rise.antt =====
-- heap_add of src/timer_queue.cc: the new entry rises to its place.
use mathlib.Core.List.Perm
use easy_reactor.Base.{
  ℕ, zero, suc, ◌+◌, ◌≤◌, ◌<◌, ◌≡◌, ◌≢◌, List, [], ◌∷◌, ◌++◌, Perm, none, arith, ltb, length,
  length-append,
}
use easy_reactor.Base.Lists.Nth.{
  nth-append, nth-append_last, perm_last, exchange, nth-exchange, length-exchange,
}
use easy_reactor.Base.Table.{insert}
use easy_reactor.Base.Run.{Gives, gives, Gives-if, Gives-weaken}
use easy_reactor.Timer.{TimerEvent, TimerQueue, rise, heap_add}
use easy_reactor.Timer.Order.{
  null_event, ts_at, parent, IsHeap, IsIndexed, SameClock, Keeps, Keeps-refl, Keeps-trans,
  exchanged, exchanged-Keeps, event_at-ok, swap_events-ok,
}

-- Only the entry at `i` may be due before its parent.
pub record RiseInv (l : List TimerEvent) (i : ℕ) : Type 0 where
  pub edges : (c : ℕ) → 0 < c → c < length l → c ≢ i → ts_at l (parent c) ≤ ts_at l c
  pub bridged :
      (c : ℕ) → 0 < c → c < length l → parent c ≡ i → 0 < i → ts_at l (parent i) ≤ ts_at l c

exchange-RiseInv :
    (l : List TimerEvent) (i : ℕ)
    → i < length l
    → RiseInv l i
    → 0 < i
    → ts_at l i < ts_at l (parent i)
    → RiseInv (exchange null_event l i (parent i)) (parent i)
exchange-RiseInv l i hi v pos below =
    grind (arith, length-exchange null_event l i (parent i), nth-exchange null_event l i (parent i))

rise_restores :
    (k : ℕ) (q : TimerQueue) (i : ℕ)
    → i < k
    → i < length q.event_lst
    → IsIndexed q
    → Gives (λ r. Keeps q r × (RiseInv q.event_lst i → IsHeap r.event_lst)) (rise k q i)
unfolding rise
rise_restores zero q i f hi v = absurd (omega arith)
rise_restores (suc k) q i f hi v =
    let above : parent i < length q.event_lst = omega arith in
    rw (event_at-ok q.event_lst i hi, event_at-ok q.event_lst (parent i) above)
      (Gives-if (ltb (ts_at q.event_lst i) (ts_at q.event_lst (parent i)))
        (λ below.
          let ne : i ≢ parent i = λ e. ground arith in
          let pos : 0 < i = ground arith in
          rw (swap_events-ok q i (parent i) hi above ne) (
            Gives-weaken
              (rise_restores k (exchanged q i (parent i)) (parent i) (omega arith)
                (omega (arith, length-exchange null_event q.event_lst i (parent i)))
                (exchanged-Keeps q i (parent i) hi above ne v).indexed)
              (λ r (kept, heap). (
                Keeps-trans (exchanged-Keeps q i (parent i) hi above ne v) kept,
                λ u. heap (exchange-RiseInv q.event_lst i hi u pos (ground arith)),
              ))))
        (λ settled. gives (Keeps-refl v, λ u c p s. ground (arith, u.edges c))))

-- The list behind heap_add's push_back, with its index.
module _ (q : TimerQueue) (te : TimerEvent) where
  abbrev grown : TimerQueue
  grown = record q {
    event_lst = q.event_lst ++ te ∷ [];
    position = insert q.position te.timer_id q.count;
    count = q.count + 1;
  }

  grown-IsIndexed : IsIndexed q → q.position te.timer_id ≡ none → IsIndexed grown
  grown-IsIndexed v fresh =
      let l = q.event_lst in
      let size = length-append l (te ∷ []) in
      let last = nth-append_last null_event l te in
      let old = nth-append null_event l (te ∷ []) in
      record {
        sized = omega (arith, size, v.sized);
        placed = λ c h. ground (arith, size, last, old c, v.sized, v.placed c);
        found = λ k c h. ground (arith, size, last, old c, v.sized, v.found k c);
      }

  grown-RiseInv : IsHeap q.event_lst → RiseInv (q.event_lst ++ te ∷ []) (length q.event_lst)
  grown-RiseInv h =
      let l = q.event_lst in
      let size = length-append l (te ∷ []) in
      let old = nth-append null_event l (te ∷ []) in
      record {
        edges = λ c p s n. ground (arith, size, old c, old (parent c), h c);
        bridged = λ c p s e n. absurd (omega (arith, size));
      }

-- What heap_add gives: the queue with one more timer, a heap if it was one.
pub record Added (q : TimerQueue) (te : TimerEvent) (r : TimerQueue) : Type 0 where
  pub indexed : IsIndexed r
  pub perm : Perm r.event_lst (te ∷ q.event_lst)
  pub clock : SameClock q r
  pub heap : IsHeap q.event_lst → IsHeap r.event_lst

-- heap_add ends with exactly one more timer, under a new id.
pub heap_add_correct :
    (q : TimerQueue) (te : TimerEvent)
    → IsIndexed q
    → q.position te.timer_id ≡ none
    → Gives (Added q te) (heap_add q te)
unfolding heap_add
heap_add_correct q te v fresh =
    Gives-weaken
      (rise_restores (q.count + 1) (grown q te) q.count (omega arith)
        (omega (arith, v.sized, length-append q.event_lst (te ∷ [])))
        (grown-IsIndexed q te v fresh))
      (λ r (kept, heap). record {
        indexed = kept.indexed;
        perm = Perm.trans kept.perm (perm_last q.event_lst te);
        clock = record {
          ids = kept.clock.ids;
          fd = kept.clock.fd;
          pioneer = kept.clock.pioneer;
          armed = kept.clock.armed;
        };
        heap = λ h. heap (rw v.sized (grown-RiseInv q te h));
      })
