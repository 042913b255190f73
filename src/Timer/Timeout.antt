-- ===== src/Timer/Timeout.antt =====
-- get_timo of src/timer_queue.cc, whole: what fires, what is put back, and what the timerfd is set to.
use mathlib.Core.List.Perm
use mathlib.Core.List.{mem-append_left, perm_middle}
use mathlib.Core.HLevel.{¬_prop}
use easy_reactor.Base.{
  eq-cases, ℕ, ◌+◌, ◌≤◌, ◌<◌, ◌≡◌, refl, List, [], ◌∷◌, ◌++◌, map, Perm, arith, ◌==◌, if◌then◌else◌,
  length, none, inl, inr, nil_of_length,
}
use easy_reactor.Base.Lists.Nth.{Each, Each-perm, Each-nil, Each-cons}
use easy_reactor.Base.Run.{ok, Gives, gives, Gives-bind, Gives-weaken}
use easy_reactor.Timer.{TimerEvent, TimerQueue, no_pioneer, reset_timo, add_all, rearm, get_timo}
use easy_reactor.Timer.Order.{absent_position, position_absent, IsHeap, event_at-ok}
use easy_reactor.Timer.Clock.{IsValid, IsTimely, Scheduled, stamped, least_of_heap, add_timer_runs}
use easy_reactor.Timer.Fire.{renewed, Fired, fire_loop_runs}
use easy_reactor.Timer.Order.{ts_at}

-- A timer without its id.
abbrev pub untag : TimerEvent → TimerEvent
untag t = record t { timer_id = 0 }

-- What add_all and the end of get_timo do: the timers but for their ids, and the ids that are free.
pub record Readded (q : TimerQueue) (l : List TimerEvent) (r : TimerQueue) : Type 0 where
  pub perm : Perm (map untag r.event_lst) (map untag (l ++ q.event_lst))
  pub valid : IsValid r
  pub timely : IsTimely r
  pub free : (k : ℕ) → k < q.next_timer_id → q.position k ≡ none → r.position k ≡ none

Scheduled-free :
    (q : TimerQueue) (te : TimerEvent) (s : ℕ × TimerQueue) (k : ℕ)
    → IsValid q
    → Scheduled q te s
    → k < q.next_timer_id
    → q.position k ≡ none
    → s.1.position k ≡ none
Scheduled-free q te s k v d lt e = absent_position s.1 k d.valid.indexed (
    Each-perm _ d.perm (
      Each-cons _ (λ t. ¬_prop) (stamped q te) q.event_lst (λ same. omega arith)
        (position_absent q k v.indexed e)))

add_all_runs :
    (q : TimerQueue) (l : List TimerEvent)
    → IsValid q
    → IsTimely q
    → Gives (Readded q l) (add_all q l)
unfolding add_all
add_all_runs q [] v t = gives (record { perm = Perm.rfl; valid = v; timely = t; free = λ k h e. e })
add_all_runs q (te ∷ l) v t = Gives-bind (add_timer_runs q te v) λ s d.
    Gives-weaken (add_all_runs s.1 l d.valid (d.timely t)) λ r a. record {
      perm = Perm.trans a.perm (
          Perm.map untag (
            Perm.trans (Perm.append_left l d.perm) (perm_middle {a = stamped q te} l q.event_lst)));
      valid = a.valid;
      timely = a.timely;
      free = λ k lt e. a.free k (omega (arith, d.next)) (Scheduled-free q te s k v d lt e);
    }

-- The deadline that the timerfd is due to be set for.
abbrev pub earliest : List TimerEvent → ℕ
earliest l = if length l == 0 then no_pioneer else ts_at l 0

rearm-ok :
    (q : TimerQueue)
    → q.count ≡ length q.event_lst
    → rearm q ≡ ok (reset_timo (record q { pioneer = earliest q.event_lst }))
unfolding rearm
rearm-ok q sized = elim (eq-cases (length q.event_lst) 0) [
  | inl e ↦ ground arith
  | inr e ↦ rw (event_at-ok q.event_lst 0 (omega arith)) (ground arith)
]

-- How get_timo leaves the queue, when `due` fired and `rest` did not.
pub record Served (q : TimerQueue) (due rest : List TimerEvent) (r : TimerQueue) : Type 0 where
  pub split : Perm (due ++ rest) q.event_lst
  pub ready : Each (λ t. t.ts ≡ q.pioneer) due
  pub later : Each (λ t. q.pioneer < t.ts) rest
  pub kept : Perm (map untag r.event_lst) (map untag (renewed due ++ rest))
  pub valid : IsValid r
  pub timely : IsTimely r
  pub target : r.pioneer ≡ earliest r.event_lst
  pub gone : Each (λ t. r.position t.timer_id ≡ none) due

earliest-early : (l : List TimerEvent) → IsHeap l → Each (λ t. earliest l ≤ t.ts) l
earliest-early l h = elim (eq-cases (length l) 0) [
  | inl e ↦ rw (nil_of_length l e) (Each-nil _)
  | inr e ↦ λ t m. ground (arith, least_of_heap l h t m)
]

rearmed-Served :
    (q r s : TimerQueue) (due : List TimerEvent)
    → IsValid q
    → Fired q due r
    → Readded r (renewed due) s
    → Served q due r.event_lst (reset_timo (record s { pioneer = earliest s.event_lst }))
unfolding reset_timo
rearmed-Served q r s due v f a = record {
  split = f.split;
  ready = f.ready;
  later = f.later;
  kept = a.perm;
  valid = record {
    indexed = record {
      sized = a.valid.indexed.sized;
      placed = a.valid.indexed.placed;
      found = a.valid.indexed.found;
    };
    fresh = a.valid.fresh;
    aimed = refl;
  };
  timely = record { heap = a.timely.heap; early = earliest-early s.event_lst a.timely.heap };
  target = refl;
  gone = λ t m.
      a.free t.timer_id
        (omega
          (arith, f.next, v.fresh t ((Perm.mem_iff f.split).0 (mem-append_left r.event_lst m))))
        (f.gone t m);
}

-- What get_timo returns, when the timers `due` fired.
pub record TimedOut (q : TimerQueue) (fired_evs : List TimerEvent)
    (s : TimerQueue × List TimerEvent) : Type 0 where
  pub due : List TimerEvent
  pub rest : List TimerEvent
  pub fired : s.1 ≡ fired_evs ++ due
  pub served : Served q due rest s.0

-- On a valid queue in heap order get_timo ends. It appends to `fired_evs` exactly the timers whose
-- deadline is `_pioneer`; the others stay, those of the fired that are periodic come back one
-- interval later, the timerfd is set to the new root's deadline or disarmed if no timer is left,
-- and no id that fired is in the map any more.
pub get_timo_correct :
    (q : TimerQueue) (fired_evs : List TimerEvent)
    → IsValid q
    → IsTimely q
    → Gives (TimedOut q fired_evs) (get_timo q fired_evs)
unfolding get_timo
get_timo_correct q fired_evs v t =
    Gives-bind (fire_loop_runs (q.count + 1) q fired_evs [] (omega (arith, v.indexed.sized)) v t)
      λ s e. rw e.reuse_due (
        Gives-bind (add_all_runs s.0 (renewed e.due) e.queue.valid e.queue.timely) λ r a.
          rw (rearm-ok r a.valid.indexed.sized) (
            gives (record {
              due = e.due;
              rest = s.0.event_lst;
              fired = e.fired_due;
              served = rearmed-Served q s.0 r e.due v e.queue a;
            })))
