-- ===== src/Timer/Order.antt =====
-- The order of the heap, the index of positions, and what an exchange does to both.

use mathlib.Core.List.Perm
use easy_reactor.Base.{
  inr, inl, Option-cases, none, zero, refl, suc, ◌∙◌, Perm, ℕ, ◌-◌, ◌/◌, ◌≤◌, ◌<◌, ◌≡◌, ◌≢◌, List,
  some, arith, length,
}
use mathlib.Core.HLevel.{¬_prop}
use easy_reactor.Base.Lists.Nth.{
  Each, nth-Mem, forall_of_nth, exchange-perm, nth, get_elem?-nth, exchange, nth-exchange,
  length-exchange,
}
use easy_reactor.Base.Table.{insert}
use easy_reactor.Base.Run.{ok}
use easy_reactor.Timer.{TimerEvent, TimerQueue, event_at, swap_events}

abbrev pub null_event : TimerEvent
null_event = record { cb = 0; cb_data = 0; ts = 0; interval = 0; timer_id = 0 }

abbrev pub ts_at : List TimerEvent → ℕ → ℕ
ts_at l i = (nth null_event l i).ts

abbrev pub id_at : List TimerEvent → ℕ → ℕ
id_at l i = (nth null_event l i).timer_id

abbrev pub parent : ℕ → ℕ
parent c = (c - 1) / 2

-- No timer is due before its parent.
abbrev pub IsHeap : List TimerEvent → Type 0
IsHeap l = (c : ℕ) → 0 < c → c < length l → ts_at l (parent c) ≤ ts_at l c

-- `_count` is the length, and `_position` holds each timer's index and no other id.
pub record IsIndexed (q : TimerQueue) : Type 0 where
  pub sized : q.count ≡ length q.event_lst
  pub placed : (i : ℕ) → i < length q.event_lst → q.position (id_at q.event_lst i) ≡ some i
  pub found :
      (k i : ℕ) → q.position k ≡ some i → (i < length q.event_lst) × (id_at q.event_lst i ≡ k)

-- What the heap operations leave alone.
pub record SameClock (q r : TimerQueue) : Type 0 where
  pub ids : r.next_timer_id ≡ q.next_timer_id
  pub fd : r.timerfd ≡ q.timerfd
  pub pioneer : r.pioneer ≡ q.pioneer
  pub armed : r.armed ≡ q.armed

pub event_at-ok :
    (l : List TimerEvent) (i : ℕ) → i < length l → event_at l i ≡ ok (nth null_event l i)
event_at-ok l i h = rw (get_elem?-nth null_event l i h)

-- The queue behind an exchange.
abbrev pub exchanged : TimerQueue → ℕ → ℕ → TimerQueue
exchanged q i j = record q {
  event_lst = exchange null_event q.event_lst i j;
  position = insert (insert q.position (id_at q.event_lst j) i) (id_at q.event_lst i) j;
}

module _ (q : TimerQueue) (i j : ℕ) (hi : i < length q.event_lst) (hj : j < length q.event_lst)
    (ne : i ≢ j) where
  pub swap_events-ok : swap_events q i j ≡ ok (exchanged q i j)
  unfolding swap_events exchange
  swap_events-ok =
      let l = q.event_lst in
      let moved : nth null_event (exchange null_event l i j) i ≡ nth null_event l j =
        ground (arith, nth-exchange null_event l i j hi hj i) in
      rw (
        event_at-ok l i hi,
        event_at-ok l j hj,
        event_at-ok (exchange null_event l i j) i (omega (arith, length-exchange null_event l i j)),
        moved,
      )

  pub exchanged-IsIndexed : IsIndexed q → IsIndexed (exchanged q i j)
  exchanged-IsIndexed v =
      let at = nth-exchange null_event q.event_lst i j hi hj in
      record {
        sized = omega (arith, v.sized, length-exchange null_event q.event_lst i j);
        placed = λ c h. ground (
          arith,
          at c,
          v.placed c,
          v.placed i hi,
          v.placed j hj,
          length-exchange null_event q.event_lst i j,
        );
        found = λ k c h. ground (
          arith,
          at c,
          v.found k c,
          v.placed i hi,
          v.placed j hj,
          length-exchange null_event q.event_lst i j,
        );
      }

-- The queue `r` holds the timers of `q` under a correct index, with the same clock.
pub record Keeps (q r : TimerQueue) : Type 0 where
  pub indexed : IsIndexed r
  pub perm : Perm r.event_lst q.event_lst
  pub clock : SameClock q r

pub Keeps-refl : {q : TimerQueue} → IsIndexed q → Keeps q q
Keeps-refl v = record {
  indexed = v;
  perm = Perm.rfl;
  clock = record { ids = refl; fd = refl; pioneer = refl; armed = refl };
}

pub SameClock-trans : {q r s : TimerQueue} → SameClock q r → SameClock r s → SameClock q s
SameClock-trans a b = record {
  ids = b.ids ∙ a.ids;
  fd = b.fd ∙ a.fd;
  pioneer = b.pioneer ∙ a.pioneer;
  armed = b.armed ∙ a.armed;
}

pub Keeps-trans : {q r s : TimerQueue} → Keeps q r → Keeps r s → Keeps q s
Keeps-trans a b = record {
  indexed = b.indexed;
  perm = Perm.trans b.perm a.perm;
  clock = SameClock-trans a.clock b.clock;
}

pub exchanged-Keeps :
    (q : TimerQueue) (i j : ℕ)
    → i < length q.event_lst
    → j < length q.event_lst
    → i ≢ j
    → IsIndexed q
    → Keeps q (exchanged q i j)
exchanged-Keeps q i j hi hj ne v = record {
  indexed = exchanged-IsIndexed q i j hi hj ne v;
  perm = exchange-perm null_event q.event_lst i j hi hj;
  clock = record { ids = refl; fd = refl; pioneer = refl; armed = refl };
}

least_below :
    (k : ℕ) (l : List TimerEvent) (i : ℕ) → IsHeap l → i < k → i < length l → ts_at l 0 ≤ ts_at l i
least_below zero l i h f p = absurd (omega arith)
least_below (suc k) l i h f p = ground (arith, h i, least_below k l (parent i) h)

-- No timer of a heap is due before the one at the root.
pub root_least : (l : List TimerEvent) (i : ℕ) → IsHeap l → i < length l → ts_at l 0 ≤ ts_at l i
root_least l i h p = least_below (suc i) l i h (omega arith) p

-- An id is missing from the map exactly when no timer has it.
pub absent_position :
    (q : TimerQueue) (k : ℕ)
    → IsIndexed q
    → Each (λ t. t.timer_id ≢ k) q.event_lst
    → q.position k ≡ none
absent_position q k v other = elim (Option-cases (q.position k)) [
  | inl e ↦ e
  | inr (i, e) ↦
      let at = v.found k i e in
      absurd (other (nth null_event q.event_lst i) (nth-Mem null_event q.event_lst i at.0) at.1)
]

pub position_absent :
    (q : TimerQueue) (k : ℕ)
    → IsIndexed q
    → q.position k ≡ none
    → Each (λ t. t.timer_id ≢ k) q.event_lst
position_absent q k v e =
    forall_of_nth (λ t. t.timer_id ≢ k) (λ t. ¬_prop) null_event q.event_lst
      (λ i h same. ground (arith, v.placed i h))
