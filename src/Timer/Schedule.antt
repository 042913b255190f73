-- ===== src/Timer/Schedule.antt =====
-- The timer queue of src/timer_queue.cc as its users see it: add_timer, del_timer, and any run of
-- calls from the constructor on.

use native.Mathlib.Bridge.{le_prop}
use easy_reactor.Base.{
  refl, arith, inr, inl, ◌-◌, none, [], some, length, ◌∷◌, ℕ, ◌+◌, ◌≤◌, ◌≡◌, ◌⊎◌, List, Perm, ◌≢◌,
  ◌*◌, ◌/◌, ◌%◌, ◌<◌, eq-cases, subst, sym, ap, ◌∙◌, ==_ne, length-perm,
}
use easy_reactor.Base.Lists.Nth.{Each, Each-cons, Each-perm, Each-nil, nth, nth-Mem}
use easy_reactor.Base.Run.{Run, ok, ◌>>=◌, Gives, gives, Gives-bind, Gives-weaken}
use easy_reactor.Timer.{
  no_pioneer, empty, TimerEvent, TimerQueue, create, add_timer, del_timer, get_timo,
}
use easy_reactor.Timer.Order.{null_event, ts_at, id_at, parent}
use easy_reactor.Timer.Clock.{IsValid, IsTimely, Scheduled, stamped, add_timer_runs, armed_for}
use easy_reactor.Timer.Cancel.{del_timer_runs}
use easy_reactor.Timer.Timeout.{get_timo_correct}

-- The queue behind add_timer, with the id that it returned.
pub record Armed (q : TimerQueue) (te : TimerEvent) (r : ℕ × TimerQueue) : Type 0 where
  pub id : r.0 ≡ q.next_timer_id
  pub next : r.1.next_timer_id ≡ q.next_timer_id + 1
  pub perm : Perm r.1.event_lst (stamped q te ∷ q.event_lst)
  pub valid : IsValid r.1
  pub timely : IsTimely r.1

-- On a valid queue in heap order, with `_pioneer` no later than any deadline, add_timer ends. The
-- queue has one more timer, under the next id, which it returns; it is valid, in heap order, and
-- `_pioneer` is no later than any deadline, the new one included.
pub add_timer_correct :
    (q : TimerQueue) (te : TimerEvent)
    → IsValid q
    → IsTimely q
    → Gives (Armed q te) (add_timer q te)
add_timer_correct q te v t =
    Gives-weaken (add_timer_runs q te v) λ r s. record {
      id = s.id;
      next = s.next;
      perm = s.perm;
      valid = s.valid;
      timely = s.timely t;
    }

-- The timerfd fires by the time `ms`: it is not disarmed, which is what the value (0, 0) does, and set
-- for no later time.
abbrev pub WakesBy : TimerQueue → ℕ → Type 0
WakesBy q ms = (q.armed ≢ (0, 0)) × (q.armed.0 * 1000 + q.armed.1 / 1000000 ≤ ms)

-- It fires by the deadline of each timer, but for one at the largest time, 2 ^ 64 - 1.
abbrev pub Wakes : TimerQueue → Type 0
Wakes q = Each (λ t. (no_pioneer ≤ t.ts) ⊎ WakesBy q t.ts) q.event_lst

IsTimely-Wakes : (q : TimerQueue) → IsValid q → IsTimely q → 0 < q.pioneer → Wakes q
IsTimely-Wakes q v t later te m =
    let by : q.pioneer ≤ te.ts = t.early te m in
    elim (eq-cases q.pioneer no_pioneer) [
      | inl e ↦ inl (subst (λ k. k ≤ te.ts) e by)
      | inr other ↦
          let at : q.armed ≡ (q.pioneer / 1000, q.pioneer % 1000 * 1000000) =
            v.aimed ∙ rw (==_ne q.pioneer no_pioneer other) refl in
          inr (
            subst (λ a. (a ≢ (0, 0)) × (a.0 * 1000 + a.1 / 1000000 ≤ te.ts)) (sym at)
              (λ same. absurd (omega (arith, ap (λ a. a.0) same, ap (λ a. a.1) same)), omega arith))
    ]

-- On a valid queue in heap order, with `_pioneer` above 0 and no later than any deadline, add_timer of
-- a timer that is due after time 0 ends. The queue has one more timer, under the next id, which it
-- returns; it is valid and in heap order, `_pioneer` is no later than any deadline, the new one
-- included, and the timerfd is armed and fires by each deadline below 2 ^ 64 - 1.
pub add_timer-Wakes :
    (q : TimerQueue) (te : TimerEvent)
    → IsValid q
    → IsTimely q
    → 0 < q.pioneer
    → 0 < te.ts
    → Gives (λ r. Armed q te r × Wakes r.1) (add_timer q te)
add_timer-Wakes q te v t later after = Gives-weaken (add_timer_runs q te v) λ r s. (
  record { id = s.id; next = s.next; perm = s.perm; valid = s.valid; timely = s.timely t },
  IsTimely-Wakes r.1 s.valid (s.timely t) (stays_later r s),
)
  where
    positive : Each (λ x. 0 < x.ts) (stamped q te ∷ q.event_lst)
    positive =
        Each-cons _ (λ x. le_prop) (stamped q te) q.event_lst after
          (λ x m. omega (arith, t.early x m))

    stays_later : (r : ℕ × TimerQueue) → Scheduled q te r → 0 < r.1.pioneer
    stays_later r s = elim s.pioneer [
      | inl same ↦ omega arith
      | inr least ↦
          let inside : 0 < length r.1.event_lst = omega (arith, length-perm s.perm) in
          omega (
            arith,
            Each-perm _ s.perm positive (nth null_event r.1.event_lst 0)
                (nth-Mem null_event r.1.event_lst 0 inside),
          )
    ]

-- The queue behind del_timer, without the timer at index `i`.
pub record Disarmed (q : TimerQueue) (i : ℕ) (r : TimerQueue) : Type 0 where
  pub perm : Perm (nth null_event q.event_lst i ∷ r.event_lst) q.event_lst
  pub valid : IsValid r
  pub gone : r.position (id_at q.event_lst i) ≡ none
  pub timely : IsTimely r

-- The rear timer may take the place of timer `i`: `i` is the rear or the root, or the rear is not
-- due before the parent of `i`.
abbrev pub RearFits : List TimerEvent → ℕ → Type 0
RearFits l i = (i ≡ length l - 1) ⊎ ((i ≡ 0) ⊎ (ts_at l (parent i) ≤ ts_at l (length l - 1)))

-- On a valid queue in heap order del_timer of an id in use ends. It takes exactly the timer of that
-- id out, and the queue stays valid and in heap order, if the rear timer may take its place.
pub del_timer_correct :
    (q : TimerQueue) (timer_id i : ℕ)
    → IsValid q
    → IsTimely q
    → q.position timer_id ≡ some i
    → RearFits q.event_lst i
    → Gives (Disarmed q i) (del_timer q timer_id)
del_timer_correct q timer_id i v t at fits = Gives-weaken (del_timer_runs q timer_id i v at) λ r c.
    record {
      perm = c.perm;
      valid = c.valid;
      gone = c.gone;
      timely = c.timely t λ inside pos. elim fits [
        | inl rear ↦ absurd (inside rear)
        | inr (inl root) ↦ absurd (omega arith)
        | inr (inr le) ↦ le
      ];
    }

-- A call from the loop: run_at and the like, or the timerfd's callback.
pub data Request : Type 0 where
  arms : TimerEvent → Request
  expires : Request

unfoldable pub serve : TimerQueue → Request → Run TimerQueue
serve q (arms te) = do (id, r) ← add_timer q te; ok r
serve q expires = do (r, fired) ← get_timo q []; ok r

unfoldable pub serve_all : TimerQueue → List Request → Run TimerQueue
serve_all q [] = ok q
serve_all q (r ∷ rs) = do p ← serve q r; serve_all p rs

abbrev pub IsGood : TimerQueue → Type 0
IsGood q = IsValid q × IsTimely q

serve_correct : (q : TimerQueue) (r : Request) → IsGood q → Gives IsGood (serve q r)
unfolding serve
serve_correct q (arms te) (v, t) =
    Gives-bind (add_timer_correct q te v t) λ r a. gives (a.valid, a.timely)
serve_correct q expires (v, t) =
    Gives-bind (get_timo_correct q [] v t) λ r o. gives (o.served.valid, o.served.timely)

serve_all_correct : (q : TimerQueue) (rs : List Request) → IsGood q → Gives IsGood (serve_all q rs)
unfolding serve_all
serve_all_correct q [] g = gives g
serve_all_correct q (r ∷ rs) g = Gives-bind (serve_correct q r g) λ p h. serve_all_correct p rs h

-- The queue that the constructor makes.
abbrev pub empty_queue : ℕ → TimerQueue
empty_queue timerfd = record {
  event_lst = [];
  position = empty;
  count = 0;
  next_timer_id = 0;
  timerfd = timerfd;
  pioneer = no_pioneer;
  armed = (0, 0);
}

pub new_queue : (timerfd : ℕ) → IsGood (empty_queue timerfd)
new_queue timerfd = (
  record {
    indexed = record { sized = refl; placed = λ i h. absurd (omega arith); found = λ k i e. cc };
    fresh = Each-nil _;
    aimed = refl;
  },
  record { heap = λ c p h. absurd (omega arith); early = Each-nil _ },
)

-- From the constructor on, every run of add_timer and get_timo ends with a valid queue in heap order,
-- whose `_pioneer` is no later than any deadline. The timerfd is armed and fires by each deadline below
-- 2 ^ 64 - 1, unless `_pioneer` is 0: then it is disarmed.
pub reachable-IsGood :
    (timerfd : ℕ) (rs : List Request)
    → Gives
        (λ q. IsGood q × (Wakes q ⊎ ((q.pioneer ≡ 0) × (q.armed ≡ (0, 0)))))
        (create (some timerfd) >>= λ q. serve_all q rs)
unfolding create
reachable-IsGood timerfd rs = Gives-weaken (serve_all_correct _ rs (new_queue timerfd)) λ q (v, t).
    (
      (v, t),
      elim (eq-cases q.pioneer 0) [
        | inl e ↦ inr (e, v.aimed ∙ ap armed_for e)
        | inr other ↦ inl (IsTimely-Wakes q v t (omega arith))
      ],
    )
