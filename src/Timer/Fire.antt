-- ===== src/Timer/Fire.antt =====
-- get_timo of src/timer_queue.cc: the timers that are due, and the periodic ones put back.
use mathlib.Core.List.Perm
use mathlib.Core.List.{mem-append_right, mem-cons_of_mem, append-nil, append_assoc}
use native.Mathlib.Nat.{ℕ_set}
use easy_reactor.Base.{
  Option, Bool-cases, ℕ, zero, suc, ◌+◌, ◌%◌, ◌^◌, ◌<◌, ◌≡◌, refl, ◌∙◌, ap, sym, List, [], ◌∷◌,
  ◌++◌, Perm, arith, ◌==◌, if◌then◌else◌, length, length-perm, none, inl, inr, nil_of_length,
}
use easy_reactor.Base.Lists.Nth.{nth, Each, Each-nil, Each-cons, nth-Mem}
use easy_reactor.Base.Run.{Gives, gives, Gives-if, Gives-bind, Gives-weaken}
use easy_reactor.Timer.{TimerEvent, TimerQueue, fire_loop}
use easy_reactor.Timer.Order.{id_at, absent_position, position_absent, null_event, event_at-ok}
use easy_reactor.Timer.Remove.{Removed, heap_pop_correct}
use easy_reactor.Timer.Clock.{armed_for, IsValid, IsTimely, least_of_heap}

-- A periodic timer's next round: a uint64_t sum.
abbrev pub again : TimerEvent → TimerEvent
again t = record t { ts = (t.ts + t.interval) % 2 ^ 64 }

-- The next rounds of the periodic timers among those that fired.
unfoldable pub renewed : List TimerEvent → List TimerEvent
renewed [] = []
renewed (t ∷ ts) = if t.interval == 0 then renewed ts else again t ∷ renewed ts

-- How the first loop of get_timo leaves the queue, when `due` fired.
pub record Fired (q : TimerQueue) (due : List TimerEvent) (r : TimerQueue) : Type 0 where
  pub split : Perm (due ++ r.event_lst) q.event_lst
  pub ready : Each (λ t. t.ts ≡ q.pioneer) due
  pub later : Each (λ t. q.pioneer < t.ts) r.event_lst
  pub valid : IsValid r
  pub timely : IsTimely r
  pub next : r.next_timer_id ≡ q.next_timer_id
  pub gone : Each (λ t. r.position t.timer_id ≡ none) due

-- The same with the caller's accumulators.
pub record LoopEnd (q : TimerQueue) (fired reuse : List TimerEvent)
    (s : TimerQueue × List TimerEvent × List TimerEvent) : Type 0 where
  pub due : List TimerEvent
  pub fired_due : s.1 ≡ fired ++ due
  pub reuse_due : s.2 ≡ reuse ++ renewed due
  pub queue : Fired q due s.0

popped-IsValid : (q r : TimerQueue) → IsValid q → Removed q 0 r → IsValid r
popped-IsValid q r v d = record {
  indexed = d.indexed;
  fresh =
      λ t m. omega (arith, d.clock.ids, v.fresh t ((Perm.mem_iff d.perm).0 (mem-cons_of_mem _ m)));
  aimed = d.clock.armed ∙ v.aimed ∙ ap armed_for (sym d.clock.pioneer);
}

popped-IsTimely : (q r : TimerQueue) → IsTimely q → Removed q 0 r → IsTimely r
popped-IsTimely q r v d = record {
  heap = d.heap v.heap (λ n p. absurd (omega arith));
  early = λ t m.
      omega (arith, d.clock.pioneer, v.early t ((Perm.mem_iff d.perm).0 (mem-cons_of_mem _ m)));
}

loop_stops :
    (q : TimerQueue) (fired reuse : List TimerEvent)
    → IsValid q
    → IsTimely q
    → Each (λ t. q.pioneer < t.ts) q.event_lst
    → LoopEnd q fired reuse (q, fired, reuse)
unfolding renewed
loop_stops q fired reuse v t later = record {
  due = [];
  fired_due = sym (append-nil fired);
  reuse_due = sym (append-nil reuse);
  queue = record {
    split = Perm.rfl;
    ready = Each-nil _;
    later = later;
    valid = v;
    timely = t;
    next = refl;
    gone = Each-nil _;
  };
}

-- The list `_reuse_lst` behind one round.
abbrev reused : TimerEvent → List TimerEvent → List TimerEvent
reused t reuse = if t.interval == 0 then reuse else reuse ++ again t ∷ []

reused-renewed :
    (t : TimerEvent) (due reuse : List TimerEvent)
    → reused t reuse ++ renewed due ≡ reuse ++ renewed (t ∷ due)
unfolding renewed
reused-renewed t due reuse = elim (Bool-cases (t.interval == 0)) [
  | inl e ↦ rw (e, reused, renewed)
  | inr e ↦ rw (e, reused, renewed) (append_assoc reuse (again t ∷ []) (renewed due))
]

Option_ℕ_set : IsSet (Option ℕ)
Option_ℕ_set = hlevel

-- The id that heap_pop took out stays out.
popped_gone :
    (q r s : TimerQueue) (due : List TimerEvent)
    → Removed q 0 r
    → Fired r due s
    → s.position (id_at q.event_lst 0) ≡ none
popped_gone q r s due d e = absent_position s (id_at q.event_lst 0) e.valid.indexed λ t m.
    position_absent r (id_at q.event_lst 0) d.indexed d.gone t
      ((Perm.mem_iff e.split).0 (mem-append_right due m))

loop_steps :
    (q r : TimerQueue) (fired reuse : List TimerEvent)
    (s : TimerQueue × List TimerEvent × List TimerEvent)
    → Removed q 0 r
    → (nth null_event q.event_lst 0).ts ≡ q.pioneer
    → LoopEnd r
        (fired ++ nth null_event q.event_lst 0 ∷ [])
        (reused (nth null_event q.event_lst 0) reuse)
        s
    → LoopEnd q fired reuse s
loop_steps q r fired reuse s d now e =
    let t = nth null_event q.event_lst 0 in
    record {
      due = t ∷ e.due;
      fired_due = e.fired_due ∙ append_assoc fired (t ∷ []) e.due;
      reuse_due = e.reuse_due ∙ reused-renewed t e.due reuse;
      queue = record {
        split = Perm.trans (Perm.cons t e.queue.split) d.perm;
        ready =
            Each-cons _ (λ x. ℕ_set _ _) t e.due now (λ x m. e.queue.ready x m ∙ d.clock.pioneer);
        later = λ x m. omega (arith, d.clock.pioneer, e.queue.later x m);
        valid = e.queue.valid;
        timely = e.queue.timely;
        next = e.queue.next ∙ d.clock.ids;
        gone =
            Each-cons _ (λ x. Option_ℕ_set _ _) t e.due (popped_gone q r s.0 e.due d e.queue)
              e.queue.gone;
      };
    }

pub fire_loop_runs :
    (k : ℕ) (q : TimerQueue) (fired reuse : List TimerEvent)
    → length q.event_lst < k
    → IsValid q
    → IsTimely q
    → Gives (LoopEnd q fired reuse) (fire_loop k q fired reuse)
unfolding fire_loop
fire_loop_runs zero q fired reuse f v t = absurd (omega arith)
fire_loop_runs (suc k) q fired reuse f v t =
    let l = q.event_lst in
    let root = nth null_event l 0 in
    Gives-if (q.count == 0)
      (λ e.
        let none_left : length l ≡ 0 = ground (arith, v.indexed.sized) in
        gives (loop_stops q fired reuse v t (rw (nil_of_length l none_left) (Each-nil _))))
      (λ e.
        let some_left : 0 < length l = ground (arith, v.indexed.sized) in
        rw (event_at-ok l 0 some_left) (
          Gives-if (q.pioneer == root.ts)
            (λ now. Gives-bind (heap_pop_correct q v.indexed some_left) λ r d.
              Gives-weaken
                (fire_loop_runs k r (fired ++ root ∷ []) (reused root reuse)
                  (omega (arith, length-perm d.perm)) (popped-IsValid q r v d)
                  (popped-IsTimely q r t d))
                (λ s. loop_steps q r fired reuse s d (ground arith)))
            (λ later. gives (
              loop_stops q fired reuse v t λ x m. ground (
                arith,
                t.early root (nth-Mem null_event l 0 some_left),
                least_of_heap l t.heap x m,
              )))))
