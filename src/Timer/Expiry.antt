-- ===== src/Timer/Expiry.antt =====
-- Timers of src/timer_queue.cc that fire once: repeated calls of get_timo fire them all, in order.
use native.Mathlib.Bridge.{le_prop}
use native.Mathlib.Nat.{ℕ_set}
use easy_reactor.Base.Lists.Nth.{nth}
use mathlib.Core.List.Perm
use mathlib.Core.Logic.{∥∥₁_elim}
use mathlib.Core.List.{
  append_assoc, append-nil, mem-map_of_mem, exists_of_mem-map, mem-append_left, mem-append_right,
  mem-cons_self, mem-cons_of_mem, map-append,
}
use easy_reactor.Base.{
  false, Mem, zero, suc, sym, ap, subst, ◌∙◌, eq-cases, ℕ, ◌+◌, ◌≤◌, ◌<◌, ◌≡◌, refl, List, [], ◌∷◌,
  ◌++◌, map, Perm, arith, ◌==◌, length, inl, inr, nil_of_length, length-perm, length-append,
}
use easy_reactor.Base.Lists.Nth.{Each, Each-cons}
use easy_reactor.Base.Run.{Run, ok, ◌>>=◌, Gives, gives, Gives-bind, Gives-weaken}
use easy_reactor.Timer.{TimerEvent, TimerQueue, get_timo}
use easy_reactor.Timer.Clock.{IsValid, IsTimely}
use easy_reactor.Timer.Fire.{renewed}
use easy_reactor.Timer.Timeout.{untag, earliest, Served, get_timo_correct}

-- The timerfd expires `n` times; the list is that of the timers that fired.
unfoldable pub expire_all : ℕ → TimerQueue → List TimerEvent → Run (TimerQueue × List TimerEvent)
expire_all zero q fired_evs = ok (q, fired_evs)
expire_all (suc n) q fired_evs = do (r, evs) ← get_timo q fired_evs; expire_all n r evs

-- The deadlines do not go down.
abbrev pub InOrder : List TimerEvent → Type 0
InOrder [] = Unit {0}
InOrder (t ∷ ts) = Each (λ s. t.ts ≤ s.ts) ts × InOrder ts

-- All fire once.
abbrev pub OneShot : List TimerEvent → Type 0
OneShot l = Each (λ t. t.interval ≡ 0) l

-- What has fired behind the calls: `out` more than before.
pub record Drained (l : List TimerEvent) (fired_evs : List TimerEvent)
    (s : TimerQueue × List TimerEvent) : Type 0 where
  pub out : List TimerEvent
  pub fired : s.1 ≡ fired_evs ++ out
  pub queue : s.0.event_lst ≡ []
  pub all : Perm (map untag out) (map untag l)
  pub ordered : InOrder out

renewed-nil : (due : List TimerEvent) → OneShot due → renewed due ≡ []
unfolding renewed
renewed-nil [] once = refl
renewed-nil (t ∷ due) once =
    let stops : t.interval ≡ 0 = once t mem-cons_self in
    rw (stops, renewed) (renewed-nil due λ s m. once s (mem-cons_of_mem t m))

-- What holds of timers but for their ids goes along a permutation but for their ids.
Each-untag :
    {P : TimerEvent → Type 0} {xs ys : List TimerEvent}
    → ((t : TimerEvent) → IsProp (P t))
    → ((s t : TimerEvent) → untag s ≡ untag t → P s → P t)
    → Perm (map untag xs) (map untag ys)
    → Each P ys
    → Each P xs
Each-untag {ys} is_prop along p each t m =
    ∥∥₁_elim (exists_of_mem-map ((Perm.mem_iff p).0 (mem-map_of_mem untag m))) (is_prop t)
      λ (s, n, e). along s t e (each s n)

no_later :
    (p : ℕ) (due out : List TimerEvent)
    → Each (λ t. t.ts ≡ p) due
    → Each (λ t. p ≤ t.ts) out
    → Each (λ t. p ≤ t.ts) (due ++ out)
no_later p [] out at late = late
no_later p (t ∷ due) out at late =
    Each-cons _ (λ s. le_prop) t (due ++ out) (omega (arith, at t mem-cons_self))
      (no_later p due out (λ s m. at s (mem-cons_of_mem t m)) late)

InOrder-append :
    (p : ℕ) (due out : List TimerEvent)
    → Each (λ t. t.ts ≡ p) due
    → Each (λ t. p ≤ t.ts) out
    → InOrder out
    → InOrder (due ++ out)
InOrder-append p [] out at late ordered = ordered
InOrder-append p (t ∷ due) out at late ordered =
    let rest : Each (λ s. s.ts ≡ p) due = λ s m. at s (mem-cons_of_mem t m) in
    (
      λ s m. omega (arith, at t mem-cons_self, no_later p due out rest late s m),
      InOrder-append p due out rest late ordered,
    )

length-untag : (l : List TimerEvent) → length (map untag l) ≡ length l
length-untag [] = refl
length-untag (t ∷ l) = ap suc (length-untag l)

first_earliest :
    (l : List TimerEvent) → 0 < length l → (t : TimerEvent) × Mem t l × (earliest l ≡ t.ts)
unfolding nth
first_earliest [] more = absurd (omega arith)
first_earliest (t ∷ l) more =
    let some_left : (length (t ∷ l) == 0) ≡ false = ground arith in
    (t, mem-cons_self, rw (some_left, earliest) refl)

-- One call, and then those that fire the rest.
module _ {q r : TimerQueue} {due rest : List TimerEvent} (served : Served q due rest r)
    (once : OneShot q.event_lst) where
  due_once : OneShot due
  due_once t m = once t ((Perm.mem_iff served.split).0 (mem-append_left rest m))

  kept_rest : Perm (map untag r.event_lst) (map untag rest)
  kept_rest =
      subst (λ l. Perm (map untag r.event_lst) (map untag (l ++ rest))) (renewed-nil due due_once)
        served.kept

  kept_once : OneShot r.event_lst
  kept_once =
      Each-untag (λ t. ℕ_set _ _) (λ s t e p. sym (ap (λ u. u.interval) e) ∙ p) kept_rest
        λ t m. once t ((Perm.mem_iff served.split).0 (mem-append_right due m))

  kept_length : length r.event_lst + length due ≡ length q.event_lst
  kept_length = omega (
    arith,
    length-untag r.event_lst,
    length-untag rest,
    length-perm kept_rest,
    length-perm served.split,
    length-append due rest,
  )

  -- At the deadline of the root one timer fires at least.
  some_due : q.pioneer ≡ earliest q.event_lst → 0 < length q.event_lst → 0 < length due
  some_due target more = elim (eq-cases (length due) 0) [
    | inr some_fired ↦ omega arith
    | inl none_fired ↦
        let (t, m, same) = first_earliest q.event_lst more in
        let whole : Perm rest q.event_lst =
          subst (λ l. Perm (l ++ rest) q.event_lst) (nil_of_length due none_fired) served.split in
        absurd (omega (arith, served.later t ((Perm.mem_iff whole).1 m)))
  ]

  then_Drained :
      {fired_evs : List TimerEvent} {s : TimerQueue × List TimerEvent}
      → Drained r.event_lst (fired_evs ++ due) s
      → Drained q.event_lst fired_evs s
  then_Drained {fired_evs} d =
      let late_out : Each (λ t. q.pioneer ≤ t.ts) d.out =
        Each-untag (λ t. le_prop) (λ s t e p. subst (λ k. q.pioneer ≤ k) (ap (λ u. u.ts) e) p)
          (Perm.trans d.all kept_rest) (λ t (m : Mem t rest). omega (arith, served.later t m)) in
      record {
        out = due ++ d.out;
        fired = d.fired ∙ append_assoc fired_evs due d.out;
        queue = d.queue;
        all = rw (map-append untag due d.out) (
            Perm.trans
              (subst (Perm (map untag due ++ map untag d.out)) (sym (map-append untag due rest))
                (Perm.append_left (map untag due) (Perm.trans d.all kept_rest)))
              (Perm.map untag served.split));
        ordered = InOrder-append q.pioneer due d.out served.ready late_out d.ordered;
      }

expire_all_runs :
    (n : ℕ) (q : TimerQueue) (fired_evs : List TimerEvent)
    → IsValid q
    → IsTimely q
    → OneShot q.event_lst
    → q.pioneer ≡ earliest q.event_lst
    → length q.event_lst ≤ n
    → Gives (Drained q.event_lst fired_evs) (expire_all n q fired_evs)
unfolding expire_all
expire_all_runs zero q fired_evs v t once target few =
    let none_left : q.event_lst ≡ [] = nil_of_length q.event_lst (omega arith) in
    gives (record {
      out = [];
      fired = sym (append-nil fired_evs);
      queue = none_left;
      all = rw none_left Perm.rfl;
      ordered = tt;
    })
expire_all_runs (suc n) q fired_evs v t once target few =
    Gives-bind (get_timo_correct q fired_evs v t) λ (r, evs) e.
      let served = e.served in
      let fewer : length r.event_lst ≤ n = elim (eq-cases (length q.event_lst) 0) [
        | inl empty ↦ omega (arith, kept_length served once)
        | inr more ↦
            omega (arith, kept_length served once, some_due served once target (omega arith))
      ] in
      Gives-weaken
        (expire_all_runs n r evs served.valid served.timely (kept_once served once) served.target
          fewer)
        λ s d. then_Drained served once (subst (λ l. Drained r.event_lst l s) e.fired d)

-- On a valid queue in heap order whose timers all fire once, the timerfd needs to expire at most once
-- more than there are timers: then the queue is empty, and exactly its timers have fired, but for their
-- ids, each once and in the order of their deadlines.
pub timers_fire :
    (q : TimerQueue)
    → IsValid q
    → IsTimely q
    → OneShot q.event_lst
    → Gives (Drained q.event_lst []) (expire_all (q.count + 1) q [])
unfolding expire_all
timers_fire q v t once =
    let size : q.count + 1 ≡ suc (length q.event_lst) = omega (arith, v.indexed.sized) in
    rw size (
      Gives-bind (get_timo_correct q [] v t) λ (r, evs) e.
        let served = e.served in
        let fewer : length r.event_lst ≤ length q.event_lst =
          omega (arith, kept_length served once) in
        Gives-weaken
          (expire_all_runs (length q.event_lst) r evs served.valid served.timely
            (kept_once served once) served.target fewer)
          λ s d. then_Drained served once (subst (λ l. Drained r.event_lst l s) e.fired d))
