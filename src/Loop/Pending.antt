-- ===== src/Loop/Pending.antt =====
-- timerqueue_cb, add_task and run_task of src/event_loop.cc: which callbacks and tasks run.
use mathlib.Core.List.{append_assoc, append-nil}
use easy_reactor.Base.{
  false, arith, ap, sym, subst, ◌∙◌, ℕ, zero, suc, ◌+◌, ◌≤◌, ◌<◌, ◌≡◌, refl, List, [], ◌∷◌, ◌++◌,
  some, true, ◌==◌, length, length-append, get_elem?,
}
use easy_reactor.Base.Run.{Gives, gives, Gives-bind, Gives-weaken}
use easy_reactor.Timer.{TimerEvent}
use easy_reactor.Loop.{EventLoop, Callbacks, add_task, run_each, run_task}

-- Tasks that are added one behind the other.
pub add_tasks : (ℕ → ℕ) → EventLoop → List (ℕ × ℕ) → EventLoop
add_tasks grow l [] = l
add_tasks grow l ((func, args) ∷ ts) = add_tasks grow (add_task grow l func args) ts

-- The elements are within the capacity.
abbrev pub Fits : EventLoop → Type 0
Fits l = length l.pending_factors ≤ l.pending_capacity

added :
    (grow : ℕ → ℕ) (l : EventLoop) (ts : List (ℕ × ℕ))
    → ((k : ℕ) → k < grow k)
    → Fits l
    → ((add_tasks grow l ts).pending_factors ≡ l.pending_factors ++ ts) × Fits (add_tasks grow l ts)
unfolding add_tasks add_task
added grow l [] larger fits = (sym (append-nil l.pending_factors), fits)
added grow l ((func, args) ∷ ts) larger fits =
    let more = length-append l.pending_factors ((func, args) ∷ []) in
    let (same, fits') =
      added grow (add_task grow l func args) ts larger
        (ground (arith, more, larger l.pending_capacity)) in
    (same ∙ append_assoc l.pending_factors ((func, args) ∷ []) ts, fits')

get_elem?-front :
    {A : Type 0} (front : List A) (x : A) (ts : List A)
    → get_elem? (front ++ x ∷ ts) (length front) ≡ some x
get_elem?-front [] x ts = refl
get_elem?-front (y ∷ front) x ts = get_elem?-front front x ts

-- The view behind the tasks, in order.
pub perform : {V : Type 0} → (ℕ → ℕ → V → V) → List (ℕ × ℕ) → V → V
perform react [] u = u
perform react ((func, args) ∷ ts) u = perform react ts (react func args u)

-- The calls that timers make.
abbrev pub calls_of : List TimerEvent → List (ℕ × ℕ)
calls_of [] = []
calls_of (t ∷ due) = (t.cb, t.cb_data) ∷ calls_of due

module _ {W : Type 0} (c : Callbacks W) where
  module _ {V : Type 0} (view : W → V) (react : ℕ → ℕ → V → V)
      -- What the code relies on: a task neither adds nor removes tasks; `react` is what it does to the
      -- view.
      (polite : (func args : ℕ) (w : W)
        → Gives
            (λ v.
              ((c.loop v).pending_factors ≡ (c.loop w).pending_factors)
              × ((c.loop v).pending_capacity ≡ (c.loop w).pending_capacity)
              × (view v ≡ react func args (view w)))
            (c.task func args w))
      -- The loop is a part of the state, and no part of the view.
      (put_loop : (w : W) (l : EventLoop)
        → (c.loop (c.with_loop w l) ≡ l) × (view (c.with_loop w l) ≡ view w)) where
    run_each_runs :
        (fuel : ℕ) (front ts : List (ℕ × ℕ)) (w : W)
        → (c.loop w).pending_factors ≡ front ++ ts
        → length ts < fuel
        → Gives (λ v. view v ≡ perform react ts (view w)) (run_each c fuel (length front) w)
    unfolding run_each perform
    run_each_runs zero front ts w e lt = absurd (omega arith)
    run_each_runs (suc fuel) front [] w e lt =
        let at_end : (length front == length (c.loop w).pending_factors) ≡ true =
          ground (arith, ap length e, length-append front []) in
        rw (at_end, run_each) (gives refl)
    run_each_runs (suc fuel) front ((func, args) ∷ ts) w e lt =
        let inside : (length front == length (c.loop w).pending_factors) ≡ false =
          ground (arith, ap length e, length-append front ((func, args) ∷ ts)) in
        let found : get_elem? (c.loop w).pending_factors (length front) ≡ some (func, args) =
          ap (λ l. get_elem? l (length front)) e ∙ get_elem?-front front (func, args) ts in
        let next : length (front ++ (func, args) ∷ []) ≡ length front + 1 =
          length-append front ((func, args) ∷ []) in
        rw (inside, found, run_each)
          (Gives-bind (polite func args w) λ v (tasks, capacity, u).
            let stays : ((c.loop v).pending_capacity == (c.loop w).pending_capacity) ≡ true =
              ground (arith, capacity) in
            let left : (c.loop v).pending_factors ≡ (front ++ (func, args) ∷ []) ++ ts =
              tasks ∙ e ∙ sym (append_assoc front ((func, args) ∷ []) ts) in
            rw stays (
              subst
                (λ i.
                  Gives (λ x. view x ≡ perform react ts (react func args (view w)))
                    (run_each c fuel i v))
                next
                (Gives-weaken
                  (run_each_runs fuel (front ++ (func, args) ∷ []) ts v left (omega arith))
                  λ x p. p ∙ ap (perform react ts) u)))

    -- Tasks that are added to a loop with none pending, by add_task and with a vector that grows, are
    -- all run by the next run_task, each once and in the order in which they were added, and then none
    -- is pending.
    pub run_task_correct :
        (grow : ℕ → ℕ) (l : EventLoop) (ts : List (ℕ × ℕ)) (w : W)
        → ((k : ℕ) → k < grow k)
        → l.pending_factors ≡ []
        → Gives
            (λ v. ((c.loop v).pending_factors ≡ []) × (view v ≡ perform react ts (view w)))
            (run_task c (c.with_loop w (add_tasks grow l ts)))
    unfolding run_task
    run_task_correct grow l ts w larger none_yet =
        let (same, fits) = added grow l ts larger (omega (arith, ap length none_yet)) in
        let w' = c.with_loop w (add_tasks grow l ts) in
        let (put, kept) = put_loop w (add_tasks grow l ts) in
        let pending : (c.loop w').pending_factors ≡ ts =
          ap (λ m. m.pending_factors) put ∙ same ∙ ap (λ m. m ++ ts) none_yet in
        let room : length ts < (c.loop w').pending_capacity + 1 = omega (
          arith,
          fits,
          ap length (same ∙ ap (λ m. m ++ ts) none_yet),
          ap (λ m. m.pending_capacity) put,
        ) in
        Gives-bind (run_each_runs ((c.loop w').pending_capacity + 1) [] ts w' pending room) λ v u.
          let (empty, seen) = put_loop v (record (c.loop v) { pending_factors = [] }) in
          gives (ap (λ m. m.pending_factors) empty, seen ∙ u ∙ ap (perform react ts) kept)
