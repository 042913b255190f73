-- ===== src/Threads/Order.antt =====
-- The order in which include/thread_queue.h hands messages over, and the turns of
-- src/thread_pool.cc.
use mathlib.Core.List.{append_assoc, append-nil}
use easy_reactor.Base.{
  refl, refl, ==_refl, inr, subst, Bool-cases, ◌-◌, inl, arith, ==_ne, ap, ◌⊎◌, false, ◌∙◌, ◌<◌,
  ◌==◌, sym, ℕ, zero, suc, ◌+◌, ◌≡◌, List, [], ◌∷◌, ◌++◌,
}
use easy_reactor.Threads.{QueueMsg, ThreadQueue, ThreadPool, send_msg, recv_msg, get_next_thread}

-- A call on a queue, by a sender or by the thread that owns it.
pub data QueueCall : Type 0 where
  sends : QueueMsg → QueueCall
  receives : QueueCall

-- What the calls hand over, in order, and the queue behind them.
pub run_queue : ThreadQueue → List QueueCall → List QueueMsg × ThreadQueue
run_queue q [] = ([], q)
run_queue q (sends m ∷ cs) = run_queue (send_msg q m) cs
run_queue q (receives ∷ cs) =
    let (got, r) = recv_msg q [] in let (later, s) = run_queue r cs in (got ++ later, s)

-- What the senders sent.
pub sent_by : List QueueCall → List QueueMsg
sent_by [] = []
sent_by (sends m ∷ cs) = m ∷ sent_by cs
sent_by (receives ∷ cs) = sent_by cs

-- Whatever the order of the calls, what a thread has received and what still waits in its queue is
-- what waited before and then what was sent, in order, with nothing lost and nothing twice.
pub run_queue-sent_by :
    (q : ThreadQueue) (cs : List QueueCall)
    → (run_queue q cs).0 ++ (run_queue q cs).1.queue ≡ q.queue ++ sent_by cs
unfolding run_queue sent_by send_msg recv_msg
run_queue-sent_by q [] = sym (append-nil q.queue)
run_queue-sent_by q (sends m ∷ cs) =
    run_queue-sent_by (send_msg q m) cs ∙ append_assoc q.queue (m ∷ []) (sent_by cs)
run_queue-sent_by q (receives ∷ cs) =
    let r = (recv_msg q []).1 in
    append_assoc q.queue (run_queue r cs).0 (run_queue r cs).1.queue
    ∙ ap (◌++◌ q.queue) (run_queue-sent_by r cs)

-- The threads that `n` calls of get_next_thread choose, and the pool behind them.
pub turns : ℕ → ThreadPool → List ℕ × ThreadPool
turns zero p = ([], p)
turns (suc n) p = let (i, q) = get_next_thread p in let (later, r) = turns n q in (i ∷ later, r)

-- `n` numbers from `i` on.
pub range : ℕ → ℕ → List ℕ
range i zero = []
range i (suc n) = i ∷ range (i + 1) n

abbrev at_index : ThreadPool → ℕ → ThreadPool
at_index p i = record p { curr_index = i }

turns_from :
    (p : ThreadPool) (n i : ℕ)
    → i + n ≡ p.thread_cnt
    → turns n (at_index p i) ≡ (range i n, at_index p p.thread_cnt)
unfolding turns range get_next_thread
turns_from p zero i left =
    let end : i ≡ p.thread_cnt = omega arith in ap (λ k. ([], at_index p k)) end
turns_from p (suc n) i left =
    let inside : (i == p.thread_cnt) ≡ false = ==_ne i p.thread_cnt (λ e. omega arith) in
    rw inside
      (ap (λ (r : List ℕ × ThreadPool). (i ∷ r.0, r.1)) (turns_from p n (i + 1) (omega arith)))

first_turn :
    (p : ThreadPool)
    → (p.curr_index ≡ 0) ⊎ (p.curr_index ≡ p.thread_cnt)
    → get_next_thread p ≡ (0, at_index p 1)
unfolding get_next_thread
first_turn p (inl e) = elim (Bool-cases (p.curr_index == p.thread_cnt)) [
  | inl same ↦ rw same refl
  | inr other ↦ rw (other, e) refl
]
first_turn p (inr e) = rw (e, ==_refl p.thread_cnt) refl

whole_round :
    (p : ThreadPool) (n : ℕ)
    → p.thread_cnt ≡ suc n
    → get_next_thread p ≡ (0, at_index p 1)
    → turns (suc n) p ≡ (range 0 (suc n), at_index p p.thread_cnt)
unfolding turns range
whole_round p n e first =
    rw first
      (ap (λ (r : List ℕ × ThreadPool). (0 ∷ r.0, r.1)) (turns_from p n (0 + 1) (omega arith)))

-- At the start of a round, with the index at 0 or at the end, as many calls of get_next_thread as
-- there are threads choose each thread once, in order, and end at the start of the next round.
pub turns-range :
    (p : ThreadPool)
    → 0 < p.thread_cnt
    → (p.curr_index ≡ 0) ⊎ (p.curr_index ≡ p.thread_cnt)
    → turns p.thread_cnt p ≡ (range 0 p.thread_cnt, record p { curr_index = p.thread_cnt })
turns-range p some_threads start =
    let e : p.thread_cnt ≡ suc (p.thread_cnt - 1) = omega arith in
    subst (λ k. turns k p ≡ (range 0 k, at_index p p.thread_cnt)) (sym e)
      (whole_round p (p.thread_cnt - 1) e (first_turn p start))
