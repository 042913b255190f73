-- ===== src/Tests/Server.antt =====
-- The accepter over two threads, and the calls on a queue.
use easy_reactor.Base.{arith, false, arith, ℕ, ◌≡◌, refl, List, [], ◌∷◌, ◌++◌, some, none}
use easy_reactor.Base.Int.{pos}
use easy_reactor.Base.Run.{ok}
use easy_reactor.Threads.{ThreadQueue, ThreadPool, new_conn, new_task}
use easy_reactor.Threads.Order.{run_queue, sends, receives, sent_by, run_queue-sent_by}
use easy_reactor.Accept.{Server, Accepted, accepted, interrupted, out_of_files, no_more, do_accept}
use easy_reactor.Accept.Admission.{
  Decides, admit, turn_away, give_up, drop_for, carry_out, IsStaffed, do_accept-carry_out,
}

abbrev idle_queue : ℕ → ThreadQueue
idle_queue fd = record { evfd = fd; queue = []; signals = 0 }

abbrev two_threads : ThreadPool
two_threads = record { curr_index = 0; thread_cnt = 2; pool = idle_queue 5 ∷ idle_queue 6 ∷ [] }

abbrev small_server : Server ℕ
small_server = record {
  reservfd = some 8;
  thd_pool = some two_threads;
  max_conns = pos 3;
  sockfd = 4;
  keepalive = false;
  conns_size = 20;
  closed = [];
  own = 0;
}

abbrev accept_results : List Accepted
accept_results =
    accepted 10 (pos 0) none
    ∷ interrupted
    ∷ accepted 11 (pos 3) none
    ∷ out_of_files
    ∷ accepted 8 (pos 1) (some 12)
    ∷ no_more
    ∷ []

staffed : IsStaffed small_server.thd_pool
unfolding IsStaffed
staffed = (omega arith, refl, omega arith)

do_accept-carry_out_example :
    do_accept (λ fd w. ok w) accept_results small_server
    ≡ carry_out
        (λ fd w. ok w)
        (admit 10 ∷ turn_away 11 ∷ give_up ∷ drop_for 8 (some 12) ∷ [])
        small_server
do_accept-carry_out_example =
    do_accept-carry_out (λ fd w. ok w) small_server accept_results
      (admit 10 ∷ turn_away 11 ∷ give_up ∷ drop_for 8 (some 12) ∷ []) staffed
      (Decides.admits 10 (pos 0) none refl (ground arith) (
        Decides.retries (
          Decides.turns_away 11 (pos 3) none refl
            (Decides.runs_out (Decides.drops 8 (pos 1) (some 12) (Decides.ends _ []))))))

run_queue-sent_by_example :
    (run_queue (idle_queue 5) (sends (new_conn 9) ∷ receives ∷ sends (new_task 1 none) ∷ [])).0
      ++ (run_queue
          (idle_queue 5)
          (sends (new_conn 9) ∷ receives ∷ sends (new_task 1 none) ∷ [])).1.queue
    ≡ [] ++ sent_by (sends (new_conn 9) ∷ receives ∷ sends (new_task 1 none) ∷ [])
run_queue-sent_by_example =
    run_queue-sent_by (idle_queue 5) (sends (new_conn 9) ∷ receives ∷ sends (new_task 1 none) ∷ [])
