-- ===== src/Tests/Loop.antt =====
-- A loop whose state is the loop itself and the list of what ran.
use easy_reactor.Base.{arith, ℕ, suc, ◌≡◌, ◌≢◌, refl, List, [], ◌∷◌, none, some, true, false}
use easy_reactor.Base.Lists.Nth.{Each, Each-cons, Each-nil}
use easy_reactor.Base.Run.{ok, Gives, gives}
use easy_reactor.Tests.Timers.{two_timers}
use easy_reactor.Loop.{
  EventLoop, IoEvent, FiredEvent, Callbacks, only_in, add_ioev, with_callback, handle_events,
  run_task,
}
use easy_reactor.Loop.Dispatch.{
  Fires, fires, quiet, reads, IoCall, KeepsOthers, handle_events_correct,
}
use easy_reactor.Loop.Pending.{add_tasks, perform, run_task_correct}
use easy_reactor.Tests.Fixtures.{quiet_loop}

abbrev Noted : Type 0
Noted = EventLoop × List ℕ

abbrev noted_calls : Callbacks Noted
noted_calls = record {
  loop = λ w. w.0;
  with_loop = λ w l. (l, w.1);
  io = λ cb fd args w. ok (w.0, cb ∷ w.1);
  timer = λ cb args w. ok (w.0, cb ∷ w.1);
  task = λ func args w. ok (w.0, func ∷ w.1);
}

abbrev note_task : ℕ → ℕ → List ℕ → List ℕ
note_task func args u = func ∷ u

run_task_correct_example :
    Gives
      (λ v. (v.0.pending_factors ≡ []) × (v.1 ≡ perform note_task ((11, 0) ∷ (12, 5) ∷ []) []))
      (run_task noted_calls (add_tasks suc quiet_loop ((11, 0) ∷ (12, 5) ∷ []), []))
run_task_correct_example =
    run_task_correct noted_calls (λ w. w.1) note_task (λ func args w. gives (refl, refl, refl))
      (λ w l. (refl, refl)) suc quiet_loop ((11, 0) ∷ (12, 5) ∷ []) (quiet_loop, [])
      (λ k. omega arith) refl

-- A loop on which the timer that is due at 100 fires.
abbrev timed_loop : EventLoop
timed_loop = record quiet_loop { timer_que = two_timers 50 }

-- Descriptors 5 and 6 are watched for reading, by callback 30 with the argument 31 and 32 with 33.
abbrev two_watched : EventLoop
two_watched = add_ioev (add_ioev quiet_loop 5 30 only_in 31) 6 32 only_in 33

abbrev readable_on : ℕ → FiredEvent
readable_on fd = record { fd = fd; readable = true; writable = false; failed = false }

abbrev watched_event : ℕ → ℕ → IoEvent
watched_event cb args = record {
  mask = only_in;
  read_cb = some cb;
  write_cb = none;
  rcb_args = some args;
  wcb_args = none;
}

abbrev note_call : IoCall → List ℕ → List ℕ
note_call call u = call.cb ∷ u

noted_calls-KeepsOthers : KeepsOthers noted_calls (λ w. w.1) note_call
unfolding KeepsOthers
noted_calls-KeepsOthers call w = gives ((λ k ev other at. at), refl)

one_other : (g : FiredEvent) → g.fd ≢ 5 → Each (λ h. h.fd ≢ 5) (g ∷ [])
one_other g other = Each-cons _ (λ h. hlevel) g [] other (Each-nil _)

two_watched-Fires :
    Fires two_watched.io_evs
      (readable_on 5 ∷ readable_on 6 ∷ [])
      (record { cb = 30; fd = 5; args = some 31 } ∷ record { cb = 32; fd = 6; args = some 33 } ∷ [])
unfolding add_ioev with_callback
two_watched-Fires =
    fires (readable_on 5) (watched_event 30 31) 30 (some 31) refl (reads 30 refl refl)
      (one_other (readable_on 6) (λ e. omega arith))
      (fires (readable_on 6) (watched_event 32 33) 32 (some 33) refl (reads 32 refl refl)
        (Each-nil _) quiet)

handle_events_correct_example :
    Gives
      (λ v. v.1 ≡ 32 ∷ 30 ∷ [])
      (handle_events noted_calls (readable_on 5 ∷ readable_on 6 ∷ []) (two_watched, []))
handle_events_correct_example =
    handle_events_correct noted_calls (λ w. w.1) note_call (two_watched, [])
      (readable_on 5 ∷ readable_on 6 ∷ [])
      (record { cb = 30; fd = 5; args = some 31 } ∷ record { cb = 32; fd = 6; args = some 33 } ∷ [])
      noted_calls-KeepsOthers two_watched-Fires
