-- ===== src/Loop/Alarms.antt =====
-- run_at, run_after and run_every of src/event_loop.cc: the timers that they set.
use easy_reactor.Base.{ℕ, ◌+◌, ◌*◌, ◌/◌, ◌%◌, ◌^◌, ◌≡◌, refl, arith, ◌<◌, subst, sym, ap, ◌∙◌}
use easy_reactor.Base.Run.{Gives-weaken, Gives, gives, Gives-bind, Gives-weaken}
use easy_reactor.Timer.{TimerEvent}
use easy_reactor.Timer.Schedule.{Armed, IsGood, add_timer_correct}
use easy_reactor.Loop.{EventLoop, now_millis, timer_of, add_to_loop, run_at, run_after, run_every}

-- The loop with one timer more, under the id that is returned.
pub record Alarmed (l : EventLoop) (te : TimerEvent) (r : ℕ × EventLoop) : Type 0 where
  pub armed : Armed l.timer_que te (r.0, r.1.timer_que)
  pub rest : r.1 ≡ record l { timer_que = r.1.timer_que }

module _ (l : EventLoop) (good : IsGood l.timer_que) where
  add_to_loop_lem : (te : TimerEvent) → Gives (Alarmed l te) (add_to_loop l te)
  unfolding add_to_loop
  add_to_loop_lem te =
      Gives-bind (add_timer_correct l.timer_que te good.0 good.1)
        λ r a. gives (record { armed = a; rest = refl })

  -- On a loop with a good queue, run_at, run_after and run_every end, and set one timer each, under the
  -- next id: at the time that was given, or after the delay from now on; once, or again after each
  -- such interval. If no sum wraps around, the deadline is the clock's milliseconds and the delay.
  pub run_correct :
      (tv_sec tv_nsec cb args ts sec millis : ℕ)
      → tv_sec * 1000 + tv_nsec / 1000000 + (sec * 1000 + millis) < 2 ^ 64
      → sec * 1000 + millis < 2 ^ 32
      → let delay = sec * 1000 + millis in
        let due = tv_sec * 1000 + tv_nsec / 1000000 + delay in
        Gives (Alarmed l (timer_of cb args ts 0)) (run_at l cb args ts)
        × Gives (Alarmed l (timer_of cb args due 0)) (run_after l tv_sec tv_nsec cb args sec millis)
        × Gives
            (Alarmed l (timer_of cb args due delay))
            (run_every l tv_sec tv_nsec cb args sec millis)
  unfolding run_at run_after run_every
  run_correct tv_sec tv_nsec cb args ts sec millis fits short =
      let delay = sec * 1000 + millis in
      let due = tv_sec * 1000 + tv_nsec / 1000000 + delay in
      let once : (now_millis tv_sec tv_nsec + delay) % 2 ^ 64 ≡ due = omega arith in
      let every : (now_millis tv_sec tv_nsec + delay % 2 ^ 32) % 2 ^ 64 ≡ due = omega arith in
      let interval : delay % 2 ^ 32 ≡ delay = omega arith in
      (
        add_to_loop_lem (timer_of cb args ts 0),
        subst
            (λ d. Gives (Alarmed l (timer_of cb args due 0)) (add_to_loop l (timer_of cb args d 0)))
            (sym once) (add_to_loop_lem (timer_of cb args due 0)),
        subst
            (λ i.
              Gives (Alarmed l (timer_of cb args due delay))
                (add_to_loop l (timer_of cb args ((now_millis tv_sec tv_nsec + i) % 2 ^ 64) i)))
            (sym interval)
            (subst
              (λ d.
                Gives (Alarmed l (timer_of cb args due delay))
                  (add_to_loop l (timer_of cb args d delay)))
              (sym (ap (λ i. (now_millis tv_sec tv_nsec + i) % 2 ^ 64) (sym interval) ∙ every))
              (add_to_loop_lem (timer_of cb args due delay))),
      )

  pub run_after_sets :
      (tv_sec tv_nsec cb args sec millis : ℕ)
      → Gives
          (λ r. (ts : ℕ) × Alarmed l (timer_of cb args ts 0) r)
          (run_after l tv_sec tv_nsec cb args sec millis)
  unfolding run_after
  run_after_sets tv_sec tv_nsec cb args sec millis = Gives-weaken (add_to_loop_lem _) λ r a. (_, a)
