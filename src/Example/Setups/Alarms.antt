-- ===== src/Example/Setups/Alarms.antt =====
-- The timers of example/timerServer/server.cc.
use mathlib.Core.List.Perm
use easy_reactor.Base.{ℕ, ◌+◌, ◌*◌, ◌/◌, ◌<◌, ◌^◌, arith, subst, ◌∷◌, Perm}
use easy_reactor.Base.Run.{Gives, gives, Gives-bind}
use easy_reactor.Timer.{TimerEvent}
use easy_reactor.Timer.Schedule.{IsGood}
use easy_reactor.Loop.{EventLoop, timer_of}
use easy_reactor.Loop.Alarms.{run_correct}
use easy_reactor.Example.Setups.{set_timers, buz1_ptr, buz2_ptr}

-- The milliseconds of a reading of the clock.
abbrev pub millis_of : ℕ × ℕ → ℕ
millis_of (sec, nsec) = sec * 1000 + nsec / 1000000

-- A timer under an id.
abbrev pub under : ℕ → TimerEvent → TimerEvent
under id te = record te { timer_id = id }

-- On a loop with a good queue, `main` sets just two timers more, under the next two ids: one that
-- calls buz1 once, ten seconds behind its reading of the clock, and one that calls buz2 for the first time a second
-- and a half behind its own, and again at each such interval. The readings are below 2 ^ 64 - 10000.
pub set_timers_correct :
    (first second : ℕ × ℕ) (fp : ℕ) (loop : EventLoop)
    → IsGood loop.timer_que
    → millis_of first + 10000 < 2 ^ 64
    → millis_of second + 10000 < 2 ^ 64
    → Gives
        (λ l.
          IsGood l.timer_que
          × Perm l.timer_que.event_lst (
              under
                (loop.timer_que.next_timer_id + 1)
                (timer_of buz2_ptr fp (millis_of second + 1500) 1500)
              ∷ under loop.timer_que.next_timer_id
                  (timer_of buz1_ptr fp (millis_of first + 10000) 0)
              ∷ loop.timer_que.event_lst))
        (set_timers first second fp loop)
unfolding set_timers
set_timers_correct (sec1, nsec1) (sec2, nsec2) fp loop good fits1 fits2 =
    Gives-bind (run_correct loop good sec1 nsec1 buz1_ptr fp 0 10 0 (omega arith) (omega arith)).1
      λ (once, l) a.
        Gives-bind
          (run_correct l (a.armed.valid, a.armed.timely) sec2 nsec2 buz2_ptr fp 0 1 500
            (omega arith) (omega arith)).2
          λ (every, m) b. gives (
            (b.armed.valid, b.armed.timely),
            subst
                (λ n. Perm m.timer_que.event_lst (
                  under n (timer_of buz2_ptr fp (millis_of (sec2, nsec2) + 1500) 1500)
                  ∷ under loop.timer_que.next_timer_id
                      (timer_of buz1_ptr fp (millis_of (sec1, nsec1) + 10000) 0)
                  ∷ loop.timer_que.event_lst))
                a.armed.next (Perm.trans b.armed.perm (Perm.cons _ a.armed.perm)),
          )
