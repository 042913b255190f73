-- ===== src/Loop/Dispatch.antt =====
-- The dispatch of process_evs, src/event_loop.cc: which callbacks the fired events are for.
use mathlib.Core.List.{mem-cons_self, mem-cons_of_mem}
use easy_reactor.Base.{ap, ◌∙◌, ℕ, ◌≡◌, ◌≢◌, refl, List, [], ◌∷◌, Option, none, some, true, false}
use easy_reactor.Base.Lists.Nth.{Each}
use easy_reactor.Base.Run.{Gives-weaken, ok, abort, Gives, gives, Gives-bind}
use easy_reactor.Base.Table.{Table}
use easy_reactor.Loop.{IoEvent, FiredEvent, Callbacks, call_io, handle_event, handle_events}

-- The callback and the argument that an event on `ev` is for: that for reading where there is something
-- to read, else that for writing, and for a failure the one that there is.
pub data Calls (f : FiredEvent) (ev : IoEvent) : ℕ → Option ℕ → Type 0 where
  reads : (cb : ℕ) → f.readable ≡ true → ev.read_cb ≡ some cb → Calls f ev cb ev.rcb_args
  writes :
      (cb : ℕ)
      → f.readable ≡ false
      → f.writable ≡ true
      → ev.write_cb ≡ some cb
      → Calls f ev cb ev.wcb_args
  hangs_reading :
      (cb : ℕ)
      → f.readable ≡ false
      → f.writable ≡ false
      → f.failed ≡ true
      → ev.read_cb ≡ some cb
      → Calls f ev cb ev.rcb_args
  hangs_writing :
      (cb : ℕ)
      → f.readable ≡ false
      → f.writable ≡ false
      → f.failed ≡ true
      → ev.read_cb ≡ none
      → ev.write_cb ≡ some cb
      → Calls f ev cb ev.wcb_args

-- A call of a callback: the pointer, the descriptor and the argument.
pub record IoCall : Type 0 where
  pub cb : ℕ
  pub fd : ℕ
  pub args : Option ℕ

-- By the registrations, the events are for these calls, each for another descriptor.
pub data Fires (t : Table IoEvent) : List FiredEvent → List IoCall → Type 0 where
  quiet : Fires t [] []
  fires :
      (f : FiredEvent) (ev : IoEvent) (cb : ℕ) (args : Option ℕ) {rest : List FiredEvent}
      {calls : List IoCall}
      → t f.fd ≡ some ev
      → Calls f ev cb args
      → Each (λ g. g.fd ≢ f.fd) rest
      → Fires t rest calls
      → Fires t (f ∷ rest) (record { cb = cb; fd = f.fd; args = args } ∷ calls)

-- The same events by other registrations, which still have those of before for their descriptors.
Fires-same :
    (t u : Table IoEvent) {fs : List FiredEvent} {calls : List IoCall}
    → Each (λ f. (ev : IoEvent) → t f.fd ≡ some ev → u f.fd ≡ some ev) fs
    → Fires t fs calls
    → Fires u fs calls
Fires-same t u same quiet = quiet
Fires-same t u same (fires f ev cb args at call others rest) =
    fires f ev cb args (same f mem-cons_self ev at) call others
      (Fires-same t u (λ g m. same g (mem-cons_of_mem f m)) rest)

module _ {W : Type 0} (c : Callbacks W) where
  open c use {loop, io}

  one_call :
      (f : FiredEvent) (ev : IoEvent) (cb : ℕ) (args : Option ℕ) (w : W)
      → Calls f ev cb args
      → handle_event c f ev w ≡ io cb f.fd args w
  unfolding handle_event call_io
  one_call f ev cb args w (reads _ r at) = rw (r, at) refl
  one_call f ev cb args w (writes _ r x at) = rw (r, x, at) refl
  one_call f ev cb args w (hangs_reading _ r x h at) = rw (r, x, h, at) refl
  one_call f ev cb args w (hangs_writing _ r x h off at) = rw (r, x, h, off, at) refl

  -- If the first event is for a callback, which ends and leaves the descriptor of the next event without
  -- a registration, the assertion on the next one fails and the loop aborts.
  pub handle_events_stale :
      (w v : W) (f g : FiredEvent) (rest : List FiredEvent) (ev : IoEvent) (cb : ℕ)
      (args : Option ℕ)
      → (loop w).io_evs f.fd ≡ some ev
      → Calls f ev cb args
      → io cb f.fd args w ≡ ok v
      → (loop v).io_evs g.fd ≡ none
      → handle_events c (f ∷ g ∷ rest) w ≡ abort
  unfolding handle_events
  handle_events_stale w v f g rest ev cb args at call runs gone =
      rw (at, one_call f ev cb args w call, runs, gone) refl

module _ {W V : Type 0} (c : Callbacks W) (view : W → V) (react : IoCall → V → V) where
  open c use {loop, io}

  -- What the code relies on: a callback ends, and takes no registration of another descriptor out and
  -- changes none (it may add some); `react` is what it does to what is observed.
  unfoldable pub KeepsOthers : Type 0
  KeepsOthers =
      (call : IoCall) (w : W)
      → Gives
          (λ v.
            ((k : ℕ) (ev : IoEvent)
              → k ≢ call.fd
              → (loop w).io_evs k ≡ some ev
              → (loop v).io_evs k ≡ some ev)
            × (view v ≡ react call (view w)))
          (io call.cb call.fd call.args w)

  -- The calls in turn.
  abbrev pub react_all : List IoCall → V → V
  react_all [] x = x
  react_all (call ∷ calls) x = react_all calls (react call x)

  -- Where the events are registered, each for another descriptor, and the callbacks keep the
  -- registrations of other descriptors, the loop over the fired events ends, and has called exactly
  -- their callbacks, in order: by `Calls`, one for each event.
  pub handle_events_correct :
      (w : W) (fs : List FiredEvent) (calls : List IoCall)
      → KeepsOthers
      → Fires (loop w).io_evs fs calls
      → Gives (λ v. view v ≡ react_all calls (view w)) (handle_events c fs w)
  unfolding handle_events KeepsOthers
  handle_events_correct w [] _ keeps quiet = gives refl
  handle_events_correct w (f ∷ rest) _ keeps
        (fires _ ev cb args {calls = calls} at call others more) =
      let this : IoCall = record { cb = cb; fd = f.fd; args = args } in
      rw (at, one_call c f ev cb args w call)
        (Gives-bind (keeps this w) λ v (same, seen).
          Gives-weaken
            (handle_events_correct v rest calls keeps
              (Fires-same (loop w).io_evs (loop v).io_evs (λ g m e. same g.fd e (others g m)) more))
            λ u e. e ∙ ap (react_all calls) seen)
