-- ===== src/Accept/Admission.antt =====
-- do_accept of src/tcp_server.cc: which connections are handed over and which are closed.
use easy_reactor.Base.Int.{ℤ, reaches}
use easy_reactor.Threads.{ThreadPool, ThreadQueue, new_conn, get_next_thread, send_to, send_msg}
use easy_reactor.Base.{
  ◌∙◌, ap, ltb_lt, Bool, true, false, ◌<◌, refl, ℕ, ◌≡◌, List, [], ◌∷◌, Option, arith, ◌+◌, ◌≤◌,
  ◌++◌, ◌==◌, ==_ne, eq-cases, inl, inr, length, set, if◌then◌else◌, none, some, length-set,
}
use easy_reactor.Base.Lists.Nth.{nth, get_elem?-nth}
use easy_reactor.Base.Run.{Run, ok, abort, exited, starved, ◌>>=◌}
use easy_reactor.Accept.{
  ltb, next_owner, false, reaches, ℤ, true, Bool, Accepted, accepted, interrupted, out_of_files,
  no_more, Server, shut, refuse, hand_over, accept_one, accept_loop, do_accept,
}

-- What becomes of a connection: it is handed over, turned away at the limit, or dropped when there
-- are no descriptors left, with what `open` gives for the reserve. `give_up` is an EMFILE.
pub data Verdict : Type 0 where
  admit turn_away : ℕ → Verdict
  give_up : Verdict
  drop_for : ℕ → Option ℕ → Verdict

-- The decisions on the results of `accept`, up to EAGAIN. The Boolean holds behind an EMFILE: from
-- there on every connection is dropped. Before it a connection is admitted below the limit.
pub data Decides (limit : ℤ) (size : ℕ) : Bool → List Accepted → List Verdict → Type 0 where
  ends : (full : Bool) (rest : List Accepted) → Decides limit size full (no_more ∷ rest) []
  retries :
      {full : Bool} {rest : List Accepted} {vs : List Verdict}
      → Decides limit size full rest vs
      → Decides limit size full (interrupted ∷ rest) vs
  runs_out :
      {full : Bool} {rest : List Accepted} {vs : List Verdict}
      → Decides limit size true rest vs
      → Decides limit size full (out_of_files ∷ rest) (give_up ∷ vs)
  drops :
      (fd : ℕ) (n : ℤ) (o : Option ℕ) {rest : List Accepted} {vs : List Verdict}
      → Decides limit size true rest vs
      → Decides limit size true (accepted fd n o ∷ rest) (drop_for fd o ∷ vs)
  turns_away :
      (fd : ℕ) (n : ℤ) (o : Option ℕ) {rest : List Accepted} {vs : List Verdict}
      → reaches limit n ≡ true
      → Decides limit size false rest vs
      → Decides limit size false (accepted fd n o ∷ rest) (turn_away fd ∷ vs)
  admits :
      (fd : ℕ) (n : ℤ) (o : Option ℕ) {rest : List Accepted} {vs : List Verdict}
      → reaches limit n ≡ false
      → fd < size
      → Decides limit size false rest vs
      → Decides limit size false (accepted fd n o ∷ rest) (admit fd ∷ vs)

-- The queue with the message for the connection behind the others, and one signal more.
abbrev pub with_conn : ThreadQueue → ℕ → ThreadQueue
with_conn q fd = record q { queue = q.queue ++ new_conn fd ∷ []; signals = q.signals + 1 }

-- Whose turn it is: the thread at `curr_index`, or the first behind the last.
abbrev pub turn : ThreadPool → ℕ
turn p = if ltb p.curr_index p.thread_cnt then p.curr_index else 0

-- The pool with the connection in the queue of the thread whose turn it is.
pub deal_to : ThreadPool → ℕ → ThreadPool
deal_to p fd = record p {
  curr_index = turn p + 1;
  pool =
      set p.pool (turn p)
        (with_conn (nth (record { evfd = 0; queue = []; signals = 0 }) p.pool (turn p)) fd);
}

-- The pool, where there is one, has a queue for each of its threads, at least one, and its index is
-- inside or at the end.
unfoldable pub IsStaffed : Option ThreadPool → Type 0
IsStaffed none = Unit {0}
IsStaffed (some p) =
    (0 < p.thread_cnt) × (length p.pool ≡ p.thread_cnt) × (p.curr_index ≤ p.thread_cnt)

turn_inside : (p : ThreadPool) → IsStaffed (some p) → turn p < length p.pool
unfolding IsStaffed
turn_inside p (some_thread, sized, inside) = ground arith

deal_to-IsStaffed : (p : ThreadPool) (fd : ℕ) → IsStaffed (some p) → IsStaffed (some (deal_to p fd))
unfolding IsStaffed deal_to
deal_to-IsStaffed p fd (some_thread, sized, inside) =
    (some_thread, length-set p.pool (turn p) _ ∙ sized, ground arith)

get_next_thread-turn :
    (p : ThreadPool)
    → IsStaffed (some p)
    → get_next_thread p ≡ (turn p, record p { curr_index = turn p + 1 })
unfolding IsStaffed get_next_thread
get_next_thread-turn p (some_thread, sized, inside) = elim (eq-cases p.curr_index p.thread_cnt) [
  | inl e ↦
      let past : ltb p.curr_index p.thread_cnt ≡ false = ground arith in
      let here : (p.curr_index == p.thread_cnt) ≡ true = ground arith in rw (past, here) refl
  | inr other ↦
      let within : ltb p.curr_index p.thread_cnt ≡ true = ground arith in
      let here : (p.curr_index == p.thread_cnt) ≡ false = ==_ne _ _ other in rw (within, here) refl
]

send_to-set :
    (p : ThreadPool) (i fd : ℕ)
    → i < length p.pool
    → send_to p i (new_conn fd)
      ≡ ok (record p {
        pool =
            set p.pool i
              (with_conn (nth (record { evfd = 0; queue = []; signals = 0 }) p.pool i) fd);
      })
unfolding send_to send_msg
send_to-set p i fd lt =
    rw (get_elem?-nth (record { evfd = 0; queue = []; signals = 0 }) p.pool i lt) refl

module _ {W : Type 0} (init : ℕ → W → Run W) where
  -- A connection that is admitted: it goes to the thread whose turn it is, or is the server's own.
  pub admit_by : Option ThreadPool → Server W → ℕ → Run (Server W)
  admit_by (some p) s fd = ok (record s { thd_pool = some (deal_to p fd) })
  admit_by none s fd = do v ← init fd s.own; ok (record s { thd_pool = none; own = v })

  -- What the decisions do.
  pub carry_out : List Verdict → Server W → Run (Server W)
  carry_out [] s = ok s
  carry_out (admit fd ∷ vs) s = do r ← admit_by s.thd_pool s fd; carry_out vs r
  carry_out (turn_away fd ∷ vs) s = carry_out vs (record s { closed = fd ∷ s.closed })
  carry_out (give_up ∷ vs) s = carry_out vs (record s { closed = shut s.reservfd s.closed })
  carry_out (drop_for fd opened ∷ vs) s =
      carry_out vs (record s { reservfd = opened; closed = fd ∷ s.closed })

  own_then :
      (s : Server W) (m : Run W) (f g : Server W → Run (Server W))
      → ((v : W)
          → f (record s { thd_pool = none; own = v }) ≡ g (record s { thd_pool = none; own = v }))
      → (((m >>= λ v. ok (none, v)) >>= λ ((p, v) : Option ThreadPool × W).
            ok (record s { thd_pool = p; own = v }))
          >>= f)
        ≡ ((m >>= λ v. ok (record s { thd_pool = none; own = v })) >>= g)
  own_then s (ok v) f g same = same v
  own_then s abort f g same = refl
  own_then s exited f g same = refl
  own_then s starved f g same = refl

  -- What is done with the connection, and then the rest.
  admitted :
      (s : Server W) (o : Option ThreadPool) (fd : ℕ) (f g : Server W → Run (Server W))
      → IsStaffed o
      → ((p : Option ThreadPool) (v : W)
          → IsStaffed p
          → f (record s { thd_pool = p; own = v }) ≡ g (record s { thd_pool = p; own = v }))
      → ((next_owner init o s.own fd >>= λ (p, v). ok (record s { thd_pool = p; own = v })) >>= f)
        ≡ (admit_by o s fd >>= g)
  unfolding next_owner admit_by deal_to
  admitted s (some p) fd f g staffed same =
      rw
        (
          get_next_thread-turn p staffed,
          send_to-set (record p { curr_index = turn p + 1 }) (turn p) fd (turn_inside p staffed),
        )
        (same (some (deal_to p fd)) s.own (deal_to-IsStaffed p fd staffed))
  admitted s none fd f g staffed same = own_then s (init fd s.own) f g (λ v. same none v staffed)

  accept_loop-carry_out :
      (limit : ℤ) (size : ℕ) {full : Bool} {results : List Accepted} {vs : List Verdict}
      → Decides limit size full results vs
      → (s : Server W) → s.max_conns ≡ limit
      → s.conns_size ≡ size
      → IsStaffed s.thd_pool
      → accept_loop init full results s ≡ carry_out vs s
  unfolding accept_loop carry_out accept_one hand_over
  accept_loop-carry_out limit size (Decides.ends true rest) s most room staffed = refl
  accept_loop-carry_out limit size (Decides.ends false rest) s most room staffed = refl
  accept_loop-carry_out limit size (Decides.retries {full = true} d) s most room staffed =
      accept_loop-carry_out limit size d s most room staffed
  accept_loop-carry_out limit size (Decides.retries {full = false} d) s most room staffed =
      accept_loop-carry_out limit size d s most room staffed
  accept_loop-carry_out limit size (Decides.runs_out {full = true} d) s most room staffed =
      accept_loop-carry_out limit size d _ most room staffed
  accept_loop-carry_out limit size (Decides.runs_out {full = false} d) s most room staffed =
      accept_loop-carry_out limit size d _ most room staffed
  accept_loop-carry_out limit size (Decides.drops fd n o d) s most room staffed =
      accept_loop-carry_out limit size d _ most room staffed
  accept_loop-carry_out limit size (Decides.turns_away fd n o over d) s most room staffed =
      let at : reaches s.max_conns n ≡ true = ap (λ k. reaches k n) most ∙ over in
      rw at (accept_loop-carry_out limit size d (refuse s fd) most room staffed)
  accept_loop-carry_out limit size (Decides.admits fd n o {rest} {vs} under lt d) s most room
        staffed =
      let at : reaches s.max_conns n ≡ false = ap (λ k. reaches k n) most ∙ under in
      let inside : ltb fd s.conns_size ≡ true = ap (ltb fd) room ∙ ltb_lt fd size lt in
      rw (at, inside)
        (admitted s s.thd_pool fd (accept_loop init false rest) (carry_out vs) staffed λ p v kept.
          accept_loop-carry_out limit size d (record s { thd_pool = p; own = v }) most room kept)

  -- When `accept` ends with EAGAIN, each admitted descriptor is inside the table, and a pool has a queue
  -- for each of its threads and at least one, do_accept does exactly what the decisions say, in order:
  -- a connection below the limit comes last into the queue of the thread whose turn it is, the threads
  -- taking turns from `curr_index` on, or is the server's own where there is no pool; one at the limit is
  -- closed; and from an EMFILE on every one is closed, after which the reserve descriptor is opened again.
  pub do_accept-carry_out :
      (s : Server W) (results : List Accepted) (vs : List Verdict)
      → IsStaffed s.thd_pool
      → Decides s.max_conns s.conns_size false results vs
      → do_accept init results s ≡ carry_out vs s
  unfolding do_accept
  do_accept-carry_out s results vs staffed d =
      accept_loop-carry_out s.max_conns s.conns_size d s refl refl staffed
