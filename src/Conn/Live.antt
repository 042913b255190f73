-- ===== src/Conn/Live.antt =====
-- The state of an open connection of src/tcp_conn.cc, what the user's callbacks may do to it, and
-- clean_conn.
pub use easy_reactor.Message.Dispatch.{IsPaired}
use mathlib.Core.Bool.{false≢true}
use easy_reactor.Message.{is_some}
use easy_reactor.Base.{
  sym, subst, inr, ap, inl, ℕ, ◌≡◌, refl, ◌∙◌, List, [], ◌∷◌, Option, none, some, true, false,
  arith, length, take, Option-cases,
}
use easy_reactor.Base.Int.{pred_ℤ}
use easy_reactor.Base.Run.{ok, Gives, gives, Gives-bind, Gives-known, Gives-weaken}
use easy_reactor.Buffer.{BufferPool, TcpBuffer, buf_clear}
use easy_reactor.Buffer.Pool.{IsValid, Reverted, revert_correct}
use easy_reactor.Buffer.Stream.{IsSound}
use easy_reactor.Message.{MsgDispatcher, Call, exist, cb}
use easy_reactor.Message.Frames.{Frame}
use easy_reactor.Loop.{del_ioev}
use easy_reactor.Conn.{World, TcpConn, Handlers, clean_conn, dec_conn}

pub record IsLive {U : Type 0} (w : World U) : Type 0 where
  pub pool : IsValid w.pool
  pub ibuf : IsSound w.conn.ibuf
  pub obuf : IsSound w.conn.obuf
  pub looped : w.conn.looped ≡ true
  pub open_fd : (fd : ℕ) × (w.conn.connfd ≡ some fd)
  pub paired : IsPaired w.dispatcher

-- The close callback leaves the connection as it is; `leave` is what it does to the user's state.
abbrev pub LeavesConn : {U : Type 0} → Handlers U → (U → U) → Type 0
LeavesConn {U} h leave =
    (w : World U)
    → IsLive w
    → Gives
        (λ v.
          IsLive v
          × (v.conn ≡ w.conn)
          × (v.curr_conns ≡ w.curr_conns)
          × (v.closed ≡ w.closed)
          × (v.user ≡ leave w.user))
        (h.on_close w)

-- What the code relies on: a message callback leaves the connection open, and its input buffer and
-- the dispatcher as they are; `react` is what it does to the user's state. The close callback leaves
-- the connection as it is.
pub record IsPolite {U : Type 0} (h : Handlers U) (react : Call → U → U) (leave : U → U)
    : Type 0 where
  pub message :
      (c : Call) (w : World U)
      → IsLive w
      → Gives
          (λ v.
            IsLive v
            × (v.conn.ibuf ≡ w.conn.ibuf)
            × (v.dispatcher ≡ w.dispatcher)
            × (v.user ≡ react c w.user))
          (h.on_message c w)
  pub close : LeavesConn h leave

-- The pointer that a map has for a key.
abbrev pointer : Option ℕ → ℕ
pointer none = 0
pointer (some f) = f

-- The call that a message makes.
abbrev pub call_of : MsgDispatcher → Frame → Call
call_of d f = record {
  func = pointer (d.dispatcher f.cmdid);
  bytes = some f.body;
  len = length f.body;
  cmdid = f.cmdid;
  usr_data = pointer (d.args f.cmdid);
}

-- The user's state behind the callbacks of the messages, in order.
unfoldable pub deliver : {U : Type 0} → (Call → U → U) → MsgDispatcher → List Frame → U → U
deliver react d [] u = u
deliver react d (f ∷ fs) u = deliver react d fs (react (call_of d f) u)

pub cb-call_of :
    (d : MsgDispatcher) (xs : List ℕ) (n cmdid : ℕ)
    → IsPaired d
    → exist d cmdid ≡ true
    → length (take n xs) ≡ n
    → cb d (some xs) n cmdid ≡ ok (call_of d (record { cmdid = cmdid; body = take n xs }))
unfolding cb exist
cb-call_of d xs n cmdid paired known size = elim (Option-cases (d.dispatcher cmdid)) [
  | inl e ↦ ground arith
  | inr (f, e) ↦ let (a, at) = paired cmdid f e in rw (e, at, size)
]

pub cb-null :
    (d : MsgDispatcher) (n cmdid : ℕ)
    → IsPaired d
    → exist d cmdid ≡ true
    → (c : Call) × (cb d none n cmdid ≡ ok c)
unfolding cb exist
cb-null d n cmdid paired known = elim (Option-cases (d.dispatcher cmdid)) [
  | inl e ↦ absurd (false≢true (sym (ap is_some e) ∙ known))
  | inr (f, e) ↦
      let (a, at) = paired cmdid f e in
      (record { func = f; bytes = none; len = n; cmdid = cmdid; usr_data = a }, rw (e, at))
]

-- The pool `q` is `p` with the buffer given back, if there is one: it lies first in its chain, emptied.
abbrev pub GivenBack : BufferPool → TcpBuffer → BufferPool → Type 0
GivenBack p none q = q ≡ p
GivenBack p (some b) q = Reverted p b q

-- Both buffers of the connection of `t` are given back to the pool that the close callback leaves, the
-- input buffer first.
pub record Returned {U : Type 0} (h : Handlers U) (t v : World U) : Type 0 where
  pub behind : World U
  pub called : h.on_close t ≡ ok behind
  pub between : BufferPool
  pub input : GivenBack behind.pool t.conn.ibuf between
  pub output : GivenBack between t.conn.obuf v.pool

-- The connection is closed: it has no buffers, the pool is valid, its descriptor is out of the loop and
-- given to `close`, and the server counts one connection less.
pub record Closed {U : Type 0} (leave : U → U) (w v : World U) : Type 0 where
  pub pool : IsValid v.pool
  pub ibuf : v.conn.ibuf ≡ none
  pub obuf : v.conn.obuf ≡ none
  pub connfd : v.conn.connfd ≡ none
  pub looped : v.conn.looped ≡ false
  pub counted : v.curr_conns ≡ pred_ℤ w.curr_conns
  pub released :
      (fd : ℕ) × (w.conn.connfd ≡ some fd) × (v.closed ≡ fd ∷ w.closed) × (v.loop.io_evs fd ≡ none)
  pub user : v.user ≡ leave w.user

buf_clear_lem :
    (p : BufferPool) (b : TcpBuffer)
    → IsValid p
    → IsSound b
    → Gives (λ (c, q). (c ≡ none) × GivenBack p b q × IsValid q) (buf_clear p b)
unfolding buf_clear
buf_clear_lem p none v s = gives (refl, refl, v)
buf_clear_lem p (some b) v s =
    Gives-bind (revert_correct p b v s.class) λ q r. gives (refl, r, r.valid)

module _ {U : Type 0} (h : Handlers U) (leave : U → U) (leaves : LeavesConn h leave) where
  -- On an open connection, if the close callback leaves it as it is, clean_conn ends: the pool is the one
  -- behind the callback with both buffers given back, each emptied and first in the chain of its class,
  -- and is valid; the connection has no buffers; the descriptor is out of the loop and given to `close`,
  -- the server counts one connection less, and the user's state is what the callback made of it.
  pub clean_conn_returns :
      (w : World U) → IsLive w → Gives (λ v. Returned h w v × Closed leave w v) (clean_conn h w)
  unfolding clean_conn dec_conn del_ioev
  clean_conn_returns w live =
      let (fd, at) = live.open_fd in
      Gives-bind (Gives-known (leaves w live)) λ v ((live', same, count, shut, user), called).
        let looped : v.conn.looped ≡ true = live'.looped in
        let here : v.conn.connfd ≡ some fd = ap (λ (c : TcpConn). c.connfd) same ∙ at in
        rw (looped, here)
          (Gives-bind (buf_clear_lem v.pool v.conn.ibuf live'.pool live'.ibuf)
            λ (i, p) (gone, input, pv).
              Gives-bind (buf_clear_lem p v.conn.obuf pv live'.obuf) λ (o, q) (gone', output, qv).
                gives (
                  record {
                    behind = v;
                    called = called;
                    between = p;
                    input = subst (λ (b : TcpConn). GivenBack v.pool b.ibuf p) same input;
                    output = subst (λ (b : TcpConn). GivenBack p b.obuf q) same output;
                  },
                  record {
                    pool = qv;
                    ibuf = gone;
                    obuf = gone';
                    connfd = refl;
                    looped = refl;
                    counted = ap pred_ℤ count;
                    released = (fd, at, ap (◌∷◌ fd) shut, ground arith);
                    user = user;
                  },
                ))

  pub clean_conn_correct : (w : World U) → IsLive w → Gives (Closed leave w) (clean_conn h w)
  clean_conn_correct w live = Gives-weaken (clean_conn_returns w live) λ v (back, c). c
