-- ===== src/Tests/Fixtures.antt =====
-- The pool, the queue, the handlers and the connection that the tests share.
use easy_reactor.Base.{
  drop-append, take-append, ◌∷◌, ◌++◌, take, drop, length, subst, ap, ◌==◌, arith, if◌then◌else◌, ℕ,
  suc, ◌≡◌, refl, List, [], Option, some, none, true, false,
}
use easy_reactor.Base.Int.{pos}
use easy_reactor.Base.Run.{ok, gives}
use easy_reactor.Base.Table.{empty}
use easy_reactor.Base.Lists.Nth.{Each, Each-nil}
use easy_reactor.Buffer.{size_class}
use easy_reactor.Buffer.{size_class, IoBuffer, BufferPool}
use easy_reactor.Buffer.Pool.{HasRoom}
use easy_reactor.Buffer.Pool
use easy_reactor.Message.{MsgDispatcher}
use easy_reactor.Loop.{EventLoop}
use easy_reactor.Timer.Schedule.{empty_queue}
use easy_reactor.Udp.Echo.{EchoCodec}
use easy_reactor.Conn.{World, Handlers}
use easy_reactor.Conn.Live.{IsLive, IsPolite, IsPaired}

-- A pool whose chains are all empty.
abbrev pub bare_pool : BufferPool
bare_pool = record { pool = λ k. some []; total_mem = 0 }

pub bare_pool-IsValid : Pool.IsValid bare_pool
bare_pool-IsValid = record {
  stocked = λ k c. ([], refl);
  clean = λ k l e.
      let none_in : [] ≡ l =
        ap (λ (o : Option (List IoBuffer)). elim o [ none ↦ [] | some m ↦ m ]) e in
      subst (Each (Pool.IsIdle k)) none_in (Each-nil (Pool.IsIdle k));
}

-- A 4 KB buffer with `n` bytes, each of them 7.
abbrev pub small_buffer : ℕ → IoBuffer
small_buffer n = record { capacity = 4096; length = n; head = 0; bytes = λ i. 7 }

-- Id 1 has the callback 40 with the argument 50.
abbrev pub one_message : MsgDispatcher
one_message = record {
  dispatcher = λ k. if k == 1 then some 40 else none;
  args = λ k. if k == 1 then some 50 else none;
}

abbrev pub quiet_loop : EventLoop
quiet_loop = record {
  epfd = 3;
  io_evs = empty;
  timer_que = empty_queue 4;
  pending_factors = [];
  pending_capacity = 0;
  listening = λ k. false;
  ctls = [];
}

-- Connection 9, which holds nothing to read and `o` to write.
abbrev pub open_conn : Option IoBuffer → World ℕ
open_conn o = record {
  conn = record { self = 77; connfd = some 9; looped = true; ibuf = none; obuf = o };
  loop = quiet_loop;
  pool = bare_pool;
  dispatcher = one_message;
  curr_conns = pos 1;
  closed = [];
  user = 0;
}

-- Callbacks that count the messages.
abbrev pub counting : Handlers ℕ
counting = record {
  found = λ i. 0;
  on_message = λ c w. ok (record w { user = suc w.user });
  on_build = λ w. ok w;
  on_close = λ w. ok w;
}

pub counting-IsPolite : IsPolite counting (λ c u. suc u) (λ u. u)
counting-IsPolite = record {
  message = λ c w live. gives (
    record {
      pool = live.pool;
      ibuf = live.ibuf;
      obuf = live.obuf;
      looped = live.looped;
      open_fd = live.open_fd;
      paired = live.paired;
    },
    refl,
    refl,
    refl,
  );
  close = λ w live. gives (live, refl, refl, refl, refl);
}

pub one_message-IsPaired : IsPaired one_message
one_message-IsPaired k f e = (50, ground (arith, e))

pub open_conn-IsLive : IsLive (open_conn none)
open_conn-IsLive = record {
  pool = bare_pool-IsValid;
  ibuf = tt;
  obuf = tt;
  looped = refl;
  open_fd = (9, refl);
  paired = one_message-IsPaired;
}

pub small_buffer-IsWhole : Pool.IsWhole (small_buffer 5)
unfolding size_class
small_buffer-IsWhole = record { class = refl; inside = ground arith }

pub pending_conn-IsLive : IsLive (open_conn (some (small_buffer 5)))
pending_conn-IsLive = record {
  pool = bare_pool-IsValid;
  ibuf = tt;
  obuf = small_buffer-IsWhole;
  looped = refl;
  open_fd = (9, refl);
  paired = one_message-IsPaired;
}

-- A message: the content and the id.
abbrev pub Echo : Type 0
Echo = List ℕ × ℕ

-- The id behind the content.
abbrev id_of : List ℕ → ℕ
id_of (tag ∷ id ∷ xs) = id
id_of (tag ∷ []) = 0
id_of [] = 0

-- The bytes on the wire, where the length and the id are below 128.
abbrev wire : Echo → List ℕ
wire (text, id) = 10 ∷ length text ∷ (text ++ 16 ∷ id ∷ [])

abbrev unwire : List ℕ → Echo
unwire (tag ∷ n ∷ xs) = (take n xs, id_of (drop n xs))
unwire (tag ∷ []) = ([], 0)
unwire [] = ([], 0)

pub unwire-wire : (m : Echo) → unwire (wire m) ≡ m
unwire-wire (text, id) = rw (take-append text (16 ∷ id ∷ []), drop-append text (16 ∷ id ∷ [])) refl

abbrev pub wire_codec : EchoCodec Echo
wire_codec = record { parse_from_array = unwire; serialize_to_string = wire; again = unwire-wire }
