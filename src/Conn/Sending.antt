-- ===== src/Conn/Sending.antt =====
-- tcp_conn::send_data of src/tcp_conn.cc: what it puts behind the bytes that are still to be written.
use mathlib.Core.List.{append_assoc}
use easy_reactor.Base.{
  ◌≤◌, Bool-cases, sym, if◌then◌else◌, ap, ◌==◌, ==_refl, Option-cases, ℕ, ◌+◌, ◌<◌, ◌≡◌, refl, ◌∙◌,
  ◌⊎◌, inl, inr, List, ◌++◌, Option, none, some, Bool, true, false, arith, length, drop,
  length-append,
}
use easy_reactor.Base.Run.{ok, ◌>>=◌, Gives, gives, Gives-bind}
use easy_reactor.Buffer.{BufferPool, TcpBuffer, u8m, extra_mem_limit, send_bytes, buf_length}
use easy_reactor.Buffer.Pool.{IsValid}
use easy_reactor.Buffer.Stream.{contents, IsSound, IsFront, SendResult, send_bytes_correct}
use easy_reactor.Message.{CommuHead, head_bytes}
use easy_reactor.Message.Frames.{encode-head_bytes, length-head, Frame, encode}
use easy_reactor.Loop.{EventLoop, IoEvent, add_ioev, only_out, with_callback}
use easy_reactor.Conn.{send_end, World, Handlers, with_obuf, send_data}
use easy_reactor.Conn.Live.{IsLive}
use easy_reactor.Conn.Reading.{length-contents, pop_contents}

-- Room for two more buffers.
abbrev pub HasRoomTwice : BufferPool → Type 0
HasRoomTwice p = p.total_mem + 16384 < extra_mem_limit

abbrev pub writes_of : Option IoEvent → Bool
writes_of none = false
writes_of (some e) = e.mask.epollout

-- The loop watches `fd` for writing.
abbrev pub WatchesOut : EventLoop → ℕ → Type 0
WatchesOut l fd = (writes_of (l.io_evs fd) ≡ true) × (l.listening fd ≡ true)

pub add_ioev-WatchesOut :
    (l : EventLoop) (fd proc args : ℕ) → WatchesOut (add_ioev l fd proc only_out args) fd
unfolding add_ioev with_callback
add_ioev-WatchesOut l fd proc args = elim (Option-cases (l.io_evs fd)) [
  | inl e ↦ (rw (==_refl fd, e) refl, rw (==_refl fd) refl)
  | inr (ev, e) ↦ (rw (==_refl fd, e) (ground arith), rw (==_refl fd) refl)
]

abbrev pub head_of : Frame → CommuHead
head_of f = record { cmdid = f.cmdid; length = length f.body }

pub with_obuf-IsLive :
    {U : Type 0} (w : World U) (c : TcpBuffer) (p : BufferPool)
    → IsLive w
    → IsSound c
    → IsValid p
    → IsLive (with_obuf w c p)
with_obuf-IsLive w c p live s v = record {
  pool = v;
  ibuf = live.ibuf;
  obuf = s;
  looped = live.looped;
  open_fd = live.open_fd;
  paired = live.paired;
}

-- What sending a message leaves as it is, and how much the pool may grow.
pub record Beside {U : Type 0} (w v : World U) : Type 0 where
  pub connfd : v.conn.connfd ≡ w.conn.connfd
  pub ibuf : v.conn.ibuf ≡ w.conn.ibuf
  pub dispatcher : v.dispatcher ≡ w.dispatcher
  pub curr_conns : v.curr_conns ≡ w.curr_conns
  pub closed : v.closed ≡ w.closed
  pub user : v.user ≡ w.user
  pub total : v.pool.total_mem ≤ w.pool.total_mem + 16384

-- How send_data leaves the connection: `true` with the message behind the bytes that were pending,
-- and the loop waiting to write them; `false` with those bytes as they were, where the head did not
-- fit, or with the first eight of them and the head lost, where the body did not.
abbrev pub SendEnd : {U : Type 0} → World U → Frame → Bool × World U → Type 0
SendEnd w f (true, v) =
    IsLive v
    × IsFront v.conn.obuf
    × (contents v.conn.obuf ≡ contents w.conn.obuf ++ encode f)
    × (((0 < length (contents w.conn.obuf)) × (v.loop ≡ w.loop))
        ⊎ ((fd : ℕ) × (w.conn.connfd ≡ some fd) × WatchesOut v.loop fd))
    × Beside w v
SendEnd w f (false, v) =
    IsLive v
    × (u8m < length (contents w.conn.obuf) + length (encode f))
    × (v.loop ≡ w.loop)
    × Beside w v
    × ((contents v.conn.obuf ≡ contents w.conn.obuf)
        ⊎ (contents v.conn.obuf ≡ drop 8 (contents w.conn.obuf ++ head_bytes (head_of f))))

module _ {U : Type 0} (h : Handlers U) (w : World U) (f : Frame) where
  -- The head is behind the pending bytes.
  record Headed (o : TcpBuffer) (p : BufferPool) : Type 0 where
    pub sound : IsSound o
    pub front : IsFront o
    pub bytes : contents o ≡ contents w.conn.obuf ++ head_bytes (head_of f)
    pub valid : IsValid p
    pub total : p.total_mem ≤ w.pool.total_mem + 8192

  beside :
      (c : TcpBuffer) (q : BufferPool) (l : EventLoop)
      → q.total_mem ≤ w.pool.total_mem + 16384
      → Beside w (record w { conn = record (w.conn) { obuf = c }; pool = q; loop = l })
  beside c q l le = record {
    connfd = refl;
    ibuf = refl;
    dispatcher = refl;
    curr_conns = refl;
    closed = refl;
    user = refl;
    total = le;
  }

  whole_message : (xs : List ℕ) → (xs ++ head_bytes (head_of f)) ++ f.body ≡ xs ++ encode f
  whole_message xs =
      append_assoc xs (head_bytes (head_of f)) f.body ∙ ap (◌++◌ xs) (sym (encode-head_bytes f).0)

  headed_length : (xs : List ℕ) → length (xs ++ head_bytes (head_of f)) ≡ length xs + 8
  headed_length xs =
      length-append xs (head_bytes (head_of f)) ∙ ap (◌+◌ (length xs)) (length-head (head_of f))

  send_end_lem :
      (o : TcpBuffer) (p : BufferPool)
      → IsLive w
      → Headed o p
      → (r : Bool × TcpBuffer × BufferPool) → SendResult p o f.body r
      → Gives (SendEnd w f) (send_end h r.0 (buf_length w.conn.obuf == 0) (with_obuf w r.1 r.2))
  unfolding send_end
  send_end_lem o p live s (false, c, q) (over, same, rest) =
      let size = ap length s.bytes ∙ headed_length (contents w.conn.obuf) in
      rw (same, rest)
        (Gives-bind (pop_contents p o 8 s.valid s.sound (omega arith) (omega arith)) λ (o', q) t.
          gives (
            with_obuf-IsLive w o' q live t.sound t.valid,
            omega (arith, (encode-head_bytes f).1),
            refl,
            beside o' q w.loop (omega (arith, t.total, s.total)),
            inr (t.bytes ∙ ap (drop 8) s.bytes),
          ))
  send_end_lem o p live s (true, c, q) t =
      let bytes : contents c ≡ contents w.conn.obuf ++ encode f =
        t.bytes ∙ ap (λ xs. xs ++ f.body) s.bytes ∙ whole_message (contents w.conn.obuf) in
      let live' = with_obuf-IsLive w c q live t.sound t.valid in
      let (fd, at) = live.open_fd in
      elim (Bool-cases (buf_length w.conn.obuf == 0)) [
        | inl clear ↦
            rw (clear, live.looped, at)
              (gives (
                record {
                  pool = t.valid;
                  ibuf = live.ibuf;
                  obuf = t.sound;
                  looped = refl;
                  open_fd = (fd, refl);
                  paired = live.paired;
                },
                t.front,
                bytes,
                inr (fd, refl, add_ioev-WatchesOut w.loop fd _ _),
                record {
                  connfd = refl;
                  ibuf = refl;
                  dispatcher = refl;
                  curr_conns = refl;
                  closed = refl;
                  user = refl;
                  total = omega (arith, s.total, t.total);
                },
              ))
        | inr pending ↦ rw pending (
            gives (
              live',
              t.front,
              bytes,
              inl (ground (arith, length-contents w.conn.obuf), refl),
              beside c q w.loop (omega (arith, s.total, t.total)),
            ))
      ]

-- On an open connection with its output at the front of the buffer and room for two more buffers in
-- the pool, send_data ends. What was read, the descriptor, the dispatcher and the count of connections
-- stay, and the pool grows by two buffers at most. If it succeeds, the encoded message stands behind the bytes that were pending, and the loop watches the descriptor
-- for writing where none were pending. It fails only if bytes and message come to more than 8 MB;
-- then the pending bytes are as they were, or, with the head already behind them, the first eight
-- bytes of all are lost.
pub send_data_correct :
    {U : Type 0} (h : Handlers U) (w : World U) (f : Frame)
    → IsLive w
    → IsFront w.conn.obuf
    → HasRoomTwice w.pool
    → Gives (SendEnd w f) (send_data h f.body f.cmdid w)
unfolding send_data
send_data_correct h w f live front room =
    Gives-bind
      (send_bytes_correct h.found w.pool w.conn.obuf (head_bytes (head_of f)) live.pool
        (omega arith) live.obuf front)
      λ r s. go r s
  where
    go :
        (r : Bool × TcpBuffer × BufferPool)
        → SendResult w.pool w.conn.obuf (head_bytes (head_of f)) r
        → Gives (SendEnd w f) (
            if r.0
            then (send_bytes h.found r.2 r.1 f.body >>= λ (sent, o, p).
                send_end h sent (buf_length w.conn.obuf == 0) (with_obuf w o p))
            else ok (false, with_obuf w r.1 r.2))
    go (false, o, p) (over, same, rest) =
        rw (same, rest)
          (gives (
            live,
            omega (arith, length-head (head_of f), (encode-head_bytes f).1),
            refl,
            beside h w f w.conn.obuf w.pool w.loop (omega arith),
            inl refl,
          ))
    go (true, o, p) s =
        Gives-bind
          (send_bytes_correct h.found p o f.body s.valid (omega (arith, s.total)) s.sound s.front)
          λ r t.
            send_end_lem h w f o p live
              (record {
                sound = s.sound;
                front = s.front;
                bytes = s.bytes;
                valid = s.valid;
                total = s.total;
              })
              r t
