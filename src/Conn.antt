-- ===== src/Conn.antt =====
-- src/tcp_conn.cc, include/tcp_conn.h and the connection counter of src/tcp_server.cc: one accepted
-- connection, with the thread's loop, the buffer pool and the server's dispatcher around it.
-- Setting the socket's options has no effect on these.
pub mod Live
pub mod Reading
pub mod Rounds
pub mod Serving
pub mod Handle
pub mod Chunks
pub mod Sending
pub mod Flushing
use easy_reactor.Base.{
  ℕ, zero, suc, ◌+◌, ◌-◌, List, [], ◌∷◌, ◌++◌, Option, none, some, Bool, true, false, not, ◌&&◌,
  ◌||◌, ltb, leb, ◌==◌, if◌then◌else◌, length,
}
use easy_reactor.Base.Int.{ℤ, suc_ℤ, pred_ℤ}
use easy_reactor.Base.Run.{Run, ok, abort, starved, ◌>>=◌, ◌>>◌, assert, deref}
use easy_reactor.Memory.{Memory}
use easy_reactor.Buffer.{
  BufferPool, TcpBuffer, Received, Sent, ReadResult, read_error, read_closed, read_some, buf_length,
  buf_clear, buf_pop, buf_data, buf_adjust, read_data, send_bytes, write_fd,
}
use easy_reactor.Message.{
  CommuHead, MsgDispatcher, Call, commu_head_length, msg_length_limit, is_malformed, head_bytes,
  read_head, exist, cb,
}
use easy_reactor.Loop.{EventLoop, only_in, only_out, add_ioev, del_ioev, del_ioev_mask}

-- `connfd` is `none` for -1, `looped` says that `_loop` is not NULL, `self` is the object's address.
pub record TcpConn : Type 0 where
  pub self : ℕ
  pub connfd : Option ℕ
  pub looped : Bool
  pub ibuf : TcpBuffer
  pub obuf : TcpBuffer

-- `closed` lists the descriptors given to `close`, the newest first; `user` is what the user's
-- callbacks keep.
pub record World (U : Type 0) : Type 0 where
  pub conn : TcpConn
  pub loop : EventLoop
  pub pool : BufferPool
  pub dispatcher : MsgDispatcher
  pub curr_conns : ℤ
  pub closed : List ℕ
  pub user : U

-- The user's callbacks; one that is not set does nothing. `found` is what `new char[]` finds.
pub record Handlers (U : Type 0) : Type 0 where
  pub found : Memory
  pub on_message : Call → World U → Run (World U)
  pub on_build : World U → Run (World U)
  pub on_close : World U → Run (World U)

-- The addresses of tcp_rcb and tcp_wcb.
abbrev pub tcp_rcb_ptr : ℕ
tcp_rcb_ptr = 2

abbrev pub tcp_wcb_ptr : ℕ
tcp_wcb_ptr = 3

abbrev pub with_ibuf : {U : Type 0} → World U → TcpBuffer → BufferPool → World U
with_ibuf w b p = record w { conn = record (w.conn) { ibuf = b }; pool = p }

abbrev pub with_obuf : {U : Type 0} → World U → TcpBuffer → BufferPool → World U
with_obuf w b p = record w { conn = record (w.conn) { obuf = b }; pool = p }

pub inc_conn : {U : Type 0} → World U → World U
inc_conn w = record w { curr_conns = suc_ℤ w.curr_conns }

pub dec_conn : {U : Type 0} → World U → World U
dec_conn w = record w { curr_conns = pred_ℤ w.curr_conns }

module _ {U : Type 0} (h : Handlers U) where
  -- `init`, on the loop of `w`
  pub init_conn : ℕ → World U → Run (World U)
  init_conn connfd w = do
    v ← h.on_build (record w { conn = record (w.conn) { connfd = some connfd; looped = true } })
    ok (inc_conn (record v { loop = add_ioev v.loop connfd tcp_rcb_ptr only_in v.conn.self }))

  pub clean_conn : World U → Run (World U)
  clean_conn w = do
    v ← h.on_close w
    let u = dec_conn v
    assert u.conn.looped
    fd ← deref u.conn.connfd
    (i, p) ← buf_clear u.pool u.conn.ibuf
    (o, q) ← buf_clear p u.conn.obuf
    ok (record u {
      conn = record (u.conn) { connfd = none; looped = false; ibuf = i; obuf = o };
      loop = del_ioev u.loop fd;
      pool = q;
      closed = fd ∷ u.closed;
    })

  -- The message loop of handle_read. Its calls take at least 8 bytes off, so the fuel lasts.
  unfoldable pub read_messages : ℕ → World U → Run (World U)
  read_messages zero w = starved
  read_messages (suc fuel) w =
      let step : Run (World U) = do
        bytes ← deref (buf_data w.conn.ibuf)
        head ← deref (read_head bytes)
        let take : Run (World U) = do
          (i, p) ← buf_pop w.pool w.conn.ibuf commu_head_length
          call ← cb w.dispatcher (buf_data i) head.length head.cmdid
          v ← h.on_message call (with_ibuf w i p)
          (j, q) ← buf_pop v.pool v.conn.ibuf head.length
          read_messages fuel (with_ibuf v j q)
        if is_malformed head.length
            then clean_conn w
            else if ltb (buf_length w.conn.ibuf) (commu_head_length + head.length)
            then ok w
            else if not (exist w.dispatcher head.cmdid)
            then clean_conn w
            else take
      in if leb commu_head_length (buf_length w.conn.ibuf) then step else ok w

  -- `ioctl` is what FIONREAD gives and `reads` what the calls of `read` return.
  unfoldable pub handle_read : Option ℕ → List Received → World U → Run (World U)
  handle_read ioctl reads w = do
    (ret, i, p) ← read_data h.found ioctl reads w.pool w.conn.ibuf
    let v = with_ibuf w i p
    elim ret [
      | read_error ↦ clean_conn v
      | read_closed ↦ clean_conn v
      | read_some n ↦ (do
        u ← read_messages (buf_length i + 1) v
        j ← buf_adjust u.conn.ibuf
        ok (with_ibuf u j u.pool))
    ]

  -- The loop of handle_write, for what the calls of `write` return; `false` when it closed the
  -- connection. Its rounds take at least a byte off, so the fuel lasts.
  pub write_all : ℕ → List Sent → World U → Run (Bool × World U)
  write_all zero writes w = starved
  write_all (suc fuel) writes w =
      let step : Run (Bool × World U) = do
        (ret, o, rest) ← write_fd writes w.conn.obuf
        let v = with_obuf w o w.pool
        elim ret [
          | none ↦ (do u ← clean_conn v; ok (false, u))
          | some zero ↦ ok (true, v)
          | some (suc n) ↦ write_all fuel rest v
        ]
      in if buf_length w.conn.obuf == 0 then ok (true, w) else step

  pub handle_write : List Sent → World U → Run (World U)
  handle_write writes w = do
    (alive, v) ← write_all (buf_length w.conn.obuf + 1) writes w
    let unlisten : Run (World U) = do
      assert v.conn.looped
      fd ← deref v.conn.connfd
      ok (record v { loop = del_ioev_mask v.loop fd only_out })
    if not alive then ok v else if buf_length v.conn.obuf == 0 then unlisten else ok v

  -- The end of send_data, by the result of sending the body and by `need_listen`.
  pub send_end : Bool → Bool → World U → Run (Bool × World U)
  send_end false need_listen w = do
    (o, p) ← buf_pop w.pool w.conn.obuf commu_head_length
    ok (false, with_obuf w o p)
  send_end true true w = do
    assert w.conn.looped
    fd ← deref w.conn.connfd
    ok (true, record w { loop = add_ioev w.loop fd tcp_wcb_ptr only_out w.conn.self })
  send_end true false w = ok (true, w)

  -- `true` is the result 0, `false` is -1; `datlen` is the length of `data`.
  pub send_data : List ℕ → ℕ → World U → Run (Bool × World U)
  unfolding send_end
  send_data bytes cmdid w = do
    let need_listen = buf_length w.conn.obuf == 0
    let head : CommuHead = record { cmdid = cmdid; length = length bytes }
    (head_sent, o, p) ← send_bytes h.found w.pool w.conn.obuf (head_bytes head)
    let body : Run (Bool × World U) = do
      (body_sent, o', p') ← send_bytes h.found p o bytes
      send_end body_sent need_listen (with_obuf w o' p')
    if head_sent then body else ok (false, with_obuf w o p)
