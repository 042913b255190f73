-- ===== src/Client.antt =====
-- src/tcp_client.cc and include/tcp_client.h: the client's connection, which is built again whenever
-- it ends. Its two buffers are its own, of 4 MB each.
pub mod Messages
pub mod Talks
pub mod Closing
pub mod Flushing
pub mod Receiving
pub mod Phases
pub mod Life
pub mod Served
use easy_reactor.Base.{
  ℕ, zero, suc, ◌+◌, ◌-◌, List, [], ◌∷◌, Option, none, some, Bool, true, false, not, ltb, leb, ◌==◌,
  ◌&&◌, ◌||◌, if◌then◌else◌, length,
}
use easy_reactor.Base.Run.{Run, ok, abort, exited, starved, ◌>>=◌, ◌>>◌, assert, deref}
use easy_reactor.Memory.{Memory, span}
use easy_reactor.Buffer.{
  IoBuffer, Received, Sent, new_buffer, buffer_append, buffer_pop, buffer_adjust, retry_write,
  received, read_interrupted, read_again, read_failed,
}
use easy_reactor.Message.{
  CommuHead, MsgDispatcher, Call, commu_head_length, new_dispatcher, head_bytes, read_head, exist,
  cb, is_negative,
}
use easy_reactor.Loop.{EventLoop, only_in, only_out, add_ioev, del_ioev, del_ioev_mask, run_after}

-- `sockfd` is `none` for -1, `self` is the object's address; `closed` lists the descriptors given to
-- `close`, the newest first; `user` is what the user's callbacks keep.
pub record TcpClient (U : Type 0) : Type 0 where
  pub self : ℕ
  pub net_ok : Bool
  pub ibuf : IoBuffer
  pub obuf : IoBuffer
  pub sockfd : Option ℕ
  pub loop : EventLoop
  pub dispatcher : MsgDispatcher
  pub closed : List ℕ
  pub user : U

-- The user's callbacks; one that is not set does nothing.
pub record ClientCallbacks (U : Type 0) : Type 0 where
  pub on_connection : TcpClient U → Run (TcpClient U)
  pub on_close : TcpClient U → Run (TcpClient U)
  pub on_message : Call → TcpClient U → Run (TcpClient U)

-- What `connect` does: 0, EINPROGRESS, or another error.
pub data Connected : Type 0 where
  connected in_progress refused : Connected

-- The addresses of read_cb, write_cb, connection_cb and reconn_cb.
abbrev pub client_rcb_ptr : ℕ
client_rcb_ptr = 4

abbrev pub client_wcb_ptr : ℕ
client_wcb_ptr = 5

abbrev pub connection_cb_ptr : ℕ
connection_cb_ptr = 6

abbrev pub reconn_cb_ptr : ℕ
reconn_cb_ptr = 7

-- `if (_sockfd != -1) ::close(_sockfd)`
abbrev pub close_socket : {U : Type 0} → TcpClient U → TcpClient U
close_socket c = record c { closed = elim c.sockfd [ none ↦ c.closed | some fd ↦ fd ∷ c.closed ] }

-- The reads of handle_read up to one that is not interrupted, with `assert(errno != EAGAIN)` on a failed
-- one: `none` is a -1 with another error.
unfoldable pub client_retry : List Received → Run (Option (List ℕ))
client_retry [] = starved
client_retry (read_interrupted ∷ rest) = client_retry rest
client_retry (read_again ∷ rest) = abort
client_retry (read_failed ∷ rest) = ok none
client_retry (received xs ∷ rest) = ok (some xs)

module _ {U : Type 0} (h : ClientCallbacks U) where
  unfoldable pub connect_on : ℕ → Connected → TcpClient U → Run (TcpClient U)
  connect_on fd connected c = h.on_connection (record c { net_ok = true })
  connect_on fd in_progress c =
      ok (record c { loop = add_ioev c.loop fd connection_cb_ptr only_out c.self })
  connect_on fd refused c = exited

  -- `sock` is what `socket` gives, `none` for -1.
  unfoldable pub do_connect : Option ℕ → Connected → TcpClient U → Run (TcpClient U)
  do_connect none result c = exited
  do_connect (some fd) result c =
      connect_on fd result (record (close_socket c) { sockfd = some fd })

  -- The constructor, for an address that inet_aton reads; `found` is what `new char[]` finds.
  unfoldable pub new_client : Memory → ℕ → EventLoop → U → Option ℕ → Connected → Run (TcpClient U)
  new_client found self loop user sock result = do_connect sock result (record {
    self = self;
    net_ok = false;
    ibuf = new_buffer found 4194304;
    obuf = new_buffer found 4194304;
    sockfd = none;
    loop = loop;
    dispatcher = new_dispatcher;
    closed = [];
    user = user;
  })

  -- `built` says that SO_ERROR is 0; the time is that of run_after.
  pub connection_cb : ℕ → Bool → ℕ → ℕ → TcpClient U → Run (TcpClient U)
  connection_cb fd true tv_sec tv_nsec c = do
    v ← h.on_connection (record c { loop = del_ioev c.loop fd; net_ok = true })
    let reading = add_ioev v.loop fd client_rcb_ptr only_in v.self
    ok (record v {
      loop =
          if v.obuf.length == 0
          then reading
          else add_ioev reading fd client_wcb_ptr only_out v.self;
    })
  connection_cb fd false tv_sec tv_nsec c = do
    (id, l) ← run_after (del_ioev c.loop fd) tv_sec tv_nsec reconn_cb_ptr c.self 2 0
    ok (record c { loop = l })

  pub clean_client : Option ℕ → Connected → TcpClient U → Run (TcpClient U)
  clean_client sock result c = do
    let unlooped : EventLoop = elim c.sockfd [ none ↦ c.loop | some fd ↦ del_ioev c.loop fd ]
    v ← h.on_close (record (close_socket c) { loop = unlooped; net_ok = false })
    do_connect sock result v

  -- `true` is the result 0, `false` is -1; `datlen` is the length of `data`.
  unfoldable pub client_send : List ℕ → ℕ → TcpClient U → Run (Bool × TcpClient U)
  client_send bytes cmdid c = do
    let head : CommuHead = record { cmdid = cmdid; length = length bytes }
    let append : Run (Bool × TcpClient U) = do
      o ← buffer_append c.obuf (head_bytes head)
      o' ← buffer_append o bytes
      fd ← deref c.sockfd
      ok (
        true,
        record c {
          obuf = o';
          loop =
              if c.obuf.length == 0
              then add_ioev c.loop fd client_wcb_ptr only_out c.self
              else c.loop;
        },
      )
    if not c.net_ok
        then ok (false, c)
        else if ltb (c.obuf.capacity - c.obuf.length) (length bytes + commu_head_length)
        then ok (false, c)
        else append

  -- The message loop of handle_read; `sock` and `result` are for the connection that clean_conn
  -- builds. Its rounds take at least 8 bytes off, so the fuel lasts.
  pub client_messages : ℕ → Option ℕ → Connected → TcpClient U → Run (Bool × TcpClient U)
  client_messages zero sock result c = starved
  client_messages (suc fuel) sock result c =
      let step : Run (Bool × TcpClient U) = do
        head ← deref (read_head (span c.ibuf.bytes c.ibuf.head c.ibuf.length))
        let take : Run (Bool × TcpClient U) = do
          i ← buffer_pop c.ibuf commu_head_length
          let close : Run (Bool × TcpClient U) = do
            v ← clean_client sock result (record c { ibuf = i })
            ok (false, v)
          let deliver : Run (Bool × TcpClient U) = do
            call ← cb c.dispatcher (some (span i.bytes i.head i.length)) head.length head.cmdid
            v ← h.on_message call (record c { ibuf = i })
            j ← buffer_pop v.ibuf head.length
            client_messages fuel sock result (record v { ibuf = j })
          if not (exist c.dispatcher head.cmdid) then close else deliver
        if is_negative head.length || ltb (head.length + commu_head_length) c.ibuf.length
            then ok (true, c)
            else take
      in if leb commu_head_length c.ibuf.length then step else ok (true, c)

  pub client_read :
      Option ℕ → List Received → Option ℕ → Connected → TcpClient U → Run (Bool × TcpClient U)
  client_read ioctl reads sock result c = do
    assert c.net_ok
    let close : Run (Bool × TcpClient U) = do v ← clean_client sock result c; ok (false, v)
    elim ioctl [
      | none ↦ ok (false, c)
      | some rn ↦ (do
        assert (leb rn (c.ibuf.capacity - c.ibuf.length))
        ret ← client_retry reads
        elim ret [
          | none ↦ close
          | some [] ↦ close
          | some (x ∷ xs) ↦ (do
            assert (length (x ∷ xs) == rn)
            i ← buffer_append c.ibuf (x ∷ xs)
            (alive, v) ← client_messages (i.length + 1) sock result (record c { ibuf = i })
            j ← buffer_adjust v.ibuf
            ok (alive, if alive then record v { ibuf = j } else v))
        ])
    ]

  -- The loop of handle_write; its rounds take at least a byte off, so the fuel lasts.
  pub client_write_all :
      ℕ → List Sent → Option ℕ → Connected → TcpClient U → Run (Bool × TcpClient U)
  client_write_all zero writes sock result c = starved
  client_write_all (suc fuel) writes sock result c =
      let step : Run (Bool × TcpClient U) = do
        (ret, rest) ← retry_write writes
        elim ret [
          | none ↦ (do v ← clean_client sock result c; ok (false, v))
          | some zero ↦ ok (true, c)
          | some (suc n) ↦ (do
            o ← buffer_pop c.obuf (suc n)
            o' ← buffer_adjust o
            client_write_all fuel rest sock result (record c { obuf = o' }))
        ]
      in if c.obuf.length == 0 then ok (true, c) else step

  pub client_write : List Sent → Option ℕ → Connected → TcpClient U → Run (Bool × TcpClient U)
  client_write writes sock result c = do
    assert ((c.obuf.head == 0) && not (c.obuf.length == 0))
    (alive, v) ← client_write_all (c.obuf.length + 1) writes sock result c
    let unlisten : Run (Bool × TcpClient U) = do
      fd ← deref v.sockfd
      ok (true, record v { loop = del_ioev_mask v.loop fd only_out })
    if not alive then ok (false, v) else if v.obuf.length == 0 then unlisten else ok (true, v)
