-- ===== src/Udp.antt =====
-- src/udp_server.cc, include/udp_server.h, src/udp_client.cc and include/udp_client.h: messages in
-- datagrams. Server and client differ in the address and in how they write the test of the length.
pub mod Packages
pub mod Reading
pub mod Echo
use easy_reactor.Base.{
  ℕ, ◌+◌, ◌-◌, List, [], ◌∷◌, ◌++◌, Option, none, some, Bool, true, false, not, ◌||◌, ltb, leb,
  ◌==◌, if◌then◌else◌, length, take,
}
use easy_reactor.Base.Run.{Run, ok, abort, exited, starved, ◌>>=◌, ◌>>◌, assert, deref}
use easy_reactor.Memory.{Memory, store, span}
use easy_reactor.Message.{
  add_msg_cb, CommuHead, MsgDispatcher, Call, commu_head_length, msg_length_limit, new_dispatcher,
  is_malformed, head_bytes, read_head, cb,
}
use easy_reactor.Loop.{EventLoop, only_in, add_ioev, del_ioev}

-- A server or a client. `peer` is `_srcaddr`, or the address that a client is connected to; `sent`
-- lists the datagrams given to the kernel, the newest first; `user` is what the callbacks keep.
pub record UdpSocket (U : Type 0) : Type 0 where
  pub self : ℕ
  pub sockfd : ℕ
  pub rbuf : Memory
  pub wbuf : Memory
  pub loop : EventLoop
  pub peer : ℕ
  pub dispatcher : MsgDispatcher
  pub sent : List (ℕ × List ℕ)
  pub user : U

-- The size of both buffers, `MSG_LENGTH_LIMIT`.
abbrev pub buffer_size : ℕ
buffer_size = msg_length_limit

-- The address of read_cb.
abbrev pub udp_rcb_ptr : ℕ
udp_rcb_ptr = 8

-- The constructors: `sock` is what `socket` gives, `addr` what inet_aton reads, `bound` that `bind`,
-- or `connect`, succeeds, and `found` what lies in the buffers.
pub new_udp :
    {U : Type 0} → Option ℕ → Option ℕ → Bool → Memory → ℕ → EventLoop → U → Run (UdpSocket U)
new_udp none addr bound found self loop user = exited
new_udp (some fd) none bound found self loop user = exited
new_udp (some fd) (some addr) false found self loop user = exited
new_udp (some fd) (some addr) true found self loop user = ok (record {
  self = self;
  sockfd = fd;
  rbuf = found;
  wbuf = found;
  loop = add_ioev loop fd udp_rcb_ptr only_in self;
  peer = addr;
  dispatcher = new_dispatcher;
  sent = [];
  user = user;
})

-- udp_client makes its socket in the same way.
abbrev pub new_udp_client :
    {U : Type 0} → Option ℕ → Option ℕ → Bool → Memory → ℕ → EventLoop → U → Run (UdpSocket U)
new_udp_client = new_udp

pub udp_add_msg_cb : {U : Type 0} → UdpSocket U → ℕ → ℕ → ℕ → UdpSocket U
udp_add_msg_cb s cmdid msg_cb usr_data = record s {
  dispatcher = (add_msg_cb s.dispatcher cmdid msg_cb usr_data).1;
}

-- The destructors, up to the close of the socket.
pub end_udp : {U : Type 0} → UdpSocket U → EventLoop
end_udp s = del_ioev s.loop s.sockfd

abbrev pub end_udp_client : {U : Type 0} → UdpSocket U → EventLoop
end_udp_client = end_udp

-- What one recvfrom gives: a datagram with its sender, or -1 with EINTR, EAGAIN or another error.
pub data Datagram : Type 0 where
  datagram : List ℕ → ℕ → Datagram
  recv_interrupted recv_again recv_failed : Datagram

-- The tests of the head. `pkg_len - COMMU_HEAD_LENGTH` is negative for a short package.
unfoldable pub server_refuses : CommuHead → ℕ → Bool
server_refuses head pkg_len =
    is_malformed head.length || not (head.length + commu_head_length == pkg_len)

unfoldable pub client_refuses : CommuHead → ℕ → Bool
client_refuses head pkg_len =
    is_malformed head.length
    || (ltb pkg_len commu_head_length || not (head.length == pkg_len - commu_head_length))

-- recvfrom cuts a datagram to the size of the buffer, and leaves the bytes behind it as they were.
abbrev pub filled : {U : Type 0} → UdpSocket U → List ℕ → UdpSocket U
filled s pkg = record s { rbuf = store s.rbuf 0 (take buffer_size pkg) }

module _ {U : Type 0} (on_message : Call → UdpSocket U → Run (UdpSocket U)) where
  -- The end of a round, behind the test of the head.
  pub dispatch : CommuHead → UdpSocket U → Run (UdpSocket U)
  dispatch head s = do
    call ← cb s.dispatcher (some (span s.rbuf commu_head_length head.length)) head.length head.cmdid
    on_message call s

  -- The loop, with the test of the head and what is noted of the sender.
  pub receive :
      (CommuHead → ℕ → Bool)
      → (ℕ → UdpSocket U → UdpSocket U)
      → List Datagram
      → UdpSocket U
      → Run (UdpSocket U)
  receive refuses note [] s = starved
  receive refuses note (recv_interrupted ∷ rest) s = receive refuses note rest s
  receive refuses note (recv_again ∷ rest) s = ok s
  receive refuses note (recv_failed ∷ rest) s = ok s
  receive refuses note (datagram pkg src ∷ rest) s = do
    let t = note src (filled s pkg)
    head ← deref (read_head (span t.rbuf 0 commu_head_length))
    v ← if refuses head (length (take buffer_size pkg)) then ok t else dispatch head t
    receive refuses note rest v

  pub server_read : List Datagram → UdpSocket U → Run (UdpSocket U)
  unfolding receive dispatch
  server_read = receive server_refuses (λ src s. record s { peer = src })

  pub client_read : List Datagram → UdpSocket U → Run (UdpSocket U)
  unfolding receive dispatch
  client_read = receive client_refuses (λ src s. s)

-- `true` is a result that is not -1; `sendto` says whether the kernel takes the datagram. A copy
-- past the end of `_wbuf` aborts.
unfoldable pub udp_send : {U : Type 0} → Bool → List ℕ → ℕ → UdpSocket U → Run (Bool × UdpSocket U)
udp_send {U} sendto bytes cmdid s =
    let head : CommuHead = record { cmdid = cmdid; length = length bytes } in
    let fill : Run (Bool × UdpSocket U) = do
      assert (leb (commu_head_length + length bytes) buffer_size)
      let wbuf = store (store s.wbuf 0 (head_bytes head)) commu_head_length bytes
      let pkg = span wbuf 0 (length bytes + commu_head_length)
      ok (
        sendto,
        record s { wbuf = wbuf; sent = if sendto then (s.peer, pkg) ∷ s.sent else s.sent },
      )
    in if ltb msg_length_limit (length bytes) then ok (false, s) else fill

-- The client gives `sendto` no address, so the datagram goes to the peer that it is connected to.
abbrev pub udp_client_send :
    {U : Type 0} → Bool → List ℕ → ℕ → UdpSocket U → Run (Bool × UdpSocket U)
udp_client_send = udp_send
