-- ===== src/Example/Setups.antt =====
-- What `main` or `domain` of each program sets up before process_evs: server.cc, client.cc,
-- example/tcpEchoServer, example/udpEchoServer and example/timerServer. The address and the port go to
-- the system calls, whose results are arguments.
pub mod Alarms
use easy_reactor.Base.{[], ℕ, ◌%◌, ◌^◌, List, ◌∷◌, Option, none, some, Bool}
use easy_reactor.Base.Run.{Run, ok, ◌>>=◌}
use easy_reactor.Base.Text.{Bytes}
use easy_reactor.Memory.{Memory}
use easy_reactor.Config.{ConfigReader, set_path, ins, get_string, get_number}
use easy_reactor.Loop.{EventLoop, new_loop, run_after, run_every}
use easy_reactor.Message.{MsgDispatcher, new_dispatcher, add_msg_cb}
use easy_reactor.Accept.{Server, ServerCalls, new_server, reactor_text}
use easy_reactor.Client.{TcpClient, ClientCallbacks, Connected, new_client}
use easy_reactor.Udp.{UdpSocket, new_udp, new_udp_client, udp_add_msg_cb}
use easy_reactor.Example.Clients.{Meter, TestQps, EchoCoder, mute, udp_first_send}

abbrev ip_text : Bytes
ip_text = b'i' ∷ b'p' ∷ []

abbrev port_text : Bytes
port_text = b'p' ∷ b'o' ∷ b'r' ∷ b't' ∷ []

abbrev any_address : Bytes
any_address = b'0' ∷ b'.' ∷ b'0' ∷ b'.' ∷ b'0' ∷ b'.' ∷ b'0' ∷ []

-- What epoll_create1 and timerfd_create give, and the addresses of the objects.
pub record Place : Type 0 where
  pub epoll : Option ℕ
  pub timerfd : Option ℕ
  pub que_ptr : ℕ
  pub self : ℕ

-- The address of `buz`.
abbrev buz_ptr : ℕ
buz_ptr = 10

-- Where the server listens, as the file myconf.ini has it. `port` is a short.
pub listen_at : Option Bytes → Run (ConfigReader × Bytes × ℕ)
listen_at file = do
  (loaded, config) ← set_path file none
  c ← ins (some config)
  ok (
    c,
    get_string c reactor_text ip_text any_address,
    get_number c reactor_text port_text 12315 % 2 ^ 16,
  )

-- A TCP server with the loop.
pub tcp_server_at :
    {W : Type 0} → Place → (Bytes → ℕ → ServerCalls) → Option Bytes → W → Run (Server W × EventLoop)
tcp_server_at place calls file own = do
  loop ← new_loop place.epoll place.timerfd place.que_ptr
  (config, ip, port) ← listen_at file
  new_server (calls ip port) (some config) place.self loop own

-- `main` of example/tcpEchoServer/server.cc, with the server's dispatcher.
pub tcp_echo_main :
    {W : Type 0}
    → Place
    → (Bytes → ℕ → ServerCalls)
    → Option Bytes
    → W
    → Run (Server W × EventLoop × MsgDispatcher)
tcp_echo_main place calls file own = do
  (server, loop) ← tcp_server_at place calls file own
  ok (server, loop, (add_msg_cb new_dispatcher 1 buz_ptr 0).1)

-- `main` of server.cc does the same.
abbrev pub chat_main :
    {W : Type 0}
    → Place
    → (Bytes → ℕ → ServerCalls)
    → Option Bytes
    → W
    → Run (Server W × EventLoop × MsgDispatcher)
chat_main = tcp_echo_main

-- `main` of example/udpEchoServer/server.cc; `found` lies in the buffers.
pub udp_echo_main :
    {U : Type 0}
    → Place
    → (Bytes → ℕ → Option ℕ × Option ℕ × Bool)
    → Memory
    → Option Bytes
    → U
    → Run (UdpSocket U)
udp_echo_main place calls found file user = do
  loop ← new_loop place.epoll place.timerfd place.que_ptr
  (config, ip, port) ← listen_at file
  let (sock, addr, bound) = calls ip port
  server ← new_udp sock addr bound found place.self loop user
  ok (udp_add_msg_cb server 1 buz_ptr 0)

abbrev pub new_meter : Meter
new_meter = record { qps = record { lst_ts = 0; succ = 0 }; printed = []; ticks = 0 }

-- `domain` of client.cc. The callback for the connection is set
-- behind the constructor, so that one which is there at once makes no call.
pub domain : Place → Memory → Option ℕ → Connected → ℕ → Run (TcpClient Meter)
domain place found sock result qps_ptr = do
  loop ← new_loop place.epoll place.timerfd place.que_ptr
  client ← new_client mute found place.self loop new_meter sock result
  ok (record client { dispatcher = (add_msg_cb client.dispatcher 1 buz_ptr qps_ptr).1 })

-- `domain` of example/tcpEchoServer/client.cc does the same, with other callbacks.
abbrev pub echo_domain : Place → Memory → Option ℕ → Connected → ℕ → Run (TcpClient Meter)
echo_domain = domain

-- `main` of example/udpEchoServer/client.cc
pub udp_client_main :
    EchoCoder → Place → Option ℕ × Option ℕ × Bool → Memory → ℕ → Bool → Run (UdpSocket Meter)
udp_client_main coder place calls found qps_ptr sendto = do
  loop ← new_loop place.epoll place.timerfd place.que_ptr
  let (sock, addr, bound) = calls
  client ← new_udp_client sock addr bound found place.self loop new_meter
  udp_first_send coder sendto (udp_add_msg_cb client 1 buz_ptr qps_ptr)

-- The addresses of buz1 and buz2 of example/timerServer/server.cc, which print a line each.
abbrev pub buz1_ptr : ℕ
buz1_ptr = 11

abbrev pub buz2_ptr : ℕ
buz2_ptr = 12

-- The timers of its `main`: at which time each call reads the clock, and the file that they print to.
pub set_timers : ℕ × ℕ → ℕ × ℕ → ℕ → EventLoop → Run EventLoop
set_timers (sec1, nsec1) (sec2, nsec2) fp loop = do
  (once, l) ← run_after loop sec1 nsec1 buz1_ptr fp 10 0
  (every, m) ← run_every l sec2 nsec2 buz2_ptr fp 1 500
  ok m

-- `main` of example/timerServer/server.cc
pub timer_main :
    {W : Type 0}
    → Place
    → (Bytes → ℕ → ServerCalls)
    → Option Bytes
    → W
    → ℕ × ℕ
    → ℕ × ℕ
    → ℕ
    → Run (Server W × EventLoop)
timer_main place calls file own first second fp = do
  (server, loop) ← tcp_server_at place calls file own
  l ← set_timers first second fp loop
  ok (server, l)
