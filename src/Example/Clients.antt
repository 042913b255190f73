-- ===== src/Example/Clients.antt =====
-- The clients of client.cc, example/tcpEchoServer/client.cc and example/udpEchoServer/client.cc: their
-- callbacks, which answer each message with the next and print how many they have counted. `time n` is
-- what the n-th call of time returns; what else is printed has no effect.
pub mod Counting
use easy_reactor.Base.{
  ap, ◌∙◌, sym, ℕ, zero, suc, ◌+◌, ◌%◌, ◌^◌, ◌≡◌, refl, List, [], ◌∷◌, Bool, true, false, ◌&&◌,
  ◌++◌, ◌==◌, ltb, if◌then◌else◌, some, Option, arith,
}
use easy_reactor.Base.Run.{Run, ok, ◌>>=◌, deref, Gives, gives, Gives-weaken}
use easy_reactor.Message.{Call}
use easy_reactor.Client.{TcpClient, ClientCallbacks, client_send}
use easy_reactor.Client.Talks.{Talks, done, Behaves, CanSend, keeping, sends_Talks}
use easy_reactor.Udp.{UdpSocket, udp_client_send}

pub record TestQps : Type 0 where
  pub lst_ts : ℕ
  pub succ : ℕ

-- The counter, the numbers that were printed, the newest first, and the calls of time so far.
pub record Meter : Type 0 where
  pub qps : TestQps
  pub printed : List ℕ
  pub ticks : ℕ

-- A message of echoMsg.proto; `id` is the pattern of an int32.
pub record EchoString : Type 0 where
  pub content : List ℕ
  pub id : ℕ

-- The generated code: ParseFromArray with its result, and SerializeToString.
pub record EchoCoder : Type 0 where
  pub parse_from_array : List ℕ → Bool × EchoString
  pub serialize_to_string : EchoString → List ℕ

-- `a == b` on strings
pub same_text : List ℕ → List ℕ → Bool
same_text [] [] = true
same_text [] (y ∷ ys) = false
same_text (x ∷ xs) [] = false
same_text (x ∷ xs) (y ∷ ys) = let rest = same_text xs ys in if x == y then rest else false

-- The counter of the callbacks: `counts` says whether the message counts, and `resets` whether the
-- count starts again when it has been printed. `curTs - lstTs >= 1` on signed numbers.
pub tick : (ℕ → ℕ) → Bool → Bool → Meter → Meter
tick time resets counts m =
    let succ = if counts then suc m.qps.succ else m.qps.succ in
    let cur_ts = time m.ticks in
    if ltb m.qps.lst_ts cur_ts
    then record {
      qps = record { lst_ts = cur_ts; succ = if resets then 0 else succ };
      printed = succ ∷ m.printed;
      ticks = suc m.ticks;
    }
    else record {
      qps = record { lst_ts = m.qps.lst_ts; succ = succ };
      printed = m.printed;
      ticks = suc m.ticks;
    }

-- The clients' text, "I miss you".
abbrev i_miss_you : List ℕ
i_miss_you = 73 ∷ 32 ∷ 109 ∷ 105 ∷ 115 ∷ 115 ∷ 32 ∷ 121 ∷ 111 ∷ 117 ∷ []

-- A client without callbacks, for the calls that make none.
abbrev pub mute : {U : Type 0} → ClientCallbacks U
mute = record { on_connection = λ c. ok c; on_close = λ c. ok c; on_message = λ m c. ok c }

-- `buz` of client.cc; `text` is what it writes of the counter.
pub chat_buz : (ℕ → ℕ) → (TestQps → List ℕ) → Call → TcpClient Meter → Run (TcpClient Meter)
chat_buz time text call commu = do
  let m = tick time false true commu.user
  (sent, v) ← client_send mute (text m.qps) call.cmdid (keeping m commu)
  ok v

-- `whenConnectDone` of client.cc
pub chat_connect_done : TcpClient Meter → Run (TcpClient Meter)
chat_connect_done client = do (sent, v) ← client_send mute i_miss_you 1 client; ok v

-- The callbacks that `domain` of client.cc sets.
abbrev pub chat_callbacks : (ℕ → ℕ) → (TestQps → List ℕ) → ClientCallbacks Meter
chat_callbacks time text = record {
  on_connection = chat_connect_done;
  on_close = λ c. ok c;
  on_message = chat_buz time text;
}

-- The text of the echo clients: "I miss you", eight times " i miss you", and "!".
abbrev again : ℕ → List ℕ
again zero = 33 ∷ []
again (suc n) = 32 ∷ 105 ∷ 32 ∷ 109 ∷ 105 ∷ 115 ∷ 115 ∷ 32 ∷ 121 ∷ 111 ∷ 117 ∷ again n

abbrev pub long_text : List ℕ
long_text = i_miss_you ++ again 8

-- The request that follows a reply: `set_id(rsp.id() + 1)` on 32 bits.
abbrev pub next_request : EchoString → EchoString
next_request rsp = record { content = rsp.content; id = (rsp.id + 1) % 2 ^ 32 }

abbrev pub first_request : EchoString
first_request = record { content = long_text; id = 100 }

module _ (coder : EchoCoder) where
  -- `whenConnectDone` of example/tcpEchoServer/client.cc
  pub echo_connect_done : TcpClient Meter → Run (TcpClient Meter)
  echo_connect_done client = do
    (sent, v) ← client_send mute (coder.serialize_to_string first_request) 1 client
    ok v

  -- What `main` of example/udpEchoServer/client.cc sends first.
  pub udp_first_send : Bool → UdpSocket Meter → Run (UdpSocket Meter)
  udp_first_send sendto client = do
    (sent, v) ← udp_client_send sendto (coder.serialize_to_string first_request) 1 client
    ok v

module _ (coder : EchoCoder) (time : ℕ → ℕ) where
  -- What `buz` of the echo clients makes of a reply: the next request, and the counter.
  pub next_of : List ℕ → Meter → List ℕ × Meter
  next_of bytes m =
      let (parsed, rsp) = coder.parse_from_array bytes in
      let counts = parsed && same_text rsp.content long_text in
      (coder.serialize_to_string (next_request rsp), tick time true counts m)

  -- `buz` of example/tcpEchoServer/client.cc
  pub echo_client_buz : Call → TcpClient Meter → Run (TcpClient Meter)
  echo_client_buz call commu = do
    bytes ← deref call.bytes
    let (req, m) = next_of bytes commu.user
    (sent, v) ← client_send mute req call.cmdid (keeping m commu)
    ok v

  abbrev pub echo_client_callbacks : ClientCallbacks Meter
  echo_client_callbacks = record {
    on_connection = echo_connect_done coder;
    on_close = λ c. ok c;
    on_message = echo_client_buz;
  }

  -- `buz` of example/udpEchoServer/client.cc
  pub udp_client_buz : Bool → Call → UdpSocket Meter → Run (UdpSocket Meter)
  udp_client_buz sendto call commu = do
    bytes ← deref call.bytes
    let (req, m) = next_of bytes commu.user
    (sent, v) ← udp_client_send sendto req call.cmdid (record commu { user = m })
    ok v
