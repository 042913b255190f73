-- ===== src/Tests/Udp.antt =====
-- A UDP socket that takes and sends a message of two bytes.
use easy_reactor.Base.{arith, ℕ, ◌<◌, ◌≤◌, ◌≡◌, refl, List, [], ◌∷◌, true, false, length}
use easy_reactor.Base.Run.{Run, ok, abort, Gives, gives}
use easy_reactor.Message.{Call, exist}
use easy_reactor.Message.Frames.{Frame, encode}
use easy_reactor.Udp.{UdpSocket, datagram, recv_again, server_read, client_read, udp_send}
use easy_reactor.Udp.Packages.{Brings, DatagramSent, udp_send_correct, encode-Brings}
use easy_reactor.Udp.Echo.{buz, requests, replies, echo_correct}
use easy_reactor.Udp.Reading.{deliver_from, server_read_correct, client_read_correct}
use easy_reactor.Tests.Fixtures.{Echo, wire_codec, one_message, one_message-IsPaired, quiet_loop}

abbrev bound_socket : UdpSocket (List ℕ)
bound_socket = record {
  self = 79;
  sockfd = 5;
  rbuf = λ i. 7;
  wbuf = λ i. 7;
  loop = quiet_loop;
  peer = 0;
  dispatcher = one_message;
  sent = [];
  user = [];
}

-- The callbacks note the peer that they find.
abbrev noting : Call → UdpSocket (List ℕ) → Run (UdpSocket (List ℕ))
noting c s = ok (record s { user = s.peer ∷ s.user })

abbrev note_peer : ℕ → Call → List ℕ → List ℕ
note_peer peer c u = peer ∷ u

abbrev greeting : Frame
greeting = record { cmdid = 1; body = 104 ∷ 105 ∷ [] }

greeting-Brings :
    Brings
      (exist one_message)
      (datagram (encode greeting) 31 ∷ recv_again ∷ [])
      ((31, greeting) ∷ [])
unfolding exist
greeting-Brings =
    encode-Brings (exist one_message) greeting 31 (recv_again ∷ []) [] (omega arith) refl
      (omega arith) (Brings.ends [])

server_read_correct_example :
    Gives
      (λ v.
        (v.dispatcher ≡ one_message)
        × (v.user ≡ deliver_from note_peer (λ src. src) one_message ((31, greeting) ∷ []) []))
      (server_read noting (datagram (encode greeting) 31 ∷ recv_again ∷ []) bound_socket)
server_read_correct_example =
    server_read_correct (λ s. s.user) noting note_peer (λ s m p. refl)
      (λ f s le. gives (refl, refl, refl)) bound_socket
      (datagram (encode greeting) 31 ∷ recv_again ∷ []) ((31, greeting) ∷ []) one_message-IsPaired
      greeting-Brings

client_read_correct_example :
    Gives
      (λ v.
        (v.dispatcher ≡ one_message)
        × (v.user ≡ deliver_from note_peer (λ src. 0) one_message ((31, greeting) ∷ []) []))
      (client_read noting (datagram (encode greeting) 31 ∷ recv_again ∷ []) bound_socket)
client_read_correct_example =
    client_read_correct (λ s. s.user) noting note_peer (λ s m p. refl)
      (λ f s le. gives (refl, refl, refl)) bound_socket
      (datagram (encode greeting) 31 ∷ recv_again ∷ []) ((31, greeting) ∷ []) one_message-IsPaired
      greeting-Brings

udp_send_correct_example :
    (length greeting.body ≤ 65520
      → Gives
          (DatagramSent true bound_socket greeting)
          (udp_send true greeting.body greeting.cmdid bound_socket))
    × (65520 < length greeting.body
        → length greeting.body ≤ 65528
        → udp_send true greeting.body greeting.cmdid bound_socket ≡ abort)
    × (65528 < length greeting.body
        → udp_send true greeting.body greeting.cmdid bound_socket ≡ ok (false, bound_socket))
udp_send_correct_example = udp_send_correct true bound_socket greeting

-- Two messages from two addresses.
abbrev two_requests : List (ℕ × Echo)
two_requests = (31, (104 ∷ 105 ∷ [], 7)) ∷ (32, (111 ∷ [], 8)) ∷ []

echo_correct_example :
    Gives
      (λ v. v.sent ≡ replies wire_codec two_requests [])
      (server_read (buz wire_codec true) (requests wire_codec two_requests) bound_socket)
unfolding exist
echo_correct_example =
    echo_correct wire_codec bound_socket two_requests one_message-IsPaired refl
      (omega arith, (omega arith, tt))
