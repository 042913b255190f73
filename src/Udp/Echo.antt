-- ===== src/Udp/Echo.antt =====
-- The echo server of example/udpEchoServer/server.cc: its callback `buz` on the UDP server.
use easy_reactor.Base.{
  arith, ap, ◌∙◌, ℕ, ◌≤◌, ◌≡◌, refl, List, [], ◌∷◌, Option, none, some, Bool, true, length,
}
use easy_reactor.Base.Run.{Run, ok, ◌>>=◌, deref, Gives, gives, Gives-bind, Gives-weaken}
use easy_reactor.Message.{Call, MsgDispatcher, exist}
use easy_reactor.Message.Frames.{Frame, encode}
use easy_reactor.Conn.Live.{IsPaired}
use easy_reactor.Udp.{UdpSocket, Datagram, datagram, recv_again, server_read, udp_send}
use easy_reactor.Udp.Packages.{Brings, ends, udp_send_correct, encode-Brings}
use easy_reactor.Udp.Reading.{IsPoliteFor, AllTaken, deliver_from, server_read_takes}

-- The generated code of echoMsg.proto, for messages `M` that are made of `id` and `content`, both set.
-- What the callbacks rely on: such a message that was serialized is parsed as it was.
pub record EchoCodec (M : Type 0) : Type 0 where
  pub parse_from_array : List ℕ → M
  pub serialize_to_string : M → List ℕ
  pub again : (m : M) → parse_from_array (serialize_to_string m) ≡ m

module _ {M : Type 0} (codec : EchoCodec M) where
  -- What `m` looks like on its way.
  abbrev pub echo_frame : M → Frame
  echo_frame m = record { cmdid = 1; body = codec.serialize_to_string m }

  -- The messages come in, each from its address, and then nothing more.
  pub requests : List (ℕ × M) → List Datagram
  requests [] = recv_again ∷ []
  requests ((src, m) ∷ ms) = datagram (encode (echo_frame m)) src ∷ requests ms

  -- Each of them is sent to its address, the last one first.
  pub replies : List (ℕ × M) → List (ℕ × List ℕ) → List (ℕ × List ℕ)
  replies [] sent = sent
  replies ((src, m) ∷ ms) sent = replies ms ((src, encode (echo_frame m)) ∷ sent)

  abbrev frames : List (ℕ × M) → List (ℕ × Frame)
  frames [] = []
  frames ((src, m) ∷ ms) = (src, echo_frame m) ∷ frames ms

  -- All fit a datagram.
  abbrev pub AllShort : List (ℕ × M) → Type 0
  AllShort [] = Unit {0}
  AllShort ((src, m) ∷ ms) = (length (codec.serialize_to_string m) ≤ 65520) × AllShort ms

  abbrev bytes_of : Option (List ℕ) → List ℕ
  bytes_of none = []
  bytes_of (some bytes) = bytes

  -- What buz adds to what was sent.
  abbrev answer : ℕ → Call → List (ℕ × List ℕ) → List (ℕ × List ℕ)
  answer peer call sent =
      (
        peer,
        encode (record {
          cmdid = call.cmdid;
          body = codec.serialize_to_string (codec.parse_from_array (bytes_of call.bytes));
        }),
      )
      ∷ sent

  -- A message that buz can answer with one datagram.
  abbrev HasAnswer : Frame → Type 0
  HasAnswer f = length (codec.serialize_to_string (codec.parse_from_array f.body)) ≤ 65520

  frames-HasAnswer : (ms : List (ℕ × M)) → AllShort ms → AllTaken HasAnswer (frames ms)
  frames-HasAnswer [] tt = tt
  frames-HasAnswer ((src, m) ∷ ms) (le, short) = (rw codec.again le, frames-HasAnswer ms short)

  requests-Brings :
      (known : ℕ → Bool) (ms : List (ℕ × M))
      → known 1 ≡ true
      → AllShort ms
      → Brings known (requests ms) (frames ms)
  unfolding requests
  requests-Brings known [] is_known tt = ends []
  requests-Brings known ((src, m) ∷ ms) is_known (le, short) =
      encode-Brings known (echo_frame m) src (requests ms) (frames ms) (omega arith) is_known le
        (requests-Brings known ms is_known short)

  frames-replies :
      (d : MsgDispatcher) (ms : List (ℕ × M)) (sent : List (ℕ × List ℕ))
      → deliver_from answer (λ src. src) d (frames ms) sent ≡ replies ms sent
  unfolding deliver_from replies
  frames-replies d [] sent = refl
  frames-replies d ((src, m) ∷ ms) sent =
      ap (λ x. deliver_from answer (λ p. p) d (frames ms) ((src, encode (echo_frame x)) ∷ sent))
        (codec.again m)
      ∙ frames-replies d ms ((src, encode (echo_frame m)) ∷ sent)

module _ {M : Type 0} (codec : EchoCodec M) {U : Type 0} where
  -- `rsp` gets both fields of `req`; `sendto` is what that call gives, which is not looked at.
  pub buz : Bool → Call → UdpSocket U → Run (UdpSocket U)
  buz sendto call commu = do
    bytes ← deref call.bytes
    let req = codec.parse_from_array bytes
    (sent, v) ← udp_send sendto (codec.serialize_to_string req) call.cmdid commu
    ok v

  buz-IsPolite : IsPoliteFor (HasAnswer codec) (λ s. s.sent) (buz true) (answer codec)
  unfolding buz
  buz-IsPolite f s fits le =
      let reply : Frame = record {
        cmdid = f.cmdid;
        body = codec.serialize_to_string (codec.parse_from_array f.body);
      } in
      Gives-bind ((udp_send_correct true s reply).0 fits)
        λ (b, v) d. gives (d.dispatcher, d.peer, d.sent)

  -- The echo server gives every message back: where the messages fit a datagram, the callback `buz` is
  -- registered for id 1 and sendto succeeds, one read sends each of them, unchanged and in order, to
  -- the address it came from, and nothing else.
  pub echo_correct :
      (s : UdpSocket U) (ms : List (ℕ × M))
      → IsPaired s.dispatcher
      → exist s.dispatcher 1 ≡ true
      → AllShort codec ms
      → Gives (λ v. v.sent ≡ replies codec ms s.sent) (server_read (buz true) (requests codec ms) s)
  echo_correct s ms paired known short =
      Gives-weaken
        (server_read_takes (λ t. t.sent) (buz true) (answer codec) (λ t m p. refl) (HasAnswer codec)
          buz-IsPolite s (requests codec ms) (frames codec ms) paired
          (requests-Brings codec (exist s.dispatcher) ms known short)
          (frames-HasAnswer codec ms short))
        λ v (e, sent). sent ∙ frames-replies codec s.dispatcher ms s.sent
