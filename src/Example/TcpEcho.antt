-- ===== src/Example/TcpEcho.antt =====
-- The echo server of example/tcpEchoServer/server.cc: its callback `buz` on a TCP connection.
pub mod Serving
use native.Mathlib.Bridge.{le_prop}
use native.Mathlib.Nat.{ℕ_set}
use mathlib.Core.HLevel.{¬_prop}
use mathlib.Core.List.{append-nil, Lex-prop, mem-cons_of_mem, mem-cons_self, append_assoc}
use easy_reactor.Base.{
  suc, Bool, arith, ap, ◌∙◌, ℕ, ◌+◌, ◌*◌, ◌≤◌, ◌<◌, ◌≡◌, ◌≢◌, refl, sym, subst, List, [], ◌∷◌, ◌++◌,
  some, none, true, false, length, length-append, inl, inr, ◌⊎◌,
}
use easy_reactor.Base.Lists.Nth.{Each-cons, Each-nil, Each}
use easy_reactor.Base.Run.{Run, ok, ◌>>=◌, deref, Gives, gives, Gives-bind, Gives-weaken}
use easy_reactor.Memory.{Memory}
use easy_reactor.Buffer.{Sent, BufferPool, TcpBuffer, u8m, extra_mem_limit, received, retry_read}
use easy_reactor.Buffer.Stream.{contents, IsFront}
use easy_reactor.Message.{Call, exist, msg_length_limit}
use easy_reactor.Message.Frames.{
  encode_all-Parses, short_head, encode-head_bytes, Frame, encode, encode_all, IsSendable, Parses,
  waits,
}
use easy_reactor.Conn.{World, Handlers, with_ibuf, send_data, handle_read, handle_write}
use easy_reactor.Conn.Live.{IsLive, call_of, LeavesConn, clean_conn_correct}
use easy_reactor.Conn.Rounds.{Serves}
use easy_reactor.Conn.Serving.{handle_read_serves}
use easy_reactor.Conn.Chunks.{joined, read_parts, read_parts_runs}
use easy_reactor.Conn.Sending.{WatchesOut, SendEnd, send_data_correct}
use easy_reactor.Conn.Flushing.{Outcome, Flushes, FlushEnd, handle_write_correct}
use easy_reactor.Udp.Echo.{EchoCodec, echo_frame}

-- No callbacks.
abbrev silent : {U : Type 0} → Memory → Handlers U
silent found = record {
  found = found;
  on_message = λ c w. ok w;
  on_build = λ w. ok w;
  on_close = λ w. ok w;
}

-- A part of the stream that one call of handle_read can take.
abbrev pub IsPart : List ℕ → Type 0
IsPart xs = (0 < length xs) × (length xs + 65544 ≤ u8m)

module _ {M : Type 0} (codec : EchoCodec M) where
  -- What `buz` sends back.
  abbrev pub reply : Frame → Frame
  reply f = record {
    cmdid = f.cmdid;
    body = codec.serialize_to_string (codec.parse_from_array f.body);
  }

  abbrev pub replies : List Frame → List ℕ
  replies [] = []
  replies (f ∷ fs) = encode (reply f) ++ replies fs

  -- The messages as they are on their way.
  abbrev pub frames : List M → List Frame
  frames [] = []
  frames (m ∷ ms) = echo_frame codec m ∷ frames ms

  pub replies-frames : (ms : List M) → replies (frames ms) ≡ encode_all (frames ms)
  unfolding encode_all
  replies-frames [] = refl
  replies-frames (m ∷ ms) =
      rw codec.again (ap (◌++◌ (encode (echo_frame codec m))) (replies-frames ms))

  pub length-frames : (ms : List M) → length (frames ms) ≡ length ms
  length-frames [] = refl
  length-frames (m ∷ ms) = ap suc (length-frames ms)

  -- A message with a body that the library takes.
  abbrev pub IsPlain : M → Type 0
  IsPlain m =
      (0 < length (codec.serialize_to_string m))
      × (length (codec.serialize_to_string m) ≤ msg_length_limit)

  pub frames-IsSendable :
      (known : ℕ → Bool) (ms : List M)
      → known 1 ≡ true
      → Each (IsPlain) ms
      → Each (IsSendable known) (frames ms) × Each (λ f. f.body ≢ []) (frames ms)
  frames-IsSendable known [] is_known plain = (Each-nil _, Each-nil _)
  frames-IsSendable known (m ∷ ms) is_known plain =
      let (some_bytes, short) = plain m mem-cons_self in
      let (rest, full) =
        frames-IsSendable known ms is_known (λ n at. plain n (mem-cons_of_mem m at)) in
      (
        Each-cons _ (λ f. hlevel (le_prop, ℕ_set)) (echo_frame codec m) (frames ms)
            (record { id = omega arith; size = short; known_id = is_known }) rest,
        Each-cons _ (λ f. ¬_prop) (echo_frame codec m) (frames ms)
            (λ empty. absurd (omega (arith, ap length empty))) full,
      )

  pub some_answer : (ms : List M) → 0 < length ms → 0 < length (encode_all (frames ms))
  unfolding encode_all
  some_answer [] lt = absurd (omega arith)
  some_answer (m ∷ ms) lt = omega (
    arith,
    (encode-head_bytes (echo_frame codec m)).1,
    length-append (encode (echo_frame codec m)) (encode_all (frames ms)),
  )

module _ {M : Type 0} (codec : EchoCodec M) {U : Type 0} (found : Memory) where
  -- `rsp` gets both fields of `req`; the result of send_data is not looked at.
  unfoldable pub buz : Call → World U → Run (World U)
  buz call commu = do
    bytes ← deref call.bytes
    let req = codec.parse_from_array bytes
    (sent, v) ← send_data (silent found) (codec.serialize_to_string req) call.cmdid commu
    ok v

  -- The callbacks of the server that `main` sets up.
  abbrev pub echo_handlers : Handlers U
  echo_handlers = record (silent found) { on_message = buz }
