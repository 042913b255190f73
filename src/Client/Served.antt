-- ===== src/Client/Served.antt =====
-- send_data of src/tcp_client.cc against handle_read of src/tcp_conn.cc: what a client sends is what the
-- server's callbacks get.
use mathlib.Core.Bool.{true≢false}
use mathlib.Core.List.{append_assoc, append-nil}
use easy_reactor.Base.{
  ap, ◌∙◌, sym, ℕ, ◌+◌, ◌≤◌, ◌≡◌, ◌≢◌, refl, inl, inr, List, [], ◌∷◌, ◌++◌, Bool, true, false, ◌&&◌,
  arith, length, length-append,
}
use easy_reactor.Base.Lists.Nth.{Each}
use easy_reactor.Base.Run.{Run, ok, ◌>>=◌, Gives, gives, Gives-bind}
use easy_reactor.Buffer.Content.{content, length-content}
use easy_reactor.Buffer.Stream.{contents, IsFront}
use easy_reactor.Message.{Call, exist}
use easy_reactor.Message.Frames.{Frame, encode, encode_all, IsSendable}
use easy_reactor.Conn.{World, Handlers}
use easy_reactor.Conn.Live.{IsLive, IsPolite}
use easy_reactor.Conn.Chunks.{joined, read_parts, HasRooms, AllReceived, read_parts_correct}
use easy_reactor.Client.{TcpClient, ClientCallbacks, client_send}
use easy_reactor.Client.Messages.{ClientSent, client_send_correct}
use easy_reactor.Client.Talks.{CanSend}

-- All were taken, and their bytes are pending behind those from before.
abbrev AllSent : {U : Type 0} → TcpClient U → List Frame → Bool × TcpClient U → Type 0
AllSent c fs (all, v) = (all ≡ true) × (content v.obuf ≡ content c.obuf ++ encode_all fs)

module _ {U : Type 0} (h : ClientCallbacks U) where
  -- The messages one after the other; the Boolean is whether send_data took them all.
  pub send_each : List Frame → TcpClient U → Run (Bool × TcpClient U)
  send_each [] c = ok (true, c)
  send_each (f ∷ fs) c = do
    (sent, v) ← client_send h f.body f.cmdid c
    (all, w) ← send_each fs v
    ok (sent && all, w)

  none_held : (xs : List ℕ) → length xs ≡ 0 → xs ≡ []
  none_held [] e = refl
  none_held (x ∷ xs) e = absurd (omega arith)

  send_each_runs :
      (c : TcpClient U) (fd : ℕ) (fs : List Frame)
      → CanSend c fd
      → c.net_ok ≡ true
      → c.obuf.length + length (encode_all fs) ≤ c.obuf.capacity
      → Gives (AllSent c fs) (send_each fs c)
  unfolding send_each encode_all
  send_each_runs c fd [] can up fits = gives (refl, sym (append-nil _))
  send_each_runs c fd (f ∷ fs) can up fits =
      Gives-bind (client_send_correct h c f fd can.at can.whole can.front)
        λ (b, v) end. go (λ v up' can' fits'. send_each_runs v fd fs can' up' fits') b v end
    where
      more : length (encode f ++ encode_all fs) ≡ length (encode f) + length (encode_all fs)
      more = length-append (encode f) (encode_all fs)

      go :
          ((v : TcpClient U)
            → v.net_ok ≡ true
            → CanSend v fd
            → v.obuf.length + length (encode_all fs) ≤ v.obuf.capacity
            → Gives (AllSent v fs) (send_each fs v))
          → (b : Bool) (v : TcpClient U) → ClientSent c f (b, v)
          → Gives (AllSent c (f ∷ fs)) (do (all, w) ← send_each fs v; ok (b && all, w))
      go next true v (whole, front, bytes, writable, kept, on) =
          let longer : v.obuf.length ≡ c.obuf.length + length (encode f) = omega (
            arith,
            ap length bytes,
            length-append (content c.obuf) (encode f),
            length-content v.obuf,
            length-content c.obuf,
          ) in
          Gives-bind
            (next v (kept.net_ok ∙ up)
              (record { whole = whole; front = front; at = kept.sockfd ∙ can.at })
              (omega (arith, longer, more, kept.capacity, fits)))
            λ (all, w) (e, same). gives (
              e,
              same
                  ∙ ap (λ ys. ys ++ encode_all fs) bytes
                  ∙ append_assoc (content c.obuf) (encode f) (encode_all fs),
            )
      go next false v (same, inl off) = absurd (true≢false (sym up ∙ off))
      go next false v (same, inr full) = absurd (omega (arith, full, more, fits))

  module _ {V : Type 0} (k : Handlers V) (cut : List ℕ → List (List ℕ)) where
    -- The client sends; what is then pending comes to the server in parts.
    pub send_and_read : List Frame → TcpClient U → World V → Run (Bool × World V)
    send_and_read fs c w = do
      (all, v) ← send_each fs c
      u ← read_parts k (cut (content v.obuf)) w
      ok (all, u)

    -- What a connected client with nothing pending sends, where it fits the output buffer, and where the
    -- server knows the ids and the bodies have at least one byte and at most the limit, send_data takes
    -- each time; and however the pending bytes are cut into the parts that an open connection with polite
    -- callbacks, nothing held and room in its pool reads, the callbacks get exactly the messages that
    -- were sent, each once and in order, and nothing is left over.
    pub send_and_read_correct :
        (react : Call → V → V) (leave : V → V)
        → IsPolite k react leave
        → (c : TcpClient U) (fd : ℕ) (w : World V) (fs : List Frame) → CanSend c fd
        → c.net_ok ≡ true
        → c.obuf.length ≡ 0
        → length (encode_all fs) ≤ c.obuf.capacity
        → IsLive w
        → IsFront w.conn.ibuf
        → contents w.conn.ibuf ≡ []
        → joined (cut (encode_all fs)) ≡ encode_all fs
        → HasRooms k (cut (encode_all fs)) w
        → Each (IsSendable (exist w.dispatcher)) fs
        → Each (λ f. f.body ≢ []) fs
        → Gives (λ (all, u). (all ≡ true) × AllReceived k react w fs [] u) (send_and_read fs c w)
    unfolding send_and_read
    send_and_read_correct react leave polite c fd w fs can up none_yet fits live front clear same
          rooms sendable full =
        Gives-bind (send_each_runs c fd fs can up (omega arith)) λ (all, v) (e, bytes).
          let sent : content v.obuf ≡ encode_all fs =
            bytes
            ∙ ap (λ ys. ys ++ encode_all fs)
                (none_held (content c.obuf) (length-content c.obuf ∙ none_yet)) in
          rw sent (
            Gives-bind
              (read_parts_correct k react leave polite w (cut (encode_all fs)) fs [] live front
                clear rooms (same ∙ sym (append-nil _)) (omega arith) sendable full)
              λ u done. gives (e, done))
