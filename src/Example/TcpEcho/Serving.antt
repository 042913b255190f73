-- ===== src/Example/TcpEcho/Serving.antt =====
-- The echo server of example/tcpEchoServer/server.cc behind a stream of messages that comes in parts.
use mathlib.Core.List.{append-nil, mem-cons_of_mem, mem-cons_self, append_assoc}
use easy_reactor.Base.{
  Bool, arith, ap, ◌∙◌, ℕ, ◌+◌, ◌*◌, ◌≤◌, ◌<◌, ◌≡◌, ◌≢◌, refl, sym, subst, List, [], ◌∷◌, ◌++◌,
  some, none, true, false, length, length-append, inl, inr,
}
use easy_reactor.Base.Lists.Nth.{Each}
use easy_reactor.Base.Run.{Gives, gives, Gives-bind, Gives-weaken}
use easy_reactor.Memory.{Memory}
use easy_reactor.Buffer.{Sent, u8m, extra_mem_limit, received, retry_read}
use easy_reactor.Buffer.Stream.{contents, IsFront}
use easy_reactor.Message.{exist}
use easy_reactor.Message.Frames.{
  encode_all-Parses, short_head, Frame, encode, encode_all, Parses, waits,
}
use easy_reactor.Conn.{World, handle_read, handle_write}
use easy_reactor.Conn.Live.{IsLive, LeavesConn, clean_conn_correct}
use easy_reactor.Conn.Rounds.{Serves}
use easy_reactor.Conn.Serving.{handle_read_serves}
use easy_reactor.Conn.Chunks.{joined, read_parts, read_parts_runs}
use easy_reactor.Conn.Sending.{WatchesOut, SendEnd, send_data_correct}
use easy_reactor.Conn.Flushing.{Outcome, Flushes, FlushEnd, handle_write_correct}
use easy_reactor.Udp.Echo.{EchoCodec}
use easy_reactor.Example.TcpEcho.{
  silent, buz, echo_handlers, reply, replies, frames, IsPart, IsPlain, replies-frames,
  length-frames, frames-IsSendable, some_answer,
}

module _ {M : Type 0} (codec : EchoCodec M) {U : Type 0} (found : Memory) where
  leaves : LeavesConn (echo_handlers codec {U = U} found) (λ u. u)
  leaves v alive = gives (alive, refl, refl, refl, refl)

  -- `final` is what is to be written once all messages are answered.
  record IsReady (final : List ℕ) (fd : ℕ) (parts : List (List ℕ)) (fs : List Frame) (w : World U)
      : Type 0 where
    pub front : IsFront w.conn.obuf
    pub room : w.pool.total_mem + length parts * 8192 + length fs * 16384 < extra_mem_limit
    pub small : Each IsPart parts
    pub ahead : contents w.conn.obuf ++ replies codec fs ≡ final
    pub at : w.conn.connfd ≡ some fd
    pub watched : 0 < length (contents w.conn.obuf) → WatchesOut w.loop fd

  module _ (final : List ℕ) (fits : length final ≤ u8m) (fd : ℕ) (parts : List (List ℕ)) where
    sent-IsReady :
        (f : Frame) (fs : List Frame) (w : World U)
        → IsReady final fd parts (f ∷ fs) w
        → (r : Bool × World U) → SendEnd w (reply codec f) r
        → IsLive r.1
          × (r.1.conn.ibuf ≡ w.conn.ibuf)
          × (r.1.dispatcher ≡ w.dispatcher)
          × IsReady final fd parts fs r.1
    sent-IsReady f fs w ready (false, v) (live, over, same, beside, rest) = absurd (
        omega (
          arith,
          ap length ready.ahead,
          length-append (contents w.conn.obuf) (replies codec (f ∷ fs)),
          length-append (encode (reply codec f)) (replies codec fs),
        ))
    sent-IsReady f fs w ready (true, v) (live, front, bytes, watch, beside) = (
      live,
      beside.ibuf,
      beside.dispatcher,
      record {
        front = front;
        room = omega (arith, ready.room, beside.total);
        small = ready.small;
        ahead =
            ap (λ xs. xs ++ replies codec fs) bytes
            ∙ append_assoc (contents w.conn.obuf) (encode (reply codec f)) (replies codec fs)
            ∙ ready.ahead;
        at = beside.connfd ∙ ready.at;
        watched = λ some_bytes. elim watch [
          | inl (pending, same) ↦ subst (λ l. WatchesOut l fd) (sym same) (ready.watched pending)
          | inr (k, here, out) ↦ let same : k ≡ fd = cc in subst (WatchesOut v.loop) same out
        ];
      },
    )

    echo_serves :
        (second : List Frame)
        → Serves
            (echo_handlers codec found)
            (λ fs. IsReady final fd parts (fs ++ second))
            (λ v. Unit {0})
    unfolding buz
    echo_serves second = record {
      message = λ f fs w live ready.
          Gives-bind
            (send_data_correct (silent found) w (reply codec f) live ready.front
              (omega (arith, ready.room)))
            λ r end. gives (sent-IsReady f (fs ++ second) w ready r end);
      steady = λ fs w c p total ready. record {
        front = ready.front;
        room = omega (arith, ready.room, total);
        small = ready.small;
        ahead = ready.ahead;
        at = ready.at;
        watched = ready.watched;
      };
      close = λ w live ready.
          Gives-weaken (clean_conn_correct (echo_handlers codec found) (λ u. u) leaves w live)
            λ v c. (c.ibuf, tt);
    }

    echo_reads :
        (w : World U) (xs : List ℕ) (first second : List Frame) (left : List ℕ)
        → IsLive w
        → IsFront w.conn.ibuf
        → IsReady final fd (xs ∷ parts) (first ++ second) w
        → length (contents w.conn.ibuf) < 65544
        → Parses (exist w.dispatcher) (contents w.conn.ibuf ++ xs) first (waits left)
        → Each (λ f. f.body ≢ []) first
        → Gives
            (λ v.
              (IsLive v
                × (contents v.conn.ibuf ≡ left)
                × (v.dispatcher ≡ w.dispatcher)
                × IsReady final fd parts second v)
              × IsFront v.conn.ibuf)
            (handle_read (echo_handlers codec found) (some (length xs)) (received xs ∷ []) w)
    unfolding retry_read
    echo_reads w xs first second left live front ready held p full =
        let (some_bytes, small) = ready.small xs mem-cons_self in
        handle_read_serves (echo_handlers codec found) (λ fs. IsReady final fd parts (fs ++ second))
          (λ v. Unit {0}) (echo_serves second) w (received xs ∷ []) xs first (waits left) live front
          (omega (arith, ready.room)) refl some_bytes (omega arith)
          (λ c q total. record {
            front = ready.front;
            room = omega (arith, ready.room, total);
            small = λ ys m. ready.small ys (mem-cons_of_mem xs m);
            ahead = ready.ahead;
            at = ready.at;
            watched = ready.watched;
          })
          p full

  -- How the server is left behind the messages `ms` and the bytes `rest`: the connection is open and
  -- holds `rest`, the messages are to be written, and the loop watches the descriptor for writing.
  pub record Echoed (fd : ℕ) (ms : List M) (rest : List ℕ) (v : World U) : Type 0 where
    pub live : IsLive v
    pub left : contents v.conn.ibuf ≡ rest
    pub answer : contents v.conn.obuf ≡ encode_all (frames codec ms)
    pub watched : 0 < length ms → WatchesOut v.loop fd
    pub written :
        (ws : List Sent) (k : ℕ) (o : Outcome)
        → Flushes (length (encode_all (frames codec ms))) ws k o
        → Gives (FlushEnd (λ u. u) v k o) (handle_write (echo_handlers codec found) ws v)

  -- However the bytes are cut into parts: when a peer sends messages with id 1 that are neither empty
  -- nor too long, and then less than a head, to the echo server on an open connection with nothing read
  -- and nothing to write, with `buz` registered for that id, with no part above 8 MB less the bytes
  -- that a message may leave over, replies of at most 8 MB, and a buffer to spare in the pool for each
  -- part and two for each message, then behind the last call of handle_read the connection is open, and
  -- what is to be written is the same messages, each once and in order. The loop watches for that, and
  -- handle_write then gives to the socket what it takes of it.
  pub tcp_echo_correct :
      (w : World U) (fd : ℕ) (parts : List (List ℕ)) (ms : List M) (rest : List ℕ)
      → IsLive w
      → w.conn.connfd ≡ some fd
      → w.conn.ibuf ≡ none
      → w.conn.obuf ≡ none
      → exist w.dispatcher 1 ≡ true
      → w.pool.total_mem + length parts * 8192 + length ms * 16384 < extra_mem_limit
      → Each IsPart parts
      → Each (IsPlain codec) ms
      → length (encode_all (frames codec ms)) ≤ u8m
      → joined parts ≡ encode_all (frames codec ms) ++ rest
      → length rest < 8
      → Gives (Echoed fd ms rest) (read_parts (echo_handlers codec found) parts w)
  tcp_echo_correct w fd parts ms rest live at clear nothing known room small plain fits same short =
      let final = encode_all (frames codec ms) in
      let (sendable, full) = frames-IsSendable codec (exist w.dispatcher) ms known plain in
      let held : contents w.conn.ibuf ≡ [] = ap contents clear in
      Gives-weaken
        (read_parts_runs (echo_handlers codec found) (IsReady final fd)
          (λ v xs ps first second left. echo_reads final fits fd ps v xs first second left) w parts
          (frames codec ms) rest live (rw clear tt) (rw held (short_head [] (omega arith)))
          (record {
            front = rw nothing tt;
            room = omega (arith, room, length-frames codec ms);
            small = small;
            ahead = rw nothing (replies-frames codec ms);
            at = at;
            watched = λ lt. absurd (omega (arith, lt, ap (λ o. length (contents o)) nothing));
          })
          (rw (held, same)
            (encode_all-Parses (exist w.dispatcher) (frames codec ms) rest sendable short))
          full)
        λ v (alive, left, ready).
          let answer : contents v.conn.obuf ≡ final = sym (append-nil _) ∙ ready.ahead in
          record {
            live = alive;
            left = left;
            answer = answer;
            watched =
                λ lt. ready.watched (omega (arith, ap length answer, some_answer codec ms lt));
            written = λ ws k o f.
                handle_write_correct (echo_handlers codec found) (λ u. u) leaves v ws k o alive
                  ready.front (subst (λ xs. Flushes (length xs) ws k o) (sym answer) f);
          }
