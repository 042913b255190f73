-- ===== src/Conn/Reading.antt =====
-- tcp_conn::handle_read of src/tcp_conn.cc against the messages in the stream.
use easy_reactor.Base.{
  subst, length-take, length-drop, length-take, length-drop, ap, ltb_lt, ltb_ge, leb_le, leb_gt,
  sym, ℕ, suc, ◌+◌, ◌-◌, ◌≤◌, ◌<◌, ◌≡◌, refl, ◌∙◌, inl, inr, List, none, some, true, false, arith,
  length, take, drop,
}
use easy_reactor.Base.Run.{ok, Gives, Gives-bind}
use easy_reactor.Buffer.{IoBuffer, BufferPool, TcpBuffer, buf_length, buf_data, buf_pop}
use easy_reactor.Buffer.Pool
use easy_reactor.Buffer.Pool.{IsWhole}
use easy_reactor.Buffer.Content.{length-content}
use easy_reactor.Buffer.Stream.{contents, IsSound}
use easy_reactor.Buffer.Drain.{buf_pop_correct, Popped}
use easy_reactor.Message.{CommuHead, exist, read_head, is_malformed}
use easy_reactor.Message.Frames.{Frame, Refused}
use easy_reactor.Conn.{World, Handlers, with_ibuf, clean_conn, read_messages}
use easy_reactor.Conn.Live.{IsLive, call_of, cb-call_of}

-- A buffer that holds bytes is not NULL.
holding :
    (c : TcpBuffer)
    → IsSound c
    → 0 < length (contents c)
    → (b : IoBuffer) × (c ≡ some b) × IsWhole b
holding none s lt = absurd (omega arith)
holding (some b) s lt = (b, refl, s)

pub length-contents : (c : TcpBuffer) → buf_length c ≡ length (contents c)
unfolding buf_length
length-contents none = refl
length-contents (some b) = sym (length-content b)

pub data-contents : (c : TcpBuffer) → 0 < length (contents c) → buf_data c ≡ some (contents c)
unfolding buf_data
data-contents none lt = absurd (omega arith)
data-contents (some b) lt = refl

pub pop_contents :
    (p : BufferPool) (c : TcpBuffer) (n : ℕ)
    → Pool.IsValid p
    → IsSound c
    → 0 < length (contents c)
    → n ≤ length (contents c)
    → Gives (Popped p c n) (buf_pop p c n)
pop_contents p none n v s lt fits = absurd (omega arith)
pop_contents p (some b) n v s lt fits = buf_pop_correct p b n v s (omega (arith, length-content b))

-- The message with the head `hd` in front of these bytes.
abbrev pub body_taken : CommuHead → List ℕ → Frame
body_taken hd xs = record { cmdid = hd.cmdid; body = take hd.length xs }

pub with_ibuf-IsLive :
    {U : Type 0} (w : World U) (c : TcpBuffer) (p : BufferPool)
    → IsLive w
    → IsSound c
    → Pool.IsValid p
    → IsLive (with_ibuf w c p)
with_ibuf-IsLive w c p live s v = record {
  pool = v;
  ibuf = s;
  obuf = live.obuf;
  looped = live.looped;
  open_fd = live.open_fd;
  paired = live.paired;
}

module _ {U : Type 0} (h : Handlers U) where
  pub stops :
      (k : ℕ) (w : World U)
      → IsLive w
      → length (contents w.conn.ibuf) < 8
      → read_messages h (suc k) w ≡ ok w
  unfolding read_messages
  stops k w live short =
      rw (length-contents w.conn.ibuf, leb_gt 8 (length (contents w.conn.ibuf)) short)

  pub refusal :
      (k : ℕ) (w : World U) (hd : CommuHead)
      → 8 ≤ length (contents w.conn.ibuf)
      → read_head (contents w.conn.ibuf) ≡ some hd
      → Refused (exist w.dispatcher) (contents w.conn.ibuf) hd
      → read_messages h (suc k) w ≡ clean_conn h w
  unfolding read_messages
  refusal k w hd long at (inl bad) = rw (
    length-contents w.conn.ibuf,
    leb_le 8 (length (contents w.conn.ibuf)) long,
    data-contents w.conn.ibuf (omega arith),
    at,
    bad,
  )
  refusal k w hd long at (inr (good, whole, other)) = rw (
    length-contents w.conn.ibuf,
    leb_le 8 (length (contents w.conn.ibuf)) long,
    data-contents w.conn.ibuf (omega arith),
    at,
    good,
    ltb_ge (length (contents w.conn.ibuf)) (8 + hd.length) whole,
    other,
  )

  pub waiting :
      (k : ℕ) (w : World U) (hd : CommuHead)
      → 8 ≤ length (contents w.conn.ibuf)
      → read_head (contents w.conn.ibuf) ≡ some hd
      → is_malformed hd.length ≡ false
      → length (contents w.conn.ibuf) < 8 + hd.length
      → read_messages h (suc k) w ≡ ok w
  unfolding read_messages
  waiting k w hd long at good part = rw (
    length-contents w.conn.ibuf,
    leb_le 8 (length (contents w.conn.ibuf)) long,
    data-contents w.conn.ibuf (omega arith),
    at,
    good,
    ltb_lt (length (contents w.conn.ibuf)) (8 + hd.length) part,
  )

  -- One message of the loop, with a body: what its callback ensures holds in the rounds behind it.
  pub taking :
      (k : ℕ) (w : World U) (f : Frame) (hd : CommuHead) {R Q : World U → Type 0}
      → IsLive w
      → read_head (contents w.conn.ibuf) ≡ some hd
      → is_malformed hd.length ≡ false
      → 8 + hd.length ≤ length (contents w.conn.ibuf)
      → exist w.dispatcher hd.cmdid ≡ true
      → 0 < hd.length
      → f ≡ body_taken hd (drop 8 (contents w.conn.ibuf))
      → ((c : TcpBuffer) (p : BufferPool)
          → p.total_mem ≡ w.pool.total_mem
          → IsLive (with_ibuf w c p)
          → Gives
              (λ v. IsLive v × (v.conn.ibuf ≡ c) × R v)
              (h.on_message (call_of w.dispatcher f) (with_ibuf w c p)))
      → ((v : World U) (c : TcpBuffer) (p : BufferPool)
          → p.total_mem ≡ v.pool.total_mem
          → IsLive (with_ibuf v c p)
          → contents c ≡ drop hd.length (drop 8 (contents w.conn.ibuf))
          → R v
          → Gives Q (read_messages h k (with_ibuf v c p)))
      → Gives Q (read_messages h (suc k) w)
  unfolding read_messages
  taking k w f hd {R = R} live at good whole known full is_it callback rest =
      let xs = contents w.conn.ibuf in
      rw
        (
          length-contents w.conn.ibuf,
          leb_le 8 (length xs) (omega arith),
          data-contents w.conn.ibuf (omega arith),
          at,
          good,
          ltb_ge (length xs) (8 + hd.length) whole,
          known,
        )
        (Gives-bind
          (pop_contents w.pool w.conn.ibuf 8 live.pool live.ibuf (omega arith) (omega arith))
          λ (i, p) popped.
            let size : length (contents i) ≡ length xs - 8 =
              ap length popped.bytes ∙ length-drop 8 xs in
            let taken : length (take hd.length (contents i)) ≡ hd.length =
              length-take hd.length (contents i) (omega (arith, size)) in
            let same_frame : f ≡ body_taken hd (contents i) =
              is_it ∙ ap (body_taken hd) (sym popped.bytes) in
            rw
              (
                data-contents i (omega (arith, size)),
                cb-call_of w.dispatcher (contents i) hd.length hd.cmdid live.paired known taken,
              )
              (Gives-bind
                (subst
                  (λ g.
                    Gives (λ v. IsLive v × (v.conn.ibuf ≡ i) × R v)
                      (h.on_message (call_of w.dispatcher g) (with_ibuf w i p)))
                  same_frame
                  (callback i p popped.total
                    (with_ibuf-IsLive w i p live popped.sound popped.valid)))
                λ v (live', same, r).
                  let size' : length (contents v.conn.ibuf) ≡ length xs - 8 =
                    ap (λ c. length (contents c)) same ∙ size in
                  Gives-bind
                    (pop_contents v.pool v.conn.ibuf hd.length live'.pool live'.ibuf
                      (omega (arith, size')) (omega (arith, size')))
                    λ (j, q) left.
                      rest v j q left.total (with_ibuf-IsLive v j q live' left.sound left.valid)
                        (left.bytes
                          ∙ ap (λ c. drop hd.length (contents c)) same
                          ∙ ap (drop hd.length) popped.bytes)
                        r))
