-- ===== src/Client/Receiving.antt =====
-- tcp_client::handle_read of src/tcp_client.cc for a read that completes exactly one message.
use mathlib.Core.List.{append-nil}
use easy_reactor.Base.{
  if◌then◌else◌, nil_of_length, leb, take-append, ltb, ap, ◌∙◌, sym, ℕ, suc, ◌+◌, ◌-◌, ◌≤◌, ◌≡◌,
  refl, Bool, true, false, List, [], ◌∷◌, ◌++◌, some, Option, arith, drop, take, length, leb_le,
  leb_gt, ==_refl, ◌||◌,
}
use easy_reactor.Base.Run.{Gives-assert, ok, Gives, gives, Gives-bind, Gives-value}
use easy_reactor.Memory.{span}
use easy_reactor.Buffer.{IoBuffer, Received}
use easy_reactor.Buffer.Pool.{IsWhole}
use easy_reactor.Buffer.Content.{
  content, length-content, Holds, buffer_append_lem, buffer_pop_lem, buffer_adjust_lem,
}
use easy_reactor.Message.{read_head, exist, is_negative}
use easy_reactor.Message.Frames.{
  Frame, IsSendable, encode, encode-head_bytes, length-head_bytes, read_head-head_bytes,
}
use easy_reactor.Conn.Live.{IsPaired, call_of, cb-call_of}
use easy_reactor.Conn.Sending.{head_of}
use easy_reactor.Client.{
  client_retry, cb, TcpClient, ClientCallbacks, Connected, client_messages, client_read,
}
use easy_reactor.Client.Talks.{Behaves, CanSend, Talks-Talked}

abbrev pub with_input : {U : Type 0} → TcpClient U → IoBuffer → TcpClient U
with_input c i = record c { ibuf = i }

abbrev with_body : Frame → List ℕ → Frame
with_body f b = record { cmdid = f.cmdid; body = b }

module _ {U : Type 0} (h : ClientCallbacks U) where
  -- The callback of the message has run, on the client without the head, and led to `v`; with the
  -- message taken off too, nothing is held.
  pub record Delivered (c : TcpClient U) (f : Frame) (r : Bool × TcpClient U) : Type 0 where
    pub alive : r.0 ≡ true
    pub input : IoBuffer
    pub after : TcpClient U
    pub called : h.on_message (call_of c.dispatcher f) (with_input c input) ≡ ok after
    pub whole : IsWhole r.1.ibuf
    pub empty : content r.1.ibuf ≡ []
    pub rest : r.1 ≡ with_input after r.1.ibuf

  none_held :
      (k : ℕ) (sock : Option ℕ) (result : Connected) (c : TcpClient U)
      → c.ibuf.length ≡ 0
      → client_messages h (suc k) sock result c ≡ ok (true, c)
  unfolding client_messages
  none_held k sock result c gone =
      let short : leb 8 c.ibuf.length ≡ false = leb_gt 8 c.ibuf.length (omega arith) in
      rw short refl

  module _ (behaves : Behaves h) where
    one_message :
        (k : ℕ) (c : TcpClient U) (fd : ℕ) (f : Frame) (sock : Option ℕ) (result : Connected)
        → c.net_ok ≡ true
        → IsPaired c.dispatcher
        → IsSendable (exist c.dispatcher) f
        → CanSend c fd
        → IsWhole c.ibuf
        → content c.ibuf ≡ encode f
        → Gives (Delivered c f) (client_messages h (suc (suc k)) sock result c)
    unfolding client_messages
    one_message k c fd f sock result on paired s can whole held =
        let size : c.ibuf.length ≡ 8 + length f.body =
          sym (length-content c.ibuf) ∙ ap length held ∙ (encode-head_bytes f).1 in
        let at : read_head (span c.ibuf.bytes c.ibuf.head c.ibuf.length) ≡ some (head_of f) =
          ap read_head (held ∙ (encode-head_bytes f).0)
          ∙ read_head-head_bytes (head_of f) f.body s.id (omega (arith, s.size)) in
        let goes_on : (is_negative (length f.body) || ltb (length f.body + 8) c.ibuf.length)
            ≡ false =
          ground (arith, size, s.size) in
        rw (leb_le 8 c.ibuf.length (omega arith), at, goes_on)
          (Gives-bind (buffer_pop_lem c.ibuf 8 whole (omega arith)) λ i (good, cap, less, left).
            let body : content i ≡ f.body =
              left
              ∙ ap (drop 8) (held ∙ (encode-head_bytes f).0)
              ∙ (length-head_bytes (head_of f) f.body).1 in
            let n = length f.body in
            let taken : take n (content i) ≡ f.body =
              ap (take n) (body ∙ sym (append-nil f.body)) ∙ take-append f.body [] in
            let due : cb c.dispatcher (some (content i)) n f.cmdid ≡ ok (call_of c.dispatcher f) =
              cb-call_of c.dispatcher (content i) n f.cmdid paired s.known_id (ap length taken)
              ∙ ap (λ b. ok (call_of c.dispatcher (with_body f b))) taken in
            let (v, e, talks) = Gives-value (
              behaves.on_message f (with_input c i) fd on
                (record { whole = can.whole; front = can.front; at = can.at })) in
            let t =
              Talks-Talked h (with_input c i) v fd talks
                (record { whole = can.whole; front = can.front; at = can.at }) in
            rw (s.known_id, due, e)
              (Gives-bind
                (buffer_pop_lem v.ibuf n (rw t.ibuf good)
                  (omega (arith, ap (λ (b : IoBuffer). b.length) t.ibuf)))
                λ j (good', cap', less', left').
                  let gone : j.length ≡ 0 =
                    omega (arith, less', ap (λ (b : IoBuffer). b.length) t.ibuf) in
                  rw (none_held k sock result (with_input v j) gone) (
                    gives (record {
                      alive = refl;
                      input = i;
                      after = v;
                      called = e;
                      whole = good';
                      empty = nil_of_length (content j) (length-content j ∙ gone);
                      rest = refl;
                    }))))

    -- On a connected client that holds no input, has what is pending at the front of its buffer and whose
    -- callbacks only send and change their own state: when a read brings exactly one message that fits the
    -- buffer, with an id that has a callback, handle_read calls that callback once, with this message, and then
    -- holds nothing again.
    pub client_read_delivers :
        (c : TcpClient U) (fd : ℕ) (f : Frame) (reads : List Received) (sock : Option ℕ)
        (result : Connected)
        → c.net_ok ≡ true
        → IsPaired c.dispatcher
        → IsSendable (exist c.dispatcher) f
        → CanSend c fd
        → IsWhole c.ibuf
        → c.ibuf.head ≡ 0
        → c.ibuf.length ≡ 0
        → length (encode f) ≤ c.ibuf.capacity
        → client_retry reads ≡ ok (some (encode f))
        → Gives
            (λ r. Delivered c f r × (r.1.ibuf.head ≡ 0))
            (client_read h (some (length (encode f))) reads sock result c)
    unfolding client_read
    client_read_delivers c fd f reads sock result on paired s can whole front clear fits got =
        go (encode f) refl got fits
      where
        go :
            (ys : List ℕ)
            → ys ≡ encode f
            → client_retry reads ≡ ok (some ys)
            → length ys ≤ c.ibuf.capacity
            → Gives
                (λ r. Delivered c f r × (r.1.ibuf.head ≡ 0))
                (client_read h (some (length ys)) reads sock result c)
        go [] same at fits = absurd (omega (arith, ap length same, (encode-head_bytes f).1))
        go (y ∷ ys) same at fits =
            let room : leb (length (y ∷ ys)) (c.ibuf.capacity - c.ibuf.length) ≡ true =
              leb_le _ _ (omega arith) in
            Gives-assert c.net_ok _ on (
              rw (room, at, ==_refl (length (y ∷ ys)))
                (Gives-bind (buffer_append_lem c.ibuf (y ∷ ys) whole front (omega arith)) λ i t.
                  let held : content i ≡ encode f =
                    t.bytes
                    ∙ ap (λ zs. zs ++ y ∷ ys)
                        (nil_of_length (content c.ibuf) (length-content c.ibuf ∙ clear))
                    ∙ same in
                  let fuel : i.length + 1 ≡ suc (suc (i.length - 1)) =
                    omega (arith, ap length held, length-content i, (encode-head_bytes f).1) in
                  rw fuel (
                    Gives-bind
                      (one_message (i.length - 1) (with_input c i) fd f sock result on paired s
                        (record { whole = can.whole; front = can.front; at = can.at }) t.whole held)
                      λ (alive, v) d.
                        Gives-bind (buffer_adjust_lem v.ibuf d.whole) λ j u. done alive v j i d u)))
          where
            done :
                (alive : Bool) (v : TcpClient U) (j i : IoBuffer)
                → Delivered (with_input c i) f (alive, v)
                → Holds v.ibuf (content v.ibuf) j
                → Gives
                    (λ r. Delivered c f r × (r.1.ibuf.head ≡ 0))
                    (ok (alive, if alive then with_input v j else v))
            done alive v j i d u = rw d.alive (
                gives (
                  record {
                    alive = refl;
                    input = d.input;
                    after = d.after;
                    called = d.called;
                    whole = u.whole;
                    empty = u.bytes ∙ d.empty;
                    rest = ap (λ (x : TcpClient U). with_input x j) d.rest;
                  },
                  u.head,
                ))
