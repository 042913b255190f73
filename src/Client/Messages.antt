-- ===== src/Client/Messages.antt =====
-- send_data and handle_read of src/tcp_client.cc: what is sent, and what is held back.
use mathlib.Core.List.{append_assoc}
use native.Mathlib.Numerals.{add-one}
use easy_reactor.Memory.{span}
use easy_reactor.Loop.{EventLoop, add_ioev, only_out}
use easy_reactor.Base.{
  ◌||◌, if◌then◌else◌, leb, ◌==◌, Bool-cases, sym, ap, length-append, leb_le, ltb_lt, ==_refl,
}
use easy_reactor.Client.{client_retry, client_wcb_ptr}
use easy_reactor.Base.{
  ◌-◌, ltb, not, ℕ, ◌+◌, ◌≤◌, ◌<◌, ◌≡◌, refl, ◌∙◌, ◌⊎◌, inl, inr, List, [], ◌∷◌, ◌++◌, Option, some,
  Bool, true, false, arith, length,
}
use easy_reactor.Base.Run.{Gives-if, ok, Gives, gives, Gives-bind}
use easy_reactor.Buffer.{IoBuffer, Received}
use easy_reactor.Buffer.Pool.{IsWhole}
use easy_reactor.Buffer.Content.{
  content, length-content, Holds, buffer_append_lem, buffer_adjust_lem,
}
use easy_reactor.Message.{CommuHead, head_bytes, read_head, is_negative}
use easy_reactor.Message.Frames.{Frame, encode, encode-head_bytes, length-head}
use easy_reactor.Conn.Sending.{WatchesOut, head_of, add_ioev-WatchesOut}
use easy_reactor.Client.{
  TcpClient, ClientCallbacks, Connected, client_send, client_read, client_messages,
}

-- What sending leaves as it is.
pub record Untouched {U : Type 0} (c v : TcpClient U) : Type 0 where
  pub self : v.self ≡ c.self
  pub net_ok : v.net_ok ≡ c.net_ok
  pub ibuf : v.ibuf ≡ c.ibuf
  pub sockfd : v.sockfd ≡ c.sockfd
  pub capacity : v.obuf.capacity ≡ c.obuf.capacity
  pub dispatcher : v.dispatcher ≡ c.dispatcher
  pub closed : v.closed ≡ c.closed
  pub user : v.user ≡ c.user

-- The loop waits to write: as before where bytes were pending, else by a new registration.
abbrev pub Writable : {U : Type 0} → TcpClient U → EventLoop → Type 0
Writable c l =
    ((0 < c.obuf.length) × (l ≡ c.loop))
    ⊎ ((c.obuf.length ≡ 0)
        × ((fd : ℕ) × (c.sockfd ≡ some fd)
            × (l ≡ add_ioev c.loop fd client_wcb_ptr only_out c.self)
            × WatchesOut l fd))

-- How send_data leaves the client: the message behind the pending bytes, with the loop waiting to
-- write; or everything as it was, without a connection or without room.
abbrev pub ClientSent : {U : Type 0} → TcpClient U → Frame → Bool × TcpClient U → Type 0
ClientSent c f (true, v) =
    IsWhole v.obuf
    × (v.obuf.head ≡ 0)
    × (content v.obuf ≡ content c.obuf ++ encode f)
    × Writable c v.loop
    × Untouched c v
    × (c.net_ok ≡ true)
ClientSent c f (false, v) =
    (v ≡ c) × ((c.net_ok ≡ false) ⊎ (c.obuf.capacity < c.obuf.length + length (encode f)))

-- With a socket and the pending bytes at the front of a whole buffer, tcp_client::send_data appends the encoded message, and waits to write if nothing was
-- pending; or it fails with nothing changed, only without a connection or with the buffer too full.
pub client_send_correct :
    {U : Type 0} (h : ClientCallbacks U) (c : TcpClient U) (f : Frame) (fd : ℕ)
    → c.sockfd ≡ some fd
    → IsWhole c.obuf
    → c.obuf.head ≡ 0
    → Gives (ClientSent c f) (client_send h f.body f.cmdid c)
unfolding client_send
client_send_correct h c f fd at whole front =
    Gives-if (not c.net_ok) (λ off. gives (refl, inl (ground (arith, off))))
      (λ on.
        Gives-if (ltb (c.obuf.capacity - c.obuf.length) (length f.body + 8))
          (λ full. gives (refl, inr (ground (arith, full, whole.inside, (encode-head_bytes f).1))))
          (λ room.
            let fits : c.obuf.length + (8 + length f.body) ≤ c.obuf.capacity =
              ground (arith, room, whole.inside) in
            Gives-bind
              (buffer_append_lem c.obuf (head_bytes (head_of f)) whole front
                (omega (arith, length-head (head_of f))))
              λ o s.
                Gives-bind
                  (buffer_append_lem o f.body s.whole s.head (
                    omega (
                      arith,
                      fits,
                      s.capacity,
                      ap length s.bytes,
                      length-append (content c.obuf) (head_bytes (head_of f)),
                      length-head (head_of f),
                      length-content o,
                      length-content c.obuf,
                    )))
                  λ o' t. rw at (
                    gives (
                      t.whole,
                      t.head,
                      t.bytes
                          ∙ ap (λ ys. ys ++ f.body) s.bytes
                          ∙ append_assoc (content c.obuf) (head_bytes (head_of f)) f.body
                          ∙ ap (◌++◌ (content c.obuf)) (sym (encode-head_bytes f).0),
                      watches (c.obuf.length == 0) refl,
                      record {
                        self = refl;
                        net_ok = refl;
                        ibuf = refl;
                        sockfd = refl;
                        capacity = t.capacity ∙ s.capacity;
                        dispatcher = refl;
                        closed = refl;
                        user = refl;
                      },
                      ground (arith, on),
                    ))))
  where
    watches :
        (b : Bool)
        → (c.obuf.length == 0) ≡ b
        → Writable
            (record c { sockfd = some fd })
            (if b then add_ioev c.loop fd client_wcb_ptr only_out c.self else c.loop)
    watches true e = inr (ground (arith, e), (fd, refl, refl, add_ioev-WatchesOut c.loop fd _ _))
    watches false e = inl (ground (arith, e), refl)

held :
    {U : Type 0} (h : ClientCallbacks U) (c : TcpClient U) (i : IoBuffer) (sock : Option ℕ)
    (result : Connected) (hd : CommuHead) (xs : List ℕ)
    → Holds c.ibuf (content c.ibuf ++ xs) i
    → read_head (content c.ibuf ++ xs) ≡ some hd
    → 8 + hd.length < length (content c.ibuf ++ xs)
    → client_messages h (i.length + 1) sock result (record c { ibuf = i })
      ≡ ok (true, record c { ibuf = i })
unfolding client_messages
held h c i sock result hd xs s head longer =
    let size : length (content c.ibuf ++ xs) ≡ i.length =
      sym (ap length s.bytes) ∙ length-content i in
    let long : leb 8 i.length ≡ true = leb_le 8 i.length (omega arith) in
    let short : ltb (hd.length + 8) i.length ≡ true =
      ltb_lt (hd.length + 8) i.length (omega arith) in
    let at : read_head (span i.bytes i.head i.length) ≡ some hd = ap read_head s.bytes ∙ head in
    let stops : (is_negative hd.length || ltb (hd.length + 8) i.length) ≡ true =
      elim (Bool-cases (is_negative hd.length)) [
        | inl e ↦ rw e refl
        | inr e ↦ rw (e, short) refl
      ] in
    rw (add-one i.length, client_messages, long, at, stops)

-- With a connection, the input at the front of a whole buffer that has room for what `read` brings,
-- and a first message that is shorter than all that is then held, the loop of tcp_client::handle_read breaks
-- off, so nothing of what was read is delivered.
pub client_read_holds_back :
    {U : Type 0} (h : ClientCallbacks U) (c : TcpClient U) (reads : List Received) (xs : List ℕ)
    (sock : Option ℕ) (result : Connected) (hd : CommuHead)
    → c.net_ok ≡ true
    → IsWhole c.ibuf
    → c.ibuf.head ≡ 0
    → c.ibuf.length + length xs ≤ c.ibuf.capacity
    → client_retry reads ≡ ok (some xs)
    → 0 < length xs
    → read_head (content c.ibuf ++ xs) ≡ some hd
    → 8 + hd.length < length (content c.ibuf ++ xs)
    → Gives
        (λ r. (r.0 ≡ true) × (r.1.user ≡ c.user) × (content r.1.ibuf ≡ content c.ibuf ++ xs))
        (client_read h (some (length xs)) reads sock result c)
unfolding client_read
client_read_holds_back h c reads [] sock result hd on whole front fits got some_bytes head longer =
    absurd (omega arith)
client_read_holds_back h c reads (x ∷ xs) sock result hd on whole front fits got some_bytes head
      longer =
    let room : leb (length (x ∷ xs)) (c.ibuf.capacity - c.ibuf.length) ≡ true =
      leb_le _ _ (omega arith) in
    rw (on, room, got, ==_refl (length (x ∷ xs)))
      (Gives-bind (buffer_append_lem c.ibuf (x ∷ xs) whole front fits) λ i s.
        rw (held h c i sock result hd (x ∷ xs) s head longer)
          (Gives-bind (buffer_adjust_lem i s.whole) λ j t. gives (refl, refl, t.bytes ∙ s.bytes)))
