-- ===== src/Client/Talks.antt =====
-- What the user's callbacks may do to a client of src/tcp_client.cc: send messages, and change what
-- they keep.
use easy_reactor.Base.{inr, inl, eq-cases, length, length-append, arith}
use easy_reactor.Base.Run.{◌>>=◌, Gives-value, Gives-weaken}
use easy_reactor.Buffer.Pool.{IsWhole}
use easy_reactor.Buffer.Content.{content, length-content}
use easy_reactor.Message.Frames.{encode, encode-head_bytes}
use easy_reactor.Loop.{add_ioev, only_out}
use easy_reactor.Client.{client_wcb_ptr}
use easy_reactor.Client.Messages.{client_send_correct, ClientSent, Writable}
use easy_reactor.Base.{some, ◌<◌, ℕ, subst, ap, ◌∙◌, sym, ◌≡◌, refl, Bool, true, false}
use easy_reactor.Base.Run.{Gives-weaken, Gives-ok, ok, Gives, gives}
use easy_reactor.Conn.Live.{call_of}
use easy_reactor.Message.Frames.{Frame}
use easy_reactor.Client.{
  only_out, client_wcb_ptr, add_ioev, TcpClient, ClientCallbacks, client_send,
}

-- Another state of the user.
abbrev pub keeping : {U : Type 0} → U → TcpClient U → TcpClient U
keeping u c = record c { user = u }

-- A client on socket `fd` that has what is pending at the front of its buffer.
pub record CanSend {U : Type 0} (c : TcpClient U) (fd : ℕ) : Type 0 where
  pub whole : IsWhole c.obuf
  pub front : c.obuf.head ≡ 0
  pub at : c.sockfd ≡ some fd

module _ {U : Type 0} (h : ClientCallbacks U) where
  -- From `c`, calls of send_data and changes of the user's state lead to `v`.
  pub data Talks : TcpClient U → TcpClient U → Type 0 where
    done : (c v : TcpClient U) (u : U) → v ≡ keeping u c → Talks c v
    says :
        (c v w : TcpClient U) (f : Frame) (b : Bool)
        → client_send h f.body f.cmdid c ≡ ok (b, v)
        → Talks v w
        → Talks c w
    changes : (c v w : TcpClient U) (u : U) → v ≡ keeping u c → Talks v w → Talks c w

  -- What the code relies on: the callbacks end, and only send and change the user's state.
  pub record Behaves : Type 0 where
    pub on_connection :
        (c : TcpClient U) (fd : ℕ)
        → c.net_ok ≡ true
        → CanSend c fd
        → Gives (Talks c) (h.on_connection c)
    pub on_close : (c : TcpClient U) → c.net_ok ≡ false → Gives (Talks c) (h.on_close c)
    pub on_message :
        (f : Frame) (c : TcpClient U) (fd : ℕ)
        → c.net_ok ≡ true
        → CanSend c fd
        → Gives (Talks c) (h.on_message (call_of c.dispatcher f) c)

  send_offline :
      (c : TcpClient U) (f : Frame)
      → c.net_ok ≡ false
      → client_send h f.body f.cmdid c ≡ ok (false, c)
  unfolding client_send
  send_offline c f off = rw off refl

  -- What each message and each change of the user's state keeps holds behind them.
  pub talks_keep :
      (P : TcpClient U → Type 0)
      → ((c : TcpClient U) (u : U) → P c → P (keeping u c))
      → ((c : TcpClient U) (f : Frame) → P c → Gives (λ r. P r.1) (client_send h f.body f.cmdid c))
      → (c v : TcpClient U) → Talks c v
      → P c
      → P v
  talks_keep P user sends c v (done _ _ u e) p = subst P (sym e) (user c u p)
  talks_keep P user sends c v (changes _ w _ u e rest) p =
      talks_keep P user sends w v rest (subst P (sym e) (user c u p))
  talks_keep P user sends c v (says _ w _ f b sent rest) p =
      talks_keep P user sends w v rest (Gives-ok (subst (Gives (λ r. P r.1)) sent (sends c f p)))

  -- Without a connection nothing is sent.
  pub Talks-offline :
      (c v : TcpClient U) → Talks c v → c.net_ok ≡ false → (u : U) × (v ≡ keeping u c)
  Talks-offline c v talks off =
      talks_keep (λ x. (u : U) × (x ≡ keeping u c)) (λ x u (w, e). (u, ap (keeping u) e))
        (λ x f (u, e). rw (send_offline x f (ap (λ y. y.net_ok) e ∙ off)) (gives (u, e))) c v talks
        (c.user, refl)

-- How sending leaves the loop: with nothing pending, nothing is sent; with bytes pending, the loop
-- waits to write already; else the first message makes it wait.
pub data Waits {U : Type 0} (c : TcpClient U) (fd : ℕ) (v : TcpClient U) : Type 0 where
  silent : c.obuf.length ≡ 0 → v.obuf.length ≡ 0 → v.loop ≡ c.loop → Waits c fd v
  already : 0 < c.obuf.length → 0 < v.obuf.length → v.loop ≡ c.loop → Waits c fd v
  newly :
      c.obuf.length ≡ 0
      → 0 < v.obuf.length
      → v.loop ≡ add_ioev c.loop fd client_wcb_ptr only_out c.self
      → Waits c fd v

pub record Talked {U : Type 0} (c : TcpClient U) (fd : ℕ) (v : TcpClient U) : Type 0 where
  pub can : CanSend v fd
  pub self : v.self ≡ c.self
  pub net_ok : v.net_ok ≡ c.net_ok
  pub ibuf : v.ibuf ≡ c.ibuf
  pub dispatcher : v.dispatcher ≡ c.dispatcher
  pub closed : v.closed ≡ c.closed
  pub waits : Waits c fd v

module _ {U : Type 0} (h : ClientCallbacks U) where
  more :
      (c x v : TcpClient U) (fd : ℕ)
      → Waits c fd x
      → 0 < v.obuf.length
      → x.self ≡ c.self
      → x.sockfd ≡ some fd
      → Writable x v.loop
      → Waits c fd v
  more c x v fd (silent z y same) lt self at (inl (pending, e)) = absurd (omega arith)
  more c x v fd (silent z y same) lt self at (inr (clear, (k, here, e, out))) =
      let k_fd : k ≡ fd = cc in
      newly z lt
        (e ∙ ap (λ n. add_ioev x.loop n client_wcb_ptr only_out x.self) k_fd ∙ rw (same, self) refl)
  more c x v fd (already p q same) lt self at (inl (pending, e)) = already p lt (e ∙ same)
  more c x v fd (already p q same) lt self at (inr (clear, r)) = absurd (omega arith)
  more c x v fd (newly z p e) lt self at (inl (pending, same)) = newly z lt (same ∙ e)
  more c x v fd (newly z p e) lt self at (inr (clear, r)) = absurd (omega arith)

  sent_more :
      (c x : TcpClient U) (fd : ℕ) (f : Frame)
      → Talked c fd x
      → (r : Bool × TcpClient U) → ClientSent x f r
      → Talked c fd r.1
  sent_more c x fd f t (false, v) (same, why) = subst (Talked c fd) (sym same) t
  sent_more c x fd f t (true, v) (whole, front, bytes, loop, kept, on) = record {
    can = record { whole = whole; front = front; at = kept.sockfd ∙ t.can.at };
    self = kept.self ∙ t.self;
    net_ok = kept.net_ok ∙ t.net_ok;
    ibuf = kept.ibuf ∙ t.ibuf;
    dispatcher = kept.dispatcher ∙ t.dispatcher;
    closed = kept.closed ∙ t.closed;
    waits =
        more c x v fd t.waits
          (omega (
            arith,
            ap length bytes,
            length-content v.obuf,
            length-append (content x.obuf) (encode f),
            (encode-head_bytes f).1,
          ))
          t.self t.can.at loop;
  }

  -- What callbacks leave as it is, and how the loop waits behind them.
  pub Talks-Talked : (c v : TcpClient U) (fd : ℕ) → Talks h c v → CanSend c fd → Talked c fd v
  Talks-Talked c v fd talks can =
      talks_keep h (Talked c fd)
        (λ x u t. record {
          can = record { whole = t.can.whole; front = t.can.front; at = t.can.at };
          self = t.self;
          net_ok = t.net_ok;
          ibuf = t.ibuf;
          dispatcher = t.dispatcher;
          closed = t.closed;
          waits = same_waits x u t.waits;
        })
        (λ x f t.
          Gives-weaken (client_send_correct h x f fd t.can.at t.can.whole t.can.front)
            λ r s. sent_more c x fd f t r s)
        c v talks
        (record {
          can = can;
          self = refl;
          net_ok = refl;
          ibuf = refl;
          dispatcher = refl;
          closed = refl;
          waits = elim (eq-cases c.obuf.length 0) [
            | inl e ↦ silent e e refl
            | inr e ↦ already (omega arith) (omega arith) refl
          ];
        })
    where
      same_waits : (x : TcpClient U) (u : U) → Waits c fd x → Waits c fd (keeping u x)
      same_waits x u (silent z y e) = silent z y e
      same_waits x u (already p q e) = already p q e
      same_waits x u (newly z p e) = newly z p e

  -- A callback that changes the user's state and then sends.
  pub sends_Talks :
      (g : ClientCallbacks U) (c : TcpClient U) (fd : ℕ) (f : Frame) (u : U)
      → CanSend c fd
      → Gives (Talks h c) (do (sent, v) ← client_send g f.body f.cmdid (keeping u c); ok v)
  unfolding client_send
  sends_Talks g c fd f u can =
      let k = keeping u c in
      let (r, e, s) = Gives-value (client_send_correct h k f fd can.at can.whole can.front) in
      let same : client_send g f.body f.cmdid k ≡ ok r = e in
      rw same (gives (changes c k r.1 u refl (says k r.1 r.1 f r.0 e (done r.1 r.1 r.1.user refl))))
