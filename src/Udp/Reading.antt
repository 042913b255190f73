-- ===== src/Udp/Reading.antt =====
-- handle_read of src/udp_server.cc and src/udp_client.cc: what the messages do.
use easy_reactor.Base.{
  length-drop, fun_ext, take_all, subst, arith, ℕ, ◌+◌, ◌-◌, ◌≤◌, ◌≡◌, ◌≢◌, inl, inr, refl, sym, ap,
  ◌∙◌, List, [], ◌∷◌, some, true, length, take, drop,
}
use easy_reactor.Base.Run.{Gives-weaken, Run, Gives, gives, Gives-bind}
use easy_reactor.Memory.{Memory, store, span, length-span}
use easy_reactor.Message.{CommuHead, MsgDispatcher, Call, read_head, exist}
use easy_reactor.Message.Frames.{Frame, read_head-some, head_length}
use easy_reactor.Conn.Live.{IsPaired, call_of, cb-call_of}
use easy_reactor.Udp.{
  UdpSocket, Datagram, buffer_size, filled, dispatch, receive, server_refuses, client_refuses,
  server_read, client_read,
}
use easy_reactor.Udp.Packages.{
  IsOther, Brings, ends, fails, retries, drops, brings, client_refuses-server_refuses, take_short,
  refuses_other, takes_message, body_part, head_part,
}

-- `view` is what is observed of a socket; a read of a package alone leaves it as it is.
abbrev pub IsView : {U V : Type 0} → (UdpSocket U → V) → Type 0
IsView {U} view =
    (s : UdpSocket U) (m : Memory) (p : ℕ) → view (record s { rbuf = m; peer = p }) ≡ view s

-- What the code relies on, for the messages `Takes`: the callback of one of at most 65520 bytes keeps
-- the dispatcher and the peer; `react` is what it does to the view, by the peer, to which it may reply.
abbrev pub IsPoliteFor :
    {U V : Type 0}
    → (Frame → Type 0)
    → (UdpSocket U → V)
    → (Call → UdpSocket U → Run (UdpSocket U))
    → (ℕ → Call → V → V)
    → Type 0
IsPoliteFor {U} Takes view on_message react =
    (f : Frame) (s : UdpSocket U)
    → Takes f
    → length f.body ≤ 65520
    → Gives
        (λ v.
          (v.dispatcher ≡ s.dispatcher)
          × (v.peer ≡ s.peer)
          × (view v ≡ react s.peer (call_of s.dispatcher f) (view s)))
        (on_message (call_of s.dispatcher f) s)

-- The same for all messages.
abbrev pub IsPoliteUdp :
    {U V : Type 0}
    → (UdpSocket U → V)
    → (Call → UdpSocket U → Run (UdpSocket U))
    → (ℕ → Call → V → V)
    → Type 0
IsPoliteUdp {U} view on_message react =
    (f : Frame) (s : UdpSocket U)
    → length f.body ≤ 65520
    → Gives
        (λ v.
          (v.dispatcher ≡ s.dispatcher)
          × (v.peer ≡ s.peer)
          × (view v ≡ react s.peer (call_of s.dispatcher f) (view s)))
        (on_message (call_of s.dispatcher f) s)

-- All the messages are such.
abbrev pub AllTaken : (Frame → Type 0) → List (ℕ × Frame) → Type 0
AllTaken Takes [] = Unit {0}
AllTaken Takes ((src, f) ∷ fs) = Takes f × AllTaken Takes fs

all_taken : (fs : List (ℕ × Frame)) → AllTaken (λ f. Unit {0}) fs
all_taken [] = tt
all_taken ((src, f) ∷ fs) = (tt, all_taken fs)

-- The view behind the callbacks of the messages, in order, each with its peer.
unfoldable pub deliver_from :
    {V : Type 0} → (ℕ → Call → V → V) → (ℕ → ℕ) → MsgDispatcher → List (ℕ × Frame) → V → V
deliver_from react from d [] u = u
deliver_from react from d ((src, f) ∷ fs) u =
    deliver_from react from d fs (react (from src) (call_of d f) u)

-- What a round reads of a package that is no message: a head of another length.
other_head :
    (mem old : Memory) (p : List ℕ)
    → mem ≡ store old 0 p
    → IsOther p
    → (h : CommuHead) × (read_head (span mem 0 8) ≡ some h) × (length p ≢ 8 + h.length)
other_head mem old p e (inl short) =
    let (h, at) = read_head-some (span mem 0 8) (omega (arith, length-span mem 0 8)) in
    (h, at, λ same. omega arith)
other_head mem old p e (inr (h, at, ne)) =
    (h, ap (λ m. read_head (span m 0 8)) e ∙ head_part old p (head_length p h at) ∙ at, ne)

module _ {U V : Type 0} (view : UdpSocket U → V)
    (on_message : Call → UdpSocket U → Run (UdpSocket U)) (react : ℕ → Call → V → V)
    (stable : IsView view) (Takes : Frame → Type 0)
    (polite : IsPoliteFor Takes view on_message react) where
  dispatch_message :
      (t : UdpSocket U) (old : Memory) (p : List ℕ) (h : CommuHead)
      → t.rbuf ≡ store old 0 p
      → IsPaired t.dispatcher
      → exist t.dispatcher h.cmdid ≡ true
      → length p ≡ 8 + h.length
      → length p ≤ buffer_size
      → Takes (record { cmdid = h.cmdid; body = drop 8 p })
      → Gives
          (λ v.
            (v.dispatcher ≡ t.dispatcher)
            × (v.peer ≡ t.peer)
            × (view v
                ≡ react t.peer
                    (call_of t.dispatcher (record { cmdid = h.cmdid; body = drop 8 p }))
                    (view t)))
          (dispatch on_message h t)
  unfolding dispatch
  dispatch_message t old p h e paired known size fits taken =
      let at : length p - 8 ≡ h.length = omega arith in
      let body : span t.rbuf 8 h.length ≡ drop 8 p =
        ap (λ m. span m 8 h.length) e
        ∙ ap (span (store old 0 p) 8) (sym at)
        ∙ sym (body_part old p (omega arith)) in
      let size_of = length-span t.rbuf 8 h.length in
      let whole : take h.length (span t.rbuf 8 h.length) ≡ span t.rbuf 8 h.length =
        subst (λ n. take n (span t.rbuf 8 h.length) ≡ span t.rbuf 8 h.length) size_of
          (take_all (span t.rbuf 8 h.length)) in
      let call =
        cb-call_of t.dispatcher (span t.rbuf 8 h.length) h.length h.cmdid paired known
          (ap length whole ∙ size_of) in
      rw (call, whole ∙ body)
        (polite (record { cmdid = h.cmdid; body = drop 8 p }) t taken
          (omega (arith, length-drop 8 p)))

  -- What is noted of the sender is at most its address; `from` is the peer that it makes of the sender,
  -- and `Held` what stays true of the peer.
  module _ (note : ℕ → UdpSocket U → UdpSocket U) (from : ℕ → ℕ) (Held : ℕ → Type 0)
      (notes : (src : ℕ) (s : UdpSocket U)
        → Held s.peer
        → Held (from src) × (note src s ≡ record s { peer = from src })) where
    pub receive_lem :
        (d : MsgDispatcher) (s : UdpSocket U) {rs : List Datagram} {fs : List (ℕ × Frame)}
        → Held s.peer
        → s.dispatcher ≡ d
        → IsPaired d
        → Brings (exist d) rs fs
        → AllTaken Takes fs
        → Gives
            (λ v. (v.dispatcher ≡ d) × (view v ≡ deliver_from react from d fs (view s)))
            (receive on_message server_refuses note rs s)
    unfolding receive deliver_from
    receive_lem d s held same paired (ends rest) all = gives (same, refl)
    receive_lem d s held same paired (fails rest) all = gives (same, refl)
    receive_lem d s held same paired (retries b) all = receive_lem d s held same paired b all
    receive_lem d s held same paired (drops pkg src {rest} {fs} other b) all =
        let p = take buffer_size pkg in
        let mem = store s.rbuf 0 p in
        let t = record s { rbuf = mem; peer = from src } in
        let (held', noted) = notes src (filled s pkg) held in
        let (h, at, ne) = other_head mem s.rbuf p refl other in
        rw (noted, at, refuses_other p h ne)
          (Gives-weaken (receive_lem d t held' same paired b all)
            λ v (e, u). (e, u ∙ ap (deliver_from react from d fs) (stable s mem (from src))))
    receive_lem d s held same paired (brings pkg src h {rest} {fs} (at, size) known b)
          (taken, all) =
        let p = take buffer_size pkg in
        let mem = store s.rbuf 0 p in
        let t = record s { rbuf = mem; peer = from src } in
        let f : Frame = record { cmdid = h.cmdid; body = drop 8 p } in
        let (held', noted) = notes src (filled s pkg) held in
        let here : read_head (span mem 0 8) ≡ some h = head_part s.rbuf p (omega arith) ∙ at in
        let run =
          dispatch_message t s.rbuf p h refl (subst IsPaired (sym same) paired)
            (subst (λ m. exist m h.cmdid ≡ true) (sym same) known) size (take_short buffer_size pkg)
            taken in
        rw (noted, here, takes_message p h (take_short buffer_size pkg) size)
          (Gives-bind run λ v (e, q, u).
            Gives-weaken (receive_lem d v (subst Held (sym q) held') (e ∙ same) paired b all)
              λ w (e', u'). (
                e',
                u'
                    ∙ ap (deliver_from react from d fs) (
                        u
                        ∙ ap (λ c. react (from src) (call_of c f) (view t)) same
                        ∙ ap (react (from src) (call_of d f)) (stable s mem (from src))),
              ))

  -- A read of udp_server of messages that the callback takes.
  pub server_read_takes :
      (s : UdpSocket U) (rs : List Datagram) (fs : List (ℕ × Frame))
      → IsPaired s.dispatcher
      → Brings (exist s.dispatcher) rs fs
      → AllTaken Takes fs
      → Gives
          (λ v.
            (v.dispatcher ≡ s.dispatcher)
            × (view v ≡ deliver_from react (λ src. src) s.dispatcher fs (view s)))
          (server_read on_message rs s)
  unfolding server_read
  server_read_takes s rs fs paired b all =
      receive_lem (λ src t. record t { peer = src }) (λ src. src) (λ p. p ≡ p)
        (λ src t h. (refl, refl)) s.dispatcher s refl refl paired b all

module _ {U V : Type 0} (view : UdpSocket U → V)
    (on_message : Call → UdpSocket U → Run (UdpSocket U)) (react : ℕ → Call → V → V)
    (stable : IsView view) (polite : IsPoliteUdp view on_message react) where
  -- What udp_server::handle_read does: where recvfrom brings messages whose ids are registered, the
  -- read ends, and each of them makes its call, in the order they came, with the address it came from
  -- as the one that a reply goes to. A package that is no message makes no call.
  pub server_read_correct :
      (s : UdpSocket U) (rs : List Datagram) (fs : List (ℕ × Frame))
      → IsPaired s.dispatcher
      → Brings (exist s.dispatcher) rs fs
      → Gives
          (λ v.
            (v.dispatcher ≡ s.dispatcher)
            × (view v ≡ deliver_from react (λ src. src) s.dispatcher fs (view s)))
          (server_read on_message rs s)
  server_read_correct s rs fs paired b =
      server_read_takes view on_message react stable (λ f. Unit {0}) (λ f t any. polite f t) s rs fs
        paired b (all_taken fs)

  -- What udp_client::handle_read does: the same, with the address that the client is connected to as
  -- the peer of every call.
  pub client_read_correct :
      (s : UdpSocket U) (rs : List Datagram) (fs : List (ℕ × Frame))
      → IsPaired s.dispatcher
      → Brings (exist s.dispatcher) rs fs
      → Gives
          (λ v.
            (v.dispatcher ≡ s.dispatcher)
            × (view v ≡ deliver_from react (λ src. s.peer) s.dispatcher fs (view s)))
          (client_read on_message rs s)
  unfolding client_read
  client_read_correct s rs fs paired b =
      let same_test : client_refuses ≡ server_refuses =
        fun_ext λ h. fun_ext λ n. client_refuses-server_refuses h n in
      rw same_test (
        receive_lem view on_message react stable (λ f. Unit {0}) (λ f t any. polite f t)
          (λ src t. t) (λ src. s.peer) (λ p. p ≡ s.peer)
          (λ src t h. (refl, ap (λ p. record t { peer = p }) h)) s.dispatcher s refl refl paired b
          (all_taken fs))
