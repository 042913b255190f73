-- ===== src/Udp/Packages.antt =====
-- handle_read and send_data of src/udp_server.cc and src/udp_client.cc: which messages arrive.
use easy_reactor.Base.{
  ◌^◌, leb, ltb, if◌then◌else◌, subst, zero, suc, arith, ℕ, ◌+◌, ◌-◌, ◌<◌, ◌≤◌, ◌≡◌, ◌≢◌, ◌⊎◌, refl,
  sym, ap, ◌∙◌, List, [], ◌∷◌, ◌++◌, some, Bool, true, false, length, take, drop,
}
use easy_reactor.Base.Run.{ok, abort, Gives, gives}
use easy_reactor.Memory.{
  span-store_behind, Memory, store, span, span-store, span-append, drop-span, length-span,
}
use easy_reactor.Message.{CommuHead, head_bytes, read_head}
use easy_reactor.Message.Frames.{
  length-head_bytes, read_head-head_bytes, Frame, encode, encode-head_bytes, length-head,
}
use easy_reactor.Udp.{
  UdpSocket, Datagram, datagram, recv_interrupted, recv_again, recv_failed, buffer_size,
  server_refuses, client_refuses, udp_send,
}

-- The package `p` is one message, with the head `h`.
abbrev pub IsMessage : List ℕ → CommuHead → Type 0
IsMessage p h = (read_head p ≡ some h) × (length p ≡ 8 + h.length)

-- The package `p` is no message: too short for a head, or of another length than the head says.
abbrev pub IsOther : List ℕ → Type 0
IsOther p = (length p < 8) ⊎ ((h : CommuHead) × (read_head p ≡ some h) × (length p ≢ 8 + h.length))

-- The results of recvfrom bring these messages, up to the first that is -1 with EAGAIN or an error.
pub data Brings (known : ℕ → Bool) : List Datagram → List (ℕ × Frame) → Type 0 where
  ends : (rest : List Datagram) → Brings known (recv_again ∷ rest) []
  fails : (rest : List Datagram) → Brings known (recv_failed ∷ rest) []
  retries :
      {rest : List Datagram} {fs : List (ℕ × Frame)}
      → Brings known rest fs
      → Brings known (recv_interrupted ∷ rest) fs
  drops :
      (pkg : List ℕ) (src : ℕ) {rest : List Datagram} {fs : List (ℕ × Frame)}
      → IsOther (take buffer_size pkg)
      → Brings known rest fs
      → Brings known (datagram pkg src ∷ rest) fs
  brings :
      (pkg : List ℕ) (src : ℕ) (h : CommuHead) {rest : List Datagram} {fs : List (ℕ × Frame)}
      → IsMessage (take buffer_size pkg) h
      → known h.cmdid ≡ true
      → Brings known rest fs
      → Brings known
          (datagram pkg src ∷ rest)
          ((src, record { cmdid = h.cmdid; body = drop 8 (take buffer_size pkg) }) ∷ fs)

-- The two tests are the same.
pub client_refuses-server_refuses :
    (h : CommuHead) (n : ℕ) → client_refuses h n ≡ server_refuses h n
unfolding client_refuses server_refuses
client_refuses-server_refuses h n = ground arith

pub take_short : (n : ℕ) (xs : List ℕ) → length (take n xs) ≤ n
take_short zero xs = omega arith
take_short (suc n) [] = omega arith
take_short (suc n) (x ∷ xs) = omega (arith, take_short n xs)

take_long : (n : ℕ) (xs : List ℕ) → length xs ≤ n → take n xs ≡ xs
take_long zero [] le = refl
take_long (suc n) [] le = refl
take_long zero (x ∷ xs) le = absurd (omega arith)
take_long (suc n) (x ∷ xs) le = ap (◌∷◌ x) (take_long n xs (omega arith))

pub refuses_other :
    (p : List ℕ) (h : CommuHead) → length p ≢ 8 + h.length → server_refuses h (length p) ≡ true
unfolding server_refuses
refuses_other p h ne = ground arith

pub takes_message :
    (p : List ℕ) (h : CommuHead)
    → length p ≤ buffer_size
    → length p ≡ 8 + h.length
    → server_refuses h (length p) ≡ false
unfolding server_refuses
takes_message p h le e = ground arith

read_head-append : (xs ys : List ℕ) → length xs ≡ 8 → read_head (xs ++ ys) ≡ read_head xs
unfolding read_head
read_head-append (a ∷ b ∷ c ∷ d ∷ e ∷ f ∷ g ∷ h ∷ []) ys eight = refl
read_head-append (a ∷ b ∷ c ∷ d ∷ e ∷ f ∷ g ∷ h ∷ i ∷ xs) ys eight = absurd (omega arith)
read_head-append (a ∷ b ∷ c ∷ d ∷ e ∷ f ∷ g ∷ []) ys eight = absurd (omega arith)
read_head-append (a ∷ b ∷ c ∷ d ∷ e ∷ f ∷ []) ys eight = absurd (omega arith)
read_head-append (a ∷ b ∷ c ∷ d ∷ e ∷ []) ys eight = absurd (omega arith)
read_head-append (a ∷ b ∷ c ∷ d ∷ []) ys eight = absurd (omega arith)
read_head-append (a ∷ b ∷ c ∷ []) ys eight = absurd (omega arith)
read_head-append (a ∷ b ∷ []) ys eight = absurd (omega arith)
read_head-append (a ∷ []) ys eight = absurd (omega arith)
read_head-append [] ys eight = absurd (omega arith)

-- The head and the body of a package, as they lie in the buffer.
module _ (mem : Memory) (p : List ℕ) (long : 8 ≤ length p) where
  parts : p ≡ span (store mem 0 p) 0 8 ++ span (store mem 0 p) 8 (length p - 8)
  parts =
      let split : length p ≡ 8 + (length p - 8) = omega arith in
      sym (span-store mem 0 p)
      ∙ ap (span (store mem 0 p) 0) split
      ∙ span-append (store mem 0 p) 0 8 (length p - 8)

  pub body_part : drop 8 p ≡ span (store mem 0 p) 8 (length p - 8)
  body_part = ap (drop 8) (sym (span-store mem 0 p)) ∙ drop-span (store mem 0 p) 0 (length p) 8 long

  pub head_part : read_head (span (store mem 0 p) 0 8) ≡ read_head p
  head_part = sym (
      ap read_head parts
      ∙ read_head-append (span (store mem 0 p) 0 8) (span (store mem 0 p) 8 (length p - 8))
          (length-span (store mem 0 p) 0 8))

-- A head and what is stored behind it.
stored_behind :
    (mem : Memory) (xs ys : List ℕ)
    → length xs ≡ 8
    → span (store (store mem 0 xs) 8 ys) 0 (length ys + 8) ≡ xs ++ ys
stored_behind mem xs ys eight =
    let whole : length ys + 8 ≡ 8 + length ys = omega arith in
    let first : span (store (store mem 0 xs) 8 ys) 0 8 ≡ xs =
      span-store_behind (store mem 0 xs) 0 8 8 ys (omega arith)
      ∙ ap (span (store mem 0 xs) 0) (sym eight)
      ∙ span-store mem 0 xs in
    rw
      (
        whole,
        span-append (store (store mem 0 xs) 8 ys) 0 8 (length ys),
        first,
        span-store (store mem 0 xs) 8 ys,
      )
      refl

-- How send_data ends when the frame fits the buffer; `sendto` is what the call of that name gave.
pub record DatagramSent {U : Type 0} (sendto : Bool) (s : UdpSocket U) (f : Frame)
    (r : Bool × UdpSocket U) : Type 0 where
  pub result : r.0 ≡ sendto
  pub sent : r.1.sent ≡ (if sendto then (s.peer, encode f) ∷ s.sent else s.sent)
  pub peer : r.1.peer ≡ s.peer
  pub dispatcher : r.1.dispatcher ≡ s.dispatcher
  pub user : r.1.user ≡ s.user

-- What send_data of src/udp_server.cc and src/udp_client.cc does with a frame, by its length. Up to
-- 65520 bytes, the datagram is the encoded frame, to the peer, and the result is that of sendto. More
-- than 65528 bytes are refused and nothing changes. In between, the copy runs past the end of the
-- buffer: the length is tested without the head.
pub udp_send_correct :
    {U : Type 0} (sendto : Bool) (s : UdpSocket U) (f : Frame)
    → (length f.body ≤ 65520 → Gives (DatagramSent sendto s f) (udp_send sendto f.body f.cmdid s))
      × (65520 < length f.body → length f.body ≤ 65528 → udp_send sendto f.body f.cmdid s ≡ abort)
      × (65528 < length f.body → udp_send sendto f.body f.cmdid s ≡ ok (false, s))
unfolding udp_send
udp_send_correct sendto s f = (
  λ le.
      let kept : ltb 65528 (length f.body) ≡ false = ground arith in
      let room : leb (8 + length f.body) 65528 ≡ true = ground arith in
      let h : CommuHead = record { cmdid = f.cmdid; length = length f.body } in
      rw (kept, room)
        (gives (record {
          result = refl;
          sent =
              rw
                (
                  stored_behind s.wbuf (head_bytes h) f.body (length-head h),
                  sym (encode-head_bytes f).0,
                )
                refl;
          peer = refl;
          dispatcher = refl;
          user = refl;
        })),
  λ more le.
      let kept : ltb 65528 (length f.body) ≡ false = ground arith in
      let full : leb (8 + length f.body) 65528 ≡ false = ground arith in rw (kept, full) refl,
  λ more. let refused : ltb 65528 (length f.body) ≡ true = ground arith in rw refused refl,
)

-- A frame with a known 32-bit id and at most 65520 bytes arrives as it was sent: the datagram that
-- holds its encoding, from `src`, brings just this frame, in front of those that the rest brings.
pub encode-Brings :
    (known : ℕ → Bool) (f : Frame) (src : ℕ) (rest : List Datagram) (fs : List (ℕ × Frame))
    → f.cmdid < 2 ^ 32
    → known f.cmdid ≡ true
    → length f.body ≤ 65520
    → Brings known rest fs
    → Brings known (datagram (encode f) src ∷ rest) ((src, f) ∷ fs)
encode-Brings known f src rest fs id is_known le b =
    let h : CommuHead = record { cmdid = f.cmdid; length = length f.body } in
    let (split, size) = encode-head_bytes f in
    let uncut : take buffer_size (encode f) ≡ encode f =
      take_long buffer_size (encode f) (omega arith) in
    let at : read_head (take buffer_size (encode f)) ≡ some h =
      rw (uncut, split) (read_head-head_bytes h f.body id (omega arith)) in
    let behind : drop 8 (take buffer_size (encode f)) ≡ f.body =
      rw (uncut, split) ((length-head_bytes h f.body).1) in
    subst
      (λ body.
        Brings known (datagram (encode f) src ∷ rest)
          ((src, record { cmdid = f.cmdid; body = body }) ∷ fs))
      behind (Brings.brings (encode f) src h (at, ap length uncut ∙ size) is_known b)
