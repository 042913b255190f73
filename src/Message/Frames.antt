-- ===== src/Message/Frames.antt =====
-- The messages in a stream of bytes: what tcp_conn::handle_read of src/tcp_conn.cc is to find in it.
use mathlib.Core.List.{append_assoc}
use mathlib.Core.List.{mem-cons_self, mem-cons_of_mem}
use easy_reactor.Base.Lists.Nth.{Each}
use easy_reactor.Base.{
  sym, subst, ◌∙◌, ap, length-drop, Bool-cases, lt-cases, ℕ, zero, suc, ◌+◌, ◌/◌, ◌%◌, ◌^◌, ◌≤◌,
  ◌<◌, ◌≡◌, refl, ◌⊎◌, inl, inr, List, [], ◌∷◌, ◌++◌, some, Bool, true, false, arith, length,
  length-append, take, drop, take-append, drop-append,
}
use easy_reactor.Message.{CommuHead, msg_length_limit, is_malformed, head_bytes, read_head, int_of}

pub record Frame : Type 0 where
  pub cmdid : ℕ
  pub body : List ℕ

-- How a stream ends: with bytes to wait behind, or at a message that closes the connection.
pub data Ending : Type 0 where
  waits : List ℕ → Ending
  refuses : Ending

-- Why the head `h` in front of `xs` closes the connection.
abbrev pub Refused : (ℕ → Bool) → List ℕ → CommuHead → Type 0
Refused known xs h =
    (is_malformed h.length ≡ true)
    ⊎ ((is_malformed h.length ≡ false) × (8 + h.length ≤ length xs) × (known h.cmdid ≡ false))

-- The bytes `xs` are the messages `fs`, all with a known id, and then the ending.
pub data Parses (known : ℕ → Bool) : List ℕ → List Frame → Ending → Type 0 where
  short_head : (xs : List ℕ) → length xs < 8 → Parses known xs [] (waits xs)
  short_body :
      (xs : List ℕ) (h : CommuHead)
      → read_head xs ≡ some h
      → is_malformed h.length ≡ false
      → length xs < 8 + h.length
      → Parses known xs [] (waits xs)
  bad_head :
      (xs : List ℕ) (h : CommuHead)
      → read_head xs ≡ some h
      → Refused known xs h
      → Parses known xs [] refuses
  message :
      (xs : List ℕ) (h : CommuHead) {fs : List Frame} {e : Ending}
      → read_head xs ≡ some h
      → is_malformed h.length ≡ false
      → 8 + h.length ≤ length xs
      → known h.cmdid ≡ true
      → Parses known (drop h.length (drop 8 xs)) fs e
      → Parses known xs (record { cmdid = h.cmdid; body = take h.length (drop 8 xs) } ∷ fs) e

pub read_head-some : (xs : List ℕ) → 8 ≤ length xs → (h : CommuHead) × (read_head xs ≡ some h)
unfolding read_head
read_head-some (a ∷ b ∷ c ∷ d ∷ e ∷ f ∷ g ∷ h ∷ rest) lt = (_, refl)
read_head-some xs lt = absurd (omega arith)

pub head_length : (xs : List ℕ) (h : CommuHead) → read_head xs ≡ some h → 8 ≤ length xs
unfolding read_head
head_length [] h e = cc
head_length (a ∷ b ∷ c ∷ d ∷ e ∷ f ∷ g ∷ i ∷ rest) h at = omega arith
head_length xs h e = cc

-- Every stream has its messages.
pub Parses-total :
    (known : ℕ → Bool) (n : ℕ) (xs : List ℕ)
    → length xs < n
    → (fs : List Frame) × (e : Ending) × Parses known xs fs e
Parses-total known zero xs lt = absurd (omega arith)
Parses-total known (suc n) xs lt = elim (lt-cases (length xs) 8) [
  | inl short ↦ ([], waits xs, Parses.short_head xs short)
  | inr long ↦
      let (h, at) = read_head-some xs long in
      elim (Bool-cases (is_malformed h.length)) [
        | inl bad ↦ ([], refuses, Parses.bad_head xs h at (inl bad))
        | inr good ↦ elim (lt-cases (length xs) (8 + h.length)) [
          | inl part ↦ ([], waits xs, Parses.short_body xs h at good part)
          | inr whole ↦ elim (Bool-cases (known h.cmdid)) [
            | inr other ↦ ([], refuses, Parses.bad_head xs h at (inr (good, whole, other)))
            | inl mine ↦
                let (fs, e, rest) =
                  Parses-total known n (drop h.length (drop 8 xs))
                    (omega (arith, length-drop h.length (drop 8 xs), length-drop 8 xs)) in
                (_, e, Parses.message xs h at good whole mine rest)
          ]
        ]
      ]
]

-- The bytes that send_data puts on the wire.
unfoldable pub encode : Frame → List ℕ
encode f = head_bytes (record { cmdid = f.cmdid; length = length f.body }) ++ f.body

unfoldable pub encode_all : List Frame → List ℕ
encode_all [] = []
encode_all (f ∷ fs) = encode f ++ encode_all fs

int_of-int_bytes :
    (n : ℕ)
    → n < 2 ^ 32
    → int_of (n % 256) (n / 256 % 256) (n / 65536 % 256) (n / 16777216 % 256) ≡ n
int_of-int_bytes n h = omega arith

-- A head whose two fields fit 32 bits is read back from its bytes, whatever follows them.
pub read_head-head_bytes :
    (h : CommuHead) (rest : List ℕ)
    → h.cmdid < 2 ^ 32
    → h.length < 2 ^ 32
    → read_head (head_bytes h ++ rest) ≡ some h
unfolding read_head head_bytes
read_head-head_bytes h rest id len = rw (int_of-int_bytes h.cmdid id, int_of-int_bytes h.length len)

-- A message that the receiver takes.
pub record IsSendable (known : ℕ → Bool) (f : Frame) : Type 0 where
  pub id : f.cmdid < 2 ^ 32
  pub size : length f.body ≤ msg_length_limit
  pub known_id : known f.cmdid ≡ true

pub length-head_bytes :
    (h : CommuHead) (rest : List ℕ)
    → (length (head_bytes h ++ rest) ≡ 8 + length rest) × (drop 8 (head_bytes h ++ rest) ≡ rest)
unfolding head_bytes
length-head_bytes h rest = (omega arith, refl)

pub encode-head_bytes :
    (f : Frame)
    → (encode f ≡ head_bytes (record { cmdid = f.cmdid; length = length f.body }) ++ f.body)
      × (length (encode f) ≡ 8 + length f.body)
unfolding encode head_bytes
encode-head_bytes f = (refl, omega arith)

pub length-head : (h : CommuHead) → length (head_bytes h) ≡ 8
unfolding head_bytes
length-head h = refl

well_formed : (n : ℕ) → n ≤ msg_length_limit → is_malformed n ≡ false
well_formed n h = ground arith

Parses-message :
    (known : ℕ → Bool) (f : Frame) (xs rest : List ℕ) (fs : List Frame) (e : Ending)
    → IsSendable known f
    → read_head xs ≡ some (record { cmdid = f.cmdid; length = length f.body })
    → drop 8 xs ≡ f.body ++ rest
    → length xs ≡ 8 + length (f.body ++ rest)
    → Parses known rest fs e
    → Parses known xs (f ∷ fs) e
Parses-message known f xs rest fs e s at behind size p =
    let n = length f.body in
    let body : take n (drop 8 xs) ≡ f.body = ap (take n) behind ∙ take-append f.body rest in
    let left : drop n (drop 8 xs) ≡ rest = ap (drop n) behind ∙ drop-append f.body rest in
    let fits : 8 + n ≤ length xs = omega (arith, length-append f.body rest) in
    subst (λ b. Parses known xs (record { cmdid = f.cmdid; body = b } ∷ fs) e) body
      (Parses.message xs (record { cmdid = f.cmdid; length = n }) at (well_formed n s.size) fits
        s.known_id (subst (λ ys. Parses known ys fs e) (sym left) p))

-- One encoded message in front of a stream is its first message.
encode-Parses :
    (known : ℕ → Bool) (f : Frame) (rest : List ℕ) (fs : List Frame) (e : Ending)
    → IsSendable known f
    → Parses known rest fs e
    → Parses known (encode f ++ rest) (f ∷ fs) e
unfolding encode
encode-Parses known f rest fs e s p =
    let h : CommuHead = record { cmdid = f.cmdid; length = length f.body } in
    let (size, behind) = length-head_bytes h (f.body ++ rest) in
    rw (append_assoc (head_bytes h) f.body rest) (
      Parses-message known f (head_bytes h ++ (f.body ++ rest)) rest fs e s
        (read_head-head_bytes h (f.body ++ rest) s.id (omega (arith, s.size))) behind size p)

-- For messages with a known 32-bit id and a body of at most the limit, the stream of their bytes, with
-- at most a part of a head behind, is exactly those messages in that order.
pub encode_all-Parses :
    (known : ℕ → Bool) (fs : List Frame) (part : List ℕ)
    → Each (IsSendable known) fs
    → length part < 8
    → Parses known (encode_all fs ++ part) fs (waits part)
unfolding encode_all
encode_all-Parses known [] part s short = Parses.short_head part short
encode_all-Parses known (f ∷ fs) part s short = rw (append_assoc (encode f) (encode_all fs) part) (
    encode-Parses known f (encode_all fs ++ part) fs (waits part) (s f mem-cons_self)
      (encode_all-Parses known fs part (λ g m. s g (mem-cons_of_mem f m)) short))
