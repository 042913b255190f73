-- ===== src/Conn/Chunks.antt =====
-- tcp_conn::handle_read of src/tcp_conn.cc called again and again, as the bytes of a stream come in.
use mathlib.Core.List.{append_assoc, append-nil, mem-append_left, mem-append_right}
use easy_reactor.Base.{
  Bool, arith, ap, sym, subst, ◌∙◌, ℕ, ◌+◌, ◌≤◌, ◌<◌, ◌≡◌, ◌≢◌, refl, List, [], ◌∷◌, ◌++◌, some,
  length,
}
use easy_reactor.Base.Lists.Nth.{Each}
use easy_reactor.Base.Run.{Gives-bind, Run, ok, ◌>>=◌, Gives, gives, Gives-weaken, Gives-value}
use easy_reactor.Buffer.{u8m, received, retry_read}
use easy_reactor.Buffer.Pool.{HasRoom}
use easy_reactor.Buffer.Stream.{contents, IsFront}
use easy_reactor.Message.{Call, MsgDispatcher, exist}
use easy_reactor.Message.Frames.{
  Frame, waits, Parses, short_head, short_body, message, IsSendable, encode_all, encode_all-Parses,
}
use easy_reactor.Message.Unique.{Parses-unique}
use easy_reactor.Message.Split.{left_of, Parses-split}
use easy_reactor.Conn.{World, Handlers, handle_read}
use easy_reactor.Conn.Live.{IsLive, IsPolite, call_of, deliver}
use easy_reactor.Conn.Handle.{handle_read_correct}

-- All bytes of the parts.
unfoldable pub joined : List (List ℕ) → List ℕ
joined [] = []
joined (xs ∷ parts) = xs ++ joined parts

-- What is left over has no complete message.
left_over :
    (known : ℕ → Bool) {xs rest : List ℕ} {fs : List Frame}
    → Parses known xs fs (waits rest)
    → Parses known rest [] (waits rest)
left_over known (short_head xs short) = short_head xs short
left_over known (short_body xs h at good short) = short_body xs h at good short
left_over known (message xs h at good whole mine p) = left_over known p

-- Less than a head and the longest body.
left_over_bound :
    (known : ℕ → Bool) {xs rest : List ℕ} {fs : List Frame}
    → Parses known xs fs (waits rest)
    → length rest < 65544
left_over_bound known (short_head xs short) = omega arith
left_over_bound known (short_body xs h at good short) = ground arith
left_over_bound known (message xs h at good whole mine p) = left_over_bound known p

module _ {U : Type 0} (h : Handlers U) where
  -- The calls of handle_read, each when FIONREAD announces one part and `read` brings it.
  pub read_parts : List (List ℕ) → World U → Run (World U)
  read_parts [] w = ok w
  read_parts (xs ∷ parts) w = do
    v ← handle_read h (some (length xs)) (received xs ∷ []) w
    read_parts parts v

  -- At each call something has come in, there is room in the pool for one more buffer, and no more than
  -- 8 MB are held.
  unfoldable pub HasRooms : List (List ℕ) → World U → Type 0
  HasRooms [] w = Unit {0}
  HasRooms (xs ∷ parts) w =
      (0 < length xs)
      × HasRoom w.pool
      × (length (contents w.conn.ibuf) + length xs ≤ u8m)
      × ((v : World U)
          → handle_read h (some (length xs)) (received xs ∷ []) w ≡ ok v
          → HasRooms parts v)

  -- How the connection is left, when the messages `fs` have come in and then `rest`.
  pub record AllReceived (react : Call → U → U) (w : World U) (fs : List Frame) (rest : List ℕ)
      (u : World U) : Type 0 where
    pub live : IsLive u
    pub left : contents u.conn.ibuf ≡ rest
    pub user : u.user ≡ deliver react w.dispatcher fs w.user

  -- The calls keep `Ready parts fs`: the parts and the messages that are still to come can be taken.
  module _ (Ready : List (List ℕ) → List Frame → World U → Type 0)
      (reads : (w : World U) (xs : List ℕ) (parts : List (List ℕ)) (first second : List Frame)
          (left : List ℕ)
        → IsLive w
        → IsFront w.conn.ibuf
        → Ready (xs ∷ parts) (first ++ second) w
        → length (contents w.conn.ibuf) < 65544
        → Parses (exist w.dispatcher) (contents w.conn.ibuf ++ xs) first (waits left)
        → Each (λ f. f.body ≢ []) first
        → Gives
            (λ v.
              (IsLive v
                × (contents v.conn.ibuf ≡ left)
                × (v.dispatcher ≡ w.dispatcher)
                × Ready parts second v)
              × IsFront v.conn.ibuf)
            (handle_read h (some (length xs)) (received xs ∷ []) w)) where
    pub read_parts_runs :
        (w : World U) (parts : List (List ℕ)) (fs : List Frame) (rest : List ℕ)
        → IsLive w
        → IsFront w.conn.ibuf
        → Parses (exist w.dispatcher) (contents w.conn.ibuf) [] (waits (contents w.conn.ibuf))
        → Ready parts fs w
        → Parses (exist w.dispatcher) (contents w.conn.ibuf ++ joined parts) fs (waits rest)
        → Each (λ f. f.body ≢ []) fs
        → Gives (λ u. IsLive u × (contents u.conn.ibuf ≡ rest) × Ready [] [] u) (read_parts parts w)
    unfolding read_parts joined left_of
    read_parts_runs w [] fs rest live front none_whole ready parses full =
        let whole =
          subst (λ ys. Parses (exist w.dispatcher) ys fs (waits rest))
            (append-nil (contents w.conn.ibuf)) parses in
        let (no_more, end) = Parses-unique (exist w.dispatcher) whole none_whole in
        gives (live, sym (ap left_of end), subst (λ gs. Ready [] gs w) no_more ready)
    read_parts_runs w (xs ∷ parts) fs rest live front none_whole ready parses full =
        let held = contents w.conn.ibuf in
        let (first, left, second, p, q, same) =
          Parses-split (exist w.dispatcher) (held ++ xs) (joined parts) fs rest (
            subst (λ ys. Parses (exist w.dispatcher) ys fs (waits rest))
              (sym (append_assoc held xs (joined parts))) parses) in
        let each = subst (Each (λ f. f.body ≢ [])) same full in
        Gives-bind
          (reads w xs parts first second left live front
            (subst (λ gs. Ready (xs ∷ parts) gs w) same ready)
            (left_over_bound (exist w.dispatcher) none_whole) p
            (λ f m. each f (mem-append_left second m)))
          λ v ((alive, at, disp, ready'), ahead).
            read_parts_runs v parts second rest alive ahead
              (rw (disp, at) (left_over (exist w.dispatcher) p)) ready' (rw (disp, at) q)
              (λ f m. each f (mem-append_right first m))

  module _ (react : Call → U → U) (leave : U → U) (polite : IsPolite h react leave) where
    -- Polite callbacks can take all messages, and there is room at each call.
    abbrev Taken : World U → List Frame → List (List ℕ) → List Frame → World U → Type 0
    Taken w all parts fs v =
        HasRooms parts v
        × (deliver react w.dispatcher fs v.user ≡ deliver react w.dispatcher all w.user)
        × (v.dispatcher ≡ w.dispatcher)

    deliver-append :
        (d : MsgDispatcher) (fs gs : List Frame) (u : U)
        → deliver react d (fs ++ gs) u ≡ deliver react d gs (deliver react d fs u)
    unfolding deliver
    deliver-append d [] gs u = refl
    deliver-append d (f ∷ fs) gs u = deliver-append d fs gs (react (call_of d f) u)

    polite_reads :
        (v0 : World U) (all : List Frame) (w : World U) (xs : List ℕ) (parts : List (List ℕ))
        (first second : List Frame) (left : List ℕ)
        → IsLive w
        → IsFront w.conn.ibuf
        → Taken v0 all (xs ∷ parts) (first ++ second) w
        → Parses (exist w.dispatcher) (contents w.conn.ibuf ++ xs) first (waits left)
        → Each (λ f. f.body ≢ []) first
        → Gives
            (λ v.
              (IsLive v
                × (contents v.conn.ibuf ≡ left)
                × (v.dispatcher ≡ w.dispatcher)
                × Taken v0 all parts second v)
              × IsFront v.conn.ibuf)
            (handle_read h (some (length xs)) (received xs ∷ []) w)
    unfolding HasRooms retry_read
    polite_reads v0 all w xs parts first second left live front
          ((some_bytes, room, fits, rooms), ahead, disp) p full =
        let (v, e, ((alive, at, same, user), at_front)) = Gives-value (
          handle_read_correct h react leave polite w (received xs ∷ []) xs first (waits left) live
            front room refl some_bytes fits p full) in
        rw e (
          gives (
            (
              alive,
              at,
              same,
              (
                rooms v e,
                ap (deliver react v0.dispatcher second)
                      (user ∙ ap (λ d. deliver react d first w.user) disp)
                    ∙ sym (deliver-append v0.dispatcher first second w.user)
                    ∙ ahead,
                same ∙ disp,
              ),
            ),
            at_front,
          ))

    -- However the bytes of a stream are cut into parts: when a peer sends messages with bodies of at
    -- least one byte that the connection takes, and then at most the start of a head, and the parts come
    -- in one after the other on an open connection that holds no input, with polite callbacks and with
    -- room in the pool at each call, then each call of handle_read ends, and behind the last one the
    -- callbacks have got exactly these messages, each once and in order, and the rest is held.
    pub read_parts_correct :
        (w : World U) (parts : List (List ℕ)) (fs : List Frame) (rest : List ℕ)
        → IsLive w
        → IsFront w.conn.ibuf
        → contents w.conn.ibuf ≡ []
        → HasRooms parts w
        → joined parts ≡ encode_all fs ++ rest
        → length rest < 8
        → Each (IsSendable (exist w.dispatcher)) fs
        → Each (λ f. f.body ≢ []) fs
        → Gives (AllReceived react w fs rest) (read_parts parts w)
    unfolding deliver HasRooms
    read_parts_correct w parts fs rest live front clear rooms same short sendable full =
        Gives-weaken
          (read_parts_runs (Taken w fs)
            (λ v xs rest' first second left live' front' taken short' p full'.
              polite_reads w fs v xs rest' first second left live' front' taken p full')
            w parts fs rest live front (rw clear (short_head [] (omega arith))) (rooms, refl, refl)
            (rw (clear, same) (encode_all-Parses (exist w.dispatcher) fs rest sendable short)) full)
          λ u (alive, left, (_, user, _)). record { live = alive; left = left; user = user }
