-- ===== src/Conn/Rounds.antt =====
-- The message loop of tcp_conn::handle_read, src/tcp_conn.cc, over a whole stream.
use mathlib.Core.List.{mem-cons_self, mem-cons_of_mem}
use easy_reactor.Base.{
  subst, length-drop, length-drop, ap, ltb_ge, leb_le, sym, ℕ, zero, suc, ◌+◌, ◌≤◌, ◌<◌, ◌≡◌, ◌≢◌,
  refl, ◌∙◌, List, [], ◌∷◌, none, some, true, arith, length, take, drop,
}
use easy_reactor.Base.Lists.Nth.{Each}
use easy_reactor.Base.Run.{Gives-abort, abort, abort, Gives, gives, Gives-weaken}
use easy_reactor.Buffer.{BufferPool, TcpBuffer, buf_data, buf_pop}
use easy_reactor.Buffer.Stream.{contents}
use easy_reactor.Message.{CommuHead, Call, exist, read_head}
use easy_reactor.Message.Frames.{head_length, Frame, Ending, waits, refuses, Parses, Refused}
use easy_reactor.Conn.{clean_conn, World, Handlers, with_ibuf, read_messages}
use easy_reactor.Conn.Live.{cb-null, IsLive, IsPolite, call_of}
use easy_reactor.Conn.Reading.{
  body_taken, with_ibuf-IsLive, stops, refusal, waiting, taking, length-contents, data-contents,
  pop_contents,
}

has_body : (n : ℕ) (xs : List ℕ) → take n xs ≢ [] → 0 < n
has_body zero xs h = absurd (h refl)
has_body (suc n) xs h = omega arith

-- What the message loop relies on. `Ready fs` says that the callbacks can take the messages `fs`: the
-- one of the first leaves the connection open, its input buffer and the dispatcher as they are, and
-- all ready for the others. `Shut` is what closing the connection leads to.
pub record Serves {U : Type 0} (h : Handlers U) (Ready : List Frame → World U → Type 0)
    (Shut : World U → Type 0) : Type 0 where
  pub message :
      (f : Frame) (fs : List Frame) (w : World U)
      → IsLive w
      → Ready (f ∷ fs) w
      → Gives
          (λ v. IsLive v × (v.conn.ibuf ≡ w.conn.ibuf) × (v.dispatcher ≡ w.dispatcher) × Ready fs v)
          (h.on_message (call_of w.dispatcher f) w)
  pub steady :
      (fs : List Frame) (w : World U) (c : TcpBuffer) (p : BufferPool)
      → p.total_mem ≡ w.pool.total_mem
      → Ready fs w
      → Ready fs (with_ibuf w c p)
  pub close :
      (w : World U)
      → IsLive w
      → Ready [] w
      → Gives (λ v. (v.conn.ibuf ≡ none) × Shut v) (clean_conn h w)

-- How the message loop leaves the connection, when the stream ended with `e`.
abbrev pub Served :
    {U : Type 0}
    → (List Frame → World U → Type 0)
    → (World U → Type 0)
    → World U
    → Ending
    → World U
    → Type 0
Served Ready Shut w (waits rest) v =
    IsLive v × (contents v.conn.ibuf ≡ rest) × (v.dispatcher ≡ w.dispatcher) × Ready [] v
Served Ready Shut w refuses v = (v.conn.ibuf ≡ none) × Shut v

Served-same :
    {U : Type 0} (Ready : List Frame → World U → Type 0) (Shut : World U → Type 0) (w v r : World U)
    (e : Ending)
    → v.dispatcher ≡ w.dispatcher
    → Served Ready Shut v e r
    → Served Ready Shut w e r
Served-same Ready Shut w v r (waits rest) disp (live, left, same, ready) =
    (live, left, same ∙ disp, ready)
Served-same Ready Shut w v r refuses disp end = end

module _ {U : Type 0} (h : Handlers U) (Ready : List Frame → World U → Type 0)
    (Shut : World U → Type 0) (serves : Serves h Ready Shut) where
  -- One round of the loop, given the rounds behind it.
  round :
      (k : ℕ) (w : World U) {xs : List ℕ} {fs : List Frame} {e : Ending}
      → IsLive w
      → contents w.conn.ibuf ≡ xs
      → Ready fs w
      → Parses (exist w.dispatcher) xs fs e
      → Each (λ f. f.body ≢ []) fs
      → ((v : World U) (gs : List Frame) (d : Ending)
          → length (contents v.conn.ibuf) < length (contents w.conn.ibuf)
          → IsLive v
          → Ready gs v
          → Parses (exist v.dispatcher) (contents v.conn.ibuf) gs d
          → Each (λ f. f.body ≢ []) gs
          → Gives (Served Ready Shut v d) (read_messages h k v))
      → Gives (Served Ready Shut w e) (read_messages h (suc k) w)
  round k w live same ready (Parses.short_head xs short) full rest =
      rw (stops h k w live (rw same short)) (gives (live, same, refl, ready))
  round k w live same ready (Parses.short_body xs hd at good part) full rest =
      let long : 8 ≤ length xs = head_length xs hd at in
      rw (waiting h k w hd (rw same long) (ap read_head same ∙ at) good (rw same part))
        (gives (live, same, refl, ready))
  round k w live same ready (Parses.bad_head xs hd at why) full rest =
      let long : 8 ≤ length xs = head_length xs hd at in
      rw
        (refusal h k w hd (rw same long) (ap read_head same ∙ at)
          (subst (λ ys. Refused (exist w.dispatcher) ys hd) (sym same) why))
        (serves.close w live ready)
  round k w live same ready (Parses.message xs hd {fs = gs} {e = d} at good whole known p) full
        rest =
      let f : Frame = body_taken hd (drop 8 xs) in
      taking h k w f hd {R = λ v. (v.dispatcher ≡ w.dispatcher) × Ready gs v} live
        (ap read_head same ∙ at) good (rw same whole) known
        (has_body hd.length (drop 8 xs) (full f mem-cons_self))
        (ap (λ ys. body_taken hd (drop 8 ys)) (sym same))
        (λ c q total live'.
          Gives-weaken
            (serves.message f gs (with_ibuf w c q) live' (serves.steady (f ∷ gs) w c q total ready))
            λ v (alive, kept, disp, after). (alive, kept, (disp, after)))
        (λ v c q total live' left (disp, ready').
          let left' : contents c ≡ drop hd.length (drop 8 xs) =
            left ∙ ap (λ ys. drop hd.length (drop 8 ys)) same in
          Gives-weaken
            (rest (with_ibuf v c q) gs d
              (omega (
                arith,
                ap length left',
                length-drop hd.length (drop 8 xs),
                length-drop 8 xs,
                ap length same,
              ))
              live' (serves.steady gs v c q total ready') (rw (left', disp) p)
              (λ g m. full g (mem-cons_of_mem f m)))
            λ r. Served-same Ready Shut w (with_ibuf v c q) r d disp)

  -- The loop gives the messages of the stream to callbacks that can take them, if none has an empty
  -- body, and leaves the bytes to wait behind, or closes the connection at the first that is malformed
  -- or unknown.
  pub read_messages_serves :
      (k : ℕ) (w : World U) (fs : List Frame) (e : Ending)
      → length (contents w.conn.ibuf) < k
      → IsLive w
      → Ready fs w
      → Parses (exist w.dispatcher) (contents w.conn.ibuf) fs e
      → Each (λ f. f.body ≢ []) fs
      → Gives (Served Ready Shut w e) (read_messages h k w)
  read_messages_serves zero w fs e lt live ready p full = absurd (omega arith)
  read_messages_serves (suc k) w fs e lt live ready p full =
      round k w live refl ready p full λ v gs d less live' ready' q full'.
        read_messages_serves k v gs d (omega arith) live' ready' q full'

module _ {U : Type 0} (h : Handlers U) (react : Call → U → U) (leave : U → U)
    (polite : IsPolite h react leave) where
  -- The buffer goes back to the pool with the head of a message without a body that ends it, so
  -- that the pop of that body meets NULL.
  pub read_messages_empty :
      (k : ℕ) (w : World U) (hd : CommuHead)
      → IsLive w
      → length (contents w.conn.ibuf) ≡ 8
      → read_head (contents w.conn.ibuf) ≡ some hd
      → hd.length ≡ 0
      → exist w.dispatcher hd.cmdid ≡ true
      → read_messages h (suc k) w ≡ abort
  unfolding read_messages buf_data buf_pop
  read_messages_empty k w hd live eight at none_left known =
      let xs = contents w.conn.ibuf in
      let (call, due) = cb-null w.dispatcher 0 hd.cmdid live.paired known in
      rw
        (
          length-contents w.conn.ibuf,
          leb_le 8 (length xs) (omega arith),
          data-contents w.conn.ibuf (omega arith),
          at,
          none_left,
          ltb_ge (length xs) (8 + 0) (omega arith),
          known,
        )
        (Gives-abort
          (pop_contents w.pool w.conn.ibuf 8 live.pool live.ibuf (omega arith) (omega arith))
          λ (i, p) s.
            let gone : i ≡ none = s.released.1 eight in
            rw (gone, buf_data, due)
              (Gives-abort
                (polite.message call (with_ibuf w none p)
                  (with_ibuf-IsLive w none p live tt s.valid))
                λ v (live', same, disp, user). rw (same, buf_pop)))
