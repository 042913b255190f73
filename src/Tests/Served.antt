-- ===== src/Tests/Served.antt =====
-- A greeting that a client sends and a server reads in two parts.
use mathlib.Core.HLevel.{¬_prop}
use native.Mathlib.Bridge.{le_prop}
use native.Mathlib.Nat.{ℕ_set}
use easy_reactor.Base.{
  ℕ, suc, ◌≡◌, ◌≢◌, refl, List, [], ◌∷◌, Bool, true, some, none, arith, subst, take, drop,
}
use easy_reactor.Base.Lists.Nth.{Each-cons, Each-nil}
use easy_reactor.Base.Run.{Gives, gives, Gives-ok}
use easy_reactor.Memory.{span}
use easy_reactor.Buffer.{
  received, retry_read, size_class, read_data, make_room, alloc, take_buffer, new_buffer,
  buffer_append, buf_length, buf_adjust, buffer_adjust,
}
use easy_reactor.Buffer.Pool.{IsWhole}
use easy_reactor.Message.{exist, head_bytes}
use easy_reactor.Message.Frames.{Frame, encode, encode_all}
use easy_reactor.Client.{TcpClient}
use easy_reactor.Client.Served.{send_and_read, send_and_read_correct}
use easy_reactor.Conn.{World, handle_read, read_messages}
use easy_reactor.Conn.Chunks.{joined, HasRooms, AllReceived}
use easy_reactor.Example.Setups.{new_meter}
use easy_reactor.Example.Clients.{Meter, TestQps, chat_callbacks}
use easy_reactor.Tests.Fixtures.{
  small_buffer, quiet_loop, one_message, open_conn, open_conn-IsLive, counting, counting-IsPolite,
}

abbrev no_clock : ℕ → ℕ
no_clock n = n

abbrev no_words : TestQps → List ℕ
no_words q = []

abbrev idle_client : TcpClient Meter
idle_client = record {
  self = 78;
  net_ok = true;
  ibuf = small_buffer 0;
  obuf = small_buffer 0;
  sockfd = some 9;
  loop = quiet_loop;
  dispatcher = one_message;
  closed = [];
  user = new_meter;
}

abbrev hello : Frame
hello = record { cmdid = 1; body = 104 ∷ 105 ∷ [] }

-- Three bytes, and then the rest.
abbrev in_two : List ℕ → List (List ℕ)
in_two ys = take 3 ys ∷ drop 3 ys ∷ []

idle-IsWhole : IsWhole (small_buffer 0)
unfolding size_class
idle-IsWhole = record { class = refl; inside = ground arith }

abbrev hello_rest : List ℕ
hello_rest = 0 ∷ 2 ∷ 0 ∷ 0 ∷ 0 ∷ 104 ∷ 105 ∷ []

behind_three :
    Gives
      (HasRooms counting (hello_rest ∷ []))
      (handle_read counting (some 3) (received (1 ∷ 0 ∷ 0 ∷ []) ∷ []) (open_conn none))
unfolding HasRooms handle_read read_data make_room alloc size_class take_buffer new_buffer
    retry_read buffer_append read_messages buf_length buf_adjust buffer_adjust span
behind_three = gives (omega arith, omega arith, omega arith, λ v e. tt)

in_two-HasRooms : HasRooms counting (in_two (encode_all (hello ∷ []))) (open_conn none)
unfolding HasRooms encode_all encode head_bytes
in_two-HasRooms = (
  omega arith,
  omega arith,
  omega arith,
  λ v e. Gives-ok (subst (Gives (HasRooms counting (hello_rest ∷ []))) e behind_three),
)

send_and_read_correct_example :
    Gives
      (λ ((all, u) : Bool × World ℕ).
        (all ≡ true) × AllReceived counting (λ c u. suc u) (open_conn none) (hello ∷ []) [] u)
      (send_and_read
        (chat_callbacks no_clock no_words)
        counting
        in_two
        (hello ∷ [])
        idle_client
        (open_conn none))
unfolding joined encode_all encode head_bytes exist
send_and_read_correct_example =
    send_and_read_correct (chat_callbacks no_clock no_words) counting in_two (λ c u. suc u) (λ u. u)
      counting-IsPolite idle_client 9 (open_conn none) (hello ∷ [])
      (record { whole = idle-IsWhole; front = refl; at = refl }) refl refl (omega arith)
      open_conn-IsLive tt refl refl in_two-HasRooms
      (Each-cons _ (λ f. hlevel (le_prop, ℕ_set)) hello []
        (record { id = omega arith; size = omega arith; known_id = refl }) (Each-nil _))
      (Each-cons (λ f. f.body ≢ []) (λ f. ¬_prop) hello [] (λ e. cc) (Each-nil _))
