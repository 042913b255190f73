-- ===== src/Tests/Connections.antt =====
-- A connection: a read that brings one message and a part of the next head, a failed read, a message
-- without a body, a message sent, and pending bytes written.
use easy_reactor.Conn.Chunks.{joined, read_parts, HasRooms, AllReceived, read_parts_correct}
use easy_reactor.Message.Frames.{encode, encode_all}
use easy_reactor.Message.{head_bytes, exist}
use easy_reactor.Memory.{span}
use easy_reactor.Base.Run.{gives, Gives-ok}
use easy_reactor.Base.{subst}
use native.Mathlib.Bridge.{le_prop}
use native.Mathlib.Nat.{ℕ_set}
use easy_reactor.Buffer.{
  read_data, make_room, alloc, size_class, take_buffer, new_buffer, buffer_append, buf_length,
  buf_adjust, buffer_adjust,
}
use easy_reactor.Conn.{read_messages}
use easy_reactor.Base.{◌+◌, ◌≢◌, suc, arith, ℕ, ◌≡◌, refl, List, [], ◌∷◌, some, none}
use easy_reactor.Base.Lists.Nth.{Each-cons, Each-nil}
use easy_reactor.Base.Run.{Gives, abort}
use mathlib.Core.HLevel.{¬_prop}
use easy_reactor.Memory.{span}
use easy_reactor.Buffer.{
  received, read_interrupted, read_failed, sent, write_again, retry_read, retry_write,
}
use easy_reactor.Message.{read_head, exist}
use easy_reactor.Message.Frames.{Frame, Parses, waits}
use easy_reactor.Conn.{handle_read, handle_write, send_data, clean_conn}
use easy_reactor.Conn.Live.{Closed, Returned, clean_conn_returns}
use easy_reactor.Conn.Handle.{
  ReadClosed, HandleEnd, handle_read_correct, handle_read_closes, handle_read_empty_body,
}
use easy_reactor.Conn.Sending.{SendEnd, send_data_correct}
use easy_reactor.Conn.Flushing.{FlushEnd, Flushes, blocked, handle_write_correct}
use easy_reactor.Tests.Fixtures.{
  open_conn, counting, counting-IsPolite, open_conn-IsLive, pending_conn-IsLive, small_buffer,
}

abbrev greeting : Frame
greeting = record { cmdid = 1; body = 104 ∷ 105 ∷ [] }

abbrev greeting_bytes : List ℕ
greeting_bytes = 1 ∷ 0 ∷ 0 ∷ 0 ∷ 2 ∷ 0 ∷ 0 ∷ 0 ∷ 104 ∷ 105 ∷ 1 ∷ 0 ∷ []

greeting-Parses :
    Parses (exist (open_conn none).dispatcher) greeting_bytes (greeting ∷ []) (waits (1 ∷ 0 ∷ []))
unfolding read_head exist
greeting-Parses =
    Parses.message greeting_bytes (record { cmdid = 1; length = 2 }) refl refl (ground arith) refl
      (Parses.short_head (1 ∷ 0 ∷ []) (ground arith))

handle_read_correct_example :
    Gives
      (HandleEnd (λ c u. suc u) (λ u. u) (open_conn none) (greeting ∷ []) (waits (1 ∷ 0 ∷ [])))
      (handle_read counting
        (some 12)
        (read_interrupted ∷ received greeting_bytes ∷ [])
        (open_conn none))
unfolding retry_read
handle_read_correct_example =
    handle_read_correct counting (λ c u. suc u) (λ u. u) counting-IsPolite (open_conn none)
      (read_interrupted ∷ received greeting_bytes ∷ []) greeting_bytes (greeting ∷ [])
      (waits (1 ∷ 0 ∷ [])) open_conn-IsLive tt (ground arith) refl (ground arith) (ground arith)
      greeting-Parses
      (Each-cons (λ f. f.body ≢ []) (λ f. ¬_prop) greeting [] (λ e. cc) (Each-nil _))

handle_read_closes_example :
    Gives
      (ReadClosed counting
        (λ c u. suc u)
        (λ u. u)
        counting-IsPolite
        (open_conn none)
        12
        (read_interrupted ∷ read_failed ∷ []))
      (handle_read counting (some 12) (read_interrupted ∷ read_failed ∷ []) (open_conn none))
unfolding retry_read
handle_read_closes_example =
    handle_read_closes counting (λ c u. suc u) (λ u. u) counting-IsPolite (open_conn none) 12
      (read_interrupted ∷ read_failed ∷ []) none open_conn-IsLive tt (ground arith) refl refl

handle_read_empty_body_example :
    handle_read counting
      (some 8)
      (received (1 ∷ 0 ∷ 0 ∷ 0 ∷ 0 ∷ 0 ∷ 0 ∷ 0 ∷ []) ∷ [])
      (open_conn none)
    ≡ abort
unfolding retry_read read_head exist
handle_read_empty_body_example =
    handle_read_empty_body counting (λ c u. suc u) (λ u. u) counting-IsPolite (open_conn none)
      (received (1 ∷ 0 ∷ 0 ∷ 0 ∷ 0 ∷ 0 ∷ 0 ∷ 0 ∷ []) ∷ []) (1 ∷ 0 ∷ 0 ∷ 0 ∷ 0 ∷ 0 ∷ 0 ∷ 0 ∷ [])
      (record { cmdid = 1; length = 0 }) open_conn-IsLive tt (ground arith) refl refl refl refl refl
      refl

clean_conn_returns_example :
    Gives
      (λ v.
        Returned counting (open_conn (some (small_buffer 5))) v
        × Closed (λ u. u) (open_conn (some (small_buffer 5))) v)
      (clean_conn counting (open_conn (some (small_buffer 5))))
clean_conn_returns_example =
    clean_conn_returns counting (λ u. u) counting-IsPolite.close (open_conn (some (small_buffer 5)))
      pending_conn-IsLive

send_data_correct_example :
    Gives
      (SendEnd (open_conn none) greeting)
      (send_data counting (104 ∷ 105 ∷ []) 1 (open_conn none))
send_data_correct_example =
    send_data_correct counting (open_conn none) greeting open_conn-IsLive tt (ground arith)

handle_write_correct_example :
    Gives
      (FlushEnd (λ u. u) (open_conn (some (small_buffer 5))) (3 + 0) blocked)
      (handle_write counting (sent 3 ∷ write_again ∷ []) (open_conn (some (small_buffer 5))))
unfolding retry_write span
handle_write_correct_example =
    handle_write_correct counting (λ u. u) counting-IsPolite.close
      (open_conn (some (small_buffer 5))) (sent 3 ∷ write_again ∷ []) (3 + 0) blocked
      pending_conn-IsLive refl
      (Flushes.flush_wrote 5 2 (sent 3 ∷ write_again ∷ []) (write_again ∷ []) (ground arith) refl
        (Flushes.flush_blocked 2 (write_again ∷ []) [] (ground arith) refl))

abbrev second_part : List ℕ
second_part = 0 ∷ 2 ∷ 0 ∷ 0 ∷ 0 ∷ 104 ∷ 105 ∷ 1 ∷ 0 ∷ []

-- The first bytes of a head, and then the rest of the message with two bytes of the next.
abbrev two_parts : List (List ℕ)
two_parts = (1 ∷ 0 ∷ 0 ∷ []) ∷ second_part ∷ []

behind_first :
    Gives
      (HasRooms counting (second_part ∷ []))
      (handle_read counting (some 3) (received (1 ∷ 0 ∷ 0 ∷ []) ∷ []) (open_conn none))
unfolding HasRooms handle_read read_data make_room alloc size_class take_buffer new_buffer
    retry_read buffer_append read_messages buf_length buf_adjust buffer_adjust span
behind_first = gives (omega arith, omega arith, omega arith, λ v e. tt)

two_parts-HasRooms : HasRooms counting two_parts (open_conn none)
unfolding HasRooms
two_parts-HasRooms = (
  omega arith,
  omega arith,
  omega arith,
  λ v e. Gives-ok (subst (Gives (HasRooms counting (second_part ∷ []))) e behind_first),
)

read_parts_correct_example :
    Gives
      (AllReceived counting (λ c u. suc u) (open_conn none) (greeting ∷ []) (1 ∷ 0 ∷ []))
      (read_parts counting two_parts (open_conn none))
unfolding joined encode_all encode head_bytes exist
read_parts_correct_example =
    read_parts_correct counting (λ c u. suc u) (λ u. u) counting-IsPolite (open_conn none) two_parts
      (greeting ∷ []) (1 ∷ 0 ∷ []) open_conn-IsLive tt refl two_parts-HasRooms refl (omega arith)
      (Each-cons _ (λ f. hlevel (le_prop, ℕ_set)) greeting []
        (record { id = omega arith; size = omega arith; known_id = refl }) (Each-nil _))
      (Each-cons (λ f. f.body ≢ []) (λ f. ¬_prop) greeting [] (λ e. cc) (Each-nil _))
