-- ===== src/Tests/Life.antt =====
-- A client: the next connection after one is lost, pending bytes written, a message that comes in, and a
-- life from the constructor on.
use easy_reactor.Base.{false, arith, ℕ, ◌+◌, ◌≡◌, refl, List, [], ◌∷◌, some, none, true}
use easy_reactor.Base.Run.{Gives}
use easy_reactor.Buffer.{received, sent, write_again, retry_write, size_class, new_buffer}
use easy_reactor.Buffer.Pool.{IsWhole}
use easy_reactor.Message.{exist, head_bytes, new_dispatcher}
use easy_reactor.Message.Frames.{Frame, encode}
use easy_reactor.Loop.{only_out, del_ioev, add_ioev, with_callback}
use easy_reactor.Timer.Schedule.{new_queue}
use easy_reactor.Conn.Flushing.{Flushes, blocked}
use easy_reactor.Client.{
  client_retry, client_send, connect_on, do_connect, TcpClient, clean_client, client_write,
  client_read, in_progress, new_client, connection_cb_ptr,
}
use easy_reactor.Client.Closing.{Begun, connecting_event, clean_client_correct}
use easy_reactor.Client.Flushing.{ClientFlushed, client_write_correct}
use easy_reactor.Client.Receiving.{Delivered, client_read_delivers}
use easy_reactor.Client.Life.{sends, built, serve, IsAlive}
use easy_reactor.Client.Life.Runs.{Reaches, client_lives}
use easy_reactor.Base.{List}
use easy_reactor.Example.Setups.{new_meter}
use easy_reactor.Message.Dispatch.{Registration, register, first_for, register_correct}
use easy_reactor.Example.Clients.{Meter, TestQps, chat_callbacks}
use easy_reactor.Example.Clients.Counting.{chat-Behaves}
use easy_reactor.Tests.Fixtures.{
  small_buffer, small_buffer-IsWhole, one_message, one_message-IsPaired, quiet_loop,
}

abbrev clock : ℕ → ℕ
clock n = n + 5

abbrev no_text : TestQps → List ℕ
no_text q = []

abbrev chatting : TcpClient Meter
chatting = record {
  self = 78;
  net_ok = true;
  ibuf = small_buffer 0;
  obuf = small_buffer 5;
  sockfd = some 9;
  loop = quiet_loop;
  dispatcher = one_message;
  closed = [];
  user = new_meter;
}

empty-IsWhole : IsWhole (small_buffer 0)
unfolding size_class
empty-IsWhole = record { class = refl; inside = ground arith }

clean_client_correct_example :
    Gives
      (Begun chatting (9 ∷ 9 ∷ []) 10)
      (clean_client (chat_callbacks clock no_text) (some 10) in_progress chatting)
unfolding del_ioev
clean_client_correct_example =
    clean_client_correct (chat_callbacks clock no_text) (chat-Behaves clock no_text) chatting 9 10
      refl refl

client_write_correct_example :
    Gives
      (ClientFlushed
        (chat_callbacks clock no_text)
        (chat-Behaves clock no_text)
        chatting
        9
        10
        (3 + 0)
        blocked)
      (client_write
        (chat_callbacks clock no_text)
        (sent 3 ∷ write_again ∷ [])
        (some 10)
        in_progress
        chatting)
unfolding del_ioev retry_write
client_write_correct_example =
    client_write_correct (chat_callbacks clock no_text) (chat-Behaves clock no_text) chatting 9 10
      (sent 3 ∷ write_again ∷ []) (3 + 0) blocked refl refl small_buffer-IsWhole refl (ground arith)
      (Flushes.flush_wrote 5 2 (sent 3 ∷ write_again ∷ []) (write_again ∷ []) (ground arith) refl
        (Flushes.flush_blocked 2 (write_again ∷ []) [] (ground arith) refl))

abbrev greeting : Frame
greeting = record { cmdid = 1; body = 104 ∷ 105 ∷ [] }

client_read_delivers_example :
    Gives
      (λ r. Delivered (chat_callbacks clock no_text) chatting greeting r × (r.1.ibuf.head ≡ 0))
      (client_read
        (chat_callbacks clock no_text)
        (some 10)
        (received (encode greeting) ∷ [])
        none
        in_progress
        chatting)
unfolding encode client_retry exist head_bytes
client_read_delivers_example =
    client_read_delivers (chat_callbacks clock no_text) (chat-Behaves clock no_text) chatting 9
      greeting (received (encode greeting) ∷ []) none in_progress refl one_message-IsPaired
      (record { id = omega arith; size = omega arith; known_id = refl })
      (record { whole = small_buffer-IsWhole; front = refl; at = refl }) empty-IsWhole refl refl
      (omega arith) refl

-- The client that the constructor makes, on descriptor 9.
abbrev new_chat : TcpClient Meter
new_chat = record {
  self = 78;
  net_ok = false;
  ibuf = new_buffer (λ i. 0) 4194304;
  obuf = new_buffer (λ i. 0) 4194304;
  sockfd = some 9;
  loop = add_ioev quiet_loop 9 connection_cb_ptr only_out 78;
  dispatcher = new_dispatcher;
  closed = [];
  user = new_meter;
}

-- The user sends before there is a connection; then it is built.
client_lives_example :
    IsAlive new_chat × Gives IsAlive (serve (chat_callbacks clock no_text) built new_chat)
unfolding new_client do_connect connect_on client_send serve add_ioev with_callback
client_lives_example =
    client_lives (chat_callbacks clock no_text) (chat-Behaves clock no_text) (λ i. 0) 78 9
      quiet_loop new_meter new_chat new_chat built refl (new_queue 4) refl
      (Reaches.steps new_chat new_chat new_chat (sends greeting) tt refl
        (Reaches.stays new_chat new_chat refl))
      (record { fd = 9; ev = connecting_event 78; at = refl; found = refl; fits = (refl, refl) })

-- Id 1 is registered twice.
abbrev two_calls : List Registration
two_calls =
    record { cmdid = 1; msg_cb = 40; usr_data = 50 }
    ∷ record { cmdid = 1; msg_cb = 41; usr_data = 51 }
    ∷ []

register_correct_example :
    ((register two_calls new_dispatcher).dispatcher 1 ≡ some 40)
    × ((register two_calls new_dispatcher).args 1 ≡ some 50)
unfolding first_for
register_correct_example = register_correct two_calls 1
