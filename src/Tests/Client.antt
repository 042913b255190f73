-- ===== src/Tests/Client.antt =====
-- A client that is connected: a message sent behind five bytes, and a message held back.
use easy_reactor.Base.{◌++◌, arith, suc, ℕ, ◌≡◌, refl, List, [], ◌∷◌, some, none, true}
use easy_reactor.Base.Run.{Gives, ok}
use easy_reactor.Memory.{span}
use easy_reactor.Buffer.{received, size_class}
use easy_reactor.Buffer.Pool.{IsWhole}
use easy_reactor.Buffer.Content.{content}
use easy_reactor.Message.{read_head}
use easy_reactor.Client.{client_retry, TcpClient, ClientCallbacks, client_read, in_progress}
use easy_reactor.Client.Messages.{client_read_holds_back}
use easy_reactor.Tests.Fixtures.{small_buffer, one_message, quiet_loop}

abbrev joined : TcpClient ℕ
joined = record {
  self = 78;
  net_ok = true;
  ibuf = small_buffer 0;
  obuf = small_buffer 5;
  sockfd = some 9;
  loop = quiet_loop;
  dispatcher = one_message;
  closed = [];
  user = 0;
}

abbrev silent : ClientCallbacks ℕ
silent = record {
  on_connection = λ c. ok c;
  on_close = λ c. ok c;
  on_message = λ m c. ok (record c { user = suc c.user });
}

empty_buffer-IsWhole : IsWhole (small_buffer 0)
unfolding size_class
empty_buffer-IsWhole = record { class = refl; inside = ground arith }

abbrev two_messages : List ℕ
two_messages = 1 ∷ 0 ∷ 0 ∷ 0 ∷ 1 ∷ 0 ∷ 0 ∷ 0 ∷ 104 ∷ 1 ∷ 0 ∷ 0 ∷ 0 ∷ 1 ∷ 0 ∷ 0 ∷ 0 ∷ 105 ∷ []

client_read_holds_back_example :
    Gives
      (λ r.
        (r.0 ≡ true)
        × (r.1.user ≡ 0)
        × (content r.1.ibuf ≡ content (small_buffer 0) ++ two_messages))
      (client_read silent (some 18) (received two_messages ∷ []) none in_progress joined)
unfolding client_retry read_head span
client_read_holds_back_example =
    client_read_holds_back silent joined (received two_messages ∷ []) two_messages none in_progress
      (record { cmdid = 1; length = 1 }) refl empty_buffer-IsWhole refl (ground arith) refl
      (ground arith) refl (ground arith)
