-- ===== src/Tests/Echo.antt =====
-- The TCP echo server: a message of two bytes that comes in two parts, with two bytes of the next.
use native.Mathlib.Bridge.{le_prop}
use easy_reactor.Base.{arith, ℕ, refl, List, [], ◌∷◌, none}
use easy_reactor.Base.Run.{Gives}
use easy_reactor.Base.Lists.Nth.{Each, Each-cons, Each-nil}
use easy_reactor.Message.{exist, head_bytes}
use easy_reactor.Message.Frames.{encode, encode_all}
use easy_reactor.Conn.Chunks.{joined, read_parts}
use easy_reactor.Example.TcpEcho.{echo_handlers, IsPart, IsPlain}
use easy_reactor.Example.TcpEcho.Serving.{Echoed, tcp_echo_correct}
use easy_reactor.Tests.Fixtures.{open_conn, open_conn-IsLive, Echo, wire_codec}

abbrev first_part : List ℕ
first_part = 1 ∷ 0 ∷ 0 ∷ []

abbrev second_part : List ℕ
second_part = 0 ∷ 6 ∷ 0 ∷ 0 ∷ 0 ∷ 10 ∷ 2 ∷ 104 ∷ 105 ∷ 16 ∷ 7 ∷ 1 ∷ 0 ∷ []

abbrev hello : Echo
hello = (104 ∷ 105 ∷ [], 7)

parts-small : Each IsPart (first_part ∷ second_part ∷ [])
parts-small =
    Each-cons IsPart (λ x. hlevel le_prop) first_part (second_part ∷ []) (omega arith, omega arith)
      (Each-cons IsPart (λ x. hlevel le_prop) second_part [] (omega arith, omega arith)
        (Each-nil IsPart))

tcp_echo_correct_example : Gives (Echoed wire_codec (λ i. 0) 9 (hello ∷ []) (1 ∷ 0 ∷ [])) (
    read_parts (echo_handlers wire_codec (λ i. 0)) (first_part ∷ second_part ∷ []) (open_conn none))
unfolding joined encode_all encode head_bytes exist
tcp_echo_correct_example =
    tcp_echo_correct wire_codec (λ i. 0) (open_conn none) 9 (first_part ∷ second_part ∷ [])
      (hello ∷ []) (1 ∷ 0 ∷ []) open_conn-IsLive refl refl refl refl (omega arith) parts-small
      (Each-cons (IsPlain wire_codec) (λ x. hlevel le_prop) hello [] (omega arith, omega arith)
        (Each-nil (IsPlain wire_codec)))
      (omega arith) refl (omega arith)
