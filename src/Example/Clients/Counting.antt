-- ===== src/Example/Clients/Counting.antt =====
-- What the clients of client.cc and example/tcpEchoServer/client.cc do with the library, and what they
-- count.
use easy_reactor.Base.{
  ℕ, suc, ◌+◌, ◌≡◌, refl, List, [], ◌∷◌, Bool, true, false, arith, Bool-cases, ltb, inl, inr,
}
use easy_reactor.Base.Run.{gives}
use easy_reactor.Client.Talks.{Behaves, done, sends_Talks}
use easy_reactor.Example.Clients.{
  Meter, TestQps, EchoCoder, tick, chat_buz, chat_connect_done, chat_callbacks, mute, next_of,
  echo_client_buz, echo_connect_done, echo_client_callbacks, first_request, i_miss_you,
}

-- The callbacks of client.cc only send and count.
pub chat-Behaves : (time : ℕ → ℕ) (text : TestQps → List ℕ) → Behaves (chat_callbacks time text)
unfolding chat_buz chat_connect_done
chat-Behaves time text = record {
  on_connection =
      λ c fd on can. sends_Talks _ mute c fd (record { cmdid = 1; body = i_miss_you }) c.user can;
  on_close = λ c off. gives (done c c c.user refl);
  on_message = λ f c fd on can.
      let m = tick time false true c.user in
      sends_Talks _ mute c fd (record { cmdid = f.cmdid; body = text m.qps }) m can;
}

-- So do those of example/tcpEchoServer/client.cc.
pub echo_client-Behaves :
    (coder : EchoCoder) (time : ℕ → ℕ) → Behaves (echo_client_callbacks coder time)
unfolding echo_client_buz echo_connect_done
echo_client-Behaves coder time = record {
  on_connection = λ c fd on can.
      sends_Talks _ mute c fd (record { cmdid = 1; body = coder.serialize_to_string first_request })
        c.user can;
  on_close = λ c off. gives (done c c c.user refl);
  on_message = λ f c fd on can.
      let next = next_of coder time f.body c.user in
      sends_Talks _ mute c fd (record { cmdid = f.cmdid; body = next.0 }) next.1 can;
}

-- The counter behind these messages, of which some count.
pub ticks : (ℕ → ℕ) → Bool → List Bool → Meter → Meter
ticks time resets [] m = m
ticks time resets (b ∷ bs) m = ticks time resets bs (tick time resets b m)

abbrev total : List ℕ → ℕ
total [] = 0
total (n ∷ ns) = n + total ns

abbrev how_many : List Bool → ℕ
how_many [] = 0
how_many (true ∷ bs) = suc (how_many bs)
how_many (false ∷ bs) = how_many bs

-- What has been counted, in the numbers that were printed and since.
abbrev pub counted : Meter → ℕ
counted m = total m.printed + m.qps.succ

tick_counts :
    (time : ℕ → ℕ) (b : Bool) (m : Meter)
    → counted (tick time true b m) ≡ counted m + how_many (b ∷ [])
unfolding tick
tick_counts time true m = elim (Bool-cases (ltb m.qps.lst_ts (time m.ticks))) [
  | inl e ↦ rw e (omega arith)
  | inr e ↦ rw e (omega arith)
]
tick_counts time false m = elim (Bool-cases (ltb m.qps.lst_ts (time m.ticks))) [
  | inl e ↦ rw e (omega arith)
  | inr e ↦ rw e (omega arith)
]

-- The counter of the echo clients loses no message: whatever the clock gives, the numbers that it has
-- printed and what it has counted since come to as many as the messages that count.
pub ticks_count :
    (time : ℕ → ℕ) (bs : List Bool) (m : Meter)
    → counted (ticks time true bs m) ≡ counted m + how_many bs
unfolding ticks
ticks_count time [] m = omega arith
ticks_count time (true ∷ bs) m =
    omega (arith, ticks_count time bs (tick time true true m), tick_counts time true m)
ticks_count time (false ∷ bs) m =
    omega (arith, ticks_count time bs (tick time true false m), tick_counts time false m)
