-- ===== src/Tests/Settings.antt =====
-- A server that is set up from a configuration file.
use easy_reactor.Base.{arith, ℕ, ◌+◌, ◌≡◌, refl, List, [], ◌∷◌, some, true}
use easy_reactor.Base.Int.{pos}
use easy_reactor.Base.Run.{◌>>=◌, Gives}
use easy_reactor.Base.Text.{Bytes, equal}
use easy_reactor.Config.{empty_config, is_section, assignment, load, lines}
use easy_reactor.Config.Meanings.{Meaning, Says, last_set, has_orphan}
use easy_reactor.Config.Numbers.{Spells}
use easy_reactor.Loop.{add_ioev, only_in}
use easy_reactor.Accept.{
  ServerCalls, new_server, reactor_text, thread_num_text, max_conns_text, accepter_cb_ptr,
}
use easy_reactor.Accept.Settings.{SetTo, threads_on, new_server_correct}
use easy_reactor.Tests.Fixtures.{quiet_loop}

-- `[reactor]`, `threadNum=2`, `maxConns = 64`
abbrev settings_file : Bytes
settings_file =
    b'[' ∷ b'r' ∷ b'e' ∷ b'a' ∷ b'c' ∷ b't' ∷ b'o' ∷ b'r' ∷ b']' ∷ b'\n' ∷ b't' ∷ b'h' ∷ b'r' ∷ b'e'
    ∷ b'a' ∷ b'd' ∷ b'N' ∷ b'u' ∷ b'm' ∷ b'=' ∷ b'2' ∷ b'\n' ∷ b'm' ∷ b'a' ∷ b'x' ∷ b'C' ∷ b'o'
    ∷ b'n' ∷ b'n' ∷ b's' ∷ b' ' ∷ b'=' ∷ b' ' ∷ b'6' ∷ b'4' ∷ []

abbrev settings : List Meaning
settings =
    Meaning.opens reactor_text
    ∷ Meaning.sets thread_num_text (b'2' ∷ [])
    ∷ Meaning.sets max_conns_text (b'6' ∷ b'4' ∷ [])
    ∷ []

settings-Says : Says (lines settings_file) settings
unfolding lines is_section assignment
settings-Says = Says.section_line _ reactor_text refl (
    Says.entry_line _ thread_num_text (b'2' ∷ []) refl refl
      (Says.entry_line _ max_conns_text (b'6' ∷ b'4' ∷ []) refl refl Says.said))

abbrev good_calls : ServerCalls
good_calls = record {
  socket = some 4;
  open_reserve = some 5;
  inet_aton = true;
  bind = true;
  listen = true;
  eventfds = some 6 ∷ some 7 ∷ [];
  dup = some 8;
}

-- What the connections of the server's own thread work on.
abbrev none_kept : ℕ
none_kept = 0

new_server_correct_example :
    Gives
      (λ (s, l).
        (s.thd_pool ≡ threads_on (6 ∷ 7 ∷ []))
        × (s.max_conns ≡ pos 64)
        × (s.conns_size ≡ 64 + 8)
        × (l ≡ add_ioev quiet_loop 4 accepter_cb_ptr only_in 70))
      (load (some settings_file) empty_config >>= λ (b, c).
        new_server good_calls (some c) 70 quiet_loop none_kept)
unfolding last_set has_orphan equal
new_server_correct_example =
    new_server_correct good_calls 4 8 (6 ∷ 7 ∷ []) 64 settings_file settings 70 quiet_loop none_kept
      (record {
        socket = refl;
        inet_aton = refl;
        bind = refl;
        listen = refl;
        eventfds = refl;
        dup = refl;
      })
      settings-Says refl (SetTo.written (b'2' ∷ []) [] refl (Spells.one_digit 2 (omega arith)) tt)
      (SetTo.written (b'6' ∷ b'4' ∷ []) [] refl
        (Spells.more_digits (b'6' ∷ []) 6 4 (omega arith) (Spells.one_digit 6 (omega arith))) tt)
      (omega arith) (omega arith)
