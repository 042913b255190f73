-- ===== src/Tests/Buffers.antt =====
-- Buffers: small ones, and a pool whose chains are empty.
use easy_reactor.Memory.{Memory}
use easy_reactor.Base.Table.{insert}
use easy_reactor.Buffer.Ledger.{Uses, starts, takes, refused, Balanced, Uses-Balanced}
use easy_reactor.Buffer.{BufferPool, init_pool, make_chain, new_buffer, u8m, take_buffer}
use easy_reactor.Base.{◌+◌, arith, refl, [], ◌∷◌, some, none}
use easy_reactor.Base.Run.{Gives}
use easy_reactor.Buffer.{
  retry_read, alloc, send_bytes, read_data, received, read_interrupted, size_class,
}
use easy_reactor.Buffer.Stream.{SendResult, send_bytes_correct}
use easy_reactor.Buffer.Drain.{ReadDone, read_data_correct}
use easy_reactor.Tests.Fixtures.{bare_pool, bare_pool-IsValid, small_buffer, small_buffer-IsWhole}

read_data_correct_example :
    Gives (ReadDone bare_pool none 3 (some (1 ∷ 2 ∷ 3 ∷ []))) (
      read_data
        (λ i. 0)
        (some 3)
        (read_interrupted ∷ received (1 ∷ 2 ∷ 3 ∷ []) ∷ [])
        bare_pool
        none)
unfolding retry_read
read_data_correct_example =
    read_data_correct (λ i. 0) 3 (read_interrupted ∷ received (1 ∷ 2 ∷ 3 ∷ []) ∷ []) bare_pool none
      (some (1 ∷ 2 ∷ 3 ∷ [])) bare_pool-IsValid (ground arith) tt tt refl refl

send_bytes_correct_example :
    Gives
      (SendResult bare_pool (some (small_buffer 5)) (1 ∷ 2 ∷ []))
      (send_bytes (λ i. 0) bare_pool (some (small_buffer 5)) (1 ∷ 2 ∷ []))
send_bytes_correct_example =
    send_bytes_correct (λ i. 0) bare_pool (some (small_buffer 5)) (1 ∷ 2 ∷ []) bare_pool-IsValid
      (ground arith) small_buffer-IsWhole refl

-- The pool of the constructor, when one buffer of 8 MB is lent.
abbrev zeros : Memory
zeros i = 0

abbrev lending_pool : BufferPool
lending_pool = record (init_pool zeros) {
  pool = insert (init_pool zeros).pool u8m (make_chain zeros u8m 9);
}

one_call-Uses : Uses zeros lending_pool (u8m ∷ [])
unfolding alloc take_buffer init_pool make_chain new_buffer size_class
one_call-Uses = takes u8m (new_buffer zeros u8m) starts refl

two_calls-Uses : Uses zeros lending_pool (u8m ∷ [])
unfolding alloc size_class
two_calls-Uses = refused (u8m + 1) one_call-Uses refl

Uses-Balanced_example : Balanced lending_pool (u8m ∷ [])
Uses-Balanced_example = Uses-Balanced zeros lending_pool (u8m ∷ []) two_calls-Uses
