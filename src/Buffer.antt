-- ===== src/Buffer.antt =====
-- src/io_buffer.cc and include/io_buffer.h: buffers of fixed size, the pool that lends them, and the
-- input and output buffers of a connection. The pool's chains through `next` are lists, a pointer
-- `_buf` is an `Option`, and the byte counts are below 2 ^ 31, as sums of two of them are.
-- The calls run under the pool's mutex, so each is one step.
pub mod Pool
pub mod Ledger
pub mod Content
pub mod Stream
pub mod Drain
use easy_reactor.Base.{
  ℕ, zero, suc, ◌+◌, ◌-◌, ◌*◌, ◌/◌, List, [], ◌∷◌, ◌++◌, Option, none, some, ltb, leb, ◌==◌,
  if◌then◌else◌, Bool, true, false, ◌&&◌, length,
}
use easy_reactor.Base.Run.{Run, ok, abort, exited, starved, ◌>>=◌, ◌>>◌, assert, deref}
use easy_reactor.Base.Table.{Table, insert}
use easy_reactor.Memory.{Memory, store, span}

pub record IoBuffer : Type 0 where
  pub capacity : ℕ
  pub length : ℕ
  pub head : ℕ
  pub bytes : Memory

-- `io_buffer(int size)`; `found` is what `new char[size]` finds in memory.
unfoldable pub new_buffer : Memory → ℕ → IoBuffer
new_buffer found size = record { capacity = size; length = 0; head = 0; bytes = found }

pub buffer_clear : IoBuffer → IoBuffer
buffer_clear b = record b { length = 0; head = 0 }

-- An access past the end of `data` is undefined in C++: it aborts here.
unfoldable pub buffer_adjust : IoBuffer → Run IoBuffer
buffer_adjust b =
    let moved : Run IoBuffer = do
      assert (leb (b.head + b.length) b.capacity)
      ok (record b { head = 0; bytes = store b.bytes 0 (span b.bytes b.head b.length) })
    in if b.head == 0 then ok b else if b.length == 0 then ok (record b { head = 0 }) else moved

pub buffer_copy : IoBuffer → IoBuffer → Run IoBuffer
buffer_copy b other = do
  assert (leb other.length b.capacity && leb (other.head + other.length) other.capacity)
  ok (record b {
    head = 0;
    length = other.length;
    bytes = store b.bytes 0 (span other.bytes other.head other.length);
  })

-- `length` would turn negative if more is popped than is held; the model aborts there.
pub buffer_pop : IoBuffer → ℕ → Run IoBuffer
buffer_pop b len = do
  assert (leb len b.length)
  ok (record b { length = b.length - len; head = b.head + len })

-- `memcpy(_buf->data + _buf->length, xs, n); _buf->length += n;`
unfoldable pub buffer_append : IoBuffer → List ℕ → Run IoBuffer
buffer_append b xs = do
  assert (leb (b.length + length xs) b.capacity)
  ok (record b { bytes = store b.bytes b.length xs; length = b.length + length xs })

abbrev pub u4k : ℕ
u4k = 4096

abbrev pub u16k : ℕ
u16k = 16384

abbrev pub u64k : ℕ
u64k = 65536

abbrev pub u256k : ℕ
u256k = 262144

abbrev pub u1m : ℕ
u1m = 1048576

abbrev pub u4m : ℕ
u4m = 4194304

abbrev pub u8m : ℕ
u8m = 8388608

-- in KB
abbrev pub extra_mem_limit : ℕ
extra_mem_limit = 5 * 1024 * 1024

-- `_pool[k]` is missing, or a chain of buffers that nobody uses.
pub record BufferPool : Type 0 where
  pub pool : Table (List IoBuffer)
  pub total_mem : ℕ

-- The class that serves `n` bytes.
unfoldable pub size_class : ℕ → Option ℕ
size_class n =
    if leb n u4k
    then some u4k
    else if leb n u16k
    then some u16k
    else if leb n u64k
    then some u64k
    else if leb n u256k
    then some u256k
    else if leb n u1m
    then some u1m
    else if leb n u4m
    then some u4m
    else if leb n u8m
    then some u8m
    else none

-- The chain at an index: `operator[]` gives NULL for a missing key.
abbrev pub chain : Option (List IoBuffer) → List IoBuffer
chain none = []
chain (some l) = l

-- What alloc does once it has the class.
unfoldable pub take_buffer :
    Memory → BufferPool → ℕ → List IoBuffer → Run (Option IoBuffer × BufferPool)
take_buffer found p index [] =
    if leb extra_mem_limit (p.total_mem + index / 1024)
    then exited
    else ok (
      some (new_buffer found index),
      record p { pool = insert p.pool index []; total_mem = p.total_mem + index / 1024 },
    )
take_buffer found p index (target ∷ rest) =
    ok (some target, record p { pool = insert p.pool index rest })

-- `none` is a NULL result.
unfoldable pub alloc : Memory → BufferPool → ℕ → Run (Option IoBuffer × BufferPool)
alloc found p n = elim (size_class n) [
  | none ↦ ok (none, p)
  | some index ↦ take_buffer found p index (chain (p.pool index))
]

pub revert : BufferPool → IoBuffer → Run BufferPool
revert p buffer = do
  l ← deref (p.pool buffer.capacity)
  ok (record p { pool = insert p.pool buffer.capacity (buffer_clear buffer ∷ l) })

-- The loop of the constructor that makes a chain of `n` buffers.
unfoldable pub make_chain : Memory → ℕ → ℕ → List IoBuffer
make_chain found size zero = []
make_chain found size (suc n) = new_buffer found size ∷ make_chain found size n

unfoldable pub init_pool : Memory → BufferPool
init_pool found = record {
  pool =
      let at4k = insert (λ _. none) u4k (make_chain found u4k 5000) in
      let at16k = insert at4k u16k (make_chain found u16k 1000) in
      let at64k = insert at16k u64k (make_chain found u64k 500) in
      let at256k = insert at64k u256k (make_chain found u256k 200) in
      let at1m = insert at256k u1m (make_chain found u1m 50) in
      let at4m = insert at1m u4m (make_chain found u4m 20) in
      insert at4m u8m (make_chain found u8m 10);
  total_mem = 4 * 5000 + 16 * 1000 + 64 * 500 + 256 * 200 + 1024 * 50 + 4096 * 20 + 8192 * 10;
}

-- `_buf` of a tcp_buffer: NULL, or the buffer that it holds.
abbrev pub TcpBuffer : Type 0
TcpBuffer = Option IoBuffer

unfoldable pub buf_length : TcpBuffer → ℕ
buf_length none = 0
buf_length (some b) = b.length

unfoldable pub buf_clear : BufferPool → TcpBuffer → Run (TcpBuffer × BufferPool)
buf_clear p none = ok (none, p)
buf_clear p (some b) = do q ← revert p b; ok (none, q)

unfoldable pub buf_pop : BufferPool → TcpBuffer → ℕ → Run (TcpBuffer × BufferPool)
buf_pop p none len = abort
buf_pop p (some b) len = do
  assert (leb len b.length)
  c ← buffer_pop b len
  let given_back : Run (TcpBuffer × BufferPool) = revert p c >>= λ q. ok (none, q)
  if c.length == 0 then given_back else ok (some c, p)

-- The part that input_buffer::read_data and output_buffer::send_data share: a buffer with room for
-- `n` more bytes. `none` is their `return -1`, which leaves `_buf` and the pool as they were.
unfoldable pub make_room : Memory → BufferPool → TcpBuffer → ℕ → Run (Option IoBuffer × BufferPool)
make_room found p none n = alloc found p n
make_room found p (some b) n = do
  assert (b.head == 0)
  let grow = alloc found p (n + b.length) >>= λ (r, q). elim r [
    | none ↦ ok (none, q)
    | some c ↦ (do d ← buffer_copy c b; s ← revert q b; ok (some d, s))
  ]
  if ltb b.capacity (n + b.length) then grow else ok (some b, p)

-- What one `read` or `write` returns: `interrupted` is -1 with EINTR, `again` -1 with EAGAIN, `failed`
-- -1 with another error.
pub data Received : Type 0 where
  received : List ℕ → Received
  read_interrupted read_again read_failed : Received

pub data Sent : Type 0 where
  sent : ℕ → Sent
  write_interrupted write_again write_failed : Sent

-- `do … while (ret == -1 && errno == EINTR)`, on the results of the calls in turn
unfoldable pub retry_read : List Received → Run (Option (List ℕ))
retry_read [] = starved
retry_read (read_interrupted ∷ rest) = retry_read rest
retry_read (read_again ∷ rest) = ok none
retry_read (read_failed ∷ rest) = ok none
retry_read (received xs ∷ rest) = ok (some xs)

-- The result of read_data: -1, 0, or the count of bytes.
pub data ReadResult : Type 0 where
  read_error read_closed : ReadResult
  read_some : ℕ → ReadResult

-- `ioctl` is what FIONREAD gives, `none` for its failure.
unfoldable pub read_data :
    Memory
    → Option ℕ
    → List Received
    → BufferPool
    → TcpBuffer
    → Run (ReadResult × TcpBuffer × BufferPool)
read_data found none reads p buf = ok (read_error, buf, p)
read_data found (some rn) reads p buf = make_room found p buf rn >>= λ (r, q). elim r [
  | none ↦ ok (read_error, buf, q)
  | some b ↦ retry_read reads >>= λ ret. elim ret [
    | none ↦ ok (read_error, some b, q)
    | some [] ↦ ok (read_closed, some b, q)
    | some (x ∷ xs) ↦ (do
      assert (length (x ∷ xs) == rn)
      c ← buffer_append b (x ∷ xs)
      ok (read_some rn, some c, q))
  ]
]

-- `true` is the result 0, `false` is -1.
pub send_bytes : Memory → BufferPool → TcpBuffer → List ℕ → Run (Bool × TcpBuffer × BufferPool)
send_bytes found p buf bytes = make_room found p buf (length bytes) >>= λ (r, q). elim r [
  | none ↦ ok (false, buf, q)
  | some b ↦ (do c ← buffer_append b bytes; ok (true, some c, q))
]

unfoldable pub retry_write : List Sent → Run (Option ℕ × List Sent)
retry_write [] = starved
retry_write (write_interrupted ∷ rest) = retry_write rest
retry_write (write_again ∷ rest) = ok (some 0, rest)
retry_write (write_failed ∷ rest) = ok (none, rest)
retry_write (sent n ∷ rest) = ok (some n, rest)

-- `none` is -1; the results of the later writes are handed on.
pub write_fd : List Sent → TcpBuffer → Run (Option ℕ × TcpBuffer × List Sent)
write_fd writes none = abort
write_fd writes (some b) = do
  assert (b.head == 0)
  (r, rest) ← retry_write writes
  elim r [
    | none ↦ ok (none, some b, rest)
    | some zero ↦ ok (some 0, some b, rest)
    | some (suc n) ↦ (do
      c ← buffer_pop b (suc n)
      d ← buffer_adjust c
      ok (some (suc n), some d, rest))
  ]

-- input_buffer::data: NULL, or the bytes that are held.
unfoldable pub buf_data : TcpBuffer → Option (List ℕ)
buf_data none = none
buf_data (some b) = some (span b.bytes b.head b.length)

unfoldable pub buf_adjust : TcpBuffer → Run TcpBuffer
buf_adjust none = ok none
buf_adjust (some b) = do c ← buffer_adjust b; ok (some c)
