-- ===== src/Lib.antt =====
-- Easy-Reactor, a C++ network library: a reactor around epoll, with TCP connections that carry
-- messages behind an eight-byte head.
--
-- How the program works: `event_loop` waits on epoll and calls the callbacks of the descriptors that
-- are ready; one of these is the timerfd of `timer_queue`, whose timers lie in a binary heap. Each
-- accepted connection is a `tcp_conn` on a thread's loop. It reads into an `input_buffer`, hands the
-- complete messages to the callbacks of `msg_dispatcher`, and writes from an `output_buffer`; both
-- take their memory from `buffer_pool`. `tcp_server` accepts connections and hands them to the threads
-- of `thread_pool`, each with a `thread_queue` and a loop of its own.
--
-- The files and what they model:
--   Base      numbers, lists, Boolean tests, tables, and `Run`, the ways in which a call ends
--   Memory    the bytes behind a `char*`
--   Timer     src/timer_queue.cc, include/timer_queue.h, timer_event of include/event_base.h
--             Order, Rise, Hold, Remove: the heap; Clock, Cancel, Fire, Timeout: the calls;
--             Schedule, Expiry: what a user of the queue sees
--   Buffer    src/io_buffer.cc, include/io_buffer.h
--             Pool, Ledger: what is lent; Content, Stream, Drain: the bytes that go in and out
--   Message   include/msg_head.h, include/msg_dispatcher.h
--             Frames, Unique, Split: the messages in a stream; Dispatch: the registered callbacks
--   Loop      src/event_loop.cc, include/event_loop.h
--             Watch: the registrations against epoll; Dispatch: the callbacks of fired events;
--             Pending: timers and tasks; Alarms: run_after and its kin
--   Conn      src/tcp_conn.cc, include/tcp_conn.h
--             Live: an open connection and its end; Reading, Rounds, Serving, Handle, Chunks:
--             handle_read, for callbacks that can take what comes, and for those that take all;
--             Sending: send_data; Flushing: handle_write
--   Threads   include/thread_queue.h, src/thread_pool.cc, queue_msg of include/msg_head.h
--             Order: the order of the messages and the turns of the threads
--   Accept    src/tcp_server.cc, include/tcp_server.h
--             Admission: which connections do_accept hands over; Settings: the constructor
--   Client    src/tcp_client.cc, include/tcp_client.h
--             Messages: what is sent and what is held back; Receiving, Flushing, Closing: the
--             handlers; Talks: what callbacks may do; Phases, Life: from the constructor on;
--             Served: what is sent is what a server reads
--   Udp       src/udp_server.cc, src/udp_client.cc and their headers
--             Packages: a message and its datagram; Reading: handle_read; Echo: the callback of
--             example/udpEchoServer/server.cc
--   Config    src/config_reader.cc, include/config_reader.h
--             Trim, Meanings, Entries, Lists, Numbers: what the reader finds in a file
--   Example   server.cc, client.cc, example/tcpEchoServer, example/timerServer, and what is left of
--             example/udpEchoServer: TcpEcho: the echo server; Clients: the callbacks of the clients;
--             Setups: what main and domain set up
--   Tests     concrete inputs
-- A function of the source has its own name here, with its class in front where two would clash
-- (`buf_pop` is tcp_buffer::pop, `buffer_pop` is io_buffer::pop, `send_bytes` is
-- output_buffer::send_data, `del_ioev_mask` is the del_ioev that takes a mask). Objects are records
-- that the functions take and give back. A failed assertion and an undefined access end in `abort`,
-- a call of exit in `exited`.
--
-- System calls: their results are arguments, a list where a call is repeated. Epoll is an interface
-- with the documented behaviour of epoll_ctl. The user's callbacks are parameters, with `IsPolite`
-- for what the code relies on.
--
-- Bounds: `starved` is the end of a list of results or of the fuel. The loops of the heap get one
-- round more than there are timers, the message loop one more than there are bytes, as each message
-- takes at least its head off, and the write loop one more than there are bytes. The theorems that a
-- call ends show that this is enough. Sizes and capacities are natural numbers, as all stay below
-- 2 ^ 31; the fields of a head are the 32-bit words that were sent, with the sign test written out;
-- times wrap at 2 ^ 64.
--
-- Not modelled: logging, socket options, the locks (each call of the buffer pool or of a queue is one
-- step), most destructors, which only close and free, the threads that the clients start, and the
-- callback of server.cc, which reads past the end of its message. The generated protobuf code is a
-- parameter.
pub mod Base
pub mod Memory
pub mod Timer
pub mod Buffer
pub mod Message
pub mod Loop
pub mod Conn
pub mod Threads
pub mod Accept
pub mod Client
pub mod Config
pub mod Udp
pub mod Example
mod Tests
