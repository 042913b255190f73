-- ===== src/Tests.antt =====
-- Concrete inputs for the theorems, and runs of the code on them.
mod Fixtures
mod Timers
mod Buffers
mod Streams
mod Connections
mod Server
mod Client
mod Config
mod Udp
mod Settings
mod Loop
mod Echo
mod Life
mod Served
