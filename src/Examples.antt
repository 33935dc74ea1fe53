-- ===== src/Examples.antt =====
-- The theorems at concrete inputs, on streams held in memory, and tests of the models.
mod Answers
mod Inbox
mod Memory
mod Handshake
mod Requests
mod Sessions
mod Addresses
mod Servers
mod Futures
mod Lines
mod Store
mod Tls
mod Heads
mod Packets
mod Rounds
mod Spins
mod Starts
mod Websockets
