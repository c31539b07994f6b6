-- ===== src/Lib.antt =====
-- Lidi, a one-way ("diode") file and stream transfer over UDP.
--
-- The sender (src/send) takes client streams, cuts each into blocks, numbers the blocks, encodes
-- each into RaptorQ packets and sends the packets. The receiver (src/receive) collects packets into
-- blocks, decodes them, routes each block to the transfer of its client and writes its data. The
-- file and UDP programs (src/aux) carry files and datagrams over such streams. The programs of src/bin
-- start the workers of one side as threads.
--
-- Files and code:
--   Common         lists, results, little-endian bytes, the reads of a stream
--   Extern         the raptorq crate as a parameter, with what its documentation promises
--   Protocol       src/protocol.rs: Raptorq is `RaptorQ`, Block is `Block` and its format
--   Udp            src/udp.rs: `Datagrams`; Udp/Send is `SendM`, Udp/Receive is `Receive`
--   Sockets        src/sock_utils.rs
--   Threads        how threads are spawned in src/send/mod.rs and src/receive/mod.rs
--   Send           src/send: Client is client.rs; Server is one worker of server.rs and heartbeat.rs;
--                  Servers is all of them, interleaved, with `new_client` and `stop` of mod.rs;
--                  Pipeline is ordering.rs, encoding.rs and the loop of udp.rs, interleaved;
--                  Udp is udp.rs by itself; Start is `Config` and `start` of mod.rs
--   Receive        src/receive: Udp, Reblock, Decode, Dispatch, Clients and Client are the files of
--                  these names; Start is `Config` and `start` of mod.rs
--   Diode          the sender and the receiver together, over a link that keeps packets and order:
--                  Packets, Clients and Streams join them in parts, Servers joins all workers, Files
--                  puts the file programs at both ends
--   Programs       src/bin: DiodeSend, DiodeReceive and DiodeConfig are the programs of these names,
--                  Oneshot the two oneshot programs, FloodTest the program that floods the diode
--   Aux            src/aux: File is file/{protocol,send,receive}.rs, Udp is udp/*.rs; File/Programs
--                  and Udp/Programs connect and listen, and are the four programs of src/bin around them
--   Bindings       diode-file-bindings/src/lib.rs, the C interface of the file programs
--   Tests          a small code that satisfies the laws of Extern, and runs
--
-- A worker that works alone is a function from what it receives to what it sends. Workers that share
-- state (Send/Servers, Send/Pipeline, Receive/Decode, Receive/Clients) are a relation: a step is one
-- access to a channel, the shared number or the semaphore with the local work that follows it, or
-- what a worker does under a mutex, and a run is any sequence of steps. A worker's `start` function is
-- named after its file where names would clash, as `start_client`.
--
-- The environment's choices are arguments: how many bytes each read gives and when it fails
-- (Common/Reader), the answers of the kernel, which queues are closed or drained, the order of the
-- steps. Numbers are natural numbers with the wrap-around of the release build written out. A Rust
-- panic is a result of its own, which ends the process; where the functions of raptorq panic is a
-- predicate of Extern.
--
-- Bounds: the window of Receive/Reblock is opened on fuel 256, since an 8-bit number returns after
-- 256 increments, and the inner loop on fuel 257, one more than there are entries. The loop of
-- Aux/Udp runs on fuel, one for each datagram and one for the end of the stream; Aux/Udp/Programs
-- gives it one more than there are bytes.
--
-- Assumed: the channels of `Sender` and `Receiver` are never disconnected, since each holds both
-- ends; mutexes are not poisoned, since a panic ends the process; files and diode streams of the aux
-- programs accept every write.
--
-- Not modelled: the timers of the workers, the hashes and heartbeat times that are only logged, the
-- parsing of command lines, the logger, and the conversions and texts of errors.
pub mod Common
pub mod Extern
pub mod Protocol
pub mod Udp
pub mod Sockets
pub mod Threads
pub mod Send
pub mod Receive
pub mod Diode
pub mod Programs
pub mod Aux
pub mod Bindings
pub mod Tests
