-- ===== src/Rpc.antt =====
-- src/clnt_tcp_nb.c and include/clnt_tcp_nb.h: RPC over a non-blocking TCP stream.
pub mod Types
pub mod Fragment
pub mod Reply
pub mod Receive
pub mod Send
pub mod Client
pub mod Create
pub mod Sample
pub mod Tests
pub mod Runs
