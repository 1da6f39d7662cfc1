-- ===== src/Nfsclient.antt =====
-- The client library: src/nfsclient.c, and the calls of src/nfsv3/nfs3.c and src/nfsv3/mount3.c.
pub mod Memory
pub mod Context
pub mod Call
pub mod Reply
pub mod Complete
pub mod Mount
pub mod Stats
pub mod Tests
pub mod Runs
