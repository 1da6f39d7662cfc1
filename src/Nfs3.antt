-- ===== src/Nfs3.antt =====
-- The NFS version 3 client of src/nfsv3/nfs3.c.
pub mod Procs
pub mod Codecs
pub mod Convert
pub mod Dispatch
pub mod Messages
pub mod Payload
pub mod Errors
pub mod Small
pub mod Tests
