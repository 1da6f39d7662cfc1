-- ===== src/Xdr.antt =====
-- The XDR routines of src/nfsv3/nfs3_xdr.c.
pub mod Codec
pub mod Library
pub mod Attr
pub mod Sattr
pub mod Object
pub mod Make
pub mod Node
pub mod Remove
pub mod Directory
pub mod Filesystem
pub mod Mount
pub mod Data
pub mod Laws
