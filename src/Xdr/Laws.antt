-- ===== src/Xdr/Laws.antt =====
-- Every routine of src/nfsv3/nfs3_xdr.c can be relied on.
pub mod Attr
pub mod Sattr
pub mod Object
pub mod Make
pub mod Node
pub mod Remove
pub mod Directory
pub mod Filesystem
pub mod Mount
pub mod Data
