-- ===== src/Daemon.antt =====
-- The daemon: src/nfscd_ops.c, src/nfsclientd.c and src/nfs3actor.c.
pub mod Actor
pub mod Actors
pub mod Contexts
pub mod Start
pub mod Main
pub mod Tests
pub mod Runs
pub mod Queue
