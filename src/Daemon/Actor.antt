-- ===== src/Daemon/Actor.antt =====
-- The NFS actor of src/nfs3actor.c: what it does with a request, with the reply to a LOOKUP, and
-- with the reply to its mount call; and nfscd_lookup of src/nfscd_ops.c, which makes the requests.
pub mod Answers
use unfsclient.Prelude.{
  ℕ, true, suc, false, ◌^◌, zero, ◌-◌, List, some, negsuc, if◌then◌else◌, ltb, [], none, ℤ, ◌∷◌,
  Option, Result, ◌==◌, pos, Bool, ok, fault,
}
use unfsclient.Nfs3.Errors.{Errno, eio, nfsstat3_to_errno}
use unfsclient.Xdr.Library.{XdrLib}
use unfsclient.Xdr.Object.{Lookup3res, Lookup3args}
use unfsclient.Xdr.Mount.{Mountres3}
use unfsclient.Nfsclient.Mount.{xdr_to_mntres3}
use unfsclient.Nfs3.Convert.{xdr_to_lookup3res}

-- The operations of FUSE by their codes.
pub data FuseOpcode : Type 0 where
  fuse_lookup fuse_forget fuse_getattr fuse_setattr fuse_readlink fuse_symlink : FuseOpcode
  fuse_mknod fuse_mkdir fuse_unlink fuse_rmdir fuse_rename fuse_link fuse_open : FuseOpcode
  fuse_read fuse_write fuse_statfs fuse_release fuse_fsync fuse_setxattr : FuseOpcode
  fuse_getxattr fuse_listxattr fuse_removexattr fuse_flush fuse_init fuse_opendir : FuseOpcode
  fuse_readdir fuse_releasedir fuse_fsyncdir fuse_getlk fuse_setlk fuse_setlkw : FuseOpcode
  fuse_access fuse_create fuse_interrupt fuse_bmap fuse_destroy : FuseOpcode

pub record NflookupArgs : Type 0 where
  pub parent : ℕ
  pub name : List ℕ

-- `fuserq` is FUSE's request. No function sets another member of the union.
pub record NfscdRequest : Type 0 where
  pub fuserq : ℕ
  pub request : FuseOpcode
  pub actordata : Option ℕ
  pub lookupargs : NflookupArgs

-- What nfscd_lookup puts into the metadata queue; there is memory.
unfoldable pub nfscd_lookup : ℕ → ℕ → List ℕ → NfscdRequest
nfscd_lookup req parent name = record {
  fuserq = req;
  request = fuse_lookup;
  actordata = none;
  lookupargs = record { parent = parent; name = name };
}

-- A call of fuse_reply_err: the request and the error.
pub record ReplyErr : Type 0 where
  pub to_request : ℕ
  pub error : Errno

-- A status word as an int.
unfoldable pub as_int : ℕ → ℤ
as_int n = if ltb n (2 ^ 31) then pos n else negsuc (2 ^ 32 - 1 - n)

-- The asserts are faults. A reply of NFS3_OK is neither answered nor freed.
unfoldable pub act_on_lookup_res : NfscdRequest → Option Lookup3res → Result (List ReplyErr)
unfolding as_int nfsstat3_to_errno
act_on_lookup_res rq none = fault
act_on_lookup_res rq (some (status, r)) = ok (
    if status == 0
    then []
    else record { to_request = rq.fuserq; error = nfsstat3_to_errno (as_int status) } ∷ [])

unfoldable pub root_of : Option Mountres3 → Option (List ℕ)
root_of none = none
root_of (some (zero, mountinfo)) = some mountinfo.fhandle
root_of (some (suc n, tt)) = none

module _ (x : XdrLib) where
  -- `alloc` says whether there is memory for the reply; the result is what FUSE is told.
  unfoldable pub nfs3_lookup_cb : Bool → Option (List ℕ) → ℕ → NfscdRequest → Result (List ReplyErr)
  unfolding act_on_lookup_res xdr_to_lookup3res
  nfs3_lookup_cb alloc none len rq = fault
  nfs3_lookup_cb alloc (some msg) len rq =
      act_on_lookup_res rq (xdr_to_lookup3res x alloc (some msg) len)

  -- The file handle that the callback leaves in its private pointer, `none` for NULL; there is
  -- memory for its copy.
  unfoldable pub nfs3_mount_cb : Bool → Option (List ℕ) → ℕ → Result (Option (List ℕ))
  unfolding root_of xdr_to_mntres3
  nfs3_mount_cb alloc none len = fault
  nfs3_mount_cb alloc (some msg) len = ok (root_of (xdr_to_mntres3 x alloc (some msg) len))

-- The directory is the root of the mount, whatever the parent.
unfoldable pub fuse_to_nfs3_lookup_args : List ℕ → NflookupArgs → Lookup3args
fuse_to_nfs3_lookup_args rootfh fargs = record {
  what = record { dir = record { data_val = rootfh }; name = fargs.name };
}

-- `stat` is whether mount3_mnt returned RPC_SUCCESS, and `rootfh` what the callback left. The value
-- is the root that is kept and what the function returns.
unfoldable pub nfs3_actor_mount_remotedir : Bool → Option (List ℕ) → Option (List ℕ) × ℤ
nfs3_actor_mount_remotedir false rootfh = (none, negsuc 0)
nfs3_actor_mount_remotedir true none = (none, negsuc 0)
nfs3_actor_mount_remotedir true (some fh) = (some fh, pos 0)

-- What an actor does with a request: it makes the NFS call, or tells FUSE of an error.
pub data Action : Type 0 where
  calls_lookup : Lookup3args → Action
  replies : ReplyErr → Action

unfoldable pub nfs3_act_on_request : List ℕ → NfscdRequest → Action
unfolding fuse_to_nfs3_lookup_args
nfs3_act_on_request rootfh rq = elim rq.request [
  | fuse_lookup ↦ calls_lookup (fuse_to_nfs3_lookup_args rootfh rq.lookupargs)
  | _ ↦ replies (record { to_request = rq.fuserq; error = eio })
]
