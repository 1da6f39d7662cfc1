-- ===== src/Nfs3/Procs.antt =====
-- The procedures of NFS version 3 and the routine that src/nfsv3/nfs3.c uses for each: the nfs3_*
-- calls, and the xdr_to_* functions on the arguments and results.
use unfsclient.Prelude.{ℕ, Bool}
use unfsclient.Xdr.Object.{
  Setattr3args, xdr_access3res, xdr_readlink3res, Getattr3res, xdr_readlink3args, Readlink3args,
  xdr_getattr3res, Lookup3res, Setattr3res, xdr_lookup3args, xdr_getattr3args, Lookup3args,
  Access3args, Readlink3res, Getattr3args, xdr_setattr3res, xdr_setattr3args, xdr_access3args,
  xdr_lookup3res, Access3res,
}
use unfsclient.Xdr.Filesystem.{
  xdr_fsstat3args, Fsstat3args, Pathconf3res, xdr_fsinfo3res, Fsinfoargs, Fsinfo3res,
  xdr_fsstat3res, xdr_fsinfoargs, xdr_pathconf3res, Pathconf3args, xdr_pathconf3args, Fsstat3res,
}
use unfsclient.Xdr.Remove.{
  Rmdir3args, Remove3args, Link3res, xdr_rmdir3res, xdr_link3res, xdr_rename3res, Rename3res,
  Link3args, Remove3res, xdr_remove3res, xdr_rename3args, Rmdir3res, xdr_rmdir3args, Rename3args,
  xdr_link3args, xdr_remove3args,
}
use unfsclient.Xdr.Make.{
  xdr_create3res, xdr_symlink3res, Symlink3args, Mkdir3res, xdr_mkdir3args, Create3res,
  xdr_symlink3args, xdr_create3args, Symlink3res, Mkdir3args, xdr_mkdir3res, Create3args,
}
use unfsclient.Xdr.Library.{XdrLib}
use unfsclient.Xdr.Data.{
  xdr_commit3args, xdr_read3args, Commit3args, xdr_commit3res, Write3args, xdr_write3res,
  xdr_write3args, xdr_read3res, Write3res, Commit3res, Read3res, Read3args,
}
use unfsclient.Xdr.Directory.{
  xdr_readdir3res, Readdir3args, Readdirplus3res, Readdirplus3args, xdr_readdirplus3res,
  Readdir3res, xdr_readdirplus3args, xdr_readdir3args,
}
use unfsclient.Xdr.Codec.{void, Codec}
use unfsclient.Xdr.Node.{Mknod3res, xdr_mknod3args, xdr_mknod3res, Mknod3args}

-- `nfs3_fsinfo` passes xdr_FSINFOargs; the other names follow the procedure.
pub data Proc : Type 0 where
  nfs3_null : Proc
  nfs3_getattr : Proc
  nfs3_setattr : Proc
  nfs3_lookup : Proc
  nfs3_access : Proc
  nfs3_readlink : Proc
  nfs3_read : Proc
  nfs3_write : Proc
  nfs3_create : Proc
  nfs3_mkdir : Proc
  nfs3_symlink : Proc
  nfs3_mknod : Proc
  nfs3_remove : Proc
  nfs3_rmdir : Proc
  nfs3_rename : Proc
  nfs3_link : Proc
  nfs3_readdir : Proc
  nfs3_readdirplus : Proc
  nfs3_fsstat : Proc
  nfs3_fsinfo : Proc
  nfs3_pathconf : Proc
  nfs3_commit : Proc

abbrev pub number : Proc → ℕ
number nfs3_null = 0
number nfs3_getattr = 1
number nfs3_setattr = 2
number nfs3_lookup = 3
number nfs3_access = 4
number nfs3_readlink = 5
number nfs3_read = 6
number nfs3_write = 7
number nfs3_create = 8
number nfs3_mkdir = 9
number nfs3_symlink = 10
number nfs3_mknod = 11
number nfs3_remove = 12
number nfs3_rmdir = 13
number nfs3_rename = 14
number nfs3_link = 15
number nfs3_readdir = 16
number nfs3_readdirplus = 17
number nfs3_fsstat = 18
number nfs3_fsinfo = 19
number nfs3_pathconf = 20
number nfs3_commit = 21

abbrev pub Args : Proc → Type 0
Args nfs3_null = Unit {0}
Args nfs3_getattr = Getattr3args
Args nfs3_setattr = Setattr3args
Args nfs3_lookup = Lookup3args
Args nfs3_access = Access3args
Args nfs3_readlink = Readlink3args
Args nfs3_read = Read3args
Args nfs3_write = Write3args
Args nfs3_create = Create3args
Args nfs3_mkdir = Mkdir3args
Args nfs3_symlink = Symlink3args
Args nfs3_mknod = Mknod3args
Args nfs3_remove = Remove3args
Args nfs3_rmdir = Rmdir3args
Args nfs3_rename = Rename3args
Args nfs3_link = Link3args
Args nfs3_readdir = Readdir3args
Args nfs3_readdirplus = Readdirplus3args
Args nfs3_fsstat = Fsstat3args
Args nfs3_fsinfo = Fsinfoargs
Args nfs3_pathconf = Pathconf3args
Args nfs3_commit = Commit3args

abbrev pub Res : Proc → Type 0
Res nfs3_null = Unit {0}
Res nfs3_getattr = Getattr3res
Res nfs3_setattr = Setattr3res
Res nfs3_lookup = Lookup3res
Res nfs3_access = Access3res
Res nfs3_readlink = Readlink3res
Res nfs3_read = Read3res
Res nfs3_write = Write3res
Res nfs3_create = Create3res
Res nfs3_mkdir = Mkdir3res
Res nfs3_symlink = Symlink3res
Res nfs3_mknod = Mknod3res
Res nfs3_remove = Remove3res
Res nfs3_rmdir = Rmdir3res
Res nfs3_rename = Rename3res
Res nfs3_link = Link3res
Res nfs3_readdir = Readdir3res
Res nfs3_readdirplus = Readdirplus3res
Res nfs3_fsstat = Fsstat3res
Res nfs3_fsinfo = Fsinfo3res
Res nfs3_pathconf = Pathconf3res
Res nfs3_commit = Commit3res

module _ (x : XdrLib) (no_dexdr : Bool) where
  abbrev pub xdr_args : (p : Proc) → Codec (Args p)
  xdr_args nfs3_null = void
  xdr_args nfs3_getattr = xdr_getattr3args x
  xdr_args nfs3_setattr = xdr_setattr3args x
  xdr_args nfs3_lookup = xdr_lookup3args x
  xdr_args nfs3_access = xdr_access3args x
  xdr_args nfs3_readlink = xdr_readlink3args x
  xdr_args nfs3_read = xdr_read3args x
  xdr_args nfs3_write = xdr_write3args x no_dexdr
  xdr_args nfs3_create = xdr_create3args x
  xdr_args nfs3_mkdir = xdr_mkdir3args x
  xdr_args nfs3_symlink = xdr_symlink3args x
  xdr_args nfs3_mknod = xdr_mknod3args x
  xdr_args nfs3_remove = xdr_remove3args x
  xdr_args nfs3_rmdir = xdr_rmdir3args x
  xdr_args nfs3_rename = xdr_rename3args x
  xdr_args nfs3_link = xdr_link3args x
  xdr_args nfs3_readdir = xdr_readdir3args x
  xdr_args nfs3_readdirplus = xdr_readdirplus3args x
  xdr_args nfs3_fsstat = xdr_fsstat3args x
  xdr_args nfs3_fsinfo = xdr_fsinfoargs x
  xdr_args nfs3_pathconf = xdr_pathconf3args x
  xdr_args nfs3_commit = xdr_commit3args x

  abbrev pub xdr_res : (p : Proc) → Codec (Res p)
  xdr_res nfs3_null = void
  xdr_res nfs3_getattr = xdr_getattr3res x
  xdr_res nfs3_setattr = xdr_setattr3res x
  xdr_res nfs3_lookup = xdr_lookup3res x
  xdr_res nfs3_access = xdr_access3res x
  xdr_res nfs3_readlink = xdr_readlink3res x
  xdr_res nfs3_read = xdr_read3res x no_dexdr
  xdr_res nfs3_write = xdr_write3res x
  xdr_res nfs3_create = xdr_create3res x
  xdr_res nfs3_mkdir = xdr_mkdir3res x
  xdr_res nfs3_symlink = xdr_symlink3res x
  xdr_res nfs3_mknod = xdr_mknod3res x
  xdr_res nfs3_remove = xdr_remove3res x
  xdr_res nfs3_rmdir = xdr_rmdir3res x
  xdr_res nfs3_rename = xdr_rename3res x
  xdr_res nfs3_link = xdr_link3res x
  xdr_res nfs3_readdir = xdr_readdir3res x
  xdr_res nfs3_readdirplus = xdr_readdirplus3res x
  xdr_res nfs3_fsstat = xdr_fsstat3res x
  xdr_res nfs3_fsinfo = xdr_fsinfo3res x
  xdr_res nfs3_pathconf = xdr_pathconf3res x
  xdr_res nfs3_commit = xdr_commit3res x
