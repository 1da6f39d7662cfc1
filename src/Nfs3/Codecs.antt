-- ===== src/Nfs3/Codecs.antt =====
-- The messages of every procedure of src/nfsv3/nfs3.c are read back as they were written.
use unfsclient.Prelude.{false}
use unfsclient.Nfs3.Procs.{
  nfs3_readdir, nfs3_symlink, nfs3_commit, nfs3_mknod, nfs3_remove, nfs3_link, nfs3_mkdir, Proc,
  xdr_args, nfs3_rename, nfs3_lookup, nfs3_rmdir, nfs3_fsstat, nfs3_create, nfs3_access, nfs3_null,
  nfs3_readlink, nfs3_write, nfs3_fsinfo, nfs3_setattr, nfs3_pathconf, nfs3_readdirplus, xdr_res,
  nfs3_getattr, nfs3_read,
}
use unfsclient.Xdr.Laws.Remove.{
  xdr_rename3args-IsCodec, xdr_link3res-IsCodec, xdr_remove3args-IsCodec, xdr_rename3res-IsCodec,
  xdr_remove3res-IsCodec, xdr_link3args-IsCodec, xdr_rmdir3args-IsCodec, xdr_rmdir3res-IsCodec,
}
use unfsclient.Xdr.Laws.Data.{
  xdr_commit3args-IsCodec, xdr_write3res-IsCodec, xdr_read3res-IsCodec, xdr_commit3res-IsCodec,
  xdr_read3args-IsCodec, xdr_write3args-IsCodec,
}
use unfsclient.Xdr.Laws.Object.{
  xdr_readlink3args-IsCodec, xdr_setattr3res-IsCodec, xdr_setattr3args-IsCodec,
  xdr_readlink3res-IsCodec, xdr_access3res-IsCodec, xdr_getattr3res-IsCodec,
  xdr_lookup3args-IsCodec, xdr_lookup3res-IsCodec, xdr_access3args-IsCodec,
  xdr_getattr3args-IsCodec,
}
use unfsclient.Xdr.Laws.Filesystem.{
  xdr_fsstat3res-IsCodec, xdr_fsinfoargs-IsCodec, xdr_pathconf3res-IsCodec,
  xdr_pathconf3args-IsCodec, xdr_fsinfo3res-IsCodec, xdr_fsstat3args-IsCodec,
}
use unfsclient.Xdr.Laws.Directory.{
  xdr_readdirplus3res-IsCodec, xdr_readdirplus3args-IsCodec, xdr_readdir3res-IsCodec,
  xdr_readdir3args-IsCodec,
}
use unfsclient.Xdr.Library.{XdrLaws, XdrLib}
use unfsclient.Xdr.Laws.Make.{
  xdr_mkdir3args-IsCodec, xdr_create3args-IsCodec, xdr_create3res-IsCodec, xdr_symlink3args-IsCodec,
  xdr_mkdir3res-IsCodec, xdr_symlink3res-IsCodec,
}
use unfsclient.Xdr.Laws.Node.{xdr_mknod3args-IsCodec, xdr_mknod3res-IsCodec}
use unfsclient.Xdr.Codec.{void-IsCodec, IsCodec}

module _ (x : XdrLib) (laws : XdrLaws x) where
  pub xdr_args-IsCodec : (p : Proc) → IsCodec (xdr_args x false p)
  xdr_args-IsCodec nfs3_null = void-IsCodec
  xdr_args-IsCodec nfs3_getattr = xdr_getattr3args-IsCodec x laws
  xdr_args-IsCodec nfs3_setattr = xdr_setattr3args-IsCodec x laws
  xdr_args-IsCodec nfs3_lookup = xdr_lookup3args-IsCodec x laws
  xdr_args-IsCodec nfs3_access = xdr_access3args-IsCodec x laws
  xdr_args-IsCodec nfs3_readlink = xdr_readlink3args-IsCodec x laws
  xdr_args-IsCodec nfs3_read = xdr_read3args-IsCodec x laws
  xdr_args-IsCodec nfs3_write = xdr_write3args-IsCodec x laws
  xdr_args-IsCodec nfs3_create = xdr_create3args-IsCodec x laws
  xdr_args-IsCodec nfs3_mkdir = xdr_mkdir3args-IsCodec x laws
  xdr_args-IsCodec nfs3_symlink = xdr_symlink3args-IsCodec x laws
  xdr_args-IsCodec nfs3_mknod = xdr_mknod3args-IsCodec x laws
  xdr_args-IsCodec nfs3_remove = xdr_remove3args-IsCodec x laws
  xdr_args-IsCodec nfs3_rmdir = xdr_rmdir3args-IsCodec x laws
  xdr_args-IsCodec nfs3_rename = xdr_rename3args-IsCodec x laws
  xdr_args-IsCodec nfs3_link = xdr_link3args-IsCodec x laws
  xdr_args-IsCodec nfs3_readdir = xdr_readdir3args-IsCodec x laws
  xdr_args-IsCodec nfs3_readdirplus = xdr_readdirplus3args-IsCodec x laws
  xdr_args-IsCodec nfs3_fsstat = xdr_fsstat3args-IsCodec x laws
  xdr_args-IsCodec nfs3_fsinfo = xdr_fsinfoargs-IsCodec x laws
  xdr_args-IsCodec nfs3_pathconf = xdr_pathconf3args-IsCodec x laws
  xdr_args-IsCodec nfs3_commit = xdr_commit3args-IsCodec x laws

  pub xdr_res-IsCodec : (p : Proc) → IsCodec (xdr_res x false p)
  xdr_res-IsCodec nfs3_null = void-IsCodec
  xdr_res-IsCodec nfs3_getattr = xdr_getattr3res-IsCodec x laws
  xdr_res-IsCodec nfs3_setattr = xdr_setattr3res-IsCodec x laws
  xdr_res-IsCodec nfs3_lookup = xdr_lookup3res-IsCodec x laws
  xdr_res-IsCodec nfs3_access = xdr_access3res-IsCodec x laws
  xdr_res-IsCodec nfs3_readlink = xdr_readlink3res-IsCodec x laws
  xdr_res-IsCodec nfs3_read = xdr_read3res-IsCodec x laws
  xdr_res-IsCodec nfs3_write = xdr_write3res-IsCodec x laws
  xdr_res-IsCodec nfs3_create = xdr_create3res-IsCodec x laws
  xdr_res-IsCodec nfs3_mkdir = xdr_mkdir3res-IsCodec x laws
  xdr_res-IsCodec nfs3_symlink = xdr_symlink3res-IsCodec x laws
  xdr_res-IsCodec nfs3_mknod = xdr_mknod3res-IsCodec x laws
  xdr_res-IsCodec nfs3_remove = xdr_remove3res-IsCodec x laws
  xdr_res-IsCodec nfs3_rmdir = xdr_rmdir3res-IsCodec x laws
  xdr_res-IsCodec nfs3_rename = xdr_rename3res-IsCodec x laws
  xdr_res-IsCodec nfs3_link = xdr_link3res-IsCodec x laws
  xdr_res-IsCodec nfs3_readdir = xdr_readdir3res-IsCodec x laws
  xdr_res-IsCodec nfs3_readdirplus = xdr_readdirplus3res-IsCodec x laws
  xdr_res-IsCodec nfs3_fsstat = xdr_fsstat3res-IsCodec x laws
  xdr_res-IsCodec nfs3_fsinfo = xdr_fsinfo3res-IsCodec x laws
  xdr_res-IsCodec nfs3_pathconf = xdr_pathconf3res-IsCodec x laws
  xdr_res-IsCodec nfs3_commit = xdr_commit3res-IsCodec x laws
