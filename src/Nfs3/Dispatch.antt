-- ===== src/Nfs3/Dispatch.antt =====
-- The xdr_to_* function of src/nfsv3/nfs3.c that reads the messages of a procedure.
use unfsclient.Prelude.{ℕ, List, Option, refl, ◌≡◌, Bool}
use unfsclient.Nfs3.Procs.{
  nfs3_remove, nfs3_write, Res, nfs3_fsinfo, nfs3_create, Proc, Args, nfs3_lookup, nfs3_getattr,
  xdr_args, nfs3_mknod, nfs3_readlink, nfs3_pathconf, nfs3_fsstat, nfs3_access, nfs3_rename,
  nfs3_rmdir, nfs3_commit, nfs3_setattr, nfs3_readdirplus, nfs3_mkdir, xdr_res, nfs3_link,
  nfs3_symlink, nfs3_null, nfs3_read, nfs3_readdir,
}
use unfsclient.Xdr.Codec.{void}
use unfsclient.Xdr.Library.{XdrLib}
use unfsclient.Nfs3.Convert.{
  xdr_to, xdr_to_access3args, xdr_to_access3res, xdr_to_commit3args, xdr_to_commit3res,
  xdr_to_create3args, xdr_to_create3res, xdr_to_fsinfo3res, xdr_to_fsinfoargs, xdr_to_fsstat3args,
  xdr_to_fsstat3res, xdr_to_getattr3args, xdr_to_getattr3res, xdr_to_link3args, xdr_to_link3res,
  xdr_to_lookup3args, xdr_to_lookup3res, xdr_to_mkdir3args, xdr_to_mkdir3res, xdr_to_mknod3args,
  xdr_to_mknod3res, xdr_to_pathconf3args, xdr_to_pathconf3res, xdr_to_read3args, xdr_to_read3res,
  xdr_to_readdir3args, xdr_to_readdir3res, xdr_to_readdirplus3args, xdr_to_readdirplus3res,
  xdr_to_readlink3args, xdr_to_readlink3res, xdr_to_remove3args, xdr_to_remove3res,
  xdr_to_rename3args, xdr_to_rename3res, xdr_to_rmdir3args, xdr_to_rmdir3res, xdr_to_setattr3args,
  xdr_to_setattr3res, xdr_to_symlink3args, xdr_to_symlink3res, xdr_to_write3args, xdr_to_write3res,
}

module _ (x : XdrLib) where
  -- The function of each procedure. No function reads the messages of NFS3_NULL.
  unfoldable pub xdr_to_args : (p : Proc) → Bool → Bool → Option (List ℕ) → ℕ → Option (Args p)
  unfolding xdr_to xdr_to_getattr3args xdr_to_setattr3args xdr_to_lookup3args xdr_to_access3args
      xdr_to_readlink3args xdr_to_read3args xdr_to_write3args xdr_to_create3args xdr_to_mkdir3args
      xdr_to_symlink3args xdr_to_mknod3args xdr_to_remove3args xdr_to_rmdir3args xdr_to_rename3args
      xdr_to_link3args xdr_to_readdir3args xdr_to_readdirplus3args xdr_to_fsstat3args
      xdr_to_fsinfoargs xdr_to_pathconf3args xdr_to_commit3args
  xdr_to_args nfs3_null no_dexdr = xdr_to void
  xdr_to_args nfs3_getattr no_dexdr = xdr_to_getattr3args x
  xdr_to_args nfs3_setattr no_dexdr = xdr_to_setattr3args x
  xdr_to_args nfs3_lookup no_dexdr = xdr_to_lookup3args x
  xdr_to_args nfs3_access no_dexdr = xdr_to_access3args x
  xdr_to_args nfs3_readlink no_dexdr = xdr_to_readlink3args x
  xdr_to_args nfs3_read no_dexdr = xdr_to_read3args x
  xdr_to_args nfs3_write no_dexdr = xdr_to_write3args x no_dexdr
  xdr_to_args nfs3_create no_dexdr = xdr_to_create3args x
  xdr_to_args nfs3_mkdir no_dexdr = xdr_to_mkdir3args x
  xdr_to_args nfs3_symlink no_dexdr = xdr_to_symlink3args x
  xdr_to_args nfs3_mknod no_dexdr = xdr_to_mknod3args x
  xdr_to_args nfs3_remove no_dexdr = xdr_to_remove3args x
  xdr_to_args nfs3_rmdir no_dexdr = xdr_to_rmdir3args x
  xdr_to_args nfs3_rename no_dexdr = xdr_to_rename3args x
  xdr_to_args nfs3_link no_dexdr = xdr_to_link3args x
  xdr_to_args nfs3_readdir no_dexdr = xdr_to_readdir3args x
  xdr_to_args nfs3_readdirplus no_dexdr = xdr_to_readdirplus3args x
  xdr_to_args nfs3_fsstat no_dexdr = xdr_to_fsstat3args x
  xdr_to_args nfs3_fsinfo no_dexdr = xdr_to_fsinfoargs x
  xdr_to_args nfs3_pathconf no_dexdr = xdr_to_pathconf3args x
  xdr_to_args nfs3_commit no_dexdr = xdr_to_commit3args x

  pub xdr_to_args_lem :
      (p : Proc) (no_dexdr : Bool) → xdr_to_args p no_dexdr ≡ xdr_to (xdr_args x no_dexdr p)
  unfolding xdr_to_args xdr_to_getattr3args xdr_to_setattr3args xdr_to_lookup3args
      xdr_to_access3args xdr_to_readlink3args xdr_to_read3args xdr_to_write3args xdr_to_create3args
      xdr_to_mkdir3args xdr_to_symlink3args xdr_to_mknod3args xdr_to_remove3args xdr_to_rmdir3args
      xdr_to_rename3args xdr_to_link3args xdr_to_readdir3args xdr_to_readdirplus3args
      xdr_to_fsstat3args xdr_to_fsinfoargs xdr_to_pathconf3args xdr_to_commit3args
  xdr_to_args_lem nfs3_null no_dexdr = refl
  xdr_to_args_lem nfs3_getattr no_dexdr = refl
  xdr_to_args_lem nfs3_setattr no_dexdr = refl
  xdr_to_args_lem nfs3_lookup no_dexdr = refl
  xdr_to_args_lem nfs3_access no_dexdr = refl
  xdr_to_args_lem nfs3_readlink no_dexdr = refl
  xdr_to_args_lem nfs3_read no_dexdr = refl
  xdr_to_args_lem nfs3_write no_dexdr = refl
  xdr_to_args_lem nfs3_create no_dexdr = refl
  xdr_to_args_lem nfs3_mkdir no_dexdr = refl
  xdr_to_args_lem nfs3_symlink no_dexdr = refl
  xdr_to_args_lem nfs3_mknod no_dexdr = refl
  xdr_to_args_lem nfs3_remove no_dexdr = refl
  xdr_to_args_lem nfs3_rmdir no_dexdr = refl
  xdr_to_args_lem nfs3_rename no_dexdr = refl
  xdr_to_args_lem nfs3_link no_dexdr = refl
  xdr_to_args_lem nfs3_readdir no_dexdr = refl
  xdr_to_args_lem nfs3_readdirplus no_dexdr = refl
  xdr_to_args_lem nfs3_fsstat no_dexdr = refl
  xdr_to_args_lem nfs3_fsinfo no_dexdr = refl
  xdr_to_args_lem nfs3_pathconf no_dexdr = refl
  xdr_to_args_lem nfs3_commit no_dexdr = refl

  -- The function of each procedure. No function reads the messages of NFS3_NULL.
  unfoldable pub xdr_to_res : (p : Proc) → Bool → Bool → Option (List ℕ) → ℕ → Option (Res p)
  unfolding xdr_to xdr_to_getattr3res xdr_to_setattr3res xdr_to_lookup3res xdr_to_access3res
      xdr_to_readlink3res xdr_to_read3res xdr_to_write3res xdr_to_create3res xdr_to_mkdir3res
      xdr_to_symlink3res xdr_to_mknod3res xdr_to_remove3res xdr_to_rmdir3res xdr_to_rename3res
      xdr_to_link3res xdr_to_readdir3res xdr_to_readdirplus3res xdr_to_fsstat3res xdr_to_fsinfo3res
      xdr_to_pathconf3res xdr_to_commit3res
  xdr_to_res nfs3_null no_dexdr = xdr_to void
  xdr_to_res nfs3_getattr no_dexdr = xdr_to_getattr3res x
  xdr_to_res nfs3_setattr no_dexdr = xdr_to_setattr3res x
  xdr_to_res nfs3_lookup no_dexdr = xdr_to_lookup3res x
  xdr_to_res nfs3_access no_dexdr = xdr_to_access3res x
  xdr_to_res nfs3_readlink no_dexdr = xdr_to_readlink3res x
  xdr_to_res nfs3_read no_dexdr = xdr_to_read3res x no_dexdr
  xdr_to_res nfs3_write no_dexdr = xdr_to_write3res x
  xdr_to_res nfs3_create no_dexdr = xdr_to_create3res x
  xdr_to_res nfs3_mkdir no_dexdr = xdr_to_mkdir3res x
  xdr_to_res nfs3_symlink no_dexdr = xdr_to_symlink3res x
  xdr_to_res nfs3_mknod no_dexdr = xdr_to_mknod3res x
  xdr_to_res nfs3_remove no_dexdr = xdr_to_remove3res x
  xdr_to_res nfs3_rmdir no_dexdr = xdr_to_rmdir3res x
  xdr_to_res nfs3_rename no_dexdr = xdr_to_rename3res x
  xdr_to_res nfs3_link no_dexdr = xdr_to_link3res x
  xdr_to_res nfs3_readdir no_dexdr = xdr_to_readdir3res x
  xdr_to_res nfs3_readdirplus no_dexdr = xdr_to_readdirplus3res x
  xdr_to_res nfs3_fsstat no_dexdr = xdr_to_fsstat3res x
  xdr_to_res nfs3_fsinfo no_dexdr = xdr_to_fsinfo3res x
  xdr_to_res nfs3_pathconf no_dexdr = xdr_to_pathconf3res x
  xdr_to_res nfs3_commit no_dexdr = xdr_to_commit3res x

  pub xdr_to_res_lem :
      (p : Proc) (no_dexdr : Bool) → xdr_to_res p no_dexdr ≡ xdr_to (xdr_res x no_dexdr p)
  unfolding xdr_to_res xdr_to_getattr3res xdr_to_setattr3res xdr_to_lookup3res xdr_to_access3res
      xdr_to_readlink3res xdr_to_read3res xdr_to_write3res xdr_to_create3res xdr_to_mkdir3res
      xdr_to_symlink3res xdr_to_mknod3res xdr_to_remove3res xdr_to_rmdir3res xdr_to_rename3res
      xdr_to_link3res xdr_to_readdir3res xdr_to_readdirplus3res xdr_to_fsstat3res xdr_to_fsinfo3res
      xdr_to_pathconf3res xdr_to_commit3res
  xdr_to_res_lem nfs3_null no_dexdr = refl
  xdr_to_res_lem nfs3_getattr no_dexdr = refl
  xdr_to_res_lem nfs3_setattr no_dexdr = refl
  xdr_to_res_lem nfs3_lookup no_dexdr = refl
  xdr_to_res_lem nfs3_access no_dexdr = refl
  xdr_to_res_lem nfs3_readlink no_dexdr = refl
  xdr_to_res_lem nfs3_read no_dexdr = refl
  xdr_to_res_lem nfs3_write no_dexdr = refl
  xdr_to_res_lem nfs3_create no_dexdr = refl
  xdr_to_res_lem nfs3_mkdir no_dexdr = refl
  xdr_to_res_lem nfs3_symlink no_dexdr = refl
  xdr_to_res_lem nfs3_mknod no_dexdr = refl
  xdr_to_res_lem nfs3_remove no_dexdr = refl
  xdr_to_res_lem nfs3_rmdir no_dexdr = refl
  xdr_to_res_lem nfs3_rename no_dexdr = refl
  xdr_to_res_lem nfs3_link no_dexdr = refl
  xdr_to_res_lem nfs3_readdir no_dexdr = refl
  xdr_to_res_lem nfs3_readdirplus no_dexdr = refl
  xdr_to_res_lem nfs3_fsstat no_dexdr = refl
  xdr_to_res_lem nfs3_fsinfo no_dexdr = refl
  xdr_to_res_lem nfs3_pathconf no_dexdr = refl
  xdr_to_res_lem nfs3_commit no_dexdr = refl
