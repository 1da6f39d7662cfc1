-- ===== src/Nfs3/Convert.antt =====
-- The xdr_to_* functions of src/nfsv3/nfs3.c.

use unfsclient.Prelude.{ℕ, if◌then◌else◌, List, none, Option, some, Bool, take}
use unfsclient.Xdr.Data.{
  xdr_read3args, xdr_commit3args, Commit3args, Write3args, xdr_write3args, Commit3res,
  xdr_write3res, xdr_commit3res, Read3args, Write3res, Read3res, xdr_read3res,
}
use unfsclient.Xdr.Object.{
  Setattr3args, xdr_readlink3res, xdr_access3args, Lookup3args, xdr_getattr3args, xdr_access3res,
  Getattr3args, xdr_readlink3args, Lookup3res, Access3res, Setattr3res, xdr_lookup3args,
  xdr_getattr3res, Getattr3res, xdr_setattr3res, xdr_lookup3res, Readlink3args, Access3args,
  xdr_setattr3args, Readlink3res,
}
use unfsclient.Xdr.Make.{
  xdr_mkdir3res, Create3res, Create3args, xdr_create3res, Symlink3res, xdr_create3args,
  xdr_symlink3args, Symlink3args, Mkdir3args, xdr_symlink3res, xdr_mkdir3args, Mkdir3res,
}
use unfsclient.Xdr.Remove.{
  xdr_rename3args, Remove3res, xdr_link3res, xdr_link3args, xdr_rmdir3args, Link3args, Link3res,
  xdr_remove3args, xdr_remove3res, Rmdir3args, xdr_rmdir3res, Remove3args, Rename3args, Rmdir3res,
  Rename3res, xdr_rename3res,
}
use unfsclient.Xdr.Node.{Mknod3args, Mknod3res, xdr_mknod3args, xdr_mknod3res}
use unfsclient.Xdr.Filesystem.{
  Fsinfo3res, Pathconf3res, xdr_fsstat3args, Fsinfoargs, xdr_pathconf3args, Pathconf3args,
  xdr_fsinfoargs, xdr_fsinfo3res, xdr_fsstat3res, Fsstat3res, xdr_pathconf3res, Fsstat3args,
}
use unfsclient.Xdr.Directory.{
  xdr_readdir3res, xdr_readdirplus3args, Readdirplus3args, xdr_readdir3args, Readdir3res,
  Readdir3args, Readdirplus3res, xdr_readdirplus3res,
}
use unfsclient.Xdr.Codec.{◌>>?◌, Codec}
use unfsclient.Xdr.Library.{XdrLib}
use unfsclient.Rpc.Sample.{alloc}

-- What each function does around its routine: `none` is NULL, `alloc` says whether mem_alloc has
-- memory for the struct, and the stream is the first `len` bytes of the message.
unfoldable pub xdr_to : {A : Type 0} → Codec A → Bool → Option (List ℕ) → ℕ → Option A
xdr_to c alloc none len = none
xdr_to c alloc (some msg) len =
    if alloc then (c.decode (take len msg) >>? λ (a, behind). some a) else none

module _ (x : XdrLib) where
  unfoldable pub xdr_to_getattr3args : Bool → Option (List ℕ) → ℕ → Option Getattr3args
  unfolding xdr_to
  xdr_to_getattr3args = xdr_to (xdr_getattr3args x)

  unfoldable pub xdr_to_getattr3res : Bool → Option (List ℕ) → ℕ → Option Getattr3res
  unfolding xdr_to
  xdr_to_getattr3res = xdr_to (xdr_getattr3res x)

  unfoldable pub xdr_to_setattr3args : Bool → Option (List ℕ) → ℕ → Option Setattr3args
  unfolding xdr_to
  xdr_to_setattr3args = xdr_to (xdr_setattr3args x)

  unfoldable pub xdr_to_setattr3res : Bool → Option (List ℕ) → ℕ → Option Setattr3res
  unfolding xdr_to
  xdr_to_setattr3res = xdr_to (xdr_setattr3res x)

  unfoldable pub xdr_to_lookup3args : Bool → Option (List ℕ) → ℕ → Option Lookup3args
  unfolding xdr_to
  xdr_to_lookup3args = xdr_to (xdr_lookup3args x)

  unfoldable pub xdr_to_lookup3res : Bool → Option (List ℕ) → ℕ → Option Lookup3res
  unfolding xdr_to
  xdr_to_lookup3res = xdr_to (xdr_lookup3res x)

  unfoldable pub xdr_to_access3args : Bool → Option (List ℕ) → ℕ → Option Access3args
  unfolding xdr_to
  xdr_to_access3args = xdr_to (xdr_access3args x)

  unfoldable pub xdr_to_access3res : Bool → Option (List ℕ) → ℕ → Option Access3res
  unfolding xdr_to
  xdr_to_access3res = xdr_to (xdr_access3res x)

  unfoldable pub xdr_to_readlink3args : Bool → Option (List ℕ) → ℕ → Option Readlink3args
  unfolding xdr_to
  xdr_to_readlink3args = xdr_to (xdr_readlink3args x)

  unfoldable pub xdr_to_readlink3res : Bool → Option (List ℕ) → ℕ → Option Readlink3res
  unfolding xdr_to
  xdr_to_readlink3res = xdr_to (xdr_readlink3res x)

  unfoldable pub xdr_to_read3args : Bool → Option (List ℕ) → ℕ → Option Read3args
  unfolding xdr_to
  xdr_to_read3args = xdr_to (xdr_read3args x)

  unfoldable pub xdr_to_read3res : Bool → Bool → Option (List ℕ) → ℕ → Option Read3res
  unfolding xdr_to
  xdr_to_read3res no_dexdr = xdr_to (xdr_read3res x no_dexdr)

  unfoldable pub xdr_to_write3args : Bool → Bool → Option (List ℕ) → ℕ → Option Write3args
  unfolding xdr_to
  xdr_to_write3args no_dexdr = xdr_to (xdr_write3args x no_dexdr)

  unfoldable pub xdr_to_write3res : Bool → Option (List ℕ) → ℕ → Option Write3res
  unfolding xdr_to
  xdr_to_write3res = xdr_to (xdr_write3res x)

  unfoldable pub xdr_to_create3args : Bool → Option (List ℕ) → ℕ → Option Create3args
  unfolding xdr_to
  xdr_to_create3args = xdr_to (xdr_create3args x)

  unfoldable pub xdr_to_create3res : Bool → Option (List ℕ) → ℕ → Option Create3res
  unfolding xdr_to
  xdr_to_create3res = xdr_to (xdr_create3res x)

  unfoldable pub xdr_to_mkdir3args : Bool → Option (List ℕ) → ℕ → Option Mkdir3args
  unfolding xdr_to
  xdr_to_mkdir3args = xdr_to (xdr_mkdir3args x)

  unfoldable pub xdr_to_mkdir3res : Bool → Option (List ℕ) → ℕ → Option Mkdir3res
  unfolding xdr_to
  xdr_to_mkdir3res = xdr_to (xdr_mkdir3res x)

  unfoldable pub xdr_to_symlink3args : Bool → Option (List ℕ) → ℕ → Option Symlink3args
  unfolding xdr_to
  xdr_to_symlink3args = xdr_to (xdr_symlink3args x)

  unfoldable pub xdr_to_symlink3res : Bool → Option (List ℕ) → ℕ → Option Symlink3res
  unfolding xdr_to
  xdr_to_symlink3res = xdr_to (xdr_symlink3res x)

  unfoldable pub xdr_to_mknod3args : Bool → Option (List ℕ) → ℕ → Option Mknod3args
  unfolding xdr_to
  xdr_to_mknod3args = xdr_to (xdr_mknod3args x)

  unfoldable pub xdr_to_mknod3res : Bool → Option (List ℕ) → ℕ → Option Mknod3res
  unfolding xdr_to
  xdr_to_mknod3res = xdr_to (xdr_mknod3res x)

  unfoldable pub xdr_to_remove3args : Bool → Option (List ℕ) → ℕ → Option Remove3args
  unfolding xdr_to
  xdr_to_remove3args = xdr_to (xdr_remove3args x)

  unfoldable pub xdr_to_remove3res : Bool → Option (List ℕ) → ℕ → Option Remove3res
  unfolding xdr_to
  xdr_to_remove3res = xdr_to (xdr_remove3res x)

  unfoldable pub xdr_to_rmdir3args : Bool → Option (List ℕ) → ℕ → Option Rmdir3args
  unfolding xdr_to
  xdr_to_rmdir3args = xdr_to (xdr_rmdir3args x)

  unfoldable pub xdr_to_rmdir3res : Bool → Option (List ℕ) → ℕ → Option Rmdir3res
  unfolding xdr_to
  xdr_to_rmdir3res = xdr_to (xdr_rmdir3res x)

  unfoldable pub xdr_to_rename3args : Bool → Option (List ℕ) → ℕ → Option Rename3args
  unfolding xdr_to
  xdr_to_rename3args = xdr_to (xdr_rename3args x)

  unfoldable pub xdr_to_rename3res : Bool → Option (List ℕ) → ℕ → Option Rename3res
  unfolding xdr_to
  xdr_to_rename3res = xdr_to (xdr_rename3res x)

  unfoldable pub xdr_to_link3args : Bool → Option (List ℕ) → ℕ → Option Link3args
  unfolding xdr_to
  xdr_to_link3args = xdr_to (xdr_link3args x)

  unfoldable pub xdr_to_link3res : Bool → Option (List ℕ) → ℕ → Option Link3res
  unfolding xdr_to
  xdr_to_link3res = xdr_to (xdr_link3res x)

  unfoldable pub xdr_to_readdir3args : Bool → Option (List ℕ) → ℕ → Option Readdir3args
  unfolding xdr_to
  xdr_to_readdir3args = xdr_to (xdr_readdir3args x)

  unfoldable pub xdr_to_readdir3res : Bool → Option (List ℕ) → ℕ → Option Readdir3res
  unfolding xdr_to
  xdr_to_readdir3res = xdr_to (xdr_readdir3res x)

  unfoldable pub xdr_to_readdirplus3args : Bool → Option (List ℕ) → ℕ → Option Readdirplus3args
  unfolding xdr_to
  xdr_to_readdirplus3args = xdr_to (xdr_readdirplus3args x)

  unfoldable pub xdr_to_readdirplus3res : Bool → Option (List ℕ) → ℕ → Option Readdirplus3res
  unfolding xdr_to
  xdr_to_readdirplus3res = xdr_to (xdr_readdirplus3res x)

  unfoldable pub xdr_to_fsstat3args : Bool → Option (List ℕ) → ℕ → Option Fsstat3args
  unfolding xdr_to
  xdr_to_fsstat3args = xdr_to (xdr_fsstat3args x)

  unfoldable pub xdr_to_fsstat3res : Bool → Option (List ℕ) → ℕ → Option Fsstat3res
  unfolding xdr_to
  xdr_to_fsstat3res = xdr_to (xdr_fsstat3res x)

  unfoldable pub xdr_to_fsinfoargs : Bool → Option (List ℕ) → ℕ → Option Fsinfoargs
  unfolding xdr_to
  xdr_to_fsinfoargs = xdr_to (xdr_fsinfoargs x)

  unfoldable pub xdr_to_fsinfo3res : Bool → Option (List ℕ) → ℕ → Option Fsinfo3res
  unfolding xdr_to
  xdr_to_fsinfo3res = xdr_to (xdr_fsinfo3res x)

  unfoldable pub xdr_to_pathconf3args : Bool → Option (List ℕ) → ℕ → Option Pathconf3args
  unfolding xdr_to
  xdr_to_pathconf3args = xdr_to (xdr_pathconf3args x)

  unfoldable pub xdr_to_pathconf3res : Bool → Option (List ℕ) → ℕ → Option Pathconf3res
  unfolding xdr_to
  xdr_to_pathconf3res = xdr_to (xdr_pathconf3res x)

  unfoldable pub xdr_to_commit3args : Bool → Option (List ℕ) → ℕ → Option Commit3args
  unfolding xdr_to
  xdr_to_commit3args = xdr_to (xdr_commit3args x)

  unfoldable pub xdr_to_commit3res : Bool → Option (List ℕ) → ℕ → Option Commit3res
  unfolding xdr_to
  xdr_to_commit3res = xdr_to (xdr_commit3res x)
