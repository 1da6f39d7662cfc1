-- ===== src/Xdr/Remove.antt =====
-- The routines of src/nfsv3/nfs3_xdr.c for REMOVE, RMDIR, RENAME and LINK.
use unfsclient.Prelude.{ℕ, Option}
use unfsclient.Xdr.Library.{XdrLib, OkOr, ok_or}
use unfsclient.Xdr.Attr.{
  NfsFh3, xdr_nfsstat3, WccData, xdr_nfs_fh3, Fattr3, xdr_post_op_attr, xdr_wcc_data,
}
use unfsclient.Xdr.Codec.{dep, seq, via, Codec}
use unfsclient.Xdr.Sattr.{Diropargs3, xdr_diropargs3}

pub record Remove3args : Type 0 where
  pub object : Diropargs3

pub record Remove3resok : Type 0 where
  pub dir_wcc : WccData

pub record Remove3resfail : Type 0 where
  pub dir_wcc : WccData

abbrev pub Remove3res : Type 0
Remove3res = (status : ℕ) × OkOr Remove3resok Remove3resfail status

pub record Rmdir3args : Type 0 where
  pub object : Diropargs3

pub record Rmdir3resok : Type 0 where
  pub dir_wcc : WccData

pub record Rmdir3resfail : Type 0 where
  pub dir_wcc : WccData

abbrev pub Rmdir3res : Type 0
Rmdir3res = (status : ℕ) × OkOr Rmdir3resok Rmdir3resfail status

pub record Rename3args : Type 0 where
  pub from : Diropargs3
  pub to : Diropargs3

pub record Rename3resok : Type 0 where
  pub fromdir_wcc : WccData
  pub todir_wcc : WccData

pub record Rename3resfail : Type 0 where
  pub fromdir_wcc : WccData
  pub todir_wcc : WccData

abbrev pub Rename3res : Type 0
Rename3res = (status : ℕ) × OkOr Rename3resok Rename3resfail status

pub record Link3args : Type 0 where
  pub file : NfsFh3
  pub link : Diropargs3

pub record Link3resok : Type 0 where
  pub file_attributes : Option Fattr3
  pub linkdir_wcc : WccData

pub record Link3resfail : Type 0 where
  pub file_attributes : Option Fattr3
  pub linkdir_wcc : WccData

abbrev pub Link3res : Type 0
Link3res = (status : ℕ) × OkOr Link3resok Link3resfail status

module _ (x : XdrLib) where
  unfoldable pub xdr_remove3args : Codec Remove3args
  xdr_remove3args = via (λ a. record { object = a }) (λ r. r.object) (xdr_diropargs3 x)

  unfoldable pub xdr_remove3resok : Codec Remove3resok
  xdr_remove3resok = via (λ a. record { dir_wcc = a }) (λ r. r.dir_wcc) (xdr_wcc_data x)

  unfoldable pub xdr_remove3resfail : Codec Remove3resfail
  xdr_remove3resfail = via (λ a. record { dir_wcc = a }) (λ r. r.dir_wcc) (xdr_wcc_data x)

  unfoldable pub xdr_remove3res : Codec Remove3res
  xdr_remove3res = dep (xdr_nfsstat3 x) (ok_or xdr_remove3resok xdr_remove3resfail)

  unfoldable pub xdr_rmdir3args : Codec Rmdir3args
  xdr_rmdir3args = via (λ a. record { object = a }) (λ r. r.object) (xdr_diropargs3 x)

  unfoldable pub xdr_rmdir3resok : Codec Rmdir3resok
  xdr_rmdir3resok = via (λ a. record { dir_wcc = a }) (λ r. r.dir_wcc) (xdr_wcc_data x)

  unfoldable pub xdr_rmdir3resfail : Codec Rmdir3resfail
  xdr_rmdir3resfail = via (λ a. record { dir_wcc = a }) (λ r. r.dir_wcc) (xdr_wcc_data x)

  unfoldable pub xdr_rmdir3res : Codec Rmdir3res
  xdr_rmdir3res = dep (xdr_nfsstat3 x) (ok_or xdr_rmdir3resok xdr_rmdir3resfail)

  unfoldable pub xdr_rename3args : Codec Rename3args
  xdr_rename3args =
      via (λ (a0, a1). record { from = a0; to = a1 }) (λ r. (r.from, r.to))
        (seq (xdr_diropargs3 x) (xdr_diropargs3 x))

  unfoldable pub xdr_rename3resok : Codec Rename3resok
  xdr_rename3resok =
      via (λ (a0, a1). record { fromdir_wcc = a0; todir_wcc = a1 })
        (λ r. (r.fromdir_wcc, r.todir_wcc)) (seq (xdr_wcc_data x) (xdr_wcc_data x))

  unfoldable pub xdr_rename3resfail : Codec Rename3resfail
  xdr_rename3resfail =
      via (λ (a0, a1). record { fromdir_wcc = a0; todir_wcc = a1 })
        (λ r. (r.fromdir_wcc, r.todir_wcc)) (seq (xdr_wcc_data x) (xdr_wcc_data x))

  unfoldable pub xdr_rename3res : Codec Rename3res
  xdr_rename3res = dep (xdr_nfsstat3 x) (ok_or xdr_rename3resok xdr_rename3resfail)

  unfoldable pub xdr_link3args : Codec Link3args
  xdr_link3args =
      via (λ (a0, a1). record { file = a0; link = a1 }) (λ r. (r.file, r.link))
        (seq (xdr_nfs_fh3 x) (xdr_diropargs3 x))

  unfoldable pub xdr_link3resok : Codec Link3resok
  xdr_link3resok =
      via (λ (a0, a1). record { file_attributes = a0; linkdir_wcc = a1 })
        (λ r. (r.file_attributes, r.linkdir_wcc)) (seq (xdr_post_op_attr x) (xdr_wcc_data x))

  unfoldable pub xdr_link3resfail : Codec Link3resfail
  xdr_link3resfail =
      via (λ (a0, a1). record { file_attributes = a0; linkdir_wcc = a1 })
        (λ r. (r.file_attributes, r.linkdir_wcc)) (seq (xdr_post_op_attr x) (xdr_wcc_data x))

  unfoldable pub xdr_link3res : Codec Link3res
  xdr_link3res = dep (xdr_nfsstat3 x) (ok_or xdr_link3resok xdr_link3resfail)
