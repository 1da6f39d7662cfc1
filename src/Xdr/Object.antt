-- ===== src/Xdr/Object.antt =====
-- The routines of src/nfsv3/nfs3_xdr.c for GETATTR, SETATTR, LOOKUP, ACCESS and READLINK.
use unfsclient.Prelude.{ℕ, Option, List}
use unfsclient.Xdr.Codec.{void, via, dep, seq, Codec}
use unfsclient.Xdr.Attr.{
  xdr_nfstime3, xdr_uint32, xdr_post_op_attr, xdr_nfsstat3, Fattr3, NfsFh3, xdr_nfspath3,
  xdr_wcc_data, WccData, xdr_fattr3, Nfstime3, xdr_nfs_fh3,
}
use unfsclient.Xdr.Library.{ok_or, XdrLib, OkOr, optional}
use unfsclient.Xdr.Sattr.{xdr_sattr3, xdr_diropargs3, Diropargs3, Sattr3}

pub record Getattr3args : Type 0 where
  pub object : NfsFh3

pub record Getattr3resok : Type 0 where
  pub obj_attributes : Fattr3

abbrev pub Getattr3res : Type 0
Getattr3res = (status : ℕ) × OkOr Getattr3resok (Unit {0}) status

pub record Setattr3args : Type 0 where
  pub object : NfsFh3
  pub new_attributes : Sattr3
  pub guard : Option Nfstime3

pub record Setattr3resok : Type 0 where
  pub obj_wcc : WccData

pub record Setattr3resfail : Type 0 where
  pub obj_wcc : WccData

abbrev pub Setattr3res : Type 0
Setattr3res = (status : ℕ) × OkOr Setattr3resok Setattr3resfail status

pub record Lookup3args : Type 0 where
  pub what : Diropargs3

pub record Lookup3resok : Type 0 where
  pub object : NfsFh3
  pub obj_attributes : Option Fattr3
  pub dir_attributes : Option Fattr3

pub record Lookup3resfail : Type 0 where
  pub dir_attributes : Option Fattr3

abbrev pub Lookup3res : Type 0
Lookup3res = (status : ℕ) × OkOr Lookup3resok Lookup3resfail status

pub record Access3args : Type 0 where
  pub object : NfsFh3
  pub access : ℕ

pub record Access3resok : Type 0 where
  pub obj_attributes : Option Fattr3
  pub access : ℕ

pub record Access3resfail : Type 0 where
  pub obj_attributes : Option Fattr3

abbrev pub Access3res : Type 0
Access3res = (status : ℕ) × OkOr Access3resok Access3resfail status

pub record Readlink3args : Type 0 where
  pub symlink : NfsFh3

pub record Readlink3resok : Type 0 where
  pub symlink_attributes : Option Fattr3
  pub data_val : List ℕ

pub record Readlink3resfail : Type 0 where
  pub symlink_attributes : Option Fattr3

abbrev pub Readlink3res : Type 0
Readlink3res = (status : ℕ) × OkOr Readlink3resok Readlink3resfail status

module _ (x : XdrLib) where
  unfoldable pub xdr_getattr3args : Codec Getattr3args
  xdr_getattr3args = via (λ a. record { object = a }) (λ r. r.object) (xdr_nfs_fh3 x)

  unfoldable pub xdr_getattr3resok : Codec Getattr3resok
  xdr_getattr3resok =
      via (λ a. record { obj_attributes = a }) (λ r. r.obj_attributes) (xdr_fattr3 x)

  unfoldable pub xdr_getattr3res : Codec Getattr3res
  xdr_getattr3res = dep (xdr_nfsstat3 x) (ok_or xdr_getattr3resok void)

  unfoldable pub xdr_sattrguard3 : Codec (Option Nfstime3)
  xdr_sattrguard3 = optional x.bool (xdr_nfstime3 x)

  unfoldable pub xdr_setattr3args : Codec Setattr3args
  xdr_setattr3args =
      via (λ (a0, (a1, a2)). record { object = a0; new_attributes = a1; guard = a2 })
        (λ r. (r.object, (r.new_attributes, r.guard)))
        (seq (xdr_nfs_fh3 x) (seq (xdr_sattr3 x) xdr_sattrguard3))

  unfoldable pub xdr_setattr3resok : Codec Setattr3resok
  xdr_setattr3resok = via (λ a. record { obj_wcc = a }) (λ r. r.obj_wcc) (xdr_wcc_data x)

  unfoldable pub xdr_setattr3resfail : Codec Setattr3resfail
  xdr_setattr3resfail = via (λ a. record { obj_wcc = a }) (λ r. r.obj_wcc) (xdr_wcc_data x)

  unfoldable pub xdr_setattr3res : Codec Setattr3res
  xdr_setattr3res = dep (xdr_nfsstat3 x) (ok_or xdr_setattr3resok xdr_setattr3resfail)

  unfoldable pub xdr_lookup3args : Codec Lookup3args
  xdr_lookup3args = via (λ a. record { what = a }) (λ r. r.what) (xdr_diropargs3 x)

  unfoldable pub xdr_lookup3resok : Codec Lookup3resok
  xdr_lookup3resok =
      via (λ (a0, (a1, a2)). record { object = a0; obj_attributes = a1; dir_attributes = a2 })
        (λ r. (r.object, (r.obj_attributes, r.dir_attributes)))
        (seq (xdr_nfs_fh3 x) (seq (xdr_post_op_attr x) (xdr_post_op_attr x)))

  unfoldable pub xdr_lookup3resfail : Codec Lookup3resfail
  xdr_lookup3resfail =
      via (λ a. record { dir_attributes = a }) (λ r. r.dir_attributes) (xdr_post_op_attr x)

  unfoldable pub xdr_lookup3res : Codec Lookup3res
  xdr_lookup3res = dep (xdr_nfsstat3 x) (ok_or xdr_lookup3resok xdr_lookup3resfail)

  unfoldable pub xdr_access3args : Codec Access3args
  xdr_access3args =
      via (λ (a0, a1). record { object = a0; access = a1 }) (λ r. (r.object, r.access))
        (seq (xdr_nfs_fh3 x) (xdr_uint32 x))

  unfoldable pub xdr_access3resok : Codec Access3resok
  xdr_access3resok =
      via (λ (a0, a1). record { obj_attributes = a0; access = a1 })
        (λ r. (r.obj_attributes, r.access)) (seq (xdr_post_op_attr x) (xdr_uint32 x))

  unfoldable pub xdr_access3resfail : Codec Access3resfail
  xdr_access3resfail =
      via (λ a. record { obj_attributes = a }) (λ r. r.obj_attributes) (xdr_post_op_attr x)

  unfoldable pub xdr_access3res : Codec Access3res
  xdr_access3res = dep (xdr_nfsstat3 x) (ok_or xdr_access3resok xdr_access3resfail)

  unfoldable pub xdr_readlink3args : Codec Readlink3args
  xdr_readlink3args = via (λ a. record { symlink = a }) (λ r. r.symlink) (xdr_nfs_fh3 x)

  unfoldable pub xdr_readlink3resok : Codec Readlink3resok
  xdr_readlink3resok =
      via (λ (a0, a1). record { symlink_attributes = a0; data_val = a1 })
        (λ r. (r.symlink_attributes, r.data_val)) (seq (xdr_post_op_attr x) (xdr_nfspath3 x))

  unfoldable pub xdr_readlink3resfail : Codec Readlink3resfail
  xdr_readlink3resfail =
      via (λ a. record { symlink_attributes = a }) (λ r. r.symlink_attributes) (xdr_post_op_attr x)

  unfoldable pub xdr_readlink3res : Codec Readlink3res
  xdr_readlink3res = dep (xdr_nfsstat3 x) (ok_or xdr_readlink3resok xdr_readlink3resfail)
