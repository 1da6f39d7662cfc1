-- ===== src/Xdr/Node.antt =====
-- The routines of src/nfsv3/nfs3_xdr.c for MKNOD.
use unfsclient.Prelude.{ℕ, Option, suc, zero}
use unfsclient.Xdr.Attr.{
  xdr_nfsstat3, xdr_specdata3, Fattr3, xdr_post_op_fh3, NfsFh3, WccData, Specdata3, xdr_wcc_data,
  xdr_ftype3, xdr_post_op_attr,
}
use unfsclient.Xdr.Codec.{Codec, seq, void, via, dep}
use unfsclient.Xdr.Sattr.{xdr_sattr3, Sattr3, xdr_diropargs3, Diropargs3}
use unfsclient.Xdr.Library.{OkOr, ok_or, XdrLib}

pub record Devicedata3 : Type 0 where
  pub dev_attributes : Sattr3
  pub spec : Specdata3

abbrev pub MknodWhat : ℕ → Type 0
MknodWhat zero = Unit {0}
MknodWhat (suc zero) = Unit {0}
MknodWhat (suc (suc zero)) = Unit {0}
MknodWhat (suc (suc (suc zero))) = Devicedata3
MknodWhat (suc (suc (suc (suc zero)))) = Devicedata3
MknodWhat (suc (suc (suc (suc (suc zero))))) = Unit {0}
MknodWhat (suc (suc (suc (suc (suc (suc zero)))))) = Sattr3
MknodWhat (suc (suc (suc (suc (suc (suc (suc zero))))))) = Sattr3
MknodWhat (suc (suc (suc (suc (suc (suc (suc (suc n)))))))) = Unit {0}

abbrev pub Mknoddata3 : Type 0
Mknoddata3 = (type : ℕ) × MknodWhat type

pub record Mknod3args : Type 0 where
  pub where_dir : Diropargs3
  pub what : Mknoddata3

pub record Mknod3resok : Type 0 where
  pub obj : Option NfsFh3
  pub obj_attributes : Option Fattr3
  pub dir_wcc : WccData

pub record Mknod3resfail : Type 0 where
  pub dir_wcc : WccData

abbrev pub Mknod3res : Type 0
Mknod3res = (status : ℕ) × OkOr Mknod3resok Mknod3resfail status

module _ (x : XdrLib) where
  unfoldable pub xdr_devicedata3 : Codec Devicedata3
  xdr_devicedata3 =
      via (λ (a0, a1). record { dev_attributes = a0; spec = a1 }) (λ r. (r.dev_attributes, r.spec))
        (seq (xdr_sattr3 x) (xdr_specdata3 x))

  -- NF3BLK is 3, NF3CHR 4, NF3SOCK 6 and NF3FIFO 7.
  abbrev pub mknod_what : (type : ℕ) → Codec (MknodWhat type)
  mknod_what zero = void
  mknod_what (suc zero) = void
  mknod_what (suc (suc zero)) = void
  mknod_what (suc (suc (suc zero))) = xdr_devicedata3
  mknod_what (suc (suc (suc (suc zero)))) = xdr_devicedata3
  mknod_what (suc (suc (suc (suc (suc zero))))) = void
  mknod_what (suc (suc (suc (suc (suc (suc zero)))))) = xdr_sattr3 x
  mknod_what (suc (suc (suc (suc (suc (suc (suc zero))))))) = xdr_sattr3 x
  mknod_what (suc (suc (suc (suc (suc (suc (suc (suc n)))))))) = void

  unfoldable pub xdr_mknoddata3 : Codec Mknoddata3
  xdr_mknoddata3 = dep (xdr_ftype3 x) mknod_what

  unfoldable pub xdr_mknod3args : Codec Mknod3args
  xdr_mknod3args =
      via (λ (a0, a1). record { where_dir = a0; what = a1 }) (λ r. (r.where_dir, r.what))
        (seq (xdr_diropargs3 x) xdr_mknoddata3)

  unfoldable pub xdr_mknod3resok : Codec Mknod3resok
  xdr_mknod3resok =
      via (λ (a0, (a1, a2)). record { obj = a0; obj_attributes = a1; dir_wcc = a2 })
        (λ r. (r.obj, (r.obj_attributes, r.dir_wcc)))
        (seq (xdr_post_op_fh3 x) (seq (xdr_post_op_attr x) (xdr_wcc_data x)))

  unfoldable pub xdr_mknod3resfail : Codec Mknod3resfail
  xdr_mknod3resfail = via (λ a. record { dir_wcc = a }) (λ r. r.dir_wcc) (xdr_wcc_data x)

  unfoldable pub xdr_mknod3res : Codec Mknod3res
  xdr_mknod3res = dep (xdr_nfsstat3 x) (ok_or xdr_mknod3resok xdr_mknod3resfail)
