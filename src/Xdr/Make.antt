-- ===== src/Xdr/Make.antt =====
-- The routines of src/nfsv3/nfs3_xdr.c for CREATE, MKDIR, SYMLINK and MKNOD.
use unfsclient.Prelude.{ℕ, suc, Option, zero, List}
use unfsclient.Xdr.Sattr.{Sattr3, Diropargs3, xdr_sattr3, xdr_diropargs3}
use unfsclient.Xdr.Attr.{
  NfsFh3, xdr_wcc_data, WccData, xdr_post_op_attr, xdr_nfsstat3, xdr_post_op_fh3, xdr_createverf3,
  xdr_nfspath3, Fattr3,
}
use unfsclient.Xdr.Library.{ok_or, XdrLib, OkOr}
use unfsclient.Xdr.Codec.{Codec, dep, refuse, via, seq}

abbrev pub CreateHow : ℕ → Type 0
CreateHow zero = Sattr3
CreateHow (suc zero) = Sattr3
CreateHow (suc (suc zero)) = List ℕ
CreateHow (suc (suc (suc n))) = Unit {0}

abbrev pub Createhow3 : Type 0
Createhow3 = (mode : ℕ) × CreateHow mode

pub record Create3args : Type 0 where
  pub where_dir : Diropargs3
  pub how : Createhow3

pub record Create3resok : Type 0 where
  pub obj : Option NfsFh3
  pub obj_attributes : Option Fattr3
  pub dir_wcc : WccData

pub record Create3resfail : Type 0 where
  pub dir_wcc : WccData

abbrev pub Create3res : Type 0
Create3res = (status : ℕ) × OkOr Create3resok Create3resfail status

pub record Mkdir3args : Type 0 where
  pub where_dir : Diropargs3
  pub attributes : Sattr3

pub record Mkdir3resok : Type 0 where
  pub obj : Option NfsFh3
  pub obj_attributes : Option Fattr3
  pub dir_wcc : WccData

pub record Mkdir3resfail : Type 0 where
  pub dir_wcc : WccData

abbrev pub Mkdir3res : Type 0
Mkdir3res = (status : ℕ) × OkOr Mkdir3resok Mkdir3resfail status

pub record Symlinkdata3 : Type 0 where
  pub symlink_attributes : Sattr3
  pub symlink_data : List ℕ

pub record Symlink3args : Type 0 where
  pub where_dir : Diropargs3
  pub symlink : Symlinkdata3

pub record Symlink3resok : Type 0 where
  pub obj : Option NfsFh3
  pub obj_attributes : Option Fattr3
  pub dir_wcc : WccData

pub record Symlink3resfail : Type 0 where
  pub dir_wcc : WccData

abbrev pub Symlink3res : Type 0
Symlink3res = (status : ℕ) × OkOr Symlink3resok Symlink3resfail status

module _ (x : XdrLib) where
  unfoldable pub xdr_createmode3 : Codec ℕ
  xdr_createmode3 = x.enum

  -- UNCHECKED, GUARDED, EXCLUSIVE, and a mode that is refused.
  abbrev pub create_how : (mode : ℕ) → Codec (CreateHow mode)
  create_how zero = xdr_sattr3 x
  create_how (suc zero) = xdr_sattr3 x
  create_how (suc (suc zero)) = xdr_createverf3 x
  create_how (suc (suc (suc n))) = refuse

  unfoldable pub xdr_createhow3 : Codec Createhow3
  xdr_createhow3 = dep xdr_createmode3 create_how

  unfoldable pub xdr_create3args : Codec Create3args
  xdr_create3args =
      via (λ (a0, a1). record { where_dir = a0; how = a1 }) (λ r. (r.where_dir, r.how))
        (seq (xdr_diropargs3 x) xdr_createhow3)

  unfoldable pub xdr_create3resok : Codec Create3resok
  xdr_create3resok =
      via (λ (a0, (a1, a2)). record { obj = a0; obj_attributes = a1; dir_wcc = a2 })
        (λ r. (r.obj, (r.obj_attributes, r.dir_wcc)))
        (seq (xdr_post_op_fh3 x) (seq (xdr_post_op_attr x) (xdr_wcc_data x)))

  unfoldable pub xdr_create3resfail : Codec Create3resfail
  xdr_create3resfail = via (λ a. record { dir_wcc = a }) (λ r. r.dir_wcc) (xdr_wcc_data x)

  unfoldable pub xdr_create3res : Codec Create3res
  xdr_create3res = dep (xdr_nfsstat3 x) (ok_or xdr_create3resok xdr_create3resfail)

  unfoldable pub xdr_mkdir3args : Codec Mkdir3args
  xdr_mkdir3args =
      via (λ (a0, a1). record { where_dir = a0; attributes = a1 })
        (λ r. (r.where_dir, r.attributes)) (seq (xdr_diropargs3 x) (xdr_sattr3 x))

  unfoldable pub xdr_mkdir3resok : Codec Mkdir3resok
  xdr_mkdir3resok =
      via (λ (a0, (a1, a2)). record { obj = a0; obj_attributes = a1; dir_wcc = a2 })
        (λ r. (r.obj, (r.obj_attributes, r.dir_wcc)))
        (seq (xdr_post_op_fh3 x) (seq (xdr_post_op_attr x) (xdr_wcc_data x)))

  unfoldable pub xdr_mkdir3resfail : Codec Mkdir3resfail
  xdr_mkdir3resfail = via (λ a. record { dir_wcc = a }) (λ r. r.dir_wcc) (xdr_wcc_data x)

  unfoldable pub xdr_mkdir3res : Codec Mkdir3res
  xdr_mkdir3res = dep (xdr_nfsstat3 x) (ok_or xdr_mkdir3resok xdr_mkdir3resfail)

  unfoldable pub xdr_symlinkdata3 : Codec Symlinkdata3
  xdr_symlinkdata3 =
      via (λ (a0, a1). record { symlink_attributes = a0; symlink_data = a1 })
        (λ r. (r.symlink_attributes, r.symlink_data)) (seq (xdr_sattr3 x) (xdr_nfspath3 x))

  unfoldable pub xdr_symlink3args : Codec Symlink3args
  xdr_symlink3args =
      via (λ (a0, a1). record { where_dir = a0; symlink = a1 }) (λ r. (r.where_dir, r.symlink))
        (seq (xdr_diropargs3 x) xdr_symlinkdata3)

  unfoldable pub xdr_symlink3resok : Codec Symlink3resok
  xdr_symlink3resok =
      via (λ (a0, (a1, a2)). record { obj = a0; obj_attributes = a1; dir_wcc = a2 })
        (λ r. (r.obj, (r.obj_attributes, r.dir_wcc)))
        (seq (xdr_post_op_fh3 x) (seq (xdr_post_op_attr x) (xdr_wcc_data x)))

  unfoldable pub xdr_symlink3resfail : Codec Symlink3resfail
  xdr_symlink3resfail = via (λ a. record { dir_wcc = a }) (λ r. r.dir_wcc) (xdr_wcc_data x)

  unfoldable pub xdr_symlink3res : Codec Symlink3res
  xdr_symlink3res = dep (xdr_nfsstat3 x) (ok_or xdr_symlink3resok xdr_symlink3resfail)
