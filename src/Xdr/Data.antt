-- ===== src/Xdr/Data.antt =====
-- The routines of src/nfsv3/nfs3_xdr.c for READ, WRITE and COMMIT.
use unfsclient.Prelude.{ℕ, false, true, some, List, Bool, Option, []}
use unfsclient.Xdr.Attr.{
  Fattr3, xdr_offset3, xdr_nfsstat3, xdr_nfs_fh3, xdr_wcc_data, xdr_post_op_attr, NfsFh3,
  xdr_writeverf3, WccData, xdr_count3,
}
use unfsclient.Xdr.Codec.{Codec, seq, via, dep}
use unfsclient.Xdr.Library.{ok_or, no_limit, OkOr, XdrLib}

pub record Read3args : Type 0 where
  pub file : NfsFh3
  pub offset : ℕ
  pub count : ℕ

pub record Read3resfail : Type 0 where
  pub file_attributes : Option Fattr3

pub record Write3resok : Type 0 where
  pub file_wcc : WccData
  pub count : ℕ
  pub committed : ℕ
  pub verf : List ℕ

pub record Write3resfail : Type 0 where
  pub file_wcc : WccData

abbrev pub Write3res : Type 0
Write3res = (status : ℕ) × OkOr Write3resok Write3resfail status

pub record Commit3args : Type 0 where
  pub file : NfsFh3
  pub offset : ℕ
  pub count : ℕ

pub record Commit3resok : Type 0 where
  pub file_wcc : WccData
  pub verf : List ℕ

pub record Commit3resfail : Type 0 where
  pub file_wcc : WccData

abbrev pub Commit3res : Type 0
Commit3res = (status : ℕ) × OkOr Commit3resok Commit3resfail status

-- NFS3_DATA_NO_DEXDR: the payload is left where it is in the stream.
unfoldable pub skipped : Codec (List ℕ)
skipped = record { encode = λ _. some []; decode = λ bs. some ([], bs) }

pub record Read3resok : Type 0 where
  pub file_attributes : Option Fattr3
  pub count : ℕ
  pub eof : Bool
  pub data_val : List ℕ

pub record Write3args : Type 0 where
  pub file : NfsFh3
  pub offset : ℕ
  pub count : ℕ
  pub stable : ℕ
  pub data_val : List ℕ

abbrev pub Read3res : Type 0
Read3res = (status : ℕ) × OkOr Read3resok Read3resfail status

module _ (x : XdrLib) where
  unfoldable pub xdr_stable_how : Codec ℕ
  xdr_stable_how = x.enum

  unfoldable pub xdr_read3args : Codec Read3args
  xdr_read3args =
      via (λ (a0, (a1, a2)). record { file = a0; offset = a1; count = a2 })
        (λ r. (r.file, (r.offset, r.count)))
        (seq (xdr_nfs_fh3 x) (seq (xdr_offset3 x) (xdr_count3 x)))

  unfoldable pub xdr_read3resfail : Codec Read3resfail
  xdr_read3resfail =
      via (λ a. record { file_attributes = a }) (λ r. r.file_attributes) (xdr_post_op_attr x)

  unfoldable pub xdr_write3resok : Codec Write3resok
  xdr_write3resok =
      via (λ (a0, (a1, (a2, a3))). record { file_wcc = a0; count = a1; committed = a2; verf = a3 })
        (λ r. (r.file_wcc, (r.count, (r.committed, r.verf))))
        (seq (xdr_wcc_data x) (seq (xdr_count3 x) (seq xdr_stable_how (xdr_writeverf3 x))))

  unfoldable pub xdr_write3resfail : Codec Write3resfail
  xdr_write3resfail = via (λ a. record { file_wcc = a }) (λ r. r.file_wcc) (xdr_wcc_data x)

  unfoldable pub xdr_write3res : Codec Write3res
  xdr_write3res = dep (xdr_nfsstat3 x) (ok_or xdr_write3resok xdr_write3resfail)

  unfoldable pub xdr_commit3args : Codec Commit3args
  xdr_commit3args =
      via (λ (a0, (a1, a2)). record { file = a0; offset = a1; count = a2 })
        (λ r. (r.file, (r.offset, r.count)))
        (seq (xdr_nfs_fh3 x) (seq (xdr_offset3 x) (xdr_count3 x)))

  unfoldable pub xdr_commit3resok : Codec Commit3resok
  xdr_commit3resok =
      via (λ (a0, a1). record { file_wcc = a0; verf = a1 }) (λ r. (r.file_wcc, r.verf))
        (seq (xdr_wcc_data x) (xdr_writeverf3 x))

  unfoldable pub xdr_commit3resfail : Codec Commit3resfail
  xdr_commit3resfail = via (λ a. record { file_wcc = a }) (λ r. r.file_wcc) (xdr_wcc_data x)

  unfoldable pub xdr_commit3res : Codec Commit3res
  xdr_commit3res = dep (xdr_nfsstat3 x) (ok_or xdr_commit3resok xdr_commit3resfail)

  -- The `x_public` field of the XDR stream, __DISABLE_DATA_DEXDR_INTERNAL or not.
  abbrev pub payload : Bool → Codec (List ℕ)
  payload false = x.bytes no_limit
  payload true = skipped

  unfoldable pub xdr_read3resok : Bool → Codec Read3resok
  xdr_read3resok no_dexdr =
      via
        (λ (a0, (a1, (a2, a3))). record {
          file_attributes = a0;
          count = a1;
          eof = a2;
          data_val = a3;
        })
        (λ r. (r.file_attributes, (r.count, (r.eof, r.data_val))))
        (seq (xdr_post_op_attr x) (seq (xdr_count3 x) (seq x.bool (payload no_dexdr))))

  unfoldable pub xdr_write3args : Bool → Codec Write3args
  xdr_write3args no_dexdr =
      via
        (λ (a0, (a1, (a2, (a3, a4)))). record {
          file = a0;
          offset = a1;
          count = a2;
          stable = a3;
          data_val = a4;
        })
        (λ r. (r.file, (r.offset, (r.count, (r.stable, r.data_val)))))
        (seq (xdr_nfs_fh3 x)
          (seq (xdr_offset3 x) (seq (xdr_count3 x) (seq xdr_stable_how (payload no_dexdr)))))

  unfoldable pub xdr_read3res : Bool → Codec Read3res
  xdr_read3res no_dexdr = dep (xdr_nfsstat3 x) (ok_or (xdr_read3resok no_dexdr) xdr_read3resfail)
