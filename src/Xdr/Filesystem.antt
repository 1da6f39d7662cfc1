-- ===== src/Xdr/Filesystem.antt =====
-- The routines of src/nfsv3/nfs3_xdr.c for FSSTAT, FSINFO and PATHCONF.
use unfsclient.Prelude.{ℕ, Option, Bool}
use unfsclient.Xdr.Attr.{
  NfsFh3, xdr_uint32, xdr_nfsstat3, xdr_size3, Nfstime3, xdr_nfstime3, xdr_post_op_attr, Fattr3,
  xdr_nfs_fh3,
}
use unfsclient.Xdr.Codec.{seq, Codec, dep, via}
use unfsclient.Xdr.Library.{XdrLib, ok_or, OkOr}

pub record Fsstat3args : Type 0 where
  pub fsroot : NfsFh3

pub record Fsstat3resok : Type 0 where
  pub obj_attributes : Option Fattr3
  pub tbytes : ℕ
  pub fbytes : ℕ
  pub abytes : ℕ
  pub tfiles : ℕ
  pub ffiles : ℕ
  pub afiles : ℕ
  pub invarsec : ℕ

pub record Fsstat3resfail : Type 0 where
  pub obj_attributes : Option Fattr3

abbrev pub Fsstat3res : Type 0
Fsstat3res = (status : ℕ) × OkOr Fsstat3resok Fsstat3resfail status

pub record Fsinfoargs : Type 0 where
  pub fsroot : NfsFh3

pub record Fsinfo3resok : Type 0 where
  pub obj_attributes : Option Fattr3
  pub rtmax : ℕ
  pub rtpref : ℕ
  pub rtmult : ℕ
  pub wtmax : ℕ
  pub wtpref : ℕ
  pub wtmult : ℕ
  pub dtpref : ℕ
  pub maxfilesize : ℕ
  pub time_delta : Nfstime3
  pub properties : ℕ

pub record Fsinfo3resfail : Type 0 where
  pub obj_attributes : Option Fattr3

abbrev pub Fsinfo3res : Type 0
Fsinfo3res = (status : ℕ) × OkOr Fsinfo3resok Fsinfo3resfail status

pub record Pathconf3args : Type 0 where
  pub object : NfsFh3

pub record Pathconf3resok : Type 0 where
  pub obj_attributes : Option Fattr3
  pub linkmax : ℕ
  pub name_max : ℕ
  pub no_trunc : Bool
  pub chown_restricted : Bool
  pub case_insensitive : Bool
  pub case_preserving : Bool

pub record Pathconf3resfail : Type 0 where
  pub obj_attributes : Option Fattr3

abbrev pub Pathconf3res : Type 0
Pathconf3res = (status : ℕ) × OkOr Pathconf3resok Pathconf3resfail status

module _ (x : XdrLib) where
  unfoldable pub xdr_fsstat3args : Codec Fsstat3args
  xdr_fsstat3args = via (λ a. record { fsroot = a }) (λ r. r.fsroot) (xdr_nfs_fh3 x)

  unfoldable pub xdr_fsstat3resok : Codec Fsstat3resok
  xdr_fsstat3resok =
      via
        (λ (a0, (a1, (a2, (a3, (a4, (a5, (a6, a7))))))). record {
          obj_attributes = a0;
          tbytes = a1;
          fbytes = a2;
          abytes = a3;
          tfiles = a4;
          ffiles = a5;
          afiles = a6;
          invarsec = a7;
        })
        (λ r. (
          r.obj_attributes,
          (r.tbytes, (r.fbytes, (r.abytes, (r.tfiles, (r.ffiles, (r.afiles, r.invarsec)))))),
        ))
        (seq (xdr_post_op_attr x) (
          seq (xdr_size3 x) (
            seq (xdr_size3 x) (
              seq (xdr_size3 x)
                (seq (xdr_size3 x) (seq (xdr_size3 x) (seq (xdr_size3 x) (xdr_uint32 x))))))))

  unfoldable pub xdr_fsstat3resfail : Codec Fsstat3resfail
  xdr_fsstat3resfail =
      via (λ a. record { obj_attributes = a }) (λ r. r.obj_attributes) (xdr_post_op_attr x)

  unfoldable pub xdr_fsstat3res : Codec Fsstat3res
  xdr_fsstat3res = dep (xdr_nfsstat3 x) (ok_or xdr_fsstat3resok xdr_fsstat3resfail)

  unfoldable pub xdr_fsinfoargs : Codec Fsinfoargs
  xdr_fsinfoargs = via (λ a. record { fsroot = a }) (λ r. r.fsroot) (xdr_nfs_fh3 x)

  unfoldable pub xdr_fsinfo3resok : Codec Fsinfo3resok
  xdr_fsinfo3resok =
      via
        (λ (a0, (a1, (a2, (a3, (a4, (a5, (a6, (a7, (a8, (a9, a10)))))))))). record {
          obj_attributes = a0;
          rtmax = a1;
          rtpref = a2;
          rtmult = a3;
          wtmax = a4;
          wtpref = a5;
          wtmult = a6;
          dtpref = a7;
          maxfilesize = a8;
          time_delta = a9;
          properties = a10;
        })
        (λ r. (
          r.obj_attributes,
          (
            r.rtmax,
            (
              r.rtpref,
              (
                r.rtmult,
                (
                  r.wtmax,
                  (r.wtpref, (r.wtmult, (r.dtpref, (r.maxfilesize, (r.time_delta, r.properties))))),
                ),
              ),
            ),
          ),
        ))
        (seq (xdr_post_op_attr x) (
          seq (xdr_uint32 x) (
            seq (xdr_uint32 x) (
              seq (xdr_uint32 x) (
                seq (xdr_uint32 x) (
                  seq (xdr_uint32 x) (
                    seq (xdr_uint32 x) (
                      seq (xdr_uint32 x)
                        (seq (xdr_size3 x) (seq (xdr_nfstime3 x) (xdr_uint32 x)))))))))))

  unfoldable pub xdr_fsinfo3resfail : Codec Fsinfo3resfail
  xdr_fsinfo3resfail =
      via (λ a. record { obj_attributes = a }) (λ r. r.obj_attributes) (xdr_post_op_attr x)

  unfoldable pub xdr_fsinfo3res : Codec Fsinfo3res
  xdr_fsinfo3res = dep (xdr_nfsstat3 x) (ok_or xdr_fsinfo3resok xdr_fsinfo3resfail)

  unfoldable pub xdr_pathconf3args : Codec Pathconf3args
  xdr_pathconf3args = via (λ a. record { object = a }) (λ r. r.object) (xdr_nfs_fh3 x)

  unfoldable pub xdr_pathconf3resok : Codec Pathconf3resok
  xdr_pathconf3resok =
      via
        (λ (a0, (a1, (a2, (a3, (a4, (a5, a6)))))). record {
          obj_attributes = a0;
          linkmax = a1;
          name_max = a2;
          no_trunc = a3;
          chown_restricted = a4;
          case_insensitive = a5;
          case_preserving = a6;
        })
        (λ r. (
          r.obj_attributes,
          (
            r.linkmax,
            (
              r.name_max,
              (r.no_trunc, (r.chown_restricted, (r.case_insensitive, r.case_preserving))),
            ),
          ),
        ))
        (seq (xdr_post_op_attr x)
          (seq (xdr_uint32 x) (seq (xdr_uint32 x) (seq x.bool (seq x.bool (seq x.bool x.bool))))))

  unfoldable pub xdr_pathconf3resfail : Codec Pathconf3resfail
  xdr_pathconf3resfail =
      via (λ a. record { obj_attributes = a }) (λ r. r.obj_attributes) (xdr_post_op_attr x)

  unfoldable pub xdr_pathconf3res : Codec Pathconf3res
  xdr_pathconf3res = dep (xdr_nfsstat3 x) (ok_or xdr_pathconf3resok xdr_pathconf3resfail)
