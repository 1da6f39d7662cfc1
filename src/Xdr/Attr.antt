-- ===== src/Xdr/Attr.antt =====
-- The routines of src/nfsv3/nfs3_xdr.c for the basic types, file attributes and the attributes to set.
use unfsclient.Prelude.{ℕ, List, ℤ, Option}
use unfsclient.Xdr.Library.{optional, XdrLib, no_limit}
use unfsclient.Xdr.Codec.{seq, via, Codec}

abbrev pub nfs3_cookieverfsize : ℕ
nfs3_cookieverfsize = 8

abbrev pub nfs3_createverfsize : ℕ
nfs3_createverfsize = 8

abbrev pub nfs3_writeverfsize : ℕ
nfs3_writeverfsize = 8

pub record Specdata3 : Type 0 where
  pub specdata1 : ℕ
  pub specdata2 : ℕ

abbrev pub nfs3_fhsize : ℕ
nfs3_fhsize = 64

pub record NfsFh3 : Type 0 where
  pub data_val : List ℕ

pub record Nfstime3 : Type 0 where
  pub seconds : ℕ
  pub nseconds : ℕ

pub record Fattr3 : Type 0 where
  pub type : ℕ
  pub mode : ℕ
  pub nlink : ℕ
  pub uid : ℕ
  pub gid : ℕ
  pub size : ℕ
  pub used : ℕ
  pub rdev : Specdata3
  pub fsid : ℕ
  pub fileid : ℕ
  pub atime : Nfstime3
  pub mtime : Nfstime3
  pub ctime : Nfstime3

pub record WccAttr : Type 0 where
  pub size : ℕ
  pub mtime : Nfstime3
  pub ctime : Nfstime3

pub record WccData : Type 0 where
  pub before : Option WccAttr
  pub after : Option Fattr3

module _ (x : XdrLib) where
  unfoldable pub xdr_uint64 : Codec ℕ
  xdr_uint64 = x.u_quad

  unfoldable pub xdr_uint32 : Codec ℕ
  xdr_uint32 = x.u_long

  unfoldable pub xdr_int64 : Codec ℤ
  xdr_int64 = x.quad

  unfoldable pub xdr_int32 : Codec ℤ
  xdr_int32 = x.long

  unfoldable pub xdr_filename3 : Codec (List ℕ)
  xdr_filename3 = x.string no_limit

  unfoldable pub xdr_nfspath3 : Codec (List ℕ)
  xdr_nfspath3 = x.string no_limit

  unfoldable pub xdr_fileid3 : Codec ℕ
  xdr_fileid3 = xdr_uint64

  unfoldable pub xdr_cookie3 : Codec ℕ
  xdr_cookie3 = xdr_uint64

  unfoldable pub xdr_cookieverf3 : Codec (List ℕ)
  xdr_cookieverf3 = x.opaque nfs3_cookieverfsize

  unfoldable pub xdr_createverf3 : Codec (List ℕ)
  xdr_createverf3 = x.opaque nfs3_createverfsize

  unfoldable pub xdr_writeverf3 : Codec (List ℕ)
  xdr_writeverf3 = x.opaque nfs3_writeverfsize

  unfoldable pub xdr_uid3 : Codec ℕ
  xdr_uid3 = xdr_uint32

  unfoldable pub xdr_gid3 : Codec ℕ
  xdr_gid3 = xdr_uint32

  unfoldable pub xdr_size3 : Codec ℕ
  xdr_size3 = xdr_uint64

  unfoldable pub xdr_offset3 : Codec ℕ
  xdr_offset3 = xdr_uint64

  unfoldable pub xdr_mode3 : Codec ℕ
  xdr_mode3 = xdr_uint32

  unfoldable pub xdr_count3 : Codec ℕ
  xdr_count3 = xdr_uint32

  unfoldable pub xdr_nfsstat3 : Codec ℕ
  xdr_nfsstat3 = x.enum

  unfoldable pub xdr_ftype3 : Codec ℕ
  xdr_ftype3 = x.enum

  unfoldable pub xdr_specdata3 : Codec Specdata3
  xdr_specdata3 =
      via (λ (a0, a1). record { specdata1 = a0; specdata2 = a1 }) (λ r. (r.specdata1, r.specdata2))
        (seq xdr_uint32 xdr_uint32)

  unfoldable pub xdr_nfs_fh3 : Codec NfsFh3
  xdr_nfs_fh3 = via (λ a. record { data_val = a }) (λ r. r.data_val) (x.bytes nfs3_fhsize)

  unfoldable pub xdr_nfstime3 : Codec Nfstime3
  xdr_nfstime3 =
      via (λ (a0, a1). record { seconds = a0; nseconds = a1 }) (λ r. (r.seconds, r.nseconds))
        (seq xdr_uint32 xdr_uint32)

  unfoldable pub xdr_fattr3 : Codec Fattr3
  xdr_fattr3 =
      via
        (λ (a0, (a1, (a2, (a3, (a4, (a5, (a6, (a7, (a8, (a9, (a10, (a11, a12)))))))))))). record {
          type = a0;
          mode = a1;
          nlink = a2;
          uid = a3;
          gid = a4;
          size = a5;
          used = a6;
          rdev = a7;
          fsid = a8;
          fileid = a9;
          atime = a10;
          mtime = a11;
          ctime = a12;
        })
        (λ r. (
          r.type,
          (
            r.mode,
            (
              r.nlink,
              (
                r.uid,
                (
                  r.gid,
                  (r.size, (r.used, (r.rdev, (r.fsid, (r.fileid, (r.atime, (r.mtime, r.ctime))))))),
                ),
              ),
            ),
          ),
        ))
        (seq xdr_ftype3 (
          seq xdr_mode3 (
            seq xdr_uint32 (
              seq xdr_uid3 (
                seq xdr_gid3 (
                  seq xdr_size3 (
                    seq xdr_size3 (
                      seq xdr_specdata3 (
                        seq xdr_uint64 (
                          seq xdr_fileid3
                            (seq xdr_nfstime3 (seq xdr_nfstime3 xdr_nfstime3))))))))))))

  unfoldable pub xdr_post_op_attr : Codec (Option Fattr3)
  xdr_post_op_attr = optional x.bool xdr_fattr3

  unfoldable pub xdr_wcc_attr : Codec WccAttr
  xdr_wcc_attr =
      via (λ (a0, (a1, a2)). record { size = a0; mtime = a1; ctime = a2 })
        (λ r. (r.size, (r.mtime, r.ctime))) (seq xdr_size3 (seq xdr_nfstime3 xdr_nfstime3))

  unfoldable pub xdr_pre_op_attr : Codec (Option WccAttr)
  xdr_pre_op_attr = optional x.bool xdr_wcc_attr

  unfoldable pub xdr_wcc_data : Codec WccData
  xdr_wcc_data =
      via (λ (a0, a1). record { before = a0; after = a1 }) (λ r. (r.before, r.after))
        (seq xdr_pre_op_attr xdr_post_op_attr)

  unfoldable pub xdr_post_op_fh3 : Codec (Option NfsFh3)
  xdr_post_op_fh3 = optional x.bool xdr_nfs_fh3
