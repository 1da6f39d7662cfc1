-- ===== src/Xdr/Laws/Attr.antt =====
-- The codecs of src/nfsv3/nfs3_xdr.c for the basic types, file attributes and the attributes to set can be relied on.
use unfsclient.Prelude.{refl}
use unfsclient.Xdr.Attr.{
  xdr_cookieverf3, xdr_post_op_attr, xdr_int32, xdr_gid3, xdr_ftype3, xdr_uint64, xdr_post_op_fh3,
  xdr_specdata3, xdr_wcc_attr, xdr_cookie3, xdr_fileid3, xdr_nfspath3, xdr_nfstime3, xdr_wcc_data,
  nfs3_cookieverfsize, nfs3_writeverfsize, xdr_writeverf3, xdr_offset3, xdr_filename3, xdr_size3,
  xdr_int64, nfs3_createverfsize, xdr_count3, xdr_nfs_fh3, xdr_uint32, nfs3_fhsize, xdr_pre_op_attr,
  xdr_uid3, xdr_mode3, xdr_createverf3, xdr_fattr3, xdr_nfsstat3,
}
use unfsclient.Xdr.Library.{XdrLib, XdrLaws, optional-IsCodec, no_limit}
use unfsclient.Xdr.Codec.{IsCodec, via-IsCodec, seq-IsCodec}

module _ (x : XdrLib) (laws : XdrLaws x) where
  pub xdr_uint64-IsCodec : IsCodec (xdr_uint64 x)
  unfolding xdr_uint64
  xdr_uint64-IsCodec = laws.u_quad_law

  pub xdr_uint32-IsCodec : IsCodec (xdr_uint32 x)
  unfolding xdr_uint32
  xdr_uint32-IsCodec = laws.u_long_law

  pub xdr_int64-IsCodec : IsCodec (xdr_int64 x)
  unfolding xdr_int64
  xdr_int64-IsCodec = laws.quad_law

  pub xdr_int32-IsCodec : IsCodec (xdr_int32 x)
  unfolding xdr_int32
  xdr_int32-IsCodec = laws.long_law

  pub xdr_filename3-IsCodec : IsCodec (xdr_filename3 x)
  unfolding xdr_filename3
  xdr_filename3-IsCodec = laws.string_law no_limit

  pub xdr_nfspath3-IsCodec : IsCodec (xdr_nfspath3 x)
  unfolding xdr_nfspath3
  xdr_nfspath3-IsCodec = laws.string_law no_limit

  pub xdr_fileid3-IsCodec : IsCodec (xdr_fileid3 x)
  unfolding xdr_fileid3
  xdr_fileid3-IsCodec = xdr_uint64-IsCodec

  pub xdr_cookie3-IsCodec : IsCodec (xdr_cookie3 x)
  unfolding xdr_cookie3
  xdr_cookie3-IsCodec = xdr_uint64-IsCodec

  pub xdr_cookieverf3-IsCodec : IsCodec (xdr_cookieverf3 x)
  unfolding xdr_cookieverf3
  xdr_cookieverf3-IsCodec = laws.opaque_law nfs3_cookieverfsize refl

  pub xdr_createverf3-IsCodec : IsCodec (xdr_createverf3 x)
  unfolding xdr_createverf3
  xdr_createverf3-IsCodec = laws.opaque_law nfs3_createverfsize refl

  pub xdr_writeverf3-IsCodec : IsCodec (xdr_writeverf3 x)
  unfolding xdr_writeverf3
  xdr_writeverf3-IsCodec = laws.opaque_law nfs3_writeverfsize refl

  pub xdr_uid3-IsCodec : IsCodec (xdr_uid3 x)
  unfolding xdr_uid3
  xdr_uid3-IsCodec = xdr_uint32-IsCodec

  pub xdr_gid3-IsCodec : IsCodec (xdr_gid3 x)
  unfolding xdr_gid3
  xdr_gid3-IsCodec = xdr_uint32-IsCodec

  pub xdr_size3-IsCodec : IsCodec (xdr_size3 x)
  unfolding xdr_size3
  xdr_size3-IsCodec = xdr_uint64-IsCodec

  pub xdr_offset3-IsCodec : IsCodec (xdr_offset3 x)
  unfolding xdr_offset3
  xdr_offset3-IsCodec = xdr_uint64-IsCodec

  pub xdr_mode3-IsCodec : IsCodec (xdr_mode3 x)
  unfolding xdr_mode3
  xdr_mode3-IsCodec = xdr_uint32-IsCodec

  pub xdr_count3-IsCodec : IsCodec (xdr_count3 x)
  unfolding xdr_count3
  xdr_count3-IsCodec = xdr_uint32-IsCodec

  pub xdr_nfsstat3-IsCodec : IsCodec (xdr_nfsstat3 x)
  unfolding xdr_nfsstat3
  xdr_nfsstat3-IsCodec = laws.enum_law

  pub xdr_ftype3-IsCodec : IsCodec (xdr_ftype3 x)
  unfolding xdr_ftype3
  xdr_ftype3-IsCodec = laws.enum_law

  pub xdr_specdata3-IsCodec : IsCodec (xdr_specdata3 x)
  unfolding xdr_specdata3
  xdr_specdata3-IsCodec =
      via-IsCodec _ _ (λ r. refl) (seq-IsCodec xdr_uint32-IsCodec xdr_uint32-IsCodec)

  pub xdr_nfs_fh3-IsCodec : IsCodec (xdr_nfs_fh3 x)
  unfolding xdr_nfs_fh3
  xdr_nfs_fh3-IsCodec = via-IsCodec _ _ (λ r. refl) (laws.bytes_law nfs3_fhsize)

  pub xdr_nfstime3-IsCodec : IsCodec (xdr_nfstime3 x)
  unfolding xdr_nfstime3
  xdr_nfstime3-IsCodec =
      via-IsCodec _ _ (λ r. refl) (seq-IsCodec xdr_uint32-IsCodec xdr_uint32-IsCodec)

  pub xdr_fattr3-IsCodec : IsCodec (xdr_fattr3 x)
  unfolding xdr_fattr3
  xdr_fattr3-IsCodec =
      via-IsCodec _ _ (λ r. refl)
        (seq-IsCodec xdr_ftype3-IsCodec (
          seq-IsCodec xdr_mode3-IsCodec (
            seq-IsCodec xdr_uint32-IsCodec (
              seq-IsCodec xdr_uid3-IsCodec (
                seq-IsCodec xdr_gid3-IsCodec (
                  seq-IsCodec xdr_size3-IsCodec (
                    seq-IsCodec xdr_size3-IsCodec (
                      seq-IsCodec xdr_specdata3-IsCodec (
                        seq-IsCodec xdr_uint64-IsCodec (
                          seq-IsCodec xdr_fileid3-IsCodec (
                            seq-IsCodec xdr_nfstime3-IsCodec
                              (seq-IsCodec xdr_nfstime3-IsCodec xdr_nfstime3-IsCodec))))))))))))

  pub xdr_post_op_attr-IsCodec : IsCodec (xdr_post_op_attr x)
  unfolding xdr_post_op_attr
  xdr_post_op_attr-IsCodec = optional-IsCodec laws.bool_law xdr_fattr3-IsCodec

  pub xdr_wcc_attr-IsCodec : IsCodec (xdr_wcc_attr x)
  unfolding xdr_wcc_attr
  xdr_wcc_attr-IsCodec =
      via-IsCodec _ _ (λ r. refl)
        (seq-IsCodec xdr_size3-IsCodec (seq-IsCodec xdr_nfstime3-IsCodec xdr_nfstime3-IsCodec))

  pub xdr_pre_op_attr-IsCodec : IsCodec (xdr_pre_op_attr x)
  unfolding xdr_pre_op_attr
  xdr_pre_op_attr-IsCodec = optional-IsCodec laws.bool_law xdr_wcc_attr-IsCodec

  pub xdr_wcc_data-IsCodec : IsCodec (xdr_wcc_data x)
  unfolding xdr_wcc_data
  xdr_wcc_data-IsCodec =
      via-IsCodec _ _ (λ r. refl) (seq-IsCodec xdr_pre_op_attr-IsCodec xdr_post_op_attr-IsCodec)

  pub xdr_post_op_fh3-IsCodec : IsCodec (xdr_post_op_fh3 x)
  unfolding xdr_post_op_fh3
  xdr_post_op_fh3-IsCodec = optional-IsCodec laws.bool_law xdr_nfs_fh3-IsCodec
