-- ===== src/Xdr/Laws/Filesystem.antt =====
-- The codecs of src/nfsv3/nfs3_xdr.c for FSSTAT, FSINFO and PATHCONF can be relied on.
use unfsclient.Prelude.{refl}
use unfsclient.Xdr.Filesystem.{
  xdr_pathconf3resok, xdr_fsstat3res, xdr_fsinfoargs, xdr_fsstat3resok, xdr_pathconf3resfail,
  xdr_fsinfo3resfail, xdr_fsstat3args, xdr_fsinfo3res, xdr_pathconf3res, xdr_fsinfo3resok,
  xdr_pathconf3args, xdr_fsstat3resfail,
}
use unfsclient.Xdr.Laws.Attr.{
  xdr_uint32-IsCodec, xdr_nfs_fh3-IsCodec, xdr_post_op_attr-IsCodec, xdr_size3-IsCodec,
  xdr_nfstime3-IsCodec, xdr_nfsstat3-IsCodec,
}
use unfsclient.Xdr.Library.{XdrLaws, XdrLib, ok_or-IsCodec}
use unfsclient.Xdr.Codec.{seq-IsCodec, via-IsCodec, IsCodec}

module _ (x : XdrLib) (laws : XdrLaws x) where
  pub xdr_fsstat3args-IsCodec : IsCodec (xdr_fsstat3args x)
  unfolding xdr_fsstat3args
  xdr_fsstat3args-IsCodec = via-IsCodec _ _ (λ r. refl) (xdr_nfs_fh3-IsCodec x laws)

  pub xdr_fsstat3resok-IsCodec : IsCodec (xdr_fsstat3resok x)
  unfolding xdr_fsstat3resok
  xdr_fsstat3resok-IsCodec =
      via-IsCodec _ _ (λ r. refl)
        (seq-IsCodec (xdr_post_op_attr-IsCodec x laws) (
          seq-IsCodec (xdr_size3-IsCodec x laws) (
            seq-IsCodec (xdr_size3-IsCodec x laws) (
              seq-IsCodec (xdr_size3-IsCodec x laws) (
                seq-IsCodec (xdr_size3-IsCodec x laws) (
                  seq-IsCodec (xdr_size3-IsCodec x laws)
                    (seq-IsCodec (xdr_size3-IsCodec x laws) (xdr_uint32-IsCodec x laws))))))))

  pub xdr_fsstat3resfail-IsCodec : IsCodec (xdr_fsstat3resfail x)
  unfolding xdr_fsstat3resfail
  xdr_fsstat3resfail-IsCodec = via-IsCodec _ _ (λ r. refl) (xdr_post_op_attr-IsCodec x laws)

  pub xdr_fsstat3res-IsCodec : IsCodec (xdr_fsstat3res x)
  unfolding xdr_fsstat3res
  xdr_fsstat3res-IsCodec =
      ok_or-IsCodec (xdr_nfsstat3-IsCodec x laws) xdr_fsstat3resok-IsCodec
        xdr_fsstat3resfail-IsCodec

  pub xdr_fsinfoargs-IsCodec : IsCodec (xdr_fsinfoargs x)
  unfolding xdr_fsinfoargs
  xdr_fsinfoargs-IsCodec = via-IsCodec _ _ (λ r. refl) (xdr_nfs_fh3-IsCodec x laws)

  pub xdr_fsinfo3resok-IsCodec : IsCodec (xdr_fsinfo3resok x)
  unfolding xdr_fsinfo3resok
  xdr_fsinfo3resok-IsCodec =
      via-IsCodec _ _ (λ r. refl)
        (seq-IsCodec (xdr_post_op_attr-IsCodec x laws) (
          seq-IsCodec (xdr_uint32-IsCodec x laws) (
            seq-IsCodec (xdr_uint32-IsCodec x laws) (
              seq-IsCodec (xdr_uint32-IsCodec x laws) (
                seq-IsCodec (xdr_uint32-IsCodec x laws) (
                  seq-IsCodec (xdr_uint32-IsCodec x laws) (
                    seq-IsCodec (xdr_uint32-IsCodec x laws) (
                      seq-IsCodec (xdr_uint32-IsCodec x laws) (
                        seq-IsCodec (xdr_size3-IsCodec x laws) (
                          seq-IsCodec (xdr_nfstime3-IsCodec x laws)
                            (xdr_uint32-IsCodec x laws)))))))))))

  pub xdr_fsinfo3resfail-IsCodec : IsCodec (xdr_fsinfo3resfail x)
  unfolding xdr_fsinfo3resfail
  xdr_fsinfo3resfail-IsCodec = via-IsCodec _ _ (λ r. refl) (xdr_post_op_attr-IsCodec x laws)

  pub xdr_fsinfo3res-IsCodec : IsCodec (xdr_fsinfo3res x)
  unfolding xdr_fsinfo3res
  xdr_fsinfo3res-IsCodec =
      ok_or-IsCodec (xdr_nfsstat3-IsCodec x laws) xdr_fsinfo3resok-IsCodec
        xdr_fsinfo3resfail-IsCodec

  pub xdr_pathconf3args-IsCodec : IsCodec (xdr_pathconf3args x)
  unfolding xdr_pathconf3args
  xdr_pathconf3args-IsCodec = via-IsCodec _ _ (λ r. refl) (xdr_nfs_fh3-IsCodec x laws)

  pub xdr_pathconf3resok-IsCodec : IsCodec (xdr_pathconf3resok x)
  unfolding xdr_pathconf3resok
  xdr_pathconf3resok-IsCodec =
      via-IsCodec _ _ (λ r. refl)
        (seq-IsCodec (xdr_post_op_attr-IsCodec x laws) (
          seq-IsCodec (xdr_uint32-IsCodec x laws) (
            seq-IsCodec (xdr_uint32-IsCodec x laws) (
              seq-IsCodec laws.bool_law
                (seq-IsCodec laws.bool_law (seq-IsCodec laws.bool_law laws.bool_law))))))

  pub xdr_pathconf3resfail-IsCodec : IsCodec (xdr_pathconf3resfail x)
  unfolding xdr_pathconf3resfail
  xdr_pathconf3resfail-IsCodec = via-IsCodec _ _ (λ r. refl) (xdr_post_op_attr-IsCodec x laws)

  pub xdr_pathconf3res-IsCodec : IsCodec (xdr_pathconf3res x)
  unfolding xdr_pathconf3res
  xdr_pathconf3res-IsCodec =
      ok_or-IsCodec (xdr_nfsstat3-IsCodec x laws) xdr_pathconf3resok-IsCodec
        xdr_pathconf3resfail-IsCodec
