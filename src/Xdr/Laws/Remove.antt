-- ===== src/Xdr/Laws/Remove.antt =====
-- The codecs of src/nfsv3/nfs3_xdr.c for REMOVE, RMDIR, RENAME and LINK can be relied on.
use unfsclient.Prelude.{refl}
use unfsclient.Xdr.Library.{ok_or-IsCodec, XdrLib, XdrLaws}
use unfsclient.Xdr.Remove.{
  xdr_link3res, xdr_remove3res, xdr_rename3resok, xdr_remove3args, xdr_rmdir3resfail, xdr_rmdir3res,
  xdr_rmdir3args, xdr_rmdir3resok, xdr_remove3resfail, xdr_link3resok, xdr_remove3resok,
  xdr_rename3args, xdr_link3resfail, xdr_link3args, xdr_rename3res, xdr_rename3resfail,
}
use unfsclient.Xdr.Laws.Attr.{
  xdr_nfs_fh3-IsCodec, xdr_wcc_data-IsCodec, xdr_post_op_attr-IsCodec, xdr_nfsstat3-IsCodec,
}
use unfsclient.Xdr.Codec.{via-IsCodec, seq-IsCodec, IsCodec}
use unfsclient.Xdr.Laws.Sattr.{xdr_diropargs3-IsCodec}

module _ (x : XdrLib) (laws : XdrLaws x) where
  pub xdr_remove3args-IsCodec : IsCodec (xdr_remove3args x)
  unfolding xdr_remove3args
  xdr_remove3args-IsCodec = via-IsCodec _ _ (λ r. refl) (xdr_diropargs3-IsCodec x laws)

  pub xdr_remove3resok-IsCodec : IsCodec (xdr_remove3resok x)
  unfolding xdr_remove3resok
  xdr_remove3resok-IsCodec = via-IsCodec _ _ (λ r. refl) (xdr_wcc_data-IsCodec x laws)

  pub xdr_remove3resfail-IsCodec : IsCodec (xdr_remove3resfail x)
  unfolding xdr_remove3resfail
  xdr_remove3resfail-IsCodec = via-IsCodec _ _ (λ r. refl) (xdr_wcc_data-IsCodec x laws)

  pub xdr_remove3res-IsCodec : IsCodec (xdr_remove3res x)
  unfolding xdr_remove3res
  xdr_remove3res-IsCodec =
      ok_or-IsCodec (xdr_nfsstat3-IsCodec x laws) xdr_remove3resok-IsCodec
        xdr_remove3resfail-IsCodec

  pub xdr_rmdir3args-IsCodec : IsCodec (xdr_rmdir3args x)
  unfolding xdr_rmdir3args
  xdr_rmdir3args-IsCodec = via-IsCodec _ _ (λ r. refl) (xdr_diropargs3-IsCodec x laws)

  pub xdr_rmdir3resok-IsCodec : IsCodec (xdr_rmdir3resok x)
  unfolding xdr_rmdir3resok
  xdr_rmdir3resok-IsCodec = via-IsCodec _ _ (λ r. refl) (xdr_wcc_data-IsCodec x laws)

  pub xdr_rmdir3resfail-IsCodec : IsCodec (xdr_rmdir3resfail x)
  unfolding xdr_rmdir3resfail
  xdr_rmdir3resfail-IsCodec = via-IsCodec _ _ (λ r. refl) (xdr_wcc_data-IsCodec x laws)

  pub xdr_rmdir3res-IsCodec : IsCodec (xdr_rmdir3res x)
  unfolding xdr_rmdir3res
  xdr_rmdir3res-IsCodec =
      ok_or-IsCodec (xdr_nfsstat3-IsCodec x laws) xdr_rmdir3resok-IsCodec xdr_rmdir3resfail-IsCodec

  pub xdr_rename3args-IsCodec : IsCodec (xdr_rename3args x)
  unfolding xdr_rename3args
  xdr_rename3args-IsCodec =
      via-IsCodec _ _ (λ r. refl)
        (seq-IsCodec (xdr_diropargs3-IsCodec x laws) (xdr_diropargs3-IsCodec x laws))

  pub xdr_rename3resok-IsCodec : IsCodec (xdr_rename3resok x)
  unfolding xdr_rename3resok
  xdr_rename3resok-IsCodec =
      via-IsCodec _ _ (λ r. refl)
        (seq-IsCodec (xdr_wcc_data-IsCodec x laws) (xdr_wcc_data-IsCodec x laws))

  pub xdr_rename3resfail-IsCodec : IsCodec (xdr_rename3resfail x)
  unfolding xdr_rename3resfail
  xdr_rename3resfail-IsCodec =
      via-IsCodec _ _ (λ r. refl)
        (seq-IsCodec (xdr_wcc_data-IsCodec x laws) (xdr_wcc_data-IsCodec x laws))

  pub xdr_rename3res-IsCodec : IsCodec (xdr_rename3res x)
  unfolding xdr_rename3res
  xdr_rename3res-IsCodec =
      ok_or-IsCodec (xdr_nfsstat3-IsCodec x laws) xdr_rename3resok-IsCodec
        xdr_rename3resfail-IsCodec

  pub xdr_link3args-IsCodec : IsCodec (xdr_link3args x)
  unfolding xdr_link3args
  xdr_link3args-IsCodec =
      via-IsCodec _ _ (λ r. refl)
        (seq-IsCodec (xdr_nfs_fh3-IsCodec x laws) (xdr_diropargs3-IsCodec x laws))

  pub xdr_link3resok-IsCodec : IsCodec (xdr_link3resok x)
  unfolding xdr_link3resok
  xdr_link3resok-IsCodec =
      via-IsCodec _ _ (λ r. refl)
        (seq-IsCodec (xdr_post_op_attr-IsCodec x laws) (xdr_wcc_data-IsCodec x laws))

  pub xdr_link3resfail-IsCodec : IsCodec (xdr_link3resfail x)
  unfolding xdr_link3resfail
  xdr_link3resfail-IsCodec =
      via-IsCodec _ _ (λ r. refl)
        (seq-IsCodec (xdr_post_op_attr-IsCodec x laws) (xdr_wcc_data-IsCodec x laws))

  pub xdr_link3res-IsCodec : IsCodec (xdr_link3res x)
  unfolding xdr_link3res
  xdr_link3res-IsCodec =
      ok_or-IsCodec (xdr_nfsstat3-IsCodec x laws) xdr_link3resok-IsCodec xdr_link3resfail-IsCodec
