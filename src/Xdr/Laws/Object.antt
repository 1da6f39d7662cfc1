-- ===== src/Xdr/Laws/Object.antt =====
-- The codecs of src/nfsv3/nfs3_xdr.c for GETATTR, SETATTR, LOOKUP, ACCESS and READLINK can be relied on.
use unfsclient.Prelude.{refl}
use unfsclient.Xdr.Laws.Attr.{
  xdr_wcc_data-IsCodec, xdr_nfsstat3-IsCodec, xdr_fattr3-IsCodec, xdr_post_op_attr-IsCodec,
  xdr_uint32-IsCodec, xdr_nfspath3-IsCodec, xdr_nfstime3-IsCodec, xdr_nfs_fh3-IsCodec,
}
use unfsclient.Xdr.Object.{
  xdr_sattrguard3, xdr_setattr3resfail, xdr_lookup3resok, xdr_setattr3args, xdr_access3resok,
  xdr_readlink3res, xdr_lookup3resfail, xdr_setattr3resok, xdr_lookup3res, xdr_getattr3args,
  xdr_access3resfail, xdr_readlink3args, xdr_readlink3resfail, xdr_lookup3args, xdr_getattr3res,
  xdr_getattr3resok, xdr_setattr3res, xdr_access3res, xdr_readlink3resok, xdr_access3args,
}
use unfsclient.Xdr.Laws.Sattr.{xdr_diropargs3-IsCodec, xdr_sattr3-IsCodec}
use unfsclient.Xdr.Library.{optional-IsCodec, XdrLib, ok_or-IsCodec, XdrLaws}
use unfsclient.Xdr.Codec.{via-IsCodec, IsCodec, seq-IsCodec, void-IsCodec}

module _ (x : XdrLib) (laws : XdrLaws x) where
  pub xdr_getattr3args-IsCodec : IsCodec (xdr_getattr3args x)
  unfolding xdr_getattr3args
  xdr_getattr3args-IsCodec = via-IsCodec _ _ (λ r. refl) (xdr_nfs_fh3-IsCodec x laws)

  pub xdr_getattr3resok-IsCodec : IsCodec (xdr_getattr3resok x)
  unfolding xdr_getattr3resok
  xdr_getattr3resok-IsCodec = via-IsCodec _ _ (λ r. refl) (xdr_fattr3-IsCodec x laws)

  pub xdr_getattr3res-IsCodec : IsCodec (xdr_getattr3res x)
  unfolding xdr_getattr3res
  xdr_getattr3res-IsCodec =
      ok_or-IsCodec (xdr_nfsstat3-IsCodec x laws) xdr_getattr3resok-IsCodec void-IsCodec

  pub xdr_sattrguard3-IsCodec : IsCodec (xdr_sattrguard3 x)
  unfolding xdr_sattrguard3
  xdr_sattrguard3-IsCodec = optional-IsCodec laws.bool_law (xdr_nfstime3-IsCodec x laws)

  pub xdr_setattr3args-IsCodec : IsCodec (xdr_setattr3args x)
  unfolding xdr_setattr3args
  xdr_setattr3args-IsCodec =
      via-IsCodec _ _ (λ r. refl)
        (seq-IsCodec (xdr_nfs_fh3-IsCodec x laws)
          (seq-IsCodec (xdr_sattr3-IsCodec x laws) xdr_sattrguard3-IsCodec))

  pub xdr_setattr3resok-IsCodec : IsCodec (xdr_setattr3resok x)
  unfolding xdr_setattr3resok
  xdr_setattr3resok-IsCodec = via-IsCodec _ _ (λ r. refl) (xdr_wcc_data-IsCodec x laws)

  pub xdr_setattr3resfail-IsCodec : IsCodec (xdr_setattr3resfail x)
  unfolding xdr_setattr3resfail
  xdr_setattr3resfail-IsCodec = via-IsCodec _ _ (λ r. refl) (xdr_wcc_data-IsCodec x laws)

  pub xdr_setattr3res-IsCodec : IsCodec (xdr_setattr3res x)
  unfolding xdr_setattr3res
  xdr_setattr3res-IsCodec =
      ok_or-IsCodec (xdr_nfsstat3-IsCodec x laws) xdr_setattr3resok-IsCodec
        xdr_setattr3resfail-IsCodec

  pub xdr_lookup3args-IsCodec : IsCodec (xdr_lookup3args x)
  unfolding xdr_lookup3args
  xdr_lookup3args-IsCodec = via-IsCodec _ _ (λ r. refl) (xdr_diropargs3-IsCodec x laws)

  pub xdr_lookup3resok-IsCodec : IsCodec (xdr_lookup3resok x)
  unfolding xdr_lookup3resok
  xdr_lookup3resok-IsCodec =
      via-IsCodec _ _ (λ r. refl)
        (seq-IsCodec (xdr_nfs_fh3-IsCodec x laws)
          (seq-IsCodec (xdr_post_op_attr-IsCodec x laws) (xdr_post_op_attr-IsCodec x laws)))

  pub xdr_lookup3resfail-IsCodec : IsCodec (xdr_lookup3resfail x)
  unfolding xdr_lookup3resfail
  xdr_lookup3resfail-IsCodec = via-IsCodec _ _ (λ r. refl) (xdr_post_op_attr-IsCodec x laws)

  pub xdr_lookup3res-IsCodec : IsCodec (xdr_lookup3res x)
  unfolding xdr_lookup3res
  xdr_lookup3res-IsCodec =
      ok_or-IsCodec (xdr_nfsstat3-IsCodec x laws) xdr_lookup3resok-IsCodec
        xdr_lookup3resfail-IsCodec

  pub xdr_access3args-IsCodec : IsCodec (xdr_access3args x)
  unfolding xdr_access3args
  xdr_access3args-IsCodec =
      via-IsCodec _ _ (λ r. refl)
        (seq-IsCodec (xdr_nfs_fh3-IsCodec x laws) (xdr_uint32-IsCodec x laws))

  pub xdr_access3resok-IsCodec : IsCodec (xdr_access3resok x)
  unfolding xdr_access3resok
  xdr_access3resok-IsCodec =
      via-IsCodec _ _ (λ r. refl)
        (seq-IsCodec (xdr_post_op_attr-IsCodec x laws) (xdr_uint32-IsCodec x laws))

  pub xdr_access3resfail-IsCodec : IsCodec (xdr_access3resfail x)
  unfolding xdr_access3resfail
  xdr_access3resfail-IsCodec = via-IsCodec _ _ (λ r. refl) (xdr_post_op_attr-IsCodec x laws)

  pub xdr_access3res-IsCodec : IsCodec (xdr_access3res x)
  unfolding xdr_access3res
  xdr_access3res-IsCodec =
      ok_or-IsCodec (xdr_nfsstat3-IsCodec x laws) xdr_access3resok-IsCodec
        xdr_access3resfail-IsCodec

  pub xdr_readlink3args-IsCodec : IsCodec (xdr_readlink3args x)
  unfolding xdr_readlink3args
  xdr_readlink3args-IsCodec = via-IsCodec _ _ (λ r. refl) (xdr_nfs_fh3-IsCodec x laws)

  pub xdr_readlink3resok-IsCodec : IsCodec (xdr_readlink3resok x)
  unfolding xdr_readlink3resok
  xdr_readlink3resok-IsCodec =
      via-IsCodec _ _ (λ r. refl)
        (seq-IsCodec (xdr_post_op_attr-IsCodec x laws) (xdr_nfspath3-IsCodec x laws))

  pub xdr_readlink3resfail-IsCodec : IsCodec (xdr_readlink3resfail x)
  unfolding xdr_readlink3resfail
  xdr_readlink3resfail-IsCodec = via-IsCodec _ _ (λ r. refl) (xdr_post_op_attr-IsCodec x laws)

  pub xdr_readlink3res-IsCodec : IsCodec (xdr_readlink3res x)
  unfolding xdr_readlink3res
  xdr_readlink3res-IsCodec =
      ok_or-IsCodec (xdr_nfsstat3-IsCodec x laws) xdr_readlink3resok-IsCodec
        xdr_readlink3resfail-IsCodec
