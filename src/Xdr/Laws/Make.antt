-- ===== src/Xdr/Laws/Make.antt =====
-- The codecs of src/nfsv3/nfs3_xdr.c for CREATE, MKDIR, SYMLINK and MKNOD can be relied on.
use unfsclient.Prelude.{ℕ, suc, zero, refl}
use unfsclient.Xdr.Laws.Attr.{
  xdr_createverf3-IsCodec, xdr_post_op_attr-IsCodec, xdr_nfsstat3-IsCodec, xdr_nfspath3-IsCodec,
  xdr_post_op_fh3-IsCodec, xdr_wcc_data-IsCodec,
}
use unfsclient.Xdr.Make.{
  xdr_mkdir3resok, xdr_mkdir3args, xdr_createmode3, xdr_mkdir3res, xdr_symlink3res, xdr_create3res,
  xdr_create3resfail, xdr_symlink3resok, xdr_symlink3resfail, create_how, xdr_create3args,
  xdr_createhow3, xdr_mkdir3resfail, xdr_create3resok, xdr_symlinkdata3, xdr_symlink3args,
}
use unfsclient.Xdr.Library.{XdrLaws, XdrLib, ok_or-IsCodec}
use unfsclient.Xdr.Codec.{refuse-IsCodec, via-IsCodec, seq-IsCodec, dep-IsCodec, IsCodec}
use unfsclient.Xdr.Laws.Sattr.{xdr_diropargs3-IsCodec, xdr_sattr3-IsCodec}

module _ (x : XdrLib) (laws : XdrLaws x) where
  pub xdr_createmode3-IsCodec : IsCodec (xdr_createmode3 x)
  unfolding xdr_createmode3
  xdr_createmode3-IsCodec = laws.enum_law

  create_how-IsCodec : (mode : ℕ) → IsCodec (create_how x mode)
  create_how-IsCodec zero = xdr_sattr3-IsCodec x laws
  create_how-IsCodec (suc zero) = xdr_sattr3-IsCodec x laws
  create_how-IsCodec (suc (suc zero)) = xdr_createverf3-IsCodec x laws
  create_how-IsCodec (suc (suc (suc n))) = refuse-IsCodec

  pub xdr_createhow3-IsCodec : IsCodec (xdr_createhow3 x)
  unfolding xdr_createhow3
  xdr_createhow3-IsCodec = dep-IsCodec _ _ xdr_createmode3-IsCodec create_how-IsCodec

  pub xdr_create3args-IsCodec : IsCodec (xdr_create3args x)
  unfolding xdr_create3args
  xdr_create3args-IsCodec =
      via-IsCodec _ _ (λ r. refl)
        (seq-IsCodec (xdr_diropargs3-IsCodec x laws) xdr_createhow3-IsCodec)

  pub xdr_create3resok-IsCodec : IsCodec (xdr_create3resok x)
  unfolding xdr_create3resok
  xdr_create3resok-IsCodec =
      via-IsCodec _ _ (λ r. refl)
        (seq-IsCodec (xdr_post_op_fh3-IsCodec x laws)
          (seq-IsCodec (xdr_post_op_attr-IsCodec x laws) (xdr_wcc_data-IsCodec x laws)))

  pub xdr_create3resfail-IsCodec : IsCodec (xdr_create3resfail x)
  unfolding xdr_create3resfail
  xdr_create3resfail-IsCodec = via-IsCodec _ _ (λ r. refl) (xdr_wcc_data-IsCodec x laws)

  pub xdr_create3res-IsCodec : IsCodec (xdr_create3res x)
  unfolding xdr_create3res
  xdr_create3res-IsCodec =
      ok_or-IsCodec (xdr_nfsstat3-IsCodec x laws) xdr_create3resok-IsCodec
        xdr_create3resfail-IsCodec

  pub xdr_mkdir3args-IsCodec : IsCodec (xdr_mkdir3args x)
  unfolding xdr_mkdir3args
  xdr_mkdir3args-IsCodec =
      via-IsCodec _ _ (λ r. refl)
        (seq-IsCodec (xdr_diropargs3-IsCodec x laws) (xdr_sattr3-IsCodec x laws))

  pub xdr_mkdir3resok-IsCodec : IsCodec (xdr_mkdir3resok x)
  unfolding xdr_mkdir3resok
  xdr_mkdir3resok-IsCodec =
      via-IsCodec _ _ (λ r. refl)
        (seq-IsCodec (xdr_post_op_fh3-IsCodec x laws)
          (seq-IsCodec (xdr_post_op_attr-IsCodec x laws) (xdr_wcc_data-IsCodec x laws)))

  pub xdr_mkdir3resfail-IsCodec : IsCodec (xdr_mkdir3resfail x)
  unfolding xdr_mkdir3resfail
  xdr_mkdir3resfail-IsCodec = via-IsCodec _ _ (λ r. refl) (xdr_wcc_data-IsCodec x laws)

  pub xdr_mkdir3res-IsCodec : IsCodec (xdr_mkdir3res x)
  unfolding xdr_mkdir3res
  xdr_mkdir3res-IsCodec =
      ok_or-IsCodec (xdr_nfsstat3-IsCodec x laws) xdr_mkdir3resok-IsCodec xdr_mkdir3resfail-IsCodec

  pub xdr_symlinkdata3-IsCodec : IsCodec (xdr_symlinkdata3 x)
  unfolding xdr_symlinkdata3
  xdr_symlinkdata3-IsCodec =
      via-IsCodec _ _ (λ r. refl)
        (seq-IsCodec (xdr_sattr3-IsCodec x laws) (xdr_nfspath3-IsCodec x laws))

  pub xdr_symlink3args-IsCodec : IsCodec (xdr_symlink3args x)
  unfolding xdr_symlink3args
  xdr_symlink3args-IsCodec =
      via-IsCodec _ _ (λ r. refl)
        (seq-IsCodec (xdr_diropargs3-IsCodec x laws) xdr_symlinkdata3-IsCodec)

  pub xdr_symlink3resok-IsCodec : IsCodec (xdr_symlink3resok x)
  unfolding xdr_symlink3resok
  xdr_symlink3resok-IsCodec =
      via-IsCodec _ _ (λ r. refl)
        (seq-IsCodec (xdr_post_op_fh3-IsCodec x laws)
          (seq-IsCodec (xdr_post_op_attr-IsCodec x laws) (xdr_wcc_data-IsCodec x laws)))

  pub xdr_symlink3resfail-IsCodec : IsCodec (xdr_symlink3resfail x)
  unfolding xdr_symlink3resfail
  xdr_symlink3resfail-IsCodec = via-IsCodec _ _ (λ r. refl) (xdr_wcc_data-IsCodec x laws)

  pub xdr_symlink3res-IsCodec : IsCodec (xdr_symlink3res x)
  unfolding xdr_symlink3res
  xdr_symlink3res-IsCodec =
      ok_or-IsCodec (xdr_nfsstat3-IsCodec x laws) xdr_symlink3resok-IsCodec
        xdr_symlink3resfail-IsCodec
