-- ===== src/Xdr/Laws/Node.antt =====
-- The codecs of src/nfsv3/nfs3_xdr.c for MKNOD can be relied on.
use unfsclient.Prelude.{ℕ, suc, refl, zero}
use unfsclient.Xdr.Library.{ok_or-IsCodec, XdrLaws, XdrLib}
use unfsclient.Xdr.Laws.Attr.{
  xdr_nfsstat3-IsCodec, xdr_post_op_fh3-IsCodec, xdr_specdata3-IsCodec, xdr_ftype3-IsCodec,
  xdr_post_op_attr-IsCodec, xdr_wcc_data-IsCodec,
}
use unfsclient.Xdr.Node.{
  xdr_mknod3resfail, xdr_mknod3res, xdr_mknoddata3, xdr_devicedata3, xdr_mknod3args, mknod_what,
  xdr_mknod3resok,
}
use unfsclient.Xdr.Codec.{seq-IsCodec, IsCodec, via-IsCodec, dep-IsCodec, void-IsCodec}
use unfsclient.Xdr.Laws.Sattr.{xdr_diropargs3-IsCodec, xdr_sattr3-IsCodec}

module _ (x : XdrLib) (laws : XdrLaws x) where
  pub xdr_devicedata3-IsCodec : IsCodec (xdr_devicedata3 x)
  unfolding xdr_devicedata3
  xdr_devicedata3-IsCodec =
      via-IsCodec _ _ (λ r. refl)
        (seq-IsCodec (xdr_sattr3-IsCodec x laws) (xdr_specdata3-IsCodec x laws))

  mknod_what-IsCodec : (type : ℕ) → IsCodec (mknod_what x type)
  mknod_what-IsCodec zero = void-IsCodec
  mknod_what-IsCodec (suc zero) = void-IsCodec
  mknod_what-IsCodec (suc (suc zero)) = void-IsCodec
  mknod_what-IsCodec (suc (suc (suc zero))) = xdr_devicedata3-IsCodec
  mknod_what-IsCodec (suc (suc (suc (suc zero)))) = xdr_devicedata3-IsCodec
  mknod_what-IsCodec (suc (suc (suc (suc (suc zero))))) = void-IsCodec
  mknod_what-IsCodec (suc (suc (suc (suc (suc (suc zero)))))) = xdr_sattr3-IsCodec x laws
  mknod_what-IsCodec (suc (suc (suc (suc (suc (suc (suc zero))))))) = xdr_sattr3-IsCodec x laws
  mknod_what-IsCodec (suc (suc (suc (suc (suc (suc (suc (suc n)))))))) = void-IsCodec

  pub xdr_mknoddata3-IsCodec : IsCodec (xdr_mknoddata3 x)
  unfolding xdr_mknoddata3
  xdr_mknoddata3-IsCodec = dep-IsCodec _ _ (xdr_ftype3-IsCodec x laws) mknod_what-IsCodec

  pub xdr_mknod3args-IsCodec : IsCodec (xdr_mknod3args x)
  unfolding xdr_mknod3args
  xdr_mknod3args-IsCodec =
      via-IsCodec _ _ (λ r. refl)
        (seq-IsCodec (xdr_diropargs3-IsCodec x laws) xdr_mknoddata3-IsCodec)

  pub xdr_mknod3resok-IsCodec : IsCodec (xdr_mknod3resok x)
  unfolding xdr_mknod3resok
  xdr_mknod3resok-IsCodec =
      via-IsCodec _ _ (λ r. refl)
        (seq-IsCodec (xdr_post_op_fh3-IsCodec x laws)
          (seq-IsCodec (xdr_post_op_attr-IsCodec x laws) (xdr_wcc_data-IsCodec x laws)))

  pub xdr_mknod3resfail-IsCodec : IsCodec (xdr_mknod3resfail x)
  unfolding xdr_mknod3resfail
  xdr_mknod3resfail-IsCodec = via-IsCodec _ _ (λ r. refl) (xdr_wcc_data-IsCodec x laws)

  pub xdr_mknod3res-IsCodec : IsCodec (xdr_mknod3res x)
  unfolding xdr_mknod3res
  xdr_mknod3res-IsCodec =
      ok_or-IsCodec (xdr_nfsstat3-IsCodec x laws) xdr_mknod3resok-IsCodec xdr_mknod3resfail-IsCodec
