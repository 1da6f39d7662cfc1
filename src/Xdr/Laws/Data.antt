-- ===== src/Xdr/Laws/Data.antt =====
-- The codecs of src/nfsv3/nfs3_xdr.c for READ, WRITE and COMMIT can be relied on.
use unfsclient.Prelude.{refl, false}
use unfsclient.Xdr.Data.{
  xdr_commit3resok, xdr_read3resfail, xdr_write3resfail, xdr_read3resok, xdr_stable_how,
  xdr_read3args, xdr_commit3args, xdr_write3args, xdr_commit3resfail, xdr_read3res, xdr_write3res,
  xdr_write3resok, xdr_commit3res,
}
use unfsclient.Xdr.Laws.Attr.{
  xdr_count3-IsCodec, xdr_writeverf3-IsCodec, xdr_post_op_attr-IsCodec, xdr_nfsstat3-IsCodec,
  xdr_offset3-IsCodec, xdr_wcc_data-IsCodec, xdr_nfs_fh3-IsCodec,
}
use unfsclient.Xdr.Codec.{via-IsCodec, IsCodec, seq-IsCodec}
use unfsclient.Xdr.Library.{ok_or-IsCodec, no_limit, XdrLaws, XdrLib}

module _ (x : XdrLib) (laws : XdrLaws x) where
  pub xdr_stable_how-IsCodec : IsCodec (xdr_stable_how x)
  unfolding xdr_stable_how
  xdr_stable_how-IsCodec = laws.enum_law

  pub xdr_read3args-IsCodec : IsCodec (xdr_read3args x)
  unfolding xdr_read3args
  xdr_read3args-IsCodec =
      via-IsCodec _ _ (λ r. refl)
        (seq-IsCodec (xdr_nfs_fh3-IsCodec x laws)
          (seq-IsCodec (xdr_offset3-IsCodec x laws) (xdr_count3-IsCodec x laws)))

  pub xdr_read3resfail-IsCodec : IsCodec (xdr_read3resfail x)
  unfolding xdr_read3resfail
  xdr_read3resfail-IsCodec = via-IsCodec _ _ (λ r. refl) (xdr_post_op_attr-IsCodec x laws)

  pub xdr_write3resok-IsCodec : IsCodec (xdr_write3resok x)
  unfolding xdr_write3resok
  xdr_write3resok-IsCodec =
      via-IsCodec _ _ (λ r. refl)
        (seq-IsCodec (xdr_wcc_data-IsCodec x laws) (
          seq-IsCodec (xdr_count3-IsCodec x laws)
            (seq-IsCodec xdr_stable_how-IsCodec (xdr_writeverf3-IsCodec x laws))))

  pub xdr_write3resfail-IsCodec : IsCodec (xdr_write3resfail x)
  unfolding xdr_write3resfail
  xdr_write3resfail-IsCodec = via-IsCodec _ _ (λ r. refl) (xdr_wcc_data-IsCodec x laws)

  pub xdr_write3res-IsCodec : IsCodec (xdr_write3res x)
  unfolding xdr_write3res
  xdr_write3res-IsCodec =
      ok_or-IsCodec (xdr_nfsstat3-IsCodec x laws) xdr_write3resok-IsCodec xdr_write3resfail-IsCodec

  pub xdr_commit3args-IsCodec : IsCodec (xdr_commit3args x)
  unfolding xdr_commit3args
  xdr_commit3args-IsCodec =
      via-IsCodec _ _ (λ r. refl)
        (seq-IsCodec (xdr_nfs_fh3-IsCodec x laws)
          (seq-IsCodec (xdr_offset3-IsCodec x laws) (xdr_count3-IsCodec x laws)))

  pub xdr_commit3resok-IsCodec : IsCodec (xdr_commit3resok x)
  unfolding xdr_commit3resok
  xdr_commit3resok-IsCodec =
      via-IsCodec _ _ (λ r. refl)
        (seq-IsCodec (xdr_wcc_data-IsCodec x laws) (xdr_writeverf3-IsCodec x laws))

  pub xdr_commit3resfail-IsCodec : IsCodec (xdr_commit3resfail x)
  unfolding xdr_commit3resfail
  xdr_commit3resfail-IsCodec = via-IsCodec _ _ (λ r. refl) (xdr_wcc_data-IsCodec x laws)

  pub xdr_commit3res-IsCodec : IsCodec (xdr_commit3res x)
  unfolding xdr_commit3res
  xdr_commit3res-IsCodec =
      ok_or-IsCodec (xdr_nfsstat3-IsCodec x laws) xdr_commit3resok-IsCodec
        xdr_commit3resfail-IsCodec

  pub xdr_read3resok-IsCodec : IsCodec (xdr_read3resok x false)
  unfolding xdr_read3resok
  xdr_read3resok-IsCodec =
      via-IsCodec _ _ (λ r. refl)
        (seq-IsCodec (xdr_post_op_attr-IsCodec x laws) (
          seq-IsCodec (xdr_count3-IsCodec x laws)
            (seq-IsCodec laws.bool_law (laws.bytes_law no_limit))))

  pub xdr_write3args-IsCodec : IsCodec (xdr_write3args x false)
  unfolding xdr_write3args
  xdr_write3args-IsCodec =
      via-IsCodec _ _ (λ r. refl)
        (seq-IsCodec (xdr_nfs_fh3-IsCodec x laws) (
          seq-IsCodec (xdr_offset3-IsCodec x laws) (
            seq-IsCodec (xdr_count3-IsCodec x laws)
              (seq-IsCodec xdr_stable_how-IsCodec (laws.bytes_law no_limit)))))

  pub xdr_read3res-IsCodec : IsCodec (xdr_read3res x false)
  unfolding xdr_read3res
  xdr_read3res-IsCodec =
      ok_or-IsCodec (xdr_nfsstat3-IsCodec x laws) xdr_read3resok-IsCodec xdr_read3resfail-IsCodec
