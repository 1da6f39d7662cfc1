-- ===== src/Xdr/Laws/Sattr.antt =====
-- The codecs of src/nfsv3/nfs3_xdr.c for the attributes to set, and names in directories can be relied on.
use unfsclient.Prelude.{ℕ, zero, refl, suc}
use unfsclient.Xdr.Codec.{via-IsCodec, dep-IsCodec, IsCodec, seq-IsCodec, void-IsCodec}
use unfsclient.Xdr.Laws.Attr.{
  xdr_gid3-IsCodec, xdr_nfs_fh3-IsCodec, xdr_mode3-IsCodec, xdr_filename3-IsCodec, xdr_uid3-IsCodec,
  xdr_size3-IsCodec, xdr_nfstime3-IsCodec,
}
use unfsclient.Xdr.Sattr.{
  xdr_set_mtime, at_client_time, xdr_set_mode3, xdr_set_gid3, xdr_time_how, xdr_set_size3,
  xdr_diropargs3, xdr_sattr3, xdr_set_uid3, xdr_set_atime,
}
use unfsclient.Xdr.Library.{XdrLaws, XdrLib, optional-IsCodec}

module _ (x : XdrLib) (laws : XdrLaws x) where
  pub xdr_time_how-IsCodec : IsCodec (xdr_time_how x)
  unfolding xdr_time_how
  xdr_time_how-IsCodec = laws.enum_law

  pub xdr_set_mode3-IsCodec : IsCodec (xdr_set_mode3 x)
  unfolding xdr_set_mode3
  xdr_set_mode3-IsCodec = optional-IsCodec laws.bool_law (xdr_mode3-IsCodec x laws)

  pub xdr_set_uid3-IsCodec : IsCodec (xdr_set_uid3 x)
  unfolding xdr_set_uid3
  xdr_set_uid3-IsCodec = optional-IsCodec laws.bool_law (xdr_uid3-IsCodec x laws)

  pub xdr_set_gid3-IsCodec : IsCodec (xdr_set_gid3 x)
  unfolding xdr_set_gid3
  xdr_set_gid3-IsCodec = optional-IsCodec laws.bool_law (xdr_gid3-IsCodec x laws)

  pub xdr_set_size3-IsCodec : IsCodec (xdr_set_size3 x)
  unfolding xdr_set_size3
  xdr_set_size3-IsCodec = optional-IsCodec laws.bool_law (xdr_size3-IsCodec x laws)

  at_client_time-IsCodec : (how : ℕ) → IsCodec (at_client_time x how)
  at_client_time-IsCodec zero = void-IsCodec
  at_client_time-IsCodec (suc zero) = void-IsCodec
  at_client_time-IsCodec (suc (suc zero)) = xdr_nfstime3-IsCodec x laws
  at_client_time-IsCodec (suc (suc (suc n))) = void-IsCodec

  pub xdr_set_atime-IsCodec : IsCodec (xdr_set_atime x)
  unfolding xdr_set_atime
  xdr_set_atime-IsCodec = dep-IsCodec _ _ xdr_time_how-IsCodec at_client_time-IsCodec

  pub xdr_set_mtime-IsCodec : IsCodec (xdr_set_mtime x)
  unfolding xdr_set_mtime
  xdr_set_mtime-IsCodec = dep-IsCodec _ _ xdr_time_how-IsCodec at_client_time-IsCodec

  pub xdr_sattr3-IsCodec : IsCodec (xdr_sattr3 x)
  unfolding xdr_sattr3
  xdr_sattr3-IsCodec =
      via-IsCodec _ _ (λ r. refl)
        (seq-IsCodec xdr_set_mode3-IsCodec (
          seq-IsCodec xdr_set_uid3-IsCodec (
            seq-IsCodec xdr_set_gid3-IsCodec (
              seq-IsCodec xdr_set_size3-IsCodec
                (seq-IsCodec xdr_set_atime-IsCodec xdr_set_mtime-IsCodec)))))

  pub xdr_diropargs3-IsCodec : IsCodec (xdr_diropargs3 x)
  unfolding xdr_diropargs3
  xdr_diropargs3-IsCodec =
      via-IsCodec _ _ (λ r. refl)
        (seq-IsCodec (xdr_nfs_fh3-IsCodec x laws) (xdr_filename3-IsCodec x laws))
