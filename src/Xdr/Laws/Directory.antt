-- ===== src/Xdr/Laws/Directory.antt =====
-- The codecs of src/nfsv3/nfs3_xdr.c for READDIR and READDIRPLUS can be relied on.
use unfsclient.Prelude.{refl, List}
use unfsclient.Xdr.Laws.Attr.{
  xdr_post_op_attr-IsCodec, xdr_cookie3-IsCodec, xdr_cookieverf3-IsCodec, xdr_nfsstat3-IsCodec,
  xdr_post_op_fh3-IsCodec, xdr_fileid3-IsCodec, xdr_nfs_fh3-IsCodec, xdr_filename3-IsCodec,
  xdr_count3-IsCodec,
}
use unfsclient.Xdr.Directory.{
  Entry3, Entryplus3, entry3_pointer, entryplus3_pointer, xdr_readdirplus3resfail,
  xdr_readdir3resfail, xdr_readdir3args, xdr_dirlist3, xdr_readdirplus3resok, xdr_entry3,
  xdr_readdirplus3args, xdr_dirlistplus3, xdr_readdirplus3res, xdr_readdir3res, xdr_readdir3resok,
  xdr_entryplus3,
}
use unfsclient.Xdr.Codec.{Codec, seq-IsCodec, via-IsCodec, IsCodec}
use unfsclient.Xdr.Library.{chain-IsCodec, XdrLaws, ok_or-IsCodec, XdrLib}

module _ (x : XdrLib) (laws : XdrLaws x) where
  pub xdr_readdir3args-IsCodec : IsCodec (xdr_readdir3args x)
  unfolding xdr_readdir3args
  xdr_readdir3args-IsCodec =
      via-IsCodec _ _ (λ r. refl)
        (seq-IsCodec (xdr_nfs_fh3-IsCodec x laws) (
          seq-IsCodec (xdr_cookie3-IsCodec x laws)
            (seq-IsCodec (xdr_cookieverf3-IsCodec x laws) (xdr_count3-IsCodec x laws))))

  pub xdr_entry3-IsCodec : (next : Codec (List Entry3)) → IsCodec next → IsCodec (xdr_entry3 x next)
  unfolding xdr_entry3
  xdr_entry3-IsCodec next good =
      via-IsCodec _ _ (λ r. refl)
        (seq-IsCodec (xdr_fileid3-IsCodec x laws) (
          seq-IsCodec (xdr_filename3-IsCodec x laws)
            (seq-IsCodec (xdr_cookie3-IsCodec x laws) good)))

  pub entry3_pointer-IsCodec : IsCodec (entry3_pointer x)
  unfolding entry3_pointer
  entry3_pointer-IsCodec =
      chain-IsCodec _ (λ next good. laws.pointer_law _ (xdr_entry3-IsCodec next good)) x.depth

  pub xdr_dirlist3-IsCodec : IsCodec (xdr_dirlist3 x)
  unfolding xdr_dirlist3
  xdr_dirlist3-IsCodec =
      via-IsCodec _ _ (λ r. refl) (seq-IsCodec entry3_pointer-IsCodec laws.bool_law)

  pub xdr_readdir3resok-IsCodec : IsCodec (xdr_readdir3resok x)
  unfolding xdr_readdir3resok
  xdr_readdir3resok-IsCodec =
      via-IsCodec _ _ (λ r. refl)
        (seq-IsCodec (xdr_post_op_attr-IsCodec x laws)
          (seq-IsCodec (xdr_cookieverf3-IsCodec x laws) xdr_dirlist3-IsCodec))

  pub xdr_readdir3resfail-IsCodec : IsCodec (xdr_readdir3resfail x)
  unfolding xdr_readdir3resfail
  xdr_readdir3resfail-IsCodec = via-IsCodec _ _ (λ r. refl) (xdr_post_op_attr-IsCodec x laws)

  pub xdr_readdir3res-IsCodec : IsCodec (xdr_readdir3res x)
  unfolding xdr_readdir3res
  xdr_readdir3res-IsCodec =
      ok_or-IsCodec (xdr_nfsstat3-IsCodec x laws) xdr_readdir3resok-IsCodec
        xdr_readdir3resfail-IsCodec

  pub xdr_readdirplus3args-IsCodec : IsCodec (xdr_readdirplus3args x)
  unfolding xdr_readdirplus3args
  xdr_readdirplus3args-IsCodec =
      via-IsCodec _ _ (λ r. refl)
        (seq-IsCodec (xdr_nfs_fh3-IsCodec x laws) (
          seq-IsCodec (xdr_cookie3-IsCodec x laws) (
            seq-IsCodec (xdr_cookieverf3-IsCodec x laws)
              (seq-IsCodec (xdr_count3-IsCodec x laws) (xdr_count3-IsCodec x laws)))))

  pub xdr_entryplus3-IsCodec :
      (next : Codec (List Entryplus3)) → IsCodec next → IsCodec (xdr_entryplus3 x next)
  unfolding xdr_entryplus3
  xdr_entryplus3-IsCodec next good =
      via-IsCodec _ _ (λ r. refl)
        (seq-IsCodec (xdr_fileid3-IsCodec x laws) (
          seq-IsCodec (xdr_filename3-IsCodec x laws) (
            seq-IsCodec (xdr_cookie3-IsCodec x laws) (
              seq-IsCodec (xdr_post_op_attr-IsCodec x laws)
                (seq-IsCodec (xdr_post_op_fh3-IsCodec x laws) good)))))

  pub entryplus3_pointer-IsCodec : IsCodec (entryplus3_pointer x)
  unfolding entryplus3_pointer
  entryplus3_pointer-IsCodec =
      chain-IsCodec _ (λ next good. laws.pointer_law _ (xdr_entryplus3-IsCodec next good)) x.depth

  pub xdr_dirlistplus3-IsCodec : IsCodec (xdr_dirlistplus3 x)
  unfolding xdr_dirlistplus3
  xdr_dirlistplus3-IsCodec =
      via-IsCodec _ _ (λ r. refl) (seq-IsCodec entryplus3_pointer-IsCodec laws.bool_law)

  pub xdr_readdirplus3resok-IsCodec : IsCodec (xdr_readdirplus3resok x)
  unfolding xdr_readdirplus3resok
  xdr_readdirplus3resok-IsCodec =
      via-IsCodec _ _ (λ r. refl)
        (seq-IsCodec (xdr_post_op_attr-IsCodec x laws)
          (seq-IsCodec (xdr_cookieverf3-IsCodec x laws) xdr_dirlistplus3-IsCodec))

  pub xdr_readdirplus3resfail-IsCodec : IsCodec (xdr_readdirplus3resfail x)
  unfolding xdr_readdirplus3resfail
  xdr_readdirplus3resfail-IsCodec = via-IsCodec _ _ (λ r. refl) (xdr_post_op_attr-IsCodec x laws)

  pub xdr_readdirplus3res-IsCodec : IsCodec (xdr_readdirplus3res x)
  unfolding xdr_readdirplus3res
  xdr_readdirplus3res-IsCodec =
      ok_or-IsCodec (xdr_nfsstat3-IsCodec x laws) xdr_readdirplus3resok-IsCodec
        xdr_readdirplus3resfail-IsCodec
