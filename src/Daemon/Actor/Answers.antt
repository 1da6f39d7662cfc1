-- ===== src/Daemon/Actor/Answers.antt =====
-- What FUSE is told of a reply, and the root that a mount gives: src/nfs3actor.c.
use unfsclient.Prelude.{
  ℕ, refl, suc, ltb, ◌^◌, length, true, ◌≡◌, [], none, List, ok, append-nil, negsuc, inr, inl, some,
  ◌>>=◌, ne→==, ◌≢◌, pos_part, Bool-cases, ◌∷◌, ap, pos, ◌-◌,
}
use unfsclient.Xdr.Library.{XdrLib, XdrLaws}
use unfsclient.Daemon.Actor.{
  nfs3_mount_cb, as_int, nfs3_actor_mount_remotedir, nfs3_lookup_cb, act_on_lookup_res,
  NfscdRequest, root_of,
}
use unfsclient.Nfs3.Messages.{xdr_to-encode}
use unfsclient.Xdr.Laws.Mount.{xdr_mountres3-IsCodec}
use unfsclient.Xdr.Laws.Object.{xdr_lookup3res-IsCodec}
use unfsclient.Xdr.Mount.{Mountres3Ok, Mountres3, xdr_mountres3}
use unfsclient.Nfs3.Errors.{nfsstat3_to_errno, no_error, nfsstat3_to_errno-no_error, Errno}
use unfsclient.Nfs3.Convert.{xdr_to, xdr_to_lookup3res}
use unfsclient.Xdr.Object.{xdr_lookup3res, Lookup3res}
use unfsclient.Nfsclient.Mount.{xdr_to_mntres3}

as_int_zero : (n : ℕ) → as_int n ≡ pos 0 → n ≡ 0
unfolding as_int
as_int_zero n e = elim (Bool-cases (ltb n (2 ^ 31))) [
  | inl small ↦ let same : pos n ≡ pos 0 = rw small at e in ap pos_part same
  | inr large ↦ absurd (let no_way : negsuc (2 ^ 32 - 1 - n) ≡ pos 0 = rw large at e in cc)
]

module _ (x : XdrLib) (laws : XdrLaws x) where
  lookup_read :
      (res : Lookup3res) (body : List ℕ)
      → (xdr_lookup3res x).encode res ≡ some body
      → xdr_to_lookup3res x true (some body) (length body) ≡ some res
  unfolding xdr_to_lookup3res
  lookup_read res body e =
      rw append-nil at
        (xdr_to-encode (xdr_lookup3res x) (xdr_lookup3res-IsCodec x laws) res body [] e)

  -- The reply to a LOOKUP, when there is memory: for every status but NFS3_OK FUSE is told once, of
  -- the request that was made, and of an error that is not 0; for NFS3_OK FUSE is told nothing.
  pub nfs3_lookup_cb-encode :
      (rq : NfscdRequest) (res : Lookup3res) (body : List ℕ)
      → (xdr_lookup3res x).encode res ≡ some body
      → (res.0 ≡ 0 → nfs3_lookup_cb x true (some body) (length body) rq ≡ ok [])
        × (res.0 ≢ 0
            → (error : Errno) × (nfs3_lookup_cb x true (some body) (length body) rq
                ≡ ok (record { to_request = rq.fuserq; error = error } ∷ []))
              × (error ≢ no_error))
  unfolding nfs3_lookup_cb act_on_lookup_res
  nfs3_lookup_cb-encode rq res body e = (
    λ fine. rw (lookup_read res body e, fine) refl,
    λ failed. (
      nfsstat3_to_errno (as_int res.0),
      rw (lookup_read res body e, ne→== res.0 0 failed) refl,
      λ z. failed (as_int_zero res.0 ((nfsstat3_to_errno-no_error (as_int res.0)).0 z)),
    ),
  )

  mount_read :
      (res : Mountres3) (body : List ℕ)
      → (xdr_mountres3 x).encode res ≡ some body
      → nfs3_mount_cb x true (some body) (length body) ≡ ok (root_of (some res))
  unfolding nfs3_mount_cb xdr_to_mntres3
  mount_read res body e =
      let whole : xdr_to (xdr_mountres3 x) true (some body) (length body) ≡ some res =
        rw append-nil at
          (xdr_to-encode (xdr_mountres3 x) (xdr_mountres3-IsCodec x laws) res body [] e) in
      rw whole refl

  -- The reply to the mount call, when there is memory: with MNT3_OK the actor keeps the file handle
  -- of the reply as its root and returns 0; with any other status it keeps none and returns -1.
  pub nfs3_mount_cb-nfs3_actor_mount_remotedir :
      (ok_res : Mountres3Ok) (n : ℕ) (body refusal : List ℕ)
      → (xdr_mountres3 x).encode (0, ok_res) ≡ some body
      → (xdr_mountres3 x).encode (suc n, tt) ≡ some refusal
      → ((nfs3_mount_cb x true (some body) (length body) >>= λ fh.
            ok (nfs3_actor_mount_remotedir true fh))
          ≡ ok (some ok_res.fhandle, pos 0))
        × ((nfs3_mount_cb x true (some refusal) (length refusal) >>= λ fh.
              ok (nfs3_actor_mount_remotedir true fh))
            ≡ ok (none, negsuc 0))
  unfolding root_of nfs3_actor_mount_remotedir
  nfs3_mount_cb-nfs3_actor_mount_remotedir ok_res n body refusal e f =
      (rw (mount_read (0, ok_res) body e) refl, rw (mount_read (suc n, tt) refusal f) refl)
