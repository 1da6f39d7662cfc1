-- ===== src/Nfsclient/Mount.antt =====
-- The messages of the MOUNT protocol: the xdr_to_* functions of src/nfsv3/mount3.c.
use unfsclient.Prelude.{
  All, ◌<◌, ℕ, Bool, length, ap, List, ◌++◌, [], none, Option, ◌≡◌, true, some,
}
use unfsclient.Xdr.Mount.{
  xdr_mountlist, Mountres3, Exportnode, xdr_mountres3, Mountbody, xdr_exports,
}
use unfsclient.Nfs3.Messages.{xdr_to-encode}
use unfsclient.Xdr.Library.{XdrLaws, XdrLib}
use unfsclient.Xdr.Laws.Mount.{
  IsMount, IsExport, xdr_mountlist-Writes, xdr_exports-Writes, xdr_exports-IsCodec,
  xdr_mountres3-IsCodec, xdr_mountlist-IsCodec,
}
use unfsclient.Nfs3.Convert.{xdr_to}

-- NULL stands for the empty list, and also for a message that is not understood.
unfoldable pub list_or_null {ℓ} : {A : Type ℓ} → Option (List A) → List A
list_or_null none = []
list_or_null (some l) = l

module _ (x : XdrLib) where
  unfoldable pub xdr_to_mntres3 : Bool → Option (List ℕ) → ℕ → Option Mountres3
  unfolding xdr_to
  xdr_to_mntres3 = xdr_to (xdr_mountres3 x)

  -- There is no test for a message that is NULL.
  unfoldable pub xdr_to_mountlist : Bool → List ℕ → ℕ → List Mountbody
  unfolding xdr_to list_or_null
  xdr_to_mountlist alloc msg len = list_or_null (xdr_to (xdr_mountlist x) alloc (some msg) len)

  unfoldable pub xdr_to_exports : Bool → Option (List ℕ) → ℕ → List Exportnode
  unfolding xdr_to list_or_null
  xdr_to_exports alloc msg len = list_or_null (xdr_to (xdr_exports x) alloc msg len)

module _ (x : XdrLib) (laws : XdrLaws x) where
  -- The three kinds of results of the MOUNT protocol, when there is memory: a mount result that the
  -- routine wrote is read back whole, whatever bytes stand behind it; and a list of mounts or of
  -- exports that is shorter than the routines may call themselves, as are the groups of each export,
  -- and whose strings can be written, is written, and read back whole.
  pub mount_messages_round_trip :
      (res : Mountres3) (mounts : List Mountbody) (exports : List Exportnode) (bs t : List ℕ)
      → (xdr_mountres3 x).encode res ≡ some bs
      → All (IsMount x laws) mounts
      → length mounts < x.depth
      → All (IsExport x laws) exports
      → length exports < x.depth
      → (xdr_to_mntres3 x true (some (bs ++ t)) (length (bs ++ t)) ≡ some res)
        × ((cs : List ℕ) × ((xdr_mountlist x).encode mounts ≡ some cs)
            × (xdr_to_mountlist x true (cs ++ t) (length (cs ++ t)) ≡ mounts))
        × ((ds : List ℕ) × ((xdr_exports x).encode exports ≡ some ds)
            × (xdr_to_exports x true (some (ds ++ t)) (length (ds ++ t)) ≡ exports))
  unfolding xdr_to_mntres3 xdr_to_mountlist xdr_to_exports list_or_null
  mount_messages_round_trip res mounts exports bs t eb hm few_mounts he few_exports =
      let (cs, ec) = xdr_mountlist-Writes x laws mounts hm few_mounts in
      let (ds, ed) = xdr_exports-Writes x laws exports he few_exports in
      (
        xdr_to-encode (xdr_mountres3 x) (xdr_mountres3-IsCodec x laws) res bs t eb,
        (
          cs,
          ec,
          ap list_or_null
              (xdr_to-encode (xdr_mountlist x) (xdr_mountlist-IsCodec x laws) mounts cs t ec),
        ),
        (
          ds,
          ed,
          ap list_or_null
              (xdr_to-encode (xdr_exports x) (xdr_exports-IsCodec x laws) exports ds t ed),
        ),
      )
