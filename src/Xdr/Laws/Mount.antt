-- ===== src/Xdr/Laws/Mount.antt =====
-- The codecs of src/nfsv3/nfs3_xdr.c for the MOUNT protocol can be relied on.
use unfsclient.Prelude.{refl, List, All, length, ◌<◌}
use unfsclient.Xdr.Mount.{
  Mountbody, Groupnode, Exportnode, xdr_exportnode, xdr_mountres3, fhsize3, xdr_name,
  xdr_mountstat3, xdr_exports, xdr_groupnode, mntpathlen, xdr_groups, xdr_dirpath, xdr_mountbody,
  xdr_fhandle3, xdr_mountres3_ok, mntnamlen, xdr_mountlist,
}
use unfsclient.Xdr.Library.{chain-Writes, chain-IsCodec, ok_or-IsCodec, XdrLaws, no_limit, XdrLib}
use unfsclient.Xdr.Codec.{
  Codec, Writes, seq-Writes, via, IsCodec, via-IsCodec, seq-IsCodec, void-IsCodec,
}

module _ (x : XdrLib) (laws : XdrLaws x) where
  pub xdr_fhandle3-IsCodec : IsCodec (xdr_fhandle3 x)
  unfolding xdr_fhandle3
  xdr_fhandle3-IsCodec = laws.bytes_law fhsize3

  pub xdr_dirpath-IsCodec : IsCodec (xdr_dirpath x)
  unfolding xdr_dirpath
  xdr_dirpath-IsCodec = laws.string_law mntpathlen

  pub xdr_name-IsCodec : IsCodec (xdr_name x)
  unfolding xdr_name
  xdr_name-IsCodec = laws.string_law mntnamlen

  pub xdr_mountstat3-IsCodec : IsCodec (xdr_mountstat3 x)
  unfolding xdr_mountstat3
  xdr_mountstat3-IsCodec = laws.enum_law

  pub xdr_mountres3_ok-IsCodec : IsCodec (xdr_mountres3_ok x)
  unfolding xdr_mountres3_ok
  xdr_mountres3_ok-IsCodec =
      via-IsCodec _ _ (λ r. refl) (seq-IsCodec xdr_fhandle3-IsCodec (laws.ints_law no_limit))

  pub xdr_mountres3-IsCodec : IsCodec (xdr_mountres3 x)
  unfolding xdr_mountres3
  xdr_mountres3-IsCodec = ok_or-IsCodec xdr_mountstat3-IsCodec xdr_mountres3_ok-IsCodec void-IsCodec

  pub xdr_mountbody-IsCodec :
      (next : Codec (List Mountbody)) → IsCodec next → IsCodec (xdr_mountbody x next)
  unfolding xdr_mountbody
  xdr_mountbody-IsCodec next good =
      via-IsCodec _ _ (λ r. refl)
        (seq-IsCodec xdr_name-IsCodec (seq-IsCodec xdr_dirpath-IsCodec good))

  pub xdr_mountlist-IsCodec : IsCodec (xdr_mountlist x)
  unfolding xdr_mountlist
  xdr_mountlist-IsCodec =
      chain-IsCodec _ (λ next good. laws.pointer_law _ (xdr_mountbody-IsCodec next good)) x.depth

  pub xdr_groupnode-IsCodec :
      (next : Codec (List Groupnode)) → IsCodec next → IsCodec (xdr_groupnode x next)
  unfolding xdr_groupnode
  xdr_groupnode-IsCodec next good = via-IsCodec _ _ (λ r. refl) (seq-IsCodec xdr_name-IsCodec good)

  pub xdr_groups-IsCodec : IsCodec (xdr_groups x)
  unfolding xdr_groups
  xdr_groups-IsCodec =
      chain-IsCodec _ (λ next good. laws.pointer_law _ (xdr_groupnode-IsCodec next good)) x.depth

  pub xdr_exportnode-IsCodec :
      (next : Codec (List Exportnode)) → IsCodec next → IsCodec (xdr_exportnode x next)
  unfolding xdr_exportnode
  xdr_exportnode-IsCodec next good =
      via-IsCodec _ _ (λ r. refl)
        (seq-IsCodec xdr_dirpath-IsCodec (seq-IsCodec xdr_groups-IsCodec good))

  pub xdr_exports-IsCodec : IsCodec (xdr_exports x)
  unfolding xdr_exports
  xdr_exports-IsCodec =
      chain-IsCodec _ (λ next good. laws.pointer_law _ (xdr_exportnode-IsCodec next good)) x.depth

  -- The strings of a node can be written, and for an export the list of its groups is shorter than
  -- the stack is deep.
  abbrev pub IsMount : Mountbody → Type 0
  IsMount m = Writes (xdr_name x) m.ml_hostname × Writes (xdr_dirpath x) m.ml_directory

  abbrev pub IsGroup : Groupnode → Type 0
  IsGroup m = Writes (xdr_name x) m.gr_name

  abbrev pub IsExport : Exportnode → Type 0
  IsExport m =
      Writes (xdr_dirpath x) m.ex_dir × All IsGroup m.ex_groups × (length m.ex_groups < x.depth)

  pub xdr_mountlist-Writes :
      (l : List Mountbody) → All IsMount l → length l < x.depth → Writes (xdr_mountlist x) l
  unfolding xdr_mountlist xdr_mountbody via
  xdr_mountlist-Writes l h room =
      chain-Writes _ IsMount (λ next. laws.pointer_none _)
        (λ next m ms (host, dir) behind.
          laws.pointer_some _ (m, ms)
            (seq-Writes _ _ m.ml_hostname (m.ml_directory, ms) host
              (seq-Writes _ _ m.ml_directory ms dir behind)))
        x.depth l h room

  pub xdr_groups-Writes :
      (l : List Groupnode) → All IsGroup l → length l < x.depth → Writes (xdr_groups x) l
  unfolding xdr_groups xdr_groupnode via
  xdr_groups-Writes l h room =
      chain-Writes _ IsGroup (λ next. laws.pointer_none _)
        (λ next m ms name behind.
          laws.pointer_some _ (m, ms) (seq-Writes _ _ m.gr_name ms name behind))
        x.depth l h room

  pub xdr_exports-Writes :
      (l : List Exportnode) → All IsExport l → length l < x.depth → Writes (xdr_exports x) l
  unfolding xdr_exports xdr_exportnode via
  xdr_exports-Writes l h room =
      chain-Writes _ IsExport (λ next. laws.pointer_none _)
        (λ next m ms (dir, groups, few) behind.
          laws.pointer_some _ (m, ms)
            (seq-Writes _ _ m.ex_dir (m.ex_groups, ms) dir
              (seq-Writes _ _ m.ex_groups ms (xdr_groups-Writes m.ex_groups groups few) behind)))
        x.depth l h room
