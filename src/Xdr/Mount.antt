-- ===== src/Xdr/Mount.antt =====
-- The routines of src/nfsv3/nfs3_xdr.c for the MOUNT protocol.
use unfsclient.Prelude.{ℕ, List}
use unfsclient.Xdr.Library.{chain, ok_or, XdrLib, no_limit, OkOr}
use unfsclient.Xdr.Codec.{seq, void, Codec, dep, via}

abbrev pub fhsize3 : ℕ
fhsize3 = 64

abbrev pub mntpathlen : ℕ
mntpathlen = 1024

abbrev pub mntnamlen : ℕ
mntnamlen = 255

pub record Mountres3Ok : Type 0 where
  pub fhandle : List ℕ
  pub auth_flavors : List ℕ

abbrev pub Mountres3 : Type 0
Mountres3 = (status : ℕ) × OkOr Mountres3Ok (Unit {0}) status

pub record Mountbody : Type 0 where
  pub ml_hostname : List ℕ
  pub ml_directory : List ℕ

pub record Groupnode : Type 0 where
  pub gr_name : List ℕ

pub record Exportnode : Type 0 where
  pub ex_dir : List ℕ
  pub ex_groups : List Groupnode

module _ (x : XdrLib) where
  unfoldable pub xdr_fhandle3 : Codec (List ℕ)
  xdr_fhandle3 = x.bytes fhsize3

  unfoldable pub xdr_dirpath : Codec (List ℕ)
  xdr_dirpath = x.string mntpathlen

  unfoldable pub xdr_name : Codec (List ℕ)
  xdr_name = x.string mntnamlen

  unfoldable pub xdr_mountstat3 : Codec ℕ
  xdr_mountstat3 = x.enum

  unfoldable pub xdr_mountres3_ok : Codec Mountres3Ok
  xdr_mountres3_ok =
      via (λ (a0, a1). record { fhandle = a0; auth_flavors = a1 })
        (λ r. (r.fhandle, r.auth_flavors)) (seq xdr_fhandle3 (x.ints no_limit))

  unfoldable pub xdr_mountres3 : Codec Mountres3
  xdr_mountres3 = dep xdr_mountstat3 (ok_or xdr_mountres3_ok void)

  -- A routine for a node takes the routine for the pointer at its end.
  unfoldable pub xdr_mountbody : Codec (List Mountbody) → Codec (Mountbody × List Mountbody)
  xdr_mountbody next =
      via (λ (a0, (a1, l)). (record { ml_hostname = a0; ml_directory = a1 }, l))
        (λ (r, l). (r.ml_hostname, (r.ml_directory, l))) (seq xdr_name (seq xdr_dirpath next))

  unfoldable pub xdr_mountlist : Codec (List Mountbody)
  xdr_mountlist = chain (λ next. x.pointer (xdr_mountbody next)) x.depth

  unfoldable pub xdr_groupnode : Codec (List Groupnode) → Codec (Groupnode × List Groupnode)
  xdr_groupnode next =
      via (λ (a, l). (record { gr_name = a }, l)) (λ (r, l). (r.gr_name, l)) (seq xdr_name next)

  unfoldable pub xdr_groups : Codec (List Groupnode)
  xdr_groups = chain (λ next. x.pointer (xdr_groupnode next)) x.depth

  unfoldable pub xdr_exportnode : Codec (List Exportnode) → Codec (Exportnode × List Exportnode)
  xdr_exportnode next =
      via (λ (a0, (a1, l)). (record { ex_dir = a0; ex_groups = a1 }, l))
        (λ (r, l). (r.ex_dir, (r.ex_groups, l))) (seq xdr_dirpath (seq xdr_groups next))

  unfoldable pub xdr_exports : Codec (List Exportnode)
  xdr_exports = chain (λ next. x.pointer (xdr_exportnode next)) x.depth
