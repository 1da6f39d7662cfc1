-- ===== src/Xdr/Sattr.antt =====
-- The routines of src/nfsv3/nfs3_xdr.c for the attributes to set, and names in directories.
use unfsclient.Prelude.{ℕ, Option, zero, suc, List}
use unfsclient.Xdr.Attr.{
  xdr_filename3, xdr_size3, xdr_uid3, xdr_nfs_fh3, NfsFh3, Nfstime3, xdr_mode3, xdr_nfstime3,
  xdr_gid3,
}
use unfsclient.Xdr.Codec.{via, dep, seq, void, Codec}
use unfsclient.Xdr.Library.{XdrLib, optional}

abbrev pub AtClientTime : ℕ → Type 0
AtClientTime zero = Unit {0}
AtClientTime (suc zero) = Unit {0}
AtClientTime (suc (suc zero)) = Nfstime3
AtClientTime (suc (suc (suc n))) = Unit {0}

abbrev pub SetAtime : Type 0
SetAtime = (set_it : ℕ) × AtClientTime set_it

abbrev pub SetMtime : Type 0
SetMtime = (set_it : ℕ) × AtClientTime set_it

pub record Sattr3 : Type 0 where
  pub mode : Option ℕ
  pub uid : Option ℕ
  pub gid : Option ℕ
  pub size : Option ℕ
  pub atime : SetAtime
  pub mtime : SetMtime

pub record Diropargs3 : Type 0 where
  pub dir : NfsFh3
  pub name : List ℕ

module _ (x : XdrLib) where
  unfoldable pub xdr_time_how : Codec ℕ
  xdr_time_how = x.enum

  unfoldable pub xdr_set_mode3 : Codec (Option ℕ)
  xdr_set_mode3 = optional x.bool (xdr_mode3 x)

  unfoldable pub xdr_set_uid3 : Codec (Option ℕ)
  xdr_set_uid3 = optional x.bool (xdr_uid3 x)

  unfoldable pub xdr_set_gid3 : Codec (Option ℕ)
  xdr_set_gid3 = optional x.bool (xdr_gid3 x)

  unfoldable pub xdr_set_size3 : Codec (Option ℕ)
  xdr_set_size3 = optional x.bool (xdr_size3 x)

  -- SET_TO_CLIENT_TIME is 2.
  abbrev pub at_client_time : (how : ℕ) → Codec (AtClientTime how)
  at_client_time zero = void
  at_client_time (suc zero) = void
  at_client_time (suc (suc zero)) = xdr_nfstime3 x
  at_client_time (suc (suc (suc n))) = void

  unfoldable pub xdr_set_atime : Codec SetAtime
  xdr_set_atime = dep xdr_time_how at_client_time

  unfoldable pub xdr_set_mtime : Codec SetMtime
  xdr_set_mtime = dep xdr_time_how at_client_time

  unfoldable pub xdr_sattr3 : Codec Sattr3
  xdr_sattr3 =
      via
        (λ (a0, (a1, (a2, (a3, (a4, a5))))). record {
          mode = a0;
          uid = a1;
          gid = a2;
          size = a3;
          atime = a4;
          mtime = a5;
        })
        (λ r. (r.mode, (r.uid, (r.gid, (r.size, (r.atime, r.mtime))))))
        (seq xdr_set_mode3 (
          seq xdr_set_uid3
            (seq xdr_set_gid3 (seq xdr_set_size3 (seq xdr_set_atime xdr_set_mtime)))))

  unfoldable pub xdr_diropargs3 : Codec Diropargs3
  xdr_diropargs3 =
      via (λ (a0, a1). record { dir = a0; name = a1 }) (λ r. (r.dir, r.name))
        (seq (xdr_nfs_fh3 x) (xdr_filename3 x))
