-- ===== src/Xdr/Directory.antt =====
-- The routines of src/nfsv3/nfs3_xdr.c for READDIR and READDIRPLUS.
use unfsclient.Prelude.{ℕ, Option, Bool, List}
use unfsclient.Xdr.Attr.{
  xdr_post_op_fh3, xdr_fileid3, NfsFh3, xdr_cookieverf3, xdr_count3, xdr_post_op_attr,
  xdr_filename3, Fattr3, xdr_nfs_fh3, xdr_cookie3, xdr_nfsstat3,
}
use unfsclient.Xdr.Codec.{Codec, via, seq, dep}
use unfsclient.Xdr.Library.{XdrLib, chain, ok_or, OkOr}

pub record Readdir3args : Type 0 where
  pub dir : NfsFh3
  pub cookie : ℕ
  pub cookieverf : List ℕ
  pub count : ℕ

pub record Entry3 : Type 0 where
  pub fileid : ℕ
  pub name : List ℕ
  pub cookie : ℕ

pub record Dirlist3 : Type 0 where
  pub entries : List Entry3
  pub eof : Bool

pub record Readdir3resok : Type 0 where
  pub dir_attributes : Option Fattr3
  pub cookieverf : List ℕ
  pub reply : Dirlist3

pub record Readdir3resfail : Type 0 where
  pub dir_attributes : Option Fattr3

abbrev pub Readdir3res : Type 0
Readdir3res = (status : ℕ) × OkOr Readdir3resok Readdir3resfail status

pub record Readdirplus3args : Type 0 where
  pub dir : NfsFh3
  pub cookie : ℕ
  pub cookieverf : List ℕ
  pub dircount : ℕ
  pub maxcount : ℕ

pub record Entryplus3 : Type 0 where
  pub fileid : ℕ
  pub name : List ℕ
  pub cookie : ℕ
  pub name_attributes : Option Fattr3
  pub name_handle : Option NfsFh3

pub record Dirlistplus3 : Type 0 where
  pub entries : List Entryplus3
  pub eof : Bool

pub record Readdirplus3resok : Type 0 where
  pub dir_attributes : Option Fattr3
  pub cookieverf : List ℕ
  pub reply : Dirlistplus3

pub record Readdirplus3resfail : Type 0 where
  pub dir_attributes : Option Fattr3

abbrev pub Readdirplus3res : Type 0
Readdirplus3res = (status : ℕ) × OkOr Readdirplus3resok Readdirplus3resfail status

module _ (x : XdrLib) where
  unfoldable pub xdr_readdir3args : Codec Readdir3args
  xdr_readdir3args =
      via (λ (a0, (a1, (a2, a3))). record { dir = a0; cookie = a1; cookieverf = a2; count = a3 })
        (λ r. (r.dir, (r.cookie, (r.cookieverf, r.count))))
        (seq (xdr_nfs_fh3 x) (seq (xdr_cookie3 x) (seq (xdr_cookieverf3 x) (xdr_count3 x))))

  -- `next` is the routine for the pointer nextentry.
  unfoldable pub xdr_entry3 : Codec (List Entry3) → Codec (Entry3 × List Entry3)
  xdr_entry3 next =
      via (λ (a0, (a1, (a2, l))). (record { fileid = a0; name = a1; cookie = a2 }, l))
        (λ (r, l). (r.fileid, (r.name, (r.cookie, l))))
        (seq (xdr_fileid3 x) (seq (xdr_filename3 x) (seq (xdr_cookie3 x) next)))

  -- xdr_pointer to an entry.
  unfoldable pub entry3_pointer : Codec (List Entry3)
  entry3_pointer = chain (λ next. x.pointer (xdr_entry3 next)) x.depth

  unfoldable pub xdr_dirlist3 : Codec Dirlist3
  xdr_dirlist3 =
      via (λ (a0, a1). record { entries = a0; eof = a1 }) (λ r. (r.entries, r.eof))
        (seq entry3_pointer x.bool)

  unfoldable pub xdr_readdir3resok : Codec Readdir3resok
  xdr_readdir3resok =
      via (λ (a0, (a1, a2)). record { dir_attributes = a0; cookieverf = a1; reply = a2 })
        (λ r. (r.dir_attributes, (r.cookieverf, r.reply)))
        (seq (xdr_post_op_attr x) (seq (xdr_cookieverf3 x) xdr_dirlist3))

  unfoldable pub xdr_readdir3resfail : Codec Readdir3resfail
  xdr_readdir3resfail =
      via (λ a. record { dir_attributes = a }) (λ r. r.dir_attributes) (xdr_post_op_attr x)

  unfoldable pub xdr_readdir3res : Codec Readdir3res
  xdr_readdir3res = dep (xdr_nfsstat3 x) (ok_or xdr_readdir3resok xdr_readdir3resfail)

  unfoldable pub xdr_readdirplus3args : Codec Readdirplus3args
  xdr_readdirplus3args =
      via
        (λ (a0, (a1, (a2, (a3, a4)))). record {
          dir = a0;
          cookie = a1;
          cookieverf = a2;
          dircount = a3;
          maxcount = a4;
        })
        (λ r. (r.dir, (r.cookie, (r.cookieverf, (r.dircount, r.maxcount)))))
        (seq (xdr_nfs_fh3 x)
          (seq (xdr_cookie3 x) (seq (xdr_cookieverf3 x) (seq (xdr_count3 x) (xdr_count3 x)))))

  unfoldable pub xdr_entryplus3 : Codec (List Entryplus3) → Codec (Entryplus3 × List Entryplus3)
  xdr_entryplus3 next =
      via
        (λ (a0, (a1, (a2, (a3, (a4, l))))). (
          record { fileid = a0; name = a1; cookie = a2; name_attributes = a3; name_handle = a4 },
          l,
        ))
        (λ (r, l). (r.fileid, (r.name, (r.cookie, (r.name_attributes, (r.name_handle, l))))))
        (seq (xdr_fileid3 x) (
          seq (xdr_filename3 x)
            (seq (xdr_cookie3 x) (seq (xdr_post_op_attr x) (seq (xdr_post_op_fh3 x) next)))))

  unfoldable pub entryplus3_pointer : Codec (List Entryplus3)
  entryplus3_pointer = chain (λ next. x.pointer (xdr_entryplus3 next)) x.depth

  unfoldable pub xdr_dirlistplus3 : Codec Dirlistplus3
  xdr_dirlistplus3 =
      via (λ (a0, a1). record { entries = a0; eof = a1 }) (λ r. (r.entries, r.eof))
        (seq entryplus3_pointer x.bool)

  unfoldable pub xdr_readdirplus3resok : Codec Readdirplus3resok
  xdr_readdirplus3resok =
      via (λ (a0, (a1, a2)). record { dir_attributes = a0; cookieverf = a1; reply = a2 })
        (λ r. (r.dir_attributes, (r.cookieverf, r.reply)))
        (seq (xdr_post_op_attr x) (seq (xdr_cookieverf3 x) xdr_dirlistplus3))

  unfoldable pub xdr_readdirplus3resfail : Codec Readdirplus3resfail
  xdr_readdirplus3resfail =
      via (λ a. record { dir_attributes = a }) (λ r. r.dir_attributes) (xdr_post_op_attr x)

  unfoldable pub xdr_readdirplus3res : Codec Readdirplus3res
  xdr_readdirplus3res = dep (xdr_nfsstat3 x) (ok_or xdr_readdirplus3resok xdr_readdirplus3resfail)
