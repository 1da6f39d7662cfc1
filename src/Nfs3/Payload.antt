-- ===== src/Nfs3/Payload.antt =====
-- READ results and WRITE arguments read with NFS3_DATA_NO_DEXDR: xdr_to_READ3res and
-- xdr_to_WRITE3args of src/nfsv3/nfs3.c.
use unfsclient.Prelude.{ℕ, ◌≡◌, [], List, false, true, ◌++◌, some, refl}
use unfsclient.Xdr.Library.{XdrLib, no_limit, XdrLaws}
use unfsclient.Xdr.Data.{Read3resok, xdr_read3resok, skipped}
use unfsclient.Xdr.Attr.{xdr_post_op_attr, xdr_count3}
use unfsclient.Xdr.Codec.{seq-behind, seq-parts, seq, via}
use unfsclient.Xdr.Laws.Attr.{xdr_post_op_attr-IsCodec, xdr_count3-IsCodec}

module _ (x : XdrLib) (laws : XdrLaws x) where
  -- A READ3resok read without its payload has every other field, and the stream is left at the
  -- bytes of the payload.
  pub payload_left :
      (r : Read3resok) (bs t : List ℕ)
      → (xdr_read3resok x false).encode r ≡ some bs
      → (ps : List ℕ) × ((x.bytes no_limit).encode r.data_val ≡ some ps)
        × ((xdr_read3resok x true).decode (bs ++ t) ≡ some (record r { data_val = [] }, ps ++ t))
  unfolding xdr_read3resok via skipped
  payload_left r bs t e =
      let (x1, y1, e1, f1, w1) = seq-parts _ _ r.file_attributes _ bs e in
      let (x2, y2, e2, f2, w2) = seq-parts _ _ r.count _ y1 f1 in
      let (x3, ps, e3, f3, w3) = seq-parts _ _ r.eof _ y2 f2 in
      let last : skipped.decode (ps ++ t) ≡ some ([], ps ++ t) = refl in
      let third =
        seq-behind x.bool skipped laws.bool_law r.eof [] x3 ps y2 t (ps ++ t) e3 w3 last in
      let second =
        seq-behind (xdr_count3 x) (seq x.bool skipped) (xdr_count3-IsCodec x laws) r.count
          (r.eof, []) x2 y2 y1 t (ps ++ t) e2 w2 third in
      let first =
        seq-behind (xdr_post_op_attr x) (seq (xdr_count3 x) (seq x.bool skipped))
          (xdr_post_op_attr-IsCodec x laws) r.file_attributes (r.count, (r.eof, [])) x1 y1 bs t
          (ps ++ t) e1 w1 second in
      (ps, f3, rw first refl)
