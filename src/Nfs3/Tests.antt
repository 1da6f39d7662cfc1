-- ===== src/Nfs3/Tests.antt =====
-- The theorems on the messages of src/nfsv3/nfs3.c at concrete inputs, with a small XDR library.
use unfsclient.Prelude.{ℕ, some, refl, none, List, [], ◌++◌, ◌≡◌, false, ◌∷◌, true, pos}
use unfsclient.Xdr.Codec.{via, seq, dep, void}
use unfsclient.Xdr.Attr.{NfsFh3, xdr_count3, xdr_post_op_attr, xdr_nfsstat3, xdr_uint32}
use unfsclient.Nfs3.Procs.{xdr_res, nfs3_read}
use unfsclient.Xdr.Data.{xdr_read3resok, xdr_read3res, Read3args, Read3resok}
use unfsclient.Xdr.Library.{no_limit, optional}
use unfsclient.Nfs3.Payload.{payload_left}
use unfsclient.Nfs3.Errors.{nfsstat3_to_errno-no_error, no_error, nfsstat3_to_errno}
use unfsclient.Nfs3.Small.{small, small_laws}

abbrev pub handle : NfsFh3
handle = record { data_val = 1 ∷ 2 ∷ 3 ∷ 4 ∷ [] }

abbrev pub read_args : Read3args
read_args = record { file = handle; offset = 6; count = 4 }

abbrev pub read_ok : Read3resok
read_ok = record { file_attributes = none; count = 4; eof = true; data_val = 5 ∷ 6 ∷ 7 ∷ 8 ∷ [] }

abbrev pub args_bytes : List ℕ
args_bytes = 0 ∷ 0 ∷ 0 ∷ 4 ∷ 1 ∷ 2 ∷ 3 ∷ 4 ∷ 0 ∷ 0 ∷ 0 ∷ 0 ∷ 0 ∷ 0 ∷ 0 ∷ 6 ∷ 0 ∷ 0 ∷ 0 ∷ 4 ∷ []

abbrev pub ok_bytes : List ℕ
ok_bytes = 0 ∷ 0 ∷ 0 ∷ 0 ∷ 0 ∷ 0 ∷ 0 ∷ 4 ∷ 0 ∷ 0 ∷ 0 ∷ 1 ∷ 0 ∷ 0 ∷ 0 ∷ 4 ∷ 5 ∷ 6 ∷ 7 ∷ 8 ∷ []

ok_written : (xdr_read3resok small false).encode read_ok ≡ some ok_bytes
unfolding xdr_read3resok via seq dep xdr_post_op_attr optional void xdr_count3 xdr_uint32
ok_written = refl

pub res_written :
    (xdr_res small false nfs3_read).encode (0, read_ok) ≡ some (0 ∷ 0 ∷ 0 ∷ 0 ∷ ok_bytes)
unfolding xdr_read3res dep xdr_nfsstat3 xdr_read3resok via seq xdr_post_op_attr optional void
    xdr_count3 xdr_uint32
res_written = refl

payload_left_example :
    (ps : List ℕ) × ((small.bytes no_limit).encode read_ok.data_val ≡ some ps)
    × ((xdr_read3resok small true).decode (ok_bytes ++ 9 ∷ [])
        ≡ some (record read_ok { data_val = [] }, ps ++ 9 ∷ []))
payload_left_example = payload_left small small_laws read_ok ok_bytes (9 ∷ []) ok_written

nfsstat3_to_errno-no_error_example :
    (nfsstat3_to_errno (pos 70) ≡ no_error → pos 70 ≡ pos 0)
    × (pos 70 ≡ pos 0 → nfsstat3_to_errno (pos 70) ≡ no_error)
nfsstat3_to_errno-no_error_example = nfsstat3_to_errno-no_error (pos 70)
