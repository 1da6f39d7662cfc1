-- ===== src/Rpc/Fragment.antt =====
-- Fragments and record markers: FRAG_SIZE, LAST_FRAG and expect_new_rpc_record of
-- include/clnt_tcp_nb.h; add_buffer_list, update_new_frag_state and collate_buf_list of
-- src/clnt_tcp_nb.c.
use unfsclient.Prelude.{
  ℕ, ◌+◌, ◌-◌, ◌^◌, ◌%◌, Bool, List, [], ◌∷◌, ◌++◌, Option, none, some, pos, negsuc, ltb, leb, ◌==◌,
  if◌then◌else◌, Result, ok, ◌>>=◌, length, take, drop, replicate,
}
use unfsclient.Rpc.Types.{FragBuffer, RpcRecordState, Host, sizeof_frag_buffer, memcpy, be32}

abbrev pub rpc_record_header : ℕ
rpc_record_header = 4

unfoldable pub frag_size : ℕ → ℕ
frag_size hdr = hdr % 2 ^ 31

unfoldable pub last_frag : ℕ → Bool
last_frag hdr = leb (2 ^ 31) (hdr % 2 ^ 32)

-- EXPECT_NEW_FRAG is -1.
unfoldable pub expect_new_rpc_record : RpcRecordState → RpcRecordState
expect_new_rpc_record rs = record rs {
  rs_fh_remaining = rpc_record_header;
  rs_frag_remaining = negsuc 0;
  rs_recordsize = 0;
}

-- `none` is the result -1. With `nocopy` the buffer itself is linked in, else a copy of `len` bytes.
unfoldable pub add_buffer_list :
    Host → List FragBuffer → List ℕ → ℕ → Bool → Option (List FragBuffer)
add_buffer_list h head buf len nocopy =
    if h.malloc (if nocopy then sizeof_frag_buffer else sizeof_frag_buffer + (1 + len))
    then some (
        head
        ++ record { fb_base = if nocopy then buf else take len buf; fb_current = 0; fb_len = len }
          ∷ [])
    else none

-- The first half of update_new_frag_state: more bytes of the record marker.
unfoldable pub fill_fraghdr : RpcRecordState → List ℕ → RpcRecordState × List ℕ
fill_fraghdr rs buf =
    if rs.rs_fh_remaining == 0
    then (rs, buf)
    else (let rm_len =
          (if ltb (length buf) rs.rs_fh_remaining then length buf else rs.rs_fh_remaining) in
        (
          record rs {
            rs_fraghdr = take rm_len buf ++ drop rm_len rs.rs_fraghdr;
            rs_fh_remaining = rs.rs_fh_remaining - rm_len;
          },
          drop rm_len buf,
        ))

-- The second half: the marker is complete. When mem_alloc fails the bytes count as not consumed.
unfoldable pub open_frag : Host → List ℕ → RpcRecordState × List ℕ → RpcRecordState × List ℕ
unfolding frag_size last_frag
open_frag h buf (rs, behind) =
    let hdr = be32 rs.rs_fraghdr in
    let rs' = record rs { rs_frag_bufsz = frag_size hdr; rs_last_frag = last_frag hdr } in
    if h.malloc (frag_size hdr)
    then (
      record rs' {
        rs_frag_buf_base = replicate (frag_size hdr) h.filler;
        rs_frag_remaining = pos (frag_size hdr);
        rs_frag_offset = 0;
      },
      behind,
    )
    else (record rs' { rs_frag_buf_base = [] }, buf)

-- The bytes that the source counts as consumed are gone from the list that is returned.
unfoldable pub update_new_frag_state : Host → RpcRecordState → List ℕ → RpcRecordState × List ℕ
unfolding fill_fraghdr open_frag
update_new_frag_state h rs buf =
    let filled = fill_fraghdr rs buf in
    if filled.0.rs_fh_remaining == 0 then open_frag h buf filled else filled

-- memcpy of each fragment behind the one before it.
unfoldable pub copy_frags : List FragBuffer → List ℕ → ℕ → Result (List ℕ)
copy_frags [] msg curr = ok msg
copy_frags (fbuf ∷ frags) msg curr = memcpy msg curr (take fbuf.fb_len fbuf.fb_base) >>= λ msg'.
    copy_frags frags msg' (curr + fbuf.fb_len)

-- `none` is NULL, and then the list of fragments stays as it was.
unfoldable pub collate_buf_list : Host → RpcRecordState → Result (Option (List ℕ) × RpcRecordState)
unfolding copy_frags
collate_buf_list h rs =
    if h.malloc rs.rs_recordsize
    then (copy_frags rs.rs_frag_list (replicate rs.rs_recordsize h.filler) 0 >>= λ msg.
        ok (some msg, record rs { rs_frag_list = [] }))
    else ok (none, rs)
