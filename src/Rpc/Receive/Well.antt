-- ===== src/Rpc/Receive/Well.antt =====
-- The states that update_frag_state keeps between two reads, and its steps on them.
use native.Mathlib.Nat.{add-zero}
use unfsclient.Prelude.{
  ℕ, zero, suc, ◌+◌, ◌-◌, ◌≤◌, ◌<◌, ◌≡◌, refl, ◌⊎◌, true, List, [], ◌∷◌, ◌++◌, pos, negsuc, arith,
  ok, length, take, drop, length-append, length-drop, length-replicate, length-take_le, take_all,
  drop_all, take-append-drop, append_assoc, take-append_exact, drop-append_ge, drop-drop,
}
use unfsclient.Rpc.Types.{RpcRecordState, Host, memcpy, be32}
use unfsclient.Rpc.Fragment.{frag_size, open_frag, update_new_frag_state}
use unfsclient.Rpc.Receive.{copy_to_frag}

-- A record marker is awaited, or was read in part.
pub record IsWaiting (rs : RpcRecordState) : Type 0 where
  pub no_frag : rs.rs_frag_remaining ≡ negsuc 0
  pub some_header : 0 < rs.rs_fh_remaining
  pub at_most_four : rs.rs_fh_remaining ≤ 4
  pub header_size : length rs.rs_fraghdr ≡ 4

-- A fragment that lacks `r` more bytes; its buffer has room for exactly these.
pub record IsInside (r : ℕ) (rs : RpcRecordState) : Type 0 where
  pub lacks : rs.rs_frag_remaining ≡ pos r
  pub no_header : rs.rs_fh_remaining ≡ 0
  pub room : rs.rs_frag_offset + r ≡ rs.rs_frag_bufsz
  pub allocated : length rs.rs_frag_buf_base ≡ rs.rs_frag_bufsz
  pub header_size : length rs.rs_fraghdr ≡ 4

abbrev pub IsWell : RpcRecordState → Type 0
IsWell rs = IsWaiting rs ⊎ ((r : ℕ) × IsInside r rs)

-- The state when the bytes `src` have gone into a fragment that lacks `r`.
unfoldable pub copied : ℕ → RpcRecordState → List ℕ → RpcRecordState
copied r rs src = record rs {
  rs_frag_buf_base =
      take rs.rs_frag_offset rs.rs_frag_buf_base
      ++ (src ++ drop (rs.rs_frag_offset + length src) rs.rs_frag_buf_base);
  rs_frag_remaining = pos (r - length src);
  rs_frag_offset = rs.rs_frag_offset + length src;
}

pub copy-waiting :
    (rs : RpcRecordState) (buf : List ℕ) → IsWaiting rs → copy_to_frag rs buf ≡ ok (rs, buf)
unfolding copy_to_frag
copy-waiting rs buf w = ground (arith, w.no_frag)

length-take : (n : ℕ) (xs : List ℕ) → length (take n xs) ≤ n
length-take zero xs = omega arith
length-take (suc n) [] = omega arith
length-take (suc n) (x ∷ xs) = omega (arith, length-take n xs)

memcpy-fits :
    (buf src : List ℕ) (off : ℕ)
    → off + length src ≤ length buf
    → memcpy buf off src ≡ ok (take off buf ++ (src ++ drop (off + length src) buf))
unfolding memcpy
memcpy-fits buf src off h = ground arith

-- With no byte to copy the state stays as it is.
pub copied_none : (r : ℕ) (rs : RpcRecordState) → IsInside r rs → copied r rs [] ≡ rs
unfolding copied
copied_none r rs i =
    ground
      (arith, take-append-drop rs.rs_frag_offset rs.rs_frag_buf_base, add-zero rs.rs_frag_offset)

-- The copy takes as many bytes as the fragment lacks, or all that there are.
pub copy-inside :
    (r : ℕ) (rs : RpcRecordState) (buf : List ℕ)
    → IsInside r rs
    → copy_to_frag rs buf ≡ ok (copied r rs (take r buf), drop r buf)
unfolding copy_to_frag copied
copy-inside zero rs buf i = rw (i.lacks) (ground (arith, copied_none 0 rs i))
copy-inside (suc k) rs buf i = ground (
  arith,
  memcpy-fits rs.rs_frag_buf_base buf rs.rs_frag_offset,
  memcpy-fits rs.rs_frag_buf_base (take (suc k) buf) rs.rs_frag_offset,
  take_all (length buf) buf,
  take_all (suc k) buf,
  drop_all (length buf) buf,
  drop_all (suc k) buf,
  length-take_le (suc k) buf,
)

pub copied-IsInside :
    (r : ℕ) (rs : RpcRecordState) (src : List ℕ)
    → IsInside r rs
    → length src ≤ r
    → IsInside (r - length src) (copied r rs src)
unfolding copied
copied-IsInside r rs src i le = record {
  lacks = refl;
  no_header = i.no_header;
  room = omega (arith, i.room);
  allocated = omega (
    arith,
    i.room,
    i.allocated,
    length-append (take rs.rs_frag_offset rs.rs_frag_buf_base)
        (src ++ drop (rs.rs_frag_offset + length src) rs.rs_frag_buf_base),
    length-append src (drop (rs.rs_frag_offset + length src) rs.rs_frag_buf_base),
    length-take_le rs.rs_frag_offset rs.rs_frag_buf_base,
    length-drop (rs.rs_frag_offset + length src) rs.rs_frag_buf_base,
  );
  header_size = i.header_size;
}

-- The state when the bytes `src` have gone to the front of the record marker.
unfoldable pub marked : RpcRecordState → List ℕ → RpcRecordState
marked rs src = record rs {
  rs_fraghdr = src ++ drop (length src) rs.rs_fraghdr;
  rs_fh_remaining = rs.rs_fh_remaining - length src;
}

-- The state when the marker is complete and memory for its fragment was found.
unfoldable pub opened : Host → RpcRecordState → RpcRecordState
opened h rs = (open_frag h [] (rs, [])).0

pub marked-IsWaiting :
    (rs : RpcRecordState) (src : List ℕ)
    → IsWaiting rs
    → length src < rs.rs_fh_remaining
    → IsWaiting (marked rs src)
unfolding marked
marked-IsWaiting rs src w lt = record {
  no_frag = w.no_frag;
  some_header = omega arith;
  at_most_four = omega (arith, w.at_most_four);
  header_size = omega (
    arith,
    w.header_size,
    w.at_most_four,
    length-append src (drop (length src) rs.rs_fraghdr),
    length-drop (length src) rs.rs_fraghdr,
  );
}

pub start-short :
    (h : Host) (rs : RpcRecordState) (buf : List ℕ)
    → IsWaiting rs
    → length buf < rs.rs_fh_remaining
    → update_new_frag_state h rs buf ≡ (marked rs buf, [])
unfolding update_new_frag_state marked
start-short h rs buf w lt =
    ground (arith, w.some_header, take_all (length buf) buf, drop_all (length buf) buf)

module _ (h : Host) (alloc : (n : ℕ) → h.malloc n ≡ true) where
  pub start-long :
      (rs : RpcRecordState) (buf : List ℕ)
      → IsWaiting rs
      → rs.rs_fh_remaining ≤ length buf
      → update_new_frag_state h rs buf
        ≡ (opened h (marked rs (take rs.rs_fh_remaining buf)), drop rs.rs_fh_remaining buf)
  unfolding update_new_frag_state marked opened open_frag
  start-long rs buf w le = ground (
    arith,
    w.some_header,
    length-take_le rs.rs_fh_remaining buf,
    alloc (frag_size (be32 (take rs.rs_fh_remaining buf ++ drop rs.rs_fh_remaining rs.rs_fraghdr))),
  )

  pub opened-IsInside :
      (rs : RpcRecordState)
      → rs.rs_fh_remaining ≡ 0
      → length rs.rs_fraghdr ≡ 4
      → IsInside (frag_size (be32 rs.rs_fraghdr)) (opened h rs)
  unfolding opened open_frag
  opened-IsInside rs none_left four =
      rw (alloc (frag_size (be32 rs.rs_fraghdr)), opened, open_frag)
        (record {
          lacks = refl;
          no_header = none_left;
          room = omega arith;
          allocated = length-replicate _ _;
          header_size = four;
        })

-- Two copies in a row are one copy.
pub copied-append :
    (r : ℕ) (rs : RpcRecordState) (xs ys : List ℕ)
    → IsInside r rs
    → length xs ≤ r
    → copied (r - length xs) (copied r rs xs) ys ≡ copied r rs (xs ++ ys)
unfolding copied
copied-append r rs xs ys i le = ground (
  arith,
  i.room,
  i.allocated,
  length-append xs ys,
  append_assoc (take rs.rs_frag_offset rs.rs_frag_buf_base) xs
      (drop (rs.rs_frag_offset + length xs) rs.rs_frag_buf_base),
  append_assoc (take rs.rs_frag_offset rs.rs_frag_buf_base) xs
      (ys ++ drop (rs.rs_frag_offset + length xs + length ys) rs.rs_frag_buf_base),
  append_assoc xs ys (drop (rs.rs_frag_offset + length (xs ++ ys)) rs.rs_frag_buf_base),
  length-append (take rs.rs_frag_offset rs.rs_frag_buf_base) xs,
  length-take_le rs.rs_frag_offset rs.rs_frag_buf_base,
  take-append_exact (rs.rs_frag_offset + length xs)
      (take rs.rs_frag_offset rs.rs_frag_buf_base ++ xs)
      (drop (rs.rs_frag_offset + length xs) rs.rs_frag_buf_base),
  drop-append_ge (rs.rs_frag_offset + length xs + length ys)
      (take rs.rs_frag_offset rs.rs_frag_buf_base ++ xs)
      (drop (rs.rs_frag_offset + length xs) rs.rs_frag_buf_base),
  drop-drop (rs.rs_frag_offset + length xs) (length ys) (rs.rs_frag_offset + length xs + length ys)
      rs.rs_frag_buf_base,
)
