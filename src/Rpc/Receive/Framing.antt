-- ===== src/Rpc/Receive/Framing.antt =====
-- Record markers and whole fragments, as a sender makes them.
use unfsclient.Prelude.{
  ℕ, ◌%◌, ◌+◌, ◌++◌, ◌<◌, true, ◌≡◌, ◌^◌, if◌then◌else◌, arith, ◌/◌, List, [], ◌∷◌, length, Bool,
  false, pos, drop_all, length-replicate, replicate, refl, append-nil, ◌>>=◌, ok, drop-append_ge,
  ◌∙◌, drop, ◌-◌, take-append_exact, take_all, length-append, take, ap,
}
use unfsclient.Rpc.Types.{Host, RpcRecordState, be32, Ght, CtData}
use unfsclient.Rpc.Fragment.{frag_size, open_frag, last_frag}
use unfsclient.Rpc.Receive.Well.{opened, copied, marked, IsWaiting, IsInside}
use unfsclient.Rpc.Receive.{update_record_state, update_frag_state}
use unfsclient.Rpc.Receive.Feed.{feed-nil, feed-long, feed_complete}

-- The four bytes of a record marker (RFC 1831): the last-fragment bit and 31 bits of length.
unfoldable pub marker : Bool → ℕ → List ℕ
marker last n =
    (n / 2 ^ 24 % 128 + (if last then 128 else 0))
    ∷ (n / 2 ^ 16 % 256)
    ∷ (n / 2 ^ 8 % 256)
    ∷ (n % 256)
    ∷ []

abbrev pub fragment : Bool → List ℕ → List ℕ
fragment last body = marker last (length body) ++ body

-- The body of a fragment is not empty, and its length fits the marker.
abbrev pub Fits : List ℕ → Type 0
Fits body = (0 < length body) × (length body < 2 ^ 31)

marker_size :
    (last : Bool) (n : ℕ) (more : List ℕ)
    → n < 2 ^ 31
    → frag_size (be32 (marker last n ++ more)) ≡ n
unfolding marker frag_size
marker_size true n more lt = omega arith
marker_size false n more lt = omega arith

marker_last :
    (last : Bool) (n : ℕ) (more : List ℕ)
    → n < 2 ^ 31
    → last_frag (be32 (marker last n ++ more)) ≡ last
unfolding marker last_frag
marker_last true n more lt = ground arith
marker_last false n more lt = ground arith

-- Between two records.
pub record IsIdle (rs : RpcRecordState) : Type 0 where
  pub waits : IsWaiting rs
  pub whole_marker : rs.rs_fh_remaining ≡ 4
  pub no_frags : rs.rs_frag_list ≡ []
  pub no_size : rs.rs_recordsize ≡ 0

module _ (h : Host) (alloc : (n : ℕ) → h.malloc n ≡ true) where
  -- The state when a whole fragment has been copied.
  unfoldable pub filled : Bool → List ℕ → RpcRecordState → RpcRecordState
  filled last body rs = record rs {
    rs_frag_remaining = pos 0;
    rs_frag_buf_base = body;
    rs_frag_bufsz = length body;
    rs_frag_offset = length body;
    rs_fh_remaining = 0;
    rs_fraghdr = marker last (length body);
    rs_last_frag = last;
  }

  pub length-marker : (last : Bool) (n : ℕ) → length (marker last n) ≡ 4
  unfolding marker
  length-marker last n = refl

  -- A whole marker replaces what the four bytes held before.
  marked-marker :
      (rs : RpcRecordState) (last : Bool) (n : ℕ)
      → IsWaiting rs
      → rs.rs_fh_remaining ≡ 4
      → marked rs (marker last n) ≡ record rs { rs_fraghdr = marker last n; rs_fh_remaining = 0 }
  unfolding marked
  marked-marker rs last n w four = ground (
    arith,
    length-marker last n,
    drop_all 4 rs.rs_fraghdr,
    w.header_size,
    append-nil (marker last n),
  )

  opened-marker :
      (rs : RpcRecordState) (last : Bool) (n : ℕ)
      → n < 2 ^ 31
      → opened h (record rs { rs_fraghdr = marker last n; rs_fh_remaining = 0 }) ≡ record rs {
        rs_frag_remaining = pos n;
        rs_frag_buf_base = replicate n h.filler;
        rs_frag_bufsz = n;
        rs_frag_offset = 0;
        rs_fh_remaining = 0;
        rs_fraghdr = marker last n;
        rs_last_frag = last;
      }
  unfolding opened open_frag
  opened-marker rs last n lt =
      let size : frag_size (be32 (marker last n)) ≡ n =
        rw append-nil at (marker_size last n [] lt) in
      let flag : last_frag (be32 (marker last n)) ≡ last =
        rw append-nil at (marker_last last n [] lt) in
      rw (size, flag, alloc n, opened, open_frag) refl

  copied-opened :
      (rs : RpcRecordState) (last : Bool) (body : List ℕ)
      → IsWaiting rs
      → rs.rs_fh_remaining ≡ 4
      → length body < 2 ^ 31
      → copied (length body) (opened h (marked rs (marker last (length body)))) body
        ≡ filled last body rs
  unfolding copied filled
  copied-opened rs last body w four lt =
      rw
        (
          marked-marker rs last (length body) w four,
          opened-marker rs last (length body) lt,
          copied,
          filled,
        )
        (ground (
          arith,
          drop_all (length body) (replicate (length body) h.filler),
          length-replicate (length body) h.filler,
          append-nil body,
        ))

module _ {T : Type 0} (g : Ght T) (h : Host) (alloc : (n : ℕ) → h.malloc n ≡ true) where
  -- One whole fragment: its bytes go to update_record_state.
  pub feed-fragment :
      (ct : CtData T) (last : Bool) (body : List ℕ)
      → IsWaiting ct.ct_record_state
      → ct.ct_record_state.rs_fh_remaining ≡ 4
      → Fits body
      → update_frag_state g h ct (fragment last body) ≡ (
          update_record_state g h
            (record ct { ct_record_state = filled h alloc last body ct.ct_record_state })
          >>= λ (ct', n). ok (ct', n + 0))
  feed-fragment ct last body w four fits =
      feed-long g h alloc ct (fragment last body) w (
        omega (
          arith,
          four,
          length-append (marker last (length body)) body,
          length-marker h alloc last (length body),
        ))
      ∙ rw (taken, dropped)
          (feed_complete g h alloc _ (length body) body inside (omega arith) fits.0
            ∙ rw
                (
                  take_all (length body) body (omega arith),
                  drop_all (length body) body (omega arith),
                  copied-opened h alloc ct.ct_record_state last body w four fits.1,
                )
                (simp (feed-nil g h alloc)))
    where
      taken :
          take ct.ct_record_state.rs_fh_remaining (fragment last body) ≡ marker last (length body)
      taken =
          take-append_exact ct.ct_record_state.rs_fh_remaining (marker last (length body)) body
            (omega (arith, four, length-marker h alloc last (length body)))

      dropped : drop ct.ct_record_state.rs_fh_remaining (fragment last body) ≡ body
      dropped =
          drop-append_ge ct.ct_record_state.rs_fh_remaining (marker last (length body)) body
            (omega (arith, four, length-marker h alloc last (length body)))
          ∙ ap (λ n. drop n body)
              (let e : ct.ct_record_state.rs_fh_remaining - length (marker last (length body)) ≡ 0 =
                  omega (arith, four, length-marker h alloc last (length body)) in
                e)

      inside :
          IsInside (length body) (opened h (marked ct.ct_record_state (marker last (length body))))
      inside =
          rw
            (
              marked-marker h alloc ct.ct_record_state last (length body) w four,
              opened-marker h alloc ct.ct_record_state last (length body) fits.1,
            )
            (record {
              lacks = refl;
              no_header = refl;
              room = omega arith;
              allocated = length-replicate (length body) h.filler;
              header_size = length-marker h alloc last (length body);
            })
