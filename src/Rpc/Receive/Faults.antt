-- ===== src/Rpc/Receive/Faults.antt =====
-- Two ways in which a legal stream of RPC records breaks the reception.
use unfsclient.Prelude.{
  ℕ, ok, ◌≡◌, List, take_all, ◌∙◌, replicate, drop, inl, ◌+◌, true, ◌++◌, ◌∷◌, refl, fault, [],
  arith, length-append, length-replicate, inr, length, ◌<◌, length-drop, false, drop_all, take,
}
use unfsclient.Rpc.Types.{
  Host, CtData, sizeof_frag_buffer, Ght, RpcRecordState, be32, memcpy, FragBuffer,
}
use unfsclient.Rpc.Receive.{update_record_state, integrate_frag, update_frag_state}
use unfsclient.Rpc.Fragment.{expect_new_rpc_record, copy_frags, frag_size, open_frag}
use unfsclient.Rpc.Receive.Append.{update_frag_state-append}
use unfsclient.Rpc.Receive.Feed.{feed-nil, feed-short, feed-long}
use unfsclient.Rpc.Receive.Framing.{Fits, fragment, filled, IsIdle, feed-fragment, length-marker}
use unfsclient.Rpc.Receive.Rounds.{call_user_cb_lem}
use unfsclient.Rpc.Receive.Stream.{run_reads}
use unfsclient.Rpc.Receive.Well.{IsWaiting, marked, marked-IsWaiting, opened}

-- The bytes of two fragments do not fit a buffer of the second one's size.
copy_frags-overflow :
    (p q : List ℕ) (n : ℕ)
    → 0 < length p
    → copy_frags
        (record { fb_base = p; fb_current = 0; fb_len = length p }
          ∷ record { fb_base = q; fb_current = 0; fb_len = length q }
          ∷ [])
        (replicate (length q) n)
        0
      ≡ fault
unfolding copy_frags memcpy
copy_frags-overflow p q n some_byte = ground (
  arith,
  take_all (length p) p,
  take_all (length q) q,
  length-replicate (length q) n,
  length-append p (drop (length p) (replicate (length q) n)),
  length-drop (length p) (replicate (length q) n),
)

opened_size :
    (h : Host) (alloc : (n : ℕ) → h.malloc n ≡ true) (rs : RpcRecordState)
    → (opened h rs).rs_frag_bufsz ≡ frag_size (be32 rs.rs_fraghdr)
unfolding opened open_frag
opened_size h alloc rs = ground (arith, alloc (frag_size (be32 rs.rs_fraghdr)))

module _ {T : Type 0} (g : Ght T) (h : Host) (alloc : (n : ℕ) → h.malloc n ≡ true) where
  -- The state behind the first fragment: the size of the record is forgotten, its bytes are not.
  between : List ℕ → RpcRecordState → RpcRecordState
  between p rs = expect_new_rpc_record (integrate_frag h (filled h alloc false p rs))

  update_record_state-between :
      (ct : CtData T) (p : List ℕ)
      → update_record_state g h
          (record ct { ct_record_state = filled h alloc false p ct.ct_record_state })
        ≡ ok (record ct { ct_record_state = between p ct.ct_record_state }, 0)
  unfolding update_record_state between filled integrate_frag
  update_record_state-between ct p = refl

  between_list :
      (rs : RpcRecordState) (p : List ℕ)
      → IsIdle rs
      → (between p rs).rs_frag_list ≡ record { fb_base = p; fb_current = 0; fb_len = length p } ∷ []
  unfolding between filled integrate_frag expect_new_rpc_record
  between_list rs p idle = ground (arith, alloc sizeof_frag_buffer, idle.no_frags)

  between-IsWaiting :
      (rs : RpcRecordState) (p : List ℕ)
      → IsWaiting (between p rs)
        × ((between p rs).rs_fh_remaining ≡ 4)
        × ((between p rs).rs_recordsize ≡ 0)
  unfolding between filled integrate_frag expect_new_rpc_record
  between-IsWaiting rs p = (
    record {
      no_frag = refl;
      some_header = omega arith;
      at_most_four = omega arith;
      header_size = length-marker h alloc false (length p);
    },
    refl,
    refl,
  )

  second_list :
      (rs : RpcRecordState) (l : List FragBuffer) (q : List ℕ)
      → rs.rs_frag_list ≡ l
      → (integrate_frag h (filled h alloc true q rs)).rs_frag_list
        ≡ l ++ record { fb_base = q; fb_current = 0; fb_len = length q } ∷ []
  unfolding filled integrate_frag
  second_list rs l q e = ground (arith, alloc sizeof_frag_buffer)

  second_size :
      (rs : RpcRecordState) (q : List ℕ)
      → rs.rs_recordsize ≡ 0
      → (integrate_frag h (filled h alloc true q rs)).rs_recordsize ≡ length q
  unfolding filled integrate_frag
  second_size rs q e = ground arith

  update_record_state-overflow :
      (ct : CtData T) (p q : List ℕ)
      → ct.ct_record_state.rs_frag_list
        ≡ record { fb_base = p; fb_current = 0; fb_len = length p } ∷ []
      → ct.ct_record_state.rs_recordsize ≡ 0
      → 0 < length p
      → update_record_state g h
          (record ct { ct_record_state = filled h alloc true q ct.ct_record_state })
        ≡ fault
  unfolding update_record_state filled
  update_record_state-overflow ct p q one zero_size some_byte =
      rw
        (
          call_user_cb_lem g h
              (record ct {
                ct_record_state = integrate_frag h (filled h alloc true q ct.ct_record_state);
              })
              (alloc _),
          second_list ct.ct_record_state _ q one,
          second_size ct.ct_record_state q zero_size,
          copy_frags-overflow p q h.filler some_byte,
        )
        refl

  -- Between two records, with memory for every request: a record of two fragments, neither empty
  -- and each shorter than 2 ^ 31 bytes, makes collate_buf_list write past the end of its buffer.
  pub two_fragments_overflow :
      (ct : CtData T) (p q : List ℕ)
      → IsIdle ct.ct_record_state
      → Fits p
      → Fits q
      → update_frag_state g h ct (fragment false p ++ fragment true q) ≡ fault
  two_fragments_overflow ct p q idle fits fits' =
      update_frag_state-append g h alloc ct (fragment false p) (fragment true q) (inl idle.waits)
        (rw one (inr (between-IsWaiting ct.ct_record_state p).1))
      ∙ rw one (
          rw
            (
              feed-fragment g h alloc (record ct { ct_record_state = between p ct.ct_record_state })
                  true q (between-IsWaiting ct.ct_record_state p).0
                  (between-IsWaiting ct.ct_record_state p).1 fits',
              update_record_state-overflow
                  (record ct { ct_record_state = between p ct.ct_record_state }) p q
                  (between_list ct.ct_record_state p idle)
                  (between-IsWaiting ct.ct_record_state p).2 fits.0,
            )
            refl)
    where
      one :
          update_frag_state g h ct (fragment false p)
          ≡ ok (record ct { ct_record_state = between p ct.ct_record_state }, 0)
      one =
          feed-fragment g h alloc ct false p idle.waits idle.whole_marker fits
          ∙ rw (update_record_state-between ct p) refl

  whole_rest :
      (ct : CtData T) (y : List ℕ)
      → IsWaiting ct.ct_record_state
      → ct.ct_record_state.rs_fh_remaining ≡ length y
      → update_frag_state g h ct y
        ≡ ok (record ct { ct_record_state = opened h (marked ct.ct_record_state y) }, 0)
  whole_rest ct y w same =
      let every : take ct.ct_record_state.rs_fh_remaining y ≡ y =
        take_all _ y (omega (arith, same)) in
      let nothing : drop ct.ct_record_state.rs_fh_remaining y ≡ [] =
        drop_all _ y (omega (arith, same)) in
      feed-long g h alloc ct y w (omega (arith, same)) ∙ rw (every, nothing) (feed-nil g h alloc _)

  -- Between two records, with memory for every request: when the four bytes of a record marker
  -- arrive in two reads x and y, the fragment size is taken from bytes in which y has overwritten
  -- the front of x.
  pub cut_marker :
      (ct : CtData T) (x y : List ℕ)
      → IsIdle ct.ct_record_state
      → 0 < length x
      → 0 < length y
      → length x + length y ≡ 4
      → (ct' : CtData T) × (run_reads g h ct (x ∷ y ∷ []) ≡ ok (ct', 0))
        × (ct'.ct_record_state.rs_frag_bufsz
            ≡ frag_size
                (be32 (y ++ drop (length y) (x ++ drop (length x) ct.ct_record_state.rs_fraghdr))))
  unfolding run_reads marked
  cut_marker ct x y idle hx hy four =
      let short : length x < ct.ct_record_state.rs_fh_remaining =
        omega (arith, idle.whole_marker) in
      (
        record ct { ct_record_state = opened h (marked (marked ct.ct_record_state x) y) },
        rw
            (
              feed-short g h alloc ct x idle.waits short,
              whole_rest (record ct { ct_record_state = marked ct.ct_record_state x }) y
                  (marked-IsWaiting ct.ct_record_state x idle.waits short)
                  (omega (arith, idle.whole_marker)),
            )
            refl,
        opened_size h alloc (marked (marked ct.ct_record_state x) y),
      )
