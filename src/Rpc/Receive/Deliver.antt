-- ===== src/Rpc/Receive/Deliver.antt =====
-- What a stream of RPC records makes update_frag_state do.
use unfsclient.Prelude.{
  ℕ, true, ◌≡◌, arith, List, [], ◌∷◌, length, drop_all, length-replicate, replicate, refl,
  append-nil, ok, ◌∙◌, take_all,
}
use unfsclient.Rpc.Types.{Host, RpcRecordState, Ght, CtData, memcpy, GhtLaws, sizeof_frag_buffer}
use unfsclient.Rpc.Fragment.{copy_frags, expect_new_rpc_record}
use unfsclient.Rpc.Receive.{update_record_state, integrate_frag}
use unfsclient.Rpc.Reply.Answer.{answer, view, dispatch_reply-answer}
use unfsclient.Rpc.Reply.{call_user_cb, dispatch_reply}
use unfsclient.Rpc.Receive.Rounds.{dispatch_reply_state, call_user_cb_lem}
use unfsclient.Rpc.Receive.Framing.{IsIdle, filled, length-marker}

-- A record of one fragment is copied to a buffer of its size.
one_frag :
    (body : List ℕ) (n : ℕ)
    → copy_frags
        (record { fb_base = body; fb_current = 0; fb_len = length body } ∷ [])
        (replicate (length body) n)
        0
      ≡ ok body
unfolding copy_frags memcpy
one_frag body n = ground (
  arith,
  take_all (length body) body,
  length-replicate (length body) n,
  drop_all (length body) (replicate (length body) n),
  append-nil body,
)

module _ {T : Type 0} (g : Ght T) (laws : GhtLaws g) (h : Host)
    (alloc : (n : ℕ) → h.malloc n ≡ true) where
  -- The state in which the only fragment of a record was linked in.
  linked : List ℕ → RpcRecordState → RpcRecordState
  linked body rs = integrate_frag h (filled h alloc true body rs)

  linked_list :
      (rs : RpcRecordState) (body : List ℕ)
      → IsIdle rs
      → (linked body rs).rs_frag_list
        ≡ record { fb_base = body; fb_current = 0; fb_len = length body } ∷ []
  unfolding linked integrate_frag filled
  linked_list rs body idle = ground (arith, alloc sizeof_frag_buffer, idle.no_frags)

  linked_size :
      (rs : RpcRecordState) (body : List ℕ)
      → IsIdle rs
      → (linked body rs).rs_recordsize ≡ length body
  unfolding linked integrate_frag filled
  linked_size rs body idle = ground (arith, idle.no_size)

  linked_header : (rs : RpcRecordState) (body : List ℕ) → length (linked body rs).rs_fraghdr ≡ 4
  unfolding linked integrate_frag filled
  linked_header rs body = length-marker h alloc true (length body)

  answered : CtData T → List ℕ → CtData T
  answered ct body =
      dispatch_reply g h
        (record ct {
          ct_record_state = record (linked body ct.ct_record_state) { rs_frag_list = [] };
        })
        body

  call_user_cb-linked :
      (ct : CtData T) (body : List ℕ)
      → IsIdle ct.ct_record_state
      → call_user_cb g h (record ct { ct_record_state = linked body ct.ct_record_state })
        ≡ ok (answered ct body)
  unfolding answered
  call_user_cb-linked ct body idle =
      call_user_cb_lem g h (record ct { ct_record_state = linked body ct.ct_record_state })
        (alloc _)
      ∙ rw
          (
            linked_list ct.ct_record_state body idle,
            linked_size ct.ct_record_state body idle,
            one_frag body h.filler,
          )
          refl

  expect_new-IsIdle :
      (rs : RpcRecordState)
      → length rs.rs_fraghdr ≡ 4
      → rs.rs_frag_list ≡ []
      → IsIdle (expect_new_rpc_record rs)
  unfolding expect_new_rpc_record
  expect_new-IsIdle rs four nothing = record {
    waits = record {
      no_frag = refl;
      some_header = omega arith;
      at_most_four = omega arith;
      header_size = four;
    };
    whole_marker = refl;
    no_frags = nothing;
    no_size = refl;
  }

  -- The last fragment of a record completes it, and the message is answered.
  pub update_record_state-answer :
      (ct : CtData T) (body : List ℕ)
      → IsIdle ct.ct_record_state
      → (ct' : CtData T) × (update_record_state g h
            (record ct { ct_record_state = filled h alloc true body ct.ct_record_state })
          ≡ ok (ct', 1))
        × (view g laws ct' ≡ answer h (view g laws ct) body)
        × IsIdle ct'.ct_record_state
  unfolding update_record_state filled linked answered
  update_record_state-answer ct body idle = (
    record (answered ct body) {
      ct_record_state = expect_new_rpc_record (answered ct body).ct_record_state;
    },
    rw (call_user_cb-linked ct body idle) refl,
    dispatch_reply-answer g laws h _ body,
    rw (dispatch_reply_state g h _ body) (
        expect_new-IsIdle (record (linked body ct.ct_record_state) { rs_frag_list = [] })
          (linked_header ct.ct_record_state body) refl),
  )
