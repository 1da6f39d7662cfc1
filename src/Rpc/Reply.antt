-- ===== src/Rpc/Reply.antt =====
-- call_user_cb of src/clnt_tcp_nb.c: a complete message goes to the callback of its xid.
pub mod Answer
use unfsclient.Prelude.{
  ℕ, ◌+◌, List, [], ◌∷◌, ◌++◌, Option, none, some, ◌==◌, if◌then◌else◌, Result, ok, fault, ◌>>=◌,
  length,
}
use unfsclient.Rpc.Types.{CallbackInfo, Call, CtData, Host, Ght}
use unfsclient.Rpc.Fragment.{collate_buf_list}

module _ {T : Type 0} (g : Ght T) where
  -- `if (cbi->callback != NULL) cbi->callback (...)`.
  unfoldable pub run_callback : CtData T → CallbackInfo → List ℕ → CtData T
  run_callback ct cbi body = elim cbi.callback [
    | none ↦ ct
    | some f ↦ record ct {
      calls = ct.calls ++ record { function = f; private = cbi.cb_private; body = body } ∷ [];
    }
  ]

  -- A reply to the oldest call takes the short way; any other is looked up by its xid.
  unfoldable pub take_callback : CtData T → ℕ → ℕ → CtData T × Option CallbackInfo
  take_callback ct cached_xid xid =
      if cached_xid == xid
      then (let removed = g.ght_remove_first ct.ct_xid_to_ucb in
          (record ct { ct_xid_to_ucb = removed.0 }, removed.1))
      else (let removed = g.ght_remove ct.ct_xid_to_ucb xid in
          (record ct { ct_xid_to_ucb = removed.0 }, removed.1))

  unfoldable pub finish_reply : CtData T × Option CallbackInfo → List ℕ → CtData T
  unfolding run_callback
  finish_reply (ct, none) body = ct
  finish_reply (ct, some cbi) body = run_callback ct cbi body

  -- From xdr_replymsg on.
  unfoldable pub dispatch_reply : Host → CtData T → List ℕ → CtData T
  unfolding take_callback finish_reply
  dispatch_reply h ct msg = elim (h.replymsg msg) [
    | none ↦ ct
    | some (xid, body) ↦
        let ct' = record ct { ct_datarx = ct.ct_datarx + length msg } in
        elim (g.ght_first ct'.ct_xid_to_ucb) [
          | none ↦ ct'
          | some (cached_xid, _) ↦ finish_reply (take_callback ct' cached_xid xid) body
        ]
  ]

  unfoldable pub call_user_cb : Host → CtData T → Result (CtData T)
  unfolding dispatch_reply
  call_user_cb h ct = collate_buf_list h ct.ct_record_state >>= λ (msg, rs).
      (let ct' = record ct { ct_record_state = rs } in
        elim msg [ none ↦ ok ct' | some rpc_msg ↦ ok (dispatch_reply h ct' rpc_msg) ])
