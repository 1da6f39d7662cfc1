-- ===== src/Rpc/Receive.antt =====
-- update_record_state and update_frag_state of src/clnt_tcp_nb.c: the bytes of one read(2).
pub mod Well
pub mod Rounds
pub mod Progress
pub mod Feed
pub mod Append
pub mod Framing
pub mod Deliver
pub mod Stream
pub mod Faults
use unfsclient.Prelude.{
  ℕ, zero, suc, ◌+◌, ◌-◌, Bool, true, ◌&&◌, List, [], ◌∷◌, Option, none, some, pos, pos_part,
  is_zero, ltb, ◌==◌, if◌then◌else◌, Result, ok, stuck, ◌>>=◌, length, take, drop,
}
use unfsclient.Rpc.Types.{RpcRecordState, CtData, Host, Ght, memcpy}
use unfsclient.Rpc.Fragment.{expect_new_rpc_record, add_buffer_list, update_new_frag_state}
use unfsclient.Rpc.Reply.{call_user_cb}

-- The result of add_buffer_list is not looked at.
unfoldable pub integrate_frag : Host → RpcRecordState → RpcRecordState
unfolding add_buffer_list
integrate_frag h rs = record rs {
  rs_frag_list =
      elim (add_buffer_list h rs.rs_frag_list rs.rs_frag_buf_base rs.rs_frag_bufsz true) [
        | none ↦ rs.rs_frag_list
        | some l ↦ l
      ];
  rs_recordsize = rs.rs_recordsize + rs.rs_frag_bufsz;
}

unfoldable pub is_frag_complete : RpcRecordState → Bool
is_frag_complete rs = rs.rs_frag_offset == rs.rs_frag_bufsz && is_zero rs.rs_frag_remaining

-- The copy at the head of update_frag_state's loop.
unfoldable pub copy_to_frag : RpcRecordState → List ℕ → Result (RpcRecordState × List ℕ)
copy_to_frag rs buf =
    let remaining = pos_part rs.rs_frag_remaining in
    if ltb 0 remaining
    then (let tocopy = (if ltb (length buf) remaining then length buf else remaining) in
        memcpy rs.rs_frag_buf_base rs.rs_frag_offset (take tocopy buf) >>= λ base. ok (
          record rs {
            rs_frag_buf_base = base;
            rs_frag_remaining = pos (remaining - tocopy);
            rs_frag_offset = rs.rs_frag_offset + tocopy;
          },
          drop tocopy buf,
        ))
    else ok (rs, buf)

module _ {T : Type 0} (g : Ght T) (h : Host) where
  -- Returns the count of messages handed up, 0 or 1.
  unfoldable pub update_record_state : CtData T → Result (CtData T × ℕ)
  unfolding integrate_frag expect_new_rpc_record
  update_record_state ct =
      let rs = integrate_frag h ct.ct_record_state in
      let ct' = record ct { ct_record_state = rs } in
      if rs.rs_last_frag
      then (call_user_cb g h ct' >>= λ ct''.
          ok (record ct'' { ct_record_state = expect_new_rpc_record ct''.ct_record_state }, 1))
      else ok (record ct' { ct_record_state = expect_new_rpc_record rs }, 0)

  unfoldable pub finish_frag : CtData T → Result (CtData T × ℕ)
  unfolding is_frag_complete
  finish_frag ct =
      if is_frag_complete ct.ct_record_state then update_record_state ct else ok (ct, 0)

  unfoldable pub start_frag : CtData T → List ℕ → CtData T × List ℕ
  start_frag ct [] = (ct, [])
  start_frag ct (b ∷ buf) =
      let started = update_new_frag_state h ct.ct_record_state (b ∷ buf) in
      (record ct { ct_record_state = started.0 }, started.1)

  -- One round of the loop: the new state, the bytes not consumed and the messages handed up.
  unfoldable pub frag_round : CtData T → List ℕ → Result (CtData T × List ℕ × ℕ)
  unfolding copy_to_frag finish_frag start_frag
  frag_round ct buf = copy_to_frag ct.ct_record_state buf >>= λ (rs, behind).
      (finish_frag (record ct { ct_record_state = rs }) >>= λ (ct', n).
      (let started = start_frag ct' behind in ok (started.0, started.1, n)))

  -- `while (bufsz > consumed)`, on the bytes that are not consumed yet.
  unfoldable pub frag_loop : ℕ → CtData T → List ℕ → Result (CtData T × ℕ)
  unfolding frag_round
  frag_loop fuel ct [] = ok (ct, 0)
  frag_loop zero ct (b ∷ buf) = stuck
  frag_loop (suc fuel) ct (b ∷ buf) = frag_round ct (b ∷ buf) >>= λ (ct', behind, n).
      (frag_loop fuel ct' behind >>= λ (ct'', m). ok (ct'', n + m))

  -- Each round consumes a byte unless mem_alloc fails, so as many rounds as bytes are enough.
  unfoldable pub update_frag_state : CtData T → List ℕ → Result (CtData T × ℕ)
  unfolding frag_loop
  update_frag_state ct buf = frag_loop (length buf) ct buf
