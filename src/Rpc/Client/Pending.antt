-- ===== src/Rpc/Client/Pending.antt =====
-- The count of pending calls of src/clnt_tcp_nb.c: receiving bytes leaves it alone.
use unfsclient.Prelude.{
  ℕ, ◌≡◌, ◌∙◌, refl, Bool, true, false, List, [], ◌∷◌, Option, some, none, Result, ok, fault, stuck,
  ◌>>=◌, if◌then◌else◌, zero, suc, length, arith,
}
use unfsclient.Rpc.Types.{CtData, Host, Ght, CallbackInfo, RpcRecordState}
use unfsclient.Rpc.Fragment.{collate_buf_list, expect_new_rpc_record}
use unfsclient.Rpc.Reply.{call_user_cb, dispatch_reply, run_callback}
use unfsclient.Rpc.Receive.{
  update_record_state, finish_frag, start_frag, frag_round, frag_loop, update_frag_state,
  copy_to_frag, integrate_frag, is_frag_complete,
}
use unfsclient.Rpc.Receive.Stream.{run_reads}

-- If the run returns, what it returns has the property.
abbrev pub Holds {ℓ} : {A : Type ℓ} → (A → Type 0) → Result A → Type 0
Holds P (ok a) = P a
Holds P fault = Unit {0}
Holds P stuck = Unit {0}

Holds->>= {ℓ κ} :
    {A : Type ℓ} {B : Type κ} (P : A → Type 0) (Q : B → Type 0) (m : Result A) (f : A → Result B)
    → Holds P m
    → ((a : A) → P a → Holds Q (f a))
    → Holds Q (m >>= f)
Holds->>= P Q (ok a) f hm hf = hf a hm
Holds->>= P Q fault f hm hf = tt
Holds->>= P Q stuck f hm hf = tt

Holds-any {ℓ} : {A : Type ℓ} (r : Result A) → Holds (λ a. Unit {0}) r
Holds-any (ok a) = tt
Holds-any fault = tt
Holds-any stuck = tt

module _ {T : Type 0} (g : Ght T) (h : Host) where
  run_callback_pending :
      (ct : CtData T) (cbi : CallbackInfo) (body : List ℕ)
      → (run_callback g ct cbi body).ct_pendingcalls ≡ ct.ct_pendingcalls
  unfolding run_callback
  run_callback_pending ct cbi body = ground arith

  dispatch_reply_pending :
      (ct : CtData T) (msg : List ℕ)
      → (dispatch_reply g h ct msg).ct_pendingcalls ≡ ct.ct_pendingcalls
  unfolding dispatch_reply
  dispatch_reply_pending ct msg = ground arith

  abbrev pub Same : CtData T → CtData T × ℕ → Type 0
  Same ct p = p.0.ct_pendingcalls ≡ ct.ct_pendingcalls

  call_user_cb_pending :
      (ct : CtData T)
      → Holds (λ ct'. ct'.ct_pendingcalls ≡ ct.ct_pendingcalls) (call_user_cb g h ct)
  unfolding call_user_cb
  call_user_cb_pending ct =
      Holds->>= (λ p. Unit {0}) _ (collate_buf_list h ct.ct_record_state) _ (Holds-any _)
        λ p u. with_message p.1 p.0
    where
      with_message :
          (rs : RpcRecordState) (msg : Option (List ℕ))
          → Holds
              (λ ct'. ct'.ct_pendingcalls ≡ ct.ct_pendingcalls)
              (elim msg [
                | none ↦ ok (record ct { ct_record_state = rs })
                | some rpc_msg ↦
                    ok (dispatch_reply g h (record ct { ct_record_state = rs }) rpc_msg)
              ])
      with_message rs none = refl
      with_message rs (some m) = dispatch_reply_pending (record ct { ct_record_state = rs }) m

  update_record_state_pending : (ct : CtData T) → Holds (Same ct) (update_record_state g h ct)
  unfolding update_record_state
  update_record_state_pending ct = by_last (integrate_frag h ct.ct_record_state).rs_last_frag
    where
      rs : RpcRecordState
      rs = integrate_frag h ct.ct_record_state

      by_last :
          (last : Bool)
          → Holds (Same ct) (
              if last
              then (call_user_cb g h (record ct { ct_record_state = rs }) >>= λ ct''.
                  ok (
                    record ct'' { ct_record_state = expect_new_rpc_record ct''.ct_record_state },
                    1,
                  ))
              else ok (record ct { ct_record_state = expect_new_rpc_record rs }, 0))
      by_last false = refl
      by_last true =
          Holds->>= (λ ct'. ct'.ct_pendingcalls ≡ ct.ct_pendingcalls) (Same ct)
            (call_user_cb g h (record ct { ct_record_state = rs })) _
            (call_user_cb_pending (record ct { ct_record_state = rs })) λ ct' e. e

  finish_frag_pending : (ct : CtData T) → Holds (Same ct) (finish_frag g h ct)
  unfolding finish_frag
  finish_frag_pending ct = by_complete (is_frag_complete ct.ct_record_state)
    where
      by_complete :
          (c : Bool) → Holds (Same ct) (if c then update_record_state g h ct else ok (ct, 0))
      by_complete true = update_record_state_pending ct
      by_complete false = refl

  start_frag_pending :
      (ct : CtData T) (buf : List ℕ)
      → (start_frag g h ct buf).0.ct_pendingcalls ≡ ct.ct_pendingcalls
  unfolding start_frag
  start_frag_pending ct [] = refl
  start_frag_pending ct (b ∷ buf) = refl

  frag_round_pending :
      (ct : CtData T) (buf : List ℕ)
      → Holds (λ p. p.0.ct_pendingcalls ≡ ct.ct_pendingcalls) (frag_round g h ct buf)
  unfolding frag_round
  frag_round_pending ct buf =
      Holds->>= (λ (p : RpcRecordState × List ℕ). Unit {0}) _ (copy_to_frag ct.ct_record_state buf)
        _ (Holds-any (copy_to_frag ct.ct_record_state buf))
        λ p u.
          Holds->>= (Same ct) _ (finish_frag g h (record ct { ct_record_state = p.0 })) _
            (finish_frag_pending (record ct { ct_record_state = p.0 }))
            λ q e. start_frag_pending q.0 p.1 ∙ e

  frag_loop_pending :
      (fuel : ℕ) (ct : CtData T) (buf : List ℕ) → Holds (Same ct) (frag_loop g h fuel ct buf)
  unfolding frag_loop
  frag_loop_pending fuel ct [] = refl
  frag_loop_pending zero ct (b ∷ buf) = tt
  frag_loop_pending (suc fuel) ct (b ∷ buf) =
      Holds->>= (λ (p : CtData T × List ℕ × ℕ). p.0.ct_pendingcalls ≡ ct.ct_pendingcalls) (Same ct)
        (frag_round g h ct (b ∷ buf)) _ (frag_round_pending ct (b ∷ buf))
        λ p e.
          Holds->>= (Same p.0) (Same ct) (frag_loop g h fuel p.0 p.1) _
            (frag_loop_pending fuel p.0 p.1) λ q e'. e' ∙ e

  pub run_reads_pending :
      (ct : CtData T) (reads : List (List ℕ)) → Holds (Same ct) (run_reads g h ct reads)
  unfolding run_reads update_frag_state
  run_reads_pending ct [] = refl
  run_reads_pending ct (c ∷ cs) =
      Holds->>= (Same ct) (Same ct) _ _ (frag_loop_pending (length c) ct c)
        λ p e. Holds->>= (Same p.0) (Same ct) _ _ (run_reads_pending p.0 cs) λ q e'. e' ∙ e
