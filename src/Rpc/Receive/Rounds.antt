-- ===== src/Rpc/Receive/Rounds.antt =====
-- One round of update_frag_state's loop, on each kind of state.
use unfsclient.Prelude.{
  ℕ, zero, suc, ◌+◌, ◌-◌, ◌≤◌, ◌<◌, ◌≡◌, refl, ap, subst, ◌⊎◌, inl, inr, true, List, [], ◌∷◌, arith,
  Result, ok, fault, stuck, ◌>>=◌, >>=-ne-stuck, ◌≢◌, length, take, drop, replicate, length-take_le,
  take_all, drop_all,
}
use unfsclient.Rpc.Types.{CtData, Host, Ght, FragBuffer, memcpy}
use unfsclient.Rpc.Fragment.{collate_buf_list, copy_frags}
use unfsclient.Rpc.Reply.{call_user_cb, dispatch_reply, run_callback}
use unfsclient.Rpc.Receive.{
  update_record_state, finish_frag, start_frag, frag_round, integrate_frag,
}
use unfsclient.Rpc.Receive.Well.{
  IsWaiting, IsInside, copied, copy-waiting, copy-inside, copied-IsInside, marked, opened,
  start-short, start-long,
}

module _ {T : Type 0} (g : Ght T) (h : Host) where
  run_callback_state :
      (ct : CtData T) (cbi : _) (body : List ℕ)
      → (run_callback g ct cbi body).ct_record_state ≡ ct.ct_record_state
  unfolding run_callback
  run_callback_state ct cbi body = ground arith

  -- A message that is handed up touches the reception state only in its list of fragments.
  pub dispatch_reply_state :
      (ct : CtData T) (msg : List ℕ)
      → (dispatch_reply g h ct msg).ct_record_state ≡ ct.ct_record_state
  unfolding dispatch_reply
  dispatch_reply_state ct msg = ground arith

  -- Memory found, the fragments are collated and the message is handed up.
  pub call_user_cb_lem :
      (ct : CtData T)
      → h.malloc ct.ct_record_state.rs_recordsize ≡ true
      → call_user_cb g h ct ≡ (
          copy_frags ct.ct_record_state.rs_frag_list
            (replicate ct.ct_record_state.rs_recordsize h.filler)
            0
          >>= λ msg. ok (
              dispatch_reply g h
                (record ct { ct_record_state = record (ct.ct_record_state) { rs_frag_list = [] } })
                msg))
  unfolding call_user_cb collate_buf_list
  call_user_cb_lem ct found = ground (arith, found)

  pub copy_frags-ne-stuck :
      (l : List FragBuffer) (msg : List ℕ) (curr : ℕ) → copy_frags l msg curr ≢ stuck
  unfolding copy_frags memcpy
  copy_frags-ne-stuck [] msg curr = λ e. cc
  copy_frags-ne-stuck (f ∷ l) msg curr =
      >>=-ne-stuck _ _ (ground arith) (λ m _. copy_frags-ne-stuck l m (curr + f.fb_len))

  -- So it overruns the message's buffer, or it has handed up the message.
  pub call_user_cb_cases :
      (ct : CtData T)
      → h.malloc ct.ct_record_state.rs_recordsize ≡ true
      → (call_user_cb g h ct ≡ fault)
        ⊎ ((ct' : CtData T) × (call_user_cb g h ct ≡ ok ct')
            × (ct'.ct_record_state ≡ record (ct.ct_record_state) { rs_frag_list = [] }))
  call_user_cb_cases ct found = rw (call_user_cb_lem ct found) (cases _ (copy_frags-ne-stuck _ _ 0))
    where
      left : CtData T
      left = record ct { ct_record_state = record (ct.ct_record_state) { rs_frag_list = [] } }

      cases :
          (m : Result (List ℕ))
          → m ≢ stuck
          → ((m >>= λ msg. ok (dispatch_reply g h left msg)) ≡ fault)
            ⊎ ((ct' : CtData T) × ((m >>= λ msg. ok (dispatch_reply g h left msg)) ≡ ok ct')
                × (ct'.ct_record_state ≡ left.ct_record_state))
      cases (ok msg) h' = inr (dispatch_reply g h left msg, refl, dispatch_reply_state left msg)
      cases fault h' = inl refl
      cases stuck h' = absurd (h' refl)

  finish-waiting : (ct : CtData T) → IsWaiting ct.ct_record_state → finish_frag g h ct ≡ ok (ct, 0)
  unfolding finish_frag
  finish-waiting ct w = ground (arith, w.no_frag)

  finish-inside :
      (ct : CtData T) (r : ℕ)
      → IsInside r ct.ct_record_state
      → 0 < r
      → finish_frag g h ct ≡ ok (ct, 0)
  unfolding finish_frag
  finish-inside ct zero i lt = elim lt [ ]
  finish-inside ct (suc r) i lt = ground (arith, i.lacks)

  finish_complete :
      (ct : CtData T)
      → IsInside 0 ct.ct_record_state
      → finish_frag g h ct ≡ update_record_state g h ct
  unfolding finish_frag
  finish_complete ct i = ground (arith, i.lacks, i.room)

  module _ (alloc : (n : ℕ) → h.malloc n ≡ true) where
    -- A complete fragment leaves a whole marker to be read.
    pub update_record_state-IsWaiting :
        (ct : CtData T) {ct' : CtData T} {n : ℕ}
        → length ct.ct_record_state.rs_fraghdr ≡ 4
        → update_record_state g h ct ≡ ok (ct', n)
        → IsWaiting ct'.ct_record_state × (ct'.ct_record_state.rs_fh_remaining ≡ 4)
    unfolding update_record_state
    update_record_state-IsWaiting ct four e =
        elim (call_user_cb_cases
          (record ct { ct_record_state = integrate_frag h ct.ct_record_state }) (alloc _)) [
            | inl bad ↦ ground (arith, bad)
            | inr (ct2, good, kept) ↦ ground (arith, good, kept)
          ]

    pub update_record_state-ne-stuck : (ct : CtData T) → update_record_state g h ct ≢ stuck
    unfolding update_record_state
    update_record_state-ne-stuck ct = ground (
      arith,
      call_user_cb_cases (record ct { ct_record_state = integrate_frag h ct.ct_record_state })
          (alloc _),
    )

    -- A marker that is still not whole, and one that is.
    pub round-short :
        (ct : CtData T) (buf : List ℕ)
        → IsWaiting ct.ct_record_state
        → length buf < ct.ct_record_state.rs_fh_remaining
        → 0 < length buf
        → frag_round g h ct buf
          ≡ ok (record ct { ct_record_state = marked ct.ct_record_state buf }, [], 0)
    unfolding frag_round start_frag
    round-short ct [] w lt full = elim full [ ]
    round-short ct (b ∷ buf) w lt full = ground (
      arith,
      copy-waiting ct.ct_record_state (b ∷ buf) w,
      finish-waiting ct w,
      start-short h ct.ct_record_state (b ∷ buf) w,
    )

    pub round-long :
        (ct : CtData T) (buf : List ℕ)
        → IsWaiting ct.ct_record_state
        → ct.ct_record_state.rs_fh_remaining ≤ length buf
        → frag_round g h ct buf
          ≡ ok (
            record ct {
              ct_record_state =
                  opened h
                    (marked ct.ct_record_state (take ct.ct_record_state.rs_fh_remaining buf));
            },
            drop ct.ct_record_state.rs_fh_remaining buf,
            0,
          )
    unfolding frag_round start_frag
    round-long ct [] w le = absurd (omega (arith, w.some_header))
    round-long ct (b ∷ buf) w le = ground (
      arith,
      copy-waiting ct.ct_record_state (b ∷ buf) w,
      finish-waiting ct w,
      start-long h alloc ct.ct_record_state (b ∷ buf) w,
    )

    -- The state with the next bytes of the fragment copied.
    abbrev pub absorbed : ℕ → CtData T → List ℕ → CtData T
    absorbed r ct buf = record ct { ct_record_state = copied r ct.ct_record_state (take r buf) }

    pub absorbed-IsInside :
        (ct : CtData T) (r k : ℕ) (buf : List ℕ)
        → r ≡ k + length (take r buf)
        → IsInside r ct.ct_record_state
        → IsInside k (absorbed r ct buf).ct_record_state
    absorbed-IsInside ct r k buf e i =
        subst (λ n. IsInside n (absorbed r ct buf).ct_record_state)
          (let e' : r - length (take r buf) ≡ k = omega (arith, e) in e')
          (copied-IsInside r ct.ct_record_state (take r buf) i (omega (arith, e)))

    -- A fragment that is still not whole, and one that is.
    pub round-inside :
        (ct : CtData T) (r : ℕ) (buf : List ℕ)
        → IsInside r ct.ct_record_state
        → length buf < r
        → frag_round g h ct buf ≡ ok (absorbed r ct buf, [], 0)
    unfolding frag_round start_frag
    round-inside ct r buf i lt = ground (
      arith,
      copy-inside r ct.ct_record_state buf i,
      drop_all r buf,
      finish-inside (absorbed r ct buf) (r - length buf) (
          absorbed-IsInside ct r (r - length buf) buf
            (omega (arith, ap length (take_all r buf (omega arith)))) i),
    )

    pub round_complete :
        (ct : CtData T) (r : ℕ) (buf : List ℕ)
        → IsInside r ct.ct_record_state
        → r ≤ length buf
        → frag_round g h ct buf ≡ (
            update_record_state g h (absorbed r ct buf) >>= λ (ct', n).
            (let started = start_frag g h ct' (drop r buf) in ok (started.0, started.1, n)))
    unfolding frag_round
    round_complete ct r buf i le = rw (
      copy-inside r ct.ct_record_state buf i,
      finish_complete (absorbed r ct buf)
          (absorbed-IsInside ct r 0 buf (omega (arith, length-take_le r buf le)) i),
    )
