-- ===== src/Nfsclient/Complete.antt =====
-- nfs_complete and mnt_complete of src/nfsclient.c, with which a program collects replies.
use unfsclient.Prelude.{
  ℕ, Bool, ◌+◌, ◌-◌, ◌%◌, ◌^◌, ◌<◌, ◌≡◌, ◌∙◌, refl, sym, ap, subst, arith, List, [], ◌∷◌, ◌++◌, All,
  length, true, false, not, Option, some, none, Result, ok, ◌>>=◌, Bool-cases, inl, inr, append-nil,
}
use unfsclient.Rpc.Types.{CtData, Host, Ght, GhtLaws, FragBuffer}
use unfsclient.Rpc.Send.{Outcome, send_buffers, after_send, send_list, stop}
use unfsclient.Rpc.Reply.Answer.{view}
use unfsclient.Rpc.Receive.Framing.{IsIdle}
use unfsclient.Rpc.Receive.Stream.{
  AllFit, NoneCut, answers, concat, frames, run_reads, run_reads-answers,
}
use unfsclient.Rpc.Client.{
  clnttcp_nb_receive, flush, flush_tx_buffer, is_nonblocking, read_rpc_response, rpc_cb,
}
use unfsclient.Rpc.Client.Collects.{IsSome, nonzero, rpc_cb_stops}
use unfsclient.Rpc.Client.Pending.{Holds, Same, run_reads_pending}
use unfsclient.Nfsclient.Context.{NfsCtx}

module _ {T : Type 0} (g : Ght T) (h : Host) where
  -- clnttcp_nb_receive returns 0 for a handle that is NULL.
  unfoldable pub receive_on :
      Option (CtData T)
      → ℕ
      → List Outcome
      → List (List ℕ)
      → Result (Option (CtData T) × ℕ × List Outcome × List (List ℕ))
  receive_on none flag ws reads = ok (none, 0, ws, reads)
  receive_on (some ct) flag ws reads =
      clnttcp_nb_receive g h ct flag ws reads >>= λ (ct', called_back, behind, later).
      ok (some ct', called_back, behind, later)

  -- Returns the count of callbacks.
  unfoldable pub nfs_complete :
      Option (NfsCtx T)
      → ℕ
      → List Outcome
      → List (List ℕ)
      → Result (Option (NfsCtx T) × ℕ × List Outcome × List (List ℕ))
  unfolding receive_on
  nfs_complete none flag ws reads = ok (none, 0, ws, reads)
  nfs_complete (some ctx) flag ws reads =
      receive_on ctx.nfs_cl flag ws reads >>= λ (cl, called_back, behind, later).
      ok (some (record ctx { nfs_cl = cl }), called_back, behind, later)

  unfoldable pub mnt_complete :
      Option (NfsCtx T)
      → List Outcome
      → List (List ℕ)
      → Result (Option (NfsCtx T) × List Outcome × List (List ℕ))
  unfolding receive_on
  mnt_complete none ws reads = ok (none, ws, reads)
  mnt_complete (some ctx) ws reads =
      receive_on ctx.nfs_mnt_cl 0 ws reads >>= λ (cl, called_back, behind, later).
      ok (some (record ctx { nfs_mnt_cl = cl }), behind, later)

-- A flush with nothing queued changes nothing.
flush_nothing :
    {T : Type 0} (ct : CtData T) (flag : ℕ) (ws : List Outcome)
    → ct.ct_sndlist ≡ []
    → flush ct flag ws ≡ ok (ct, ws)
unfolding flush send_buffers after_send send_list stop
flush_nothing {T = T} ct flag ws empty =
    let same : record ct { ct_sndlist = []; ct_datatx = ct.ct_datatx + 0; wire = ct.wire ++ [] }
        ≡ ct =
      ap (λ l. record ct { ct_sndlist = l; ct_datatx = ct.ct_datatx + 0; wire = ct.wire ++ [] })
        (sym empty)
      ∙ ap (λ n. record ct { ct_datatx = n; wire = ct.wire ++ [] }) (omega arith)
      ∙ ap (λ bs. record ct { wire = bs }) (append-nil ct.wire) in
    elim (Bool-cases (flush_tx_buffer flag)) [
      | inl flushes ↦ rw flushes (ap (λ l. sent l) empty ∙ ap (λ c. ok (c, ws)) same)
      | inr rests ↦ rw rests refl
    ]
  where
    sent : List FragBuffer → Result (CtData T × List Outcome)
    sent l =
        ◌>>=◌ {B = CtData T × List Outcome}
          (◌>>=◌ {B = CtData T × Bool × List Outcome} (send_list (not (is_nonblocking flag)) l ws)
            (λ s. ok (after_send ct s, s.fine, s.behind)))
          (λ p. ok (p.0, p.2))

module _ {T : Type 0} (g : Ght T) (laws : GhtLaws g) (h : Host)
    (alloc : (n : ℕ) → h.malloc n ≡ true) where
  -- The handle after nfs_complete collected the messages `ps`: each was answered in order, as many
  -- calls less are pending, and it is between two records.
  pub record Collected (ct ct' : CtData T) (ps : List (List ℕ)) : Type 0 where
    pub answered : view g laws ct' ≡ answers h (view g laws ct) ps
    pub less : ct'.ct_pendingcalls ≡ (ct.ct_pendingcalls + (2 ^ 32 - length ps % 2 ^ 32)) % 2 ^ 32
    pub between : IsIdle ct'.ct_record_state

  collect :
      (ct : CtData T) (flag : ℕ) (ps pre : List (List ℕ)) (last : List ℕ)
      → (rest : List (List ℕ)) (ct1 : CtData T) → is_nonblocking flag ≡ false
      → IsIdle ct.ct_record_state
      → AllFit ps
      → 0 < length ps
      → All IsSome pre
      → IsSome last
      → concat (pre ++ last ∷ []) ≡ frames ps
      → NoneCut g h ct (pre ++ last ∷ [])
      → run_reads g h ct pre ≡ ok (ct1, 0)
      → (ct' : CtData T) × (rpc_cb g h ct flag (pre ++ last ∷ rest) ≡ ok (ct', length ps, rest))
        × (view g laws ct' ≡ answers h (view g laws ct) ps)
        × (ct'.ct_pendingcalls ≡ ct.ct_pendingcalls)
        × IsIdle ct'.ct_record_state
  collect ct flag ps pre last rest ct1 blocks idle fit some_ps some_pre some_last bytes cut quiet =
      let (ct', done, seen, idle') =
        run_reads-answers g h alloc laws ct ps (pre ++ last ∷ []) idle fit bytes cut in
      (
        ct',
        rpc_cb_stops g h flag blocks pre last rest ct ct1 ct' (length ps) some_pre some_last quiet
            done some_ps,
        seen,
        subst (Holds (Same g h ct)) done (run_reads_pending g h ct (pre ++ last ∷ [])),
        idle',
      )

  -- A blocking nfs_complete, with memory for every request, on a handle with pending calls that is
  -- between two records and has nothing queued: when the reads to come, none of them empty and none
  -- ending inside a record marker, bring whole messages, none empty or as long as 2 ^ 31 bytes, one
  -- fragment to a record, and no message is complete before the last of these reads, then it returns
  -- the number of messages and has read no further; each message was answered in order, as many
  -- calls less are pending, as a word of 32 bits, and the handle is between two records again.
  pub nfs_complete-Collected :
      (ctx : NfsCtx T) (ct ct1 : CtData T) (flag : ℕ) (ws : List Outcome)
      → (ps pre : List (List ℕ)) (last : List ℕ) (rest : List (List ℕ)) → ctx.nfs_cl ≡ some ct
      → is_nonblocking flag ≡ false
      → read_rpc_response flag ≡ true
      → 0 < ct.ct_pendingcalls
      → ct.ct_sndlist ≡ []
      → IsIdle ct.ct_record_state
      → AllFit ps
      → 0 < length ps
      → All IsSome pre
      → IsSome last
      → concat (pre ++ last ∷ []) ≡ frames ps
      → NoneCut g h ct (pre ++ last ∷ [])
      → run_reads g h ct pre ≡ ok (ct1, 0)
      → (ct' : CtData T) × (nfs_complete g h (some ctx) flag ws (pre ++ last ∷ rest)
          ≡ ok (some (record ctx { nfs_cl = some ct' }), length ps, ws, rest))
        × Collected ct ct' ps
  unfolding nfs_complete receive_on clnttcp_nb_receive
  nfs_complete-Collected ctx ct ct1 flag ws ps pre last rest handle blocks reads waits empty idle
        fit some_ps some_pre some_last bytes cut quiet =
      let (ct2, done, seen, pending, idle') =
        collect ct flag ps pre last rest ct1 blocks idle fit some_ps some_pre some_last bytes cut
          quiet in
      (
        record ct2 {
          ct_pendingcalls = (ct2.ct_pendingcalls + (2 ^ 32 - length ps % 2 ^ 32)) % 2 ^ 32;
        },
        rw (handle, flush_nothing ct flag ws empty, nonzero ct.ct_pendingcalls waits, reads, done)
            refl,
        record {
          answered = seen;
          less = ap (λ n. (n + (2 ^ 32 - length ps % 2 ^ 32)) % 2 ^ 32) pending;
          between = idle';
        },
      )
