-- ===== src/Rpc/Client/Callback.antt =====
-- A call of clnttcp_nb_call, and the reply to it.
use unfsclient.Prelude.{
  ℕ, none, arith, ◌∷◌, true, ◌≡◌, ok, ◌++◌, some, [], false, List, ◌+◌, ◌%◌, Bool, ◌^◌, ◌==◌,
  Result, ◌>>=◌, Ensures-ok, ◌||◌, not, if◌then◌else◌, >>=-eq-ok, refl, ◌&&◌, append-nil, ap, ◌∙◌,
  length,
}
use unfsclient.Rpc.Send.{Outcome, send_buffers}
use unfsclient.Rpc.Send.Queue.{AllInside, all_pending}
use unfsclient.Rpc.Types.{
  GhtLaws, Ght, Host, CtData, lookup, erase, be32, CallbackInfo, sizeof_callback_info, insert,
}
use unfsclient.Rpc.Client.{
  clnttcp_nb_receive, read_rpc_response, flush, call_flag, flush_tx_buffer, rpc_success,
  is_nonblocking, clnttcp_nb_call, next_xid, ClntStat, write_all, rpc_cantencodeargs,
}
use unfsclient.Rpc.Client.Sends.{Queues, send_buffers-Queues, nothing_sent, write_all-Queues}
use unfsclient.Rpc.Receive.Stream.{concat}
use unfsclient.Rpc.Reply.Answer.{reply_to, view, fired, dispatch_reply-answer, answer, View}
use unfsclient.Rpc.Reply.{dispatch_reply}

module _ {ℓ} {A : Type ℓ} (k : ℕ) (a : A) where
  lookup-append : (m : List (ℕ × A)) → lookup k m ≡ none → lookup k (m ++ (k, a) ∷ []) ≡ some a
  lookup-append [] e = ground arith
  lookup-append ((j, b) ∷ m) e = ground (arith, lookup-append m)

  insert_absent : (m : List (ℕ × A)) → lookup k m ≡ none → insert k a m ≡ m ++ (k, a) ∷ []
  insert_absent m e = ground (arith, e)

  erase-append : (m : List (ℕ × A)) → lookup k m ≡ none → erase k (m ++ (k, a) ∷ []) ≡ m
  erase-append [] e = ground arith
  erase-append ((j, b) ∷ m) e = ground (arith, erase-append m)

left_early :
    {R : Type 0} (p q : Bool) (r : R) (later : Result R) {v : R}
    → q ≡ false
    → (if p || not q then ok r else later) ≡ ok v
    → ok r ≡ ok v
left_early true q r later off e = e
left_early false true r later off e = cc
left_early false false r later off e = e

module _ {T : Type 0} where
  flush-Queues :
      (ct ct' : CtData T) (flag : ℕ) (ws behind : List Outcome)
      → AllInside ct.ct_sndlist
      → flush ct flag ws ≡ ok (ct', behind)
      → Queues ct [] ct'
  unfolding flush
  flush-Queues ct ct' flag ws behind inside e = either (flush_tx_buffer flag) e
    where
      either :
          (c : Bool)
          → (if c
              then ◌>>=◌ {B = CtData T × List Outcome}
                  (send_buffers ct (not (is_nonblocking flag)) ws)
                  (λ p. ok (p.0, p.2))
              else ok (ct, ws))
            ≡ ok (ct', behind)
          → Queues ct [] ct'
      either true e =
          let ((ct1, fine, behind1), e1, e2) =
            >>=-eq-ok (send_buffers ct (not (is_nonblocking flag)) ws) _ e in
          Ensures-ok (λ (p : CtData T × List Outcome). Queues ct [] p.0)
            (send_buffers-Queues ct ct1 (not (is_nonblocking flag)) fine ws behind1 inside e1) e2
      either false e =
          Ensures-ok (λ (p : CtData T × List Outcome). Queues ct [] p.0) (nothing_sent ct inside) e

  -- A receive that must not read only flushes.
  quiet_receive :
      (g : Ght T) (h : Host)
      → (ct ct' : CtData T) (flag n : ℕ) (ws behind : List Outcome) (reads later : List (List ℕ))
      → read_rpc_response flag ≡ false
      → AllInside ct.ct_sndlist
      → clnttcp_nb_receive g h ct flag ws reads ≡ ok (ct', n, behind, later)
      → Queues ct [] ct'
  unfolding clnttcp_nb_receive
  quiet_receive g h ct ct' flag n ws behind reads later no_rx inside e =
      let ((ct1, behind1), e1, e2) = >>=-eq-ok (flush ct flag ws) _ e in
      Ensures-ok (λ (p : CtData T × ℕ × List Outcome × List (List ℕ)). Queues ct [] p.0)
        (flush-Queues ct ct1 flag ws behind1 inside e1)
        (left_early (ct1.ct_pendingcalls == 0) (read_rpc_response flag) _ _ no_rx e2)

module _ {T : Type 0} (g : Ght T) (laws : GhtLaws g) (h : Host)
    (alloc : (n : ℕ) → h.malloc n ≡ true) where
  -- What a call that succeeds has done when it returns.
  pub record Called (ct ct' : CtData T) (ucbi : CallbackInfo) (mcall bs : List ℕ) : Type 0 where
    pub queued :
        ct'.wire ++ all_pending ct'.ct_sndlist ≡ ct.wire ++ (all_pending ct.ct_sndlist ++ bs)
    pub waits :
        laws.entries ct'.ct_xid_to_ucb ≡ laws.entries ct.ct_xid_to_ucb ++ (be32 mcall, ucbi) ∷ []
    pub same_calls : ct'.calls ≡ ct.calls
    pub same_datarx : ct'.ct_datarx ≡ ct.ct_datarx
    pub one_more : ct'.ct_pendingcalls ≡ (ct.ct_pendingcalls + 1) % 2 ^ 32
    pub sent_mcall : ct'.ct_mcall ≡ mcall
    pub still_inside : AllInside ct'.ct_sndlist

  succeeded :
      {ct' : CtData T} {behind : List Outcome} {later : List (List ℕ)} (c : Bool)
      → (on : Result (CtData T × ClntStat × List Outcome × List (List ℕ)))
      → (ct : CtData T) (ws : List Outcome) (reads : List (List ℕ))
      → (if c then on else ok (ct, rpc_cantencodeargs, ws, reads))
        ≡ ok (ct', rpc_success, behind, later)
      → (c ≡ true) × (on ≡ ok (ct', rpc_success, behind, later))
  succeeded true on ct ws reads e = (refl, e)
  succeeded false on ct ws reads e =
      let wrong : rpc_success ≡ rpc_cantencodeargs =
        Ensures-ok
          (λ (p : CtData T × ClntStat × List Outcome × List (List ℕ)). p.1 ≡ rpc_cantencodeargs)
          refl e in
      cc

  called :
      (ct ct2 ct3 : CtData T) (ucbi : CallbackInfo) (mcall bs : List ℕ)
      → lookup (be32 mcall) (laws.entries ct.ct_xid_to_ucb) ≡ none
      → Queues
          (record ct {
            ct_mcall = mcall;
            ct_xid_to_ucb = g.ght_insert ct.ct_xid_to_ucb ucbi (be32 mcall);
          })
          bs
          ct2
      → Queues (record ct2 { ct_pendingcalls = (ct2.ct_pendingcalls + 1) % 2 ^ 32 }) [] ct3
      → Called ct ct3 ucbi mcall bs
  called ct ct2 ct3 ucbi mcall bs new q r = record {
    queued =
        r.queued ∙ ap (λ xs. ct2.wire ++ xs) (append-nil (all_pending ct2.ct_sndlist)) ∙ q.queued;
    waits =
        ap laws.entries (r.same_table ∙ q.same_table)
        ∙ laws.entries-insert ct.ct_xid_to_ucb ucbi (be32 mcall)
        ∙ insert_absent (be32 mcall) ucbi (laws.entries ct.ct_xid_to_ucb) new;
    same_calls = r.same_calls ∙ q.same_calls;
    same_datarx = r.same_datarx ∙ q.same_datarx;
    one_more = r.same_pendingcalls ∙ ap (λ n. (n + 1) % 2 ^ 32) q.same_pendingcalls;
    sent_mcall = r.same_mcall ∙ q.same_mcall;
    still_inside = r.inside;
  }

  written :
      (ct ct' : CtData T) (bufs : List (List ℕ)) (ws behind : List Outcome) (fine : Bool)
      → fine ≡ true
      → AllInside ct.ct_sndlist
      → write_all h ct bufs ws ≡ ok (ct', fine, behind)
      → Queues ct (concat bufs) ct'
  written ct ct' bufs ws behind true all inside e =
      write_all-Queues h alloc ct ct' bufs ws behind inside e
  written ct ct' bufs ws behind false all inside e = cc

  both : (c d : Bool) → (c && d) ≡ true → c ≡ true
  both true d e = refl
  both false d e = cc

  pub clnttcp_nb_call-Called :
      (marshal : List ℕ → List (List ℕ) × Bool)
      → (ct ct' : CtData T) (ucbi : CallbackInfo) (flag : ℕ) (ws behind : List Outcome)
      → (reads later : List (List ℕ)) → read_rpc_response flag ≡ false
      → AllInside ct.ct_sndlist
      → lookup (be32 (next_xid ct.ct_mcall)) (laws.entries ct.ct_xid_to_ucb) ≡ none
      → clnttcp_nb_call g h marshal ct ucbi (some flag) ws reads
        ≡ ok (ct', rpc_success, behind, later)
      → Called ct ct' ucbi (next_xid ct.ct_mcall) (concat (marshal (next_xid ct.ct_mcall)).0)
  unfolding clnttcp_nb_call call_flag
  clnttcp_nb_call-Called marshal ct ct' ucbi flag ws behind reads later no_rx inside new e =
      let mcall = next_xid ct.ct_mcall in
      let ct1 = record ct {
        ct_mcall = mcall;
        ct_xid_to_ucb = g.ght_insert ct.ct_xid_to_ucb ucbi (be32 mcall);
      } in
      let ((ct2, fine, behind1), e1, e2) =
        >>=-eq-ok (write_all h ct1 (marshal mcall).0 ws) _
          (rw (clnttcp_nb_call, alloc sizeof_callback_info) at e) in
      let (all_fine, e3) = succeeded (fine && (marshal mcall).1) _ ct2 behind1 reads e2 in
      let ((ct3, n, behind2, later1), e4, e5) =
        >>=-eq-ok
          (clnttcp_nb_receive g h
            (record ct2 { ct_pendingcalls = (ct2.ct_pendingcalls + 1) % 2 ^ 32 }) flag behind1
            reads)
          _ e3 in
      let first : Queues ct1 (concat (marshal mcall).0) ct2 =
        written ct1 ct2 (marshal mcall).0 ws behind1 fine (both fine (marshal mcall).1 all_fine)
          inside e1 in
      let second =
        quiet_receive g h (record ct2 { ct_pendingcalls = (ct2.ct_pendingcalls + 1) % 2 ^ 32 }) ct3
          flag n behind1 behind2 reads later1 no_rx first.inside e4 in
      Ensures-ok
        (λ (p : CtData T × ClntStat × List Outcome × List (List ℕ)).
          Called ct p.0 ucbi mcall (concat (marshal mcall).0))
        (called ct ct2 ct3 ucbi mcall (concat (marshal mcall).0) new first second) e5

  answer-called :
      (v : View) (l : List (ℕ × CallbackInfo)) (ucbi : CallbackInfo) (xid : ℕ) (msg body : List ℕ)
      → v.waiting ≡ l ++ (xid, ucbi) ∷ []
      → lookup xid l ≡ none
      → h.replymsg msg ≡ some (xid, body)
      → answer h v msg ≡ record {
        waiting = l;
        received = v.received + length msg;
        done = v.done ++ fired ucbi body;
      }
  unfolding answer reply_to
  answer-called v l ucbi xid msg body waits new reply =
      rw
        (
          answer,
          reply,
          reply_to,
          waits,
          lookup-append xid ucbi l new,
          waits,
          erase-append xid ucbi l new,
        )
        refl

  -- A call of clnttcp_nb_call that succeeds, with memory for every request, queued buffers within
  -- their memory, a free xid and a flag that forbids reading: the bytes of the call have joined the
  -- queue in order; and the reply to it, a message with the call's xid, runs the callback of this
  -- call on what stands behind the reply header, and leaves waiting the calls that waited before.
  pub clnttcp_nb_call-dispatch_reply :
      (marshal : List ℕ → List (List ℕ) × Bool)
      → (ct ct' : CtData T) (ucbi : CallbackInfo) (flag : ℕ) (ws behind : List Outcome)
      → (reads later : List (List ℕ)) (msg body : List ℕ) → read_rpc_response flag ≡ false
      → AllInside ct.ct_sndlist
      → lookup (be32 (next_xid ct.ct_mcall)) (laws.entries ct.ct_xid_to_ucb) ≡ none
      → clnttcp_nb_call g h marshal ct ucbi (some flag) ws reads
        ≡ ok (ct', rpc_success, behind, later)
      → h.replymsg msg ≡ some (be32 (next_xid ct.ct_mcall), body)
      → (ct'.wire ++ all_pending ct'.ct_sndlist
          ≡ ct.wire ++ (all_pending ct.ct_sndlist ++ concat (marshal (next_xid ct.ct_mcall)).0))
        × (view g laws (dispatch_reply g h ct' msg) ≡ record {
          waiting = laws.entries ct.ct_xid_to_ucb;
          received = ct.ct_datarx + length msg;
          done = ct.calls ++ fired ucbi body;
        })
  clnttcp_nb_call-dispatch_reply marshal ct ct' ucbi flag ws behind reads later msg body no_rx
        inside new e reply =
      let xid = be32 (next_xid ct.ct_mcall) in
      let c =
        clnttcp_nb_call-Called marshal ct ct' ucbi flag ws behind reads later no_rx inside new e in
      (
        c.queued,
        dispatch_reply-answer g laws h ct' msg
            ∙ answer-called (view g laws ct') (laws.entries ct.ct_xid_to_ucb) ucbi xid msg body
                c.waits new reply
            ∙ rw (c.same_calls, c.same_datarx) refl,
      )
