-- ===== src/Rpc/Client/Sends.antt =====
-- What the sending functions of src/clnt_tcp_nb.c do to the rest of the state: nothing.
use unfsclient.Prelude.{
  ℕ, append_assoc, ok, ap, [], Option, append-nil, length, List, refl, >>=-eq-ok, true, ◌++◌, ◌∷◌,
  sym, Ensures-ok, Bool, ◌∙◌, ◌≡◌, false, none, some, Result,
}
use unfsclient.Rpc.Types.{Host, CtData}
use unfsclient.Rpc.Send.{send_list, Outcome, after_send, send_buffers, Sent, writetcp_nb}
use unfsclient.Rpc.Send.Bytes.{
  send_buffers-conserves, copy_of, writetcp_nb-queues, AllInside-append, add_buffer_list-copies,
}
use unfsclient.Rpc.Send.Queue.{all_pending, AllInside}
use unfsclient.Rpc.Client.{write_all}
use unfsclient.Rpc.Receive.Stream.{concat}
use unfsclient.Rpc.Receive.Feed.{counted}

-- From one state to another by sending: `bs` was queued behind what was queued, and only the queue,
-- the wire and the count of bytes sent have changed.
pub record Queues {T : Type 0} (ct : CtData T) (bs : List ℕ) (ct' : CtData T) : Type 0 where
  pub queued : ct'.wire ++ all_pending ct'.ct_sndlist ≡ ct.wire ++ (all_pending ct.ct_sndlist ++ bs)
  pub inside : AllInside ct'.ct_sndlist
  pub same_table : ct'.ct_xid_to_ucb ≡ ct.ct_xid_to_ucb
  pub same_calls : ct'.calls ≡ ct.calls
  pub same_datarx : ct'.ct_datarx ≡ ct.ct_datarx
  pub same_pendingcalls : ct'.ct_pendingcalls ≡ ct.ct_pendingcalls
  pub same_mcall : ct'.ct_mcall ≡ ct.ct_mcall

module _ {T : Type 0} where
  Queues-sent :
      (ct ct' : CtData T) (s : Sent) (bs : List ℕ)
      → after_send ct s ≡ ct'
      → ct'.wire ++ all_pending ct'.ct_sndlist ≡ ct.wire ++ (all_pending ct.ct_sndlist ++ bs)
      → AllInside ct'.ct_sndlist
      → Queues ct bs ct'
  unfolding after_send
  Queues-sent ct ct' s bs e q i = record {
    queued = q;
    inside = i;
    same_table = ap (λ (c : CtData T). c.ct_xid_to_ucb) (sym e);
    same_calls = ap (λ (c : CtData T). c.calls) (sym e);
    same_datarx = ap (λ (c : CtData T). c.ct_datarx) (sym e);
    same_pendingcalls = ap (λ (c : CtData T). c.ct_pendingcalls) (sym e);
    same_mcall = ap (λ (c : CtData T). c.ct_mcall) (sym e);
  }

  pub sent_state :
      (ct ct' : CtData T) (blocking fine : Bool) (ws behind : List Outcome)
      → send_buffers ct blocking ws ≡ ok (ct', fine, behind)
      → (s : Sent) × (after_send ct s ≡ ct')
  unfolding send_buffers
  sent_state ct ct' blocking fine ws behind e =
      let (s, e1, e2) = >>=-eq-ok (send_list blocking ct.ct_sndlist ws) _ e in
      (s, Ensures-ok (λ (p : CtData T × Bool × List Outcome). after_send ct s ≡ p.0) refl e2)

  pub send_buffers-Queues :
      (ct ct' : CtData T) (blocking fine : Bool) (ws behind : List Outcome)
      → AllInside ct.ct_sndlist
      → send_buffers ct blocking ws ≡ ok (ct', fine, behind)
      → Queues ct [] ct'
  send_buffers-Queues ct ct' blocking fine ws behind inside e =
      let (s, same) = sent_state ct ct' blocking fine ws behind e in
      let (kept, counted, inside') =
        send_buffers-conserves ct ct' blocking fine ws behind inside e in
      Queues-sent ct ct' s [] same
        (kept ∙ ap (λ bs. ct.wire ++ bs) (sym (append-nil (all_pending ct.ct_sndlist)))) inside'

  pub nothing_sent : (ct : CtData T) → AllInside ct.ct_sndlist → Queues ct [] ct
  nothing_sent ct inside = record {
    queued = ap (λ bs. ct.wire ++ bs) (sym (append-nil (all_pending ct.ct_sndlist)));
    inside = inside;
    same_table = refl;
    same_calls = refl;
    same_datarx = refl;
    same_pendingcalls = refl;
    same_mcall = refl;
  }

  pub Queues-trans :
      (ct ct1 ct2 : CtData T) (front bs : List ℕ)
      → Queues ct front ct1
      → Queues ct1 bs ct2
      → Queues ct (front ++ bs) ct2
  Queues-trans ct ct1 ct2 front bs p q = record {
    queued =
        q.queued
        ∙ sym (append_assoc ct1.wire (all_pending ct1.ct_sndlist) bs)
        ∙ ap (λ xs. xs ++ bs) p.queued
        ∙ append_assoc ct.wire (all_pending ct.ct_sndlist ++ front) bs
        ∙ ap (λ xs. ct.wire ++ xs) (append_assoc (all_pending ct.ct_sndlist) front bs);
    inside = q.inside;
    same_table = q.same_table ∙ p.same_table;
    same_calls = q.same_calls ∙ p.same_calls;
    same_datarx = q.same_datarx ∙ p.same_datarx;
    same_pendingcalls = q.same_pendingcalls ∙ p.same_pendingcalls;
    same_mcall = q.same_mcall ∙ p.same_mcall;
  }

  -- A write that returned -1 ends write_all with FALSE.
  went_on :
      (r : Option ℕ) (ct ct' : CtData T) (ws behind : List Outcome)
      → (later : Result (CtData T × Bool × List Outcome))
      → (elim r as (λ _. Result (CtData T × Bool × List Outcome)) [
        | none ↦ ok (ct, false, ws)
        | some n ↦ later
      ])
        ≡ ok (ct', true, behind)
      → later ≡ ok (ct', true, behind)
  went_on none ct ct' ws behind later e =
      let wrong : true ≡ false =
        Ensures-ok (λ (p : CtData T × Bool × List Outcome). p.1 ≡ false) refl e in
      cc
  went_on (some n) ct ct' ws behind later e = e

  module _ (h : Host) (alloc : (n : ℕ) → h.malloc n ≡ true) where
    writetcp_nb-Queues :
        (ct ct' : CtData T) (buf : List ℕ) (r : Option ℕ) (ws behind : List Outcome)
        → AllInside ct.ct_sndlist
        → writetcp_nb h ct buf (length buf) ws ≡ ok (ct', r, behind)
        → Queues ct buf ct'
    unfolding writetcp_nb
    writetcp_nb-Queues ct ct' buf r ws behind inside e =
        let ct1 = record ct { ct_sndlist = ct.ct_sndlist ++ copy_of buf ∷ [] } in
        let e' = rw (writetcp_nb, add_buffer_list-copies h ct.ct_sndlist buf (alloc _)) at e in
        let ((ct2, fine, behind1), e1, e2) = >>=-eq-ok (send_buffers ct1 false ws) _ e' in
        let sends : Queues ct1 [] ct2 =
          send_buffers-Queues ct1 ct2 false fine ws behind1
            (AllInside-append ct.ct_sndlist buf inside) e1 in
        let sends' : Queues ct1 [] ct' =
          Ensures-ok (λ (p : CtData T × Option ℕ × List Outcome). Queues ct1 [] p.0) sends e2 in
        let (queued, inside') = writetcp_nb-queues h ct ct' buf r ws behind (alloc _) inside e in
        record {
          queued = queued;
          inside = inside';
          same_table = sends'.same_table;
          same_calls = sends'.same_calls;
          same_datarx = sends'.same_datarx;
          same_pendingcalls = sends'.same_pendingcalls;
          same_mcall = sends'.same_mcall;
        }

    pub write_all-Queues :
        (ct ct' : CtData T) (bufs : List (List ℕ)) (ws behind : List Outcome)
        → AllInside ct.ct_sndlist
        → write_all h ct bufs ws ≡ ok (ct', true, behind)
        → Queues ct (concat bufs) ct'
    unfolding write_all
    write_all-Queues ct ct' [] ws behind inside e =
        Ensures-ok (λ (p : CtData T × Bool × List Outcome). Queues ct [] p.0)
          (nothing_sent ct inside) e
    write_all-Queues ct ct' (buf ∷ bufs) ws behind inside e =
        let ((ct1, r, behind1), e1, e2) = >>=-eq-ok (writetcp_nb h ct buf (length buf) ws) _ e in
        let first = writetcp_nb-Queues ct ct1 buf r ws behind1 inside e1 in
        Queues-trans ct ct1 ct' buf (concat bufs) first (
          write_all-Queues ct1 ct' bufs behind1 behind first.inside
            (went_on r ct1 ct' behind1 behind (write_all h ct1 bufs behind1) e2))
