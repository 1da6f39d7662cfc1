-- ===== src/Rpc/Tests.antt =====
-- The theorems on src/clnt_tcp_nb.c at concrete inputs.
use unfsclient.Prelude.{
  ℕ, ◌∷◌, [], arith, ◌++◌, ok, ◌≡◌, inl, true, List, fault, Ensures, some, refl, false, Bool,
  length, inr, ◌+◌,
}
use unfsclient.Rpc.Types.{memcpy, CtData, be32}
use unfsclient.Rpc.Receive.Framing.{marker, IsIdle, fragment}
use unfsclient.Rpc.Receive.Stream.{
  AllFit, run_reads, run_reads-answers, answers, NoneCut, run_reads-concat, concat,
}
use unfsclient.Rpc.Receive.Faults.{two_fragments_overflow, cut_marker}
use unfsclient.Rpc.Reply.Answer.{view, answer, dispatch_reply-answer}
use unfsclient.Rpc.Reply.{call_user_cb, dispatch_reply}
use unfsclient.Rpc.Receive.{update_record_state, update_frag_state}
use unfsclient.Rpc.Receive.Progress.{update_frag_state-IsWell, Ended}
use unfsclient.Rpc.Receive.Well.{IsWaiting}
use unfsclient.Rpc.Fragment.{update_new_frag_state, collate_buf_list, frag_size}
use unfsclient.Rpc.Send.{writetcp_nb, wrote, Outcome, send_buffers, again}
use unfsclient.Rpc.Send.Bytes.{send_buffers-conserves, writetcp_nb-queues}
use unfsclient.Rpc.Send.Queue.{AllInside, all_pending}
use unfsclient.Rpc.Receive.Append.{then_feed, update_frag_state-append, EndsAtSeam}
use unfsclient.Rpc.Send.Complete.{send_buffers-returns, send_buffers-flushes}
use unfsclient.Rpc.Client.Callback.{clnttcp_nb_call-dispatch_reply}
use unfsclient.Rpc.Client.{read_rpc_response, rpc_success, next_xid, clnttcp_nb_call}
use unfsclient.Rpc.Sample.{
  alloc, called_xid, word_host, ct0, inside0, table, ucbi, table_laws, outcomes, ct_sent, Table,
  host,
}

waiting0 : IsWaiting ct0.ct_record_state
waiting0 = record {
  no_frag = refl;
  some_header = omega arith;
  at_most_four = omega arith;
  header_size = refl;
}

idle0 : IsIdle ct0.ct_record_state
idle0 = record { waits = waiting0; whole_marker = refl; no_frags = refl; no_size = refl }

-- The second call is answered first.
abbrev messages : List (List ℕ)
messages = (5 ∷ 9 ∷ []) ∷ (7 ∷ 8 ∷ []) ∷ []

abbrev reads : List (List ℕ)
reads = (128 ∷ 0 ∷ 0 ∷ 2 ∷ 5 ∷ []) ∷ (9 ∷ 128 ∷ 0 ∷ 0 ∷ 2 ∷ 7 ∷ 8 ∷ []) ∷ []

fit : AllFit messages
fit = ((omega arith, omega arith), ((omega arith, omega arith), tt))

uncut : NoneCut table host ct0 reads
unfolding update_frag_state update_new_frag_state memcpy update_record_state call_user_cb
    collate_buf_list
uncut = (inl refl, (inr refl, tt))

uncut_first :
    Ensures
      (EndsAtSeam table host alloc)
      (update_frag_state table host ct0 (128 ∷ 0 ∷ 0 ∷ 2 ∷ 5 ∷ []))
unfolding update_frag_state update_new_frag_state memcpy
uncut_first = inl refl

run_reads-answers_example :
    (ct' : CtData Table) × (run_reads table host ct0 reads ≡ ok (ct', 2))
    × (view table table_laws ct' ≡ answers host (view table table_laws ct0) messages)
    × IsIdle ct'.ct_record_state
unfolding marker
run_reads-answers_example =
    run_reads-answers table host alloc table_laws ct0 messages reads idle0 fit refl uncut

run_reads-concat_example :
    run_reads table host ct0 reads ≡ update_frag_state table host ct0 (concat reads)
run_reads-concat_example = run_reads-concat table host alloc ct0 reads (inl waiting0) uncut

update_frag_state-IsWell_example :
    Ensures (Ended table host alloc) (update_frag_state table host ct0 (128 ∷ 0 ∷ 0 ∷ 2 ∷ 5 ∷ []))
update_frag_state-IsWell_example =
    update_frag_state-IsWell table host alloc ct0 (128 ∷ 0 ∷ 0 ∷ 2 ∷ 5 ∷ []) (inl waiting0)

dispatch_reply-answer_example :
    view table table_laws (dispatch_reply table host ct0 (5 ∷ 9 ∷ []))
    ≡ answer host (view table table_laws ct0) (5 ∷ 9 ∷ [])
dispatch_reply-answer_example = dispatch_reply-answer table table_laws host ct0 (5 ∷ 9 ∷ [])

two_fragments_overflow_example :
    update_frag_state table host ct0 (fragment false (5 ∷ []) ++ fragment true (9 ∷ [])) ≡ fault
two_fragments_overflow_example =
    two_fragments_overflow table host alloc ct0 (5 ∷ []) (9 ∷ []) idle0 (omega arith, omega arith)
      (omega arith, omega arith)

cut_marker_example :
    (ct' : CtData Table) × (run_reads table host ct0 ((128 ∷ 0 ∷ []) ∷ (0 ∷ 2 ∷ []) ∷ [])
      ≡ ok (ct', 0))
    × (ct'.ct_record_state.rs_frag_bufsz ≡ frag_size (be32 (0 ∷ 2 ∷ 0 ∷ 0 ∷ [])))
cut_marker_example =
    cut_marker table host alloc ct0 (128 ∷ 0 ∷ []) (0 ∷ 2 ∷ []) idle0 (omega arith) (omega arith)
      refl

update_frag_state-append_example :
    update_frag_state table host ct0 ((128 ∷ 0 ∷ 0 ∷ 2 ∷ 5 ∷ []) ++ 9 ∷ [])
    ≡ then_feed table host alloc
        (9 ∷ [])
        (update_frag_state table host ct0 (128 ∷ 0 ∷ 0 ∷ 2 ∷ 5 ∷ []))
update_frag_state-append_example =
    update_frag_state-append table host alloc ct0 (128 ∷ 0 ∷ 0 ∷ 2 ∷ 5 ∷ []) (9 ∷ []) (inl waiting0)
      uncut_first

-- One byte goes out, and then the socket is full.
partly_sent : send_buffers ct0 false outcomes ≡ ok (ct_sent, true, again ∷ [])
unfolding send_buffers
partly_sent = refl

send_buffers-conserves_example :
    (ct_sent.wire ++ all_pending ct_sent.ct_sndlist ≡ ct0.wire ++ all_pending ct0.ct_sndlist)
    × (ct_sent.ct_datatx + length ct0.wire ≡ ct0.ct_datatx + length ct_sent.wire)
    × AllInside ct_sent.ct_sndlist
send_buffers-conserves_example =
    send_buffers-conserves ct0 ct_sent false true outcomes (again ∷ []) inside0 partly_sent

abbrev ct_queued : CtData Table
ct_queued = record ct_sent {
  ct_sndlist =
      ct_sent.ct_sndlist ++ record { fb_base = 4 ∷ 5 ∷ []; fb_current = 0; fb_len = 2 } ∷ [];
}

queued : writetcp_nb host ct0 (4 ∷ 5 ∷ []) 2 outcomes ≡ ok (ct_queued, some 2, again ∷ [])
unfolding writetcp_nb
queued = refl

writetcp_nb-queues_example :
    (ct_queued.wire ++ all_pending ct_queued.ct_sndlist
      ≡ ct0.wire ++ (all_pending ct0.ct_sndlist ++ 4 ∷ 5 ∷ []))
    × AllInside ct_queued.ct_sndlist
writetcp_nb-queues_example =
    writetcp_nb-queues host ct0 ct_queued (4 ∷ 5 ∷ []) (some 2) outcomes (again ∷ []) refl inside0
      queued

send_buffers-flushes_example :
    (ct' : CtData Table) × (behind : List Outcome) × (send_buffers ct0 true
        (wrote 1 ∷ wrote 7 ∷ wrote 1 ∷ [])
      ≡ ok (ct', true, behind))
    × (ct'.ct_sndlist ≡ [])
    × (ct'.wire ≡ ct0.wire ++ all_pending ct0.ct_sndlist)
send_buffers-flushes_example =
    send_buffers-flushes ct0 (wrote 1 ∷ wrote 7 ∷ wrote 1 ∷ [])
      (omega arith, (omega arith, (omega arith, tt))) (omega arith)

send_buffers-returns_example :
    (ct' : CtData Table) × (fine : Bool) × (behind : List Outcome) × (send_buffers ct0 false
        outcomes
      ≡ ok (ct', fine, behind))
send_buffers-returns_example = send_buffers-returns ct0 outcomes (omega arith)

-- The record stream of a call: its marker, the header and one byte of arguments, in one buffer.
abbrev pub marshal : List ℕ → List (List ℕ) × Bool
marshal mcall = ((128 ∷ 0 ∷ 0 ∷ 6 ∷ mcall) ∷ [], true)

abbrev ct_called : CtData Table
ct_called = record ct_sent {
  ct_mcall = 8 ∷ 0 ∷ 0 ∷ 0 ∷ 6 ∷ [];
  ct_xid_to_ucb = ct0.ct_xid_to_ucb ++ (called_xid, ucbi) ∷ [];
  ct_pendingcalls = 3;
  ct_sndlist =
      ct_sent.ct_sndlist
      ++ record { fb_base = 128 ∷ 0 ∷ 0 ∷ 6 ∷ 8 ∷ 0 ∷ 0 ∷ 0 ∷ 6 ∷ []; fb_current = 0; fb_len = 9 }
        ∷ [];
}

call_runs :
    clnttcp_nb_call table word_host marshal ct0 ucbi (some 6) outcomes []
    ≡ ok (ct_called, rpc_success, again ∷ [], [])
unfolding clnttcp_nb_call writetcp_nb
call_runs = refl

clnttcp_nb_call-dispatch_reply_example :
    (ct_called.wire ++ all_pending ct_called.ct_sndlist
      ≡ ct0.wire ++ (all_pending ct0.ct_sndlist ++ 128 ∷ 0 ∷ 0 ∷ 6 ∷ 8 ∷ 0 ∷ 0 ∷ 0 ∷ 6 ∷ []))
    × (view table table_laws (dispatch_reply table word_host ct_called (8 ∷ 0 ∷ 0 ∷ 0 ∷ 3 ∷ []))
        ≡ record {
          waiting = ct0.ct_xid_to_ucb;
          received = 5;
          done = record { function = 4; private = 5; body = 3 ∷ [] } ∷ [];
        })
unfolding next_xid read_rpc_response
clnttcp_nb_call-dispatch_reply_example =
    clnttcp_nb_call-dispatch_reply table table_laws word_host (λ n. refl) marshal ct0 ct_called ucbi
      6 outcomes (again ∷ []) [] [] (8 ∷ 0 ∷ 0 ∷ 0 ∷ 3 ∷ []) (3 ∷ []) refl inside0 refl call_runs
      refl
