-- ===== src/Rpc/Runs.antt =====
-- Two calls after one another, at concrete inputs.
use unfsclient.Prelude.{refl, ◌≡◌, false, arith, ◌∷◌, ◌++◌, some, ok, none, []}
use unfsclient.Rpc.Types.{CtData, CallbackInfo}
use unfsclient.Rpc.Send.{writetcp_nb, again}
use unfsclient.Rpc.Client.{clnttcp_nb_call, read_rpc_response, rpc_success}
use unfsclient.Rpc.Client.Calls.{
  AllDistinct, Calls, calls_more, calls_none, clnttcp_nb_call-AllDistinct, keys, values,
}
use unfsclient.Rpc.Sample.{Table, table_laws, word_host, table, ucbi, ct0}
use unfsclient.Rpc.Tests.{marshal}

-- The header's word is 1, and counts down past 0.
abbrev fresh : CtData Table
fresh = record ct0 { ct_xid_to_ucb = []; ct_sndlist = []; ct_mcall = 1 ∷ 0 ∷ 0 ∷ 0 ∷ 6 ∷ [] }

abbrev once : CtData Table
once = record fresh {
  ct_mcall = 0 ∷ 0 ∷ 0 ∷ 0 ∷ 6 ∷ [];
  ct_xid_to_ucb = (0, ucbi) ∷ [];
  ct_pendingcalls = 3;
  ct_sndlist =
      record { fb_base = 128 ∷ 0 ∷ 0 ∷ 6 ∷ 0 ∷ 0 ∷ 0 ∷ 0 ∷ 6 ∷ []; fb_current = 0; fb_len = 9 }
      ∷ [];
}

abbrev other : CallbackInfo
other = record { callback = none; cb_private = 8 }

abbrev twice : CtData Table
twice = record once {
  ct_mcall = 255 ∷ 255 ∷ 255 ∷ 255 ∷ 6 ∷ [];
  ct_xid_to_ucb = (0, ucbi) ∷ (4294967295, other) ∷ [];
  ct_pendingcalls = 4;
  ct_sndlist =
      once.ct_sndlist
      ++ record {
        fb_base = 128 ∷ 0 ∷ 0 ∷ 6 ∷ 255 ∷ 255 ∷ 255 ∷ 255 ∷ 6 ∷ [];
        fb_current = 0;
        fb_len = 9;
      }
        ∷ [];
}

-- The socket takes no bytes in either call.
first_call :
    clnttcp_nb_call table word_host marshal fresh ucbi (some 6) (again ∷ []) []
    ≡ ok (once, rpc_success, [], [])
unfolding clnttcp_nb_call writetcp_nb
first_call = refl

second_call :
    clnttcp_nb_call table word_host marshal once other (some 6) (again ∷ []) []
    ≡ ok (twice, rpc_success, [], [])
unfolding clnttcp_nb_call writetcp_nb
second_call = refl

no_rx : read_rpc_response 6 ≡ false
unfolding read_rpc_response
no_rx = refl

two-Calls : Calls table word_host fresh (ucbi ∷ other ∷ []) twice
two-Calls =
    calls_more (calls_more calls_none marshal ucbi 6 (again ∷ []) [] [] [] no_rx first_call) marshal
      other 6 (again ∷ []) [] [] [] no_rx second_call

clnttcp_nb_call-AllDistinct_example :
    (values twice.ct_xid_to_ucb ≡ ucbi ∷ other ∷ []) × AllDistinct (keys twice.ct_xid_to_ucb)
clnttcp_nb_call-AllDistinct_example =
    clnttcp_nb_call-AllDistinct table table_laws word_host (λ n. refl) fresh twice
      (ucbi ∷ other ∷ []) (omega arith, omega arith, omega arith, omega arith) tt refl two-Calls
      (omega arith)
