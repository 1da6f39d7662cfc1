-- ===== src/Rpc/Sample.antt =====
-- The data of the tests: a table, two libraries, and the state of a connection.
use unfsclient.Prelude.{
  ℕ, ◌^◌, true, ◌∷◌, refl, [], Option, false, negsuc, none, ◌≡◌, List, ◌*◌, arith, some,
}
use unfsclient.Rpc.Send.{Outcome, wrote, again}
use unfsclient.Rpc.Send.Queue.{AllInside}
use unfsclient.Rpc.Types.{
  Host, Ght, GhtLaws, be32, CallbackInfo, CtData, first_value, RpcRecordState, insert, first, rest,
  erase, lookup,
}

abbrev pub Table : Type 0
Table = List (ℕ × CallbackInfo)

abbrev pub table : Ght Table
table = record {
  ght_insert = λ t c k. insert k c t;
  ght_first = first;
  ght_remove_first = λ t. (rest t, first_value t);
  ght_remove = λ t k. (erase k t, lookup k t);
}

abbrev pub table_laws : GhtLaws table
table_laws = record {
  entries = λ t. t;
  entries-insert = λ t c k. refl;
  first_lem = λ t. refl;
  remove_first_value = λ t. refl;
  remove_first_rest = λ t. refl;
  remove_value = λ t k. refl;
  remove_rest = λ t k. refl;
}

abbrev pub reply_of : List ℕ → Option (ℕ × List ℕ)
reply_of [] = none
reply_of (xid ∷ body) = some (xid, body)

abbrev pub host : Host
host = record { malloc = λ n. true; filler = 0; replymsg = reply_of }

pub alloc : (n : ℕ) → host.malloc n ≡ true
alloc n = refl

abbrev pub idle_state : RpcRecordState
idle_state = record {
  rs_frag_list = [];
  rs_recordsize = 0;
  rs_frag_remaining = negsuc 0;
  rs_frag_buf_base = [];
  rs_frag_bufsz = 0;
  rs_frag_offset = 0;
  rs_fh_remaining = 4;
  rs_fraghdr = 0 ∷ 0 ∷ 0 ∷ 0 ∷ [];
  rs_last_frag = false;
}

abbrev pub ct0 : CtData Table
ct0 = record {
  ct_record_state = idle_state;
  ct_xid_to_ucb =
      (7, record { callback = some 1; cb_private = 2 })
      ∷ (5, record { callback = none; cb_private = 3 })
      ∷ [];
  ct_datarx = 0;
  ct_datatx = 0;
  ct_pendingcalls = 2;
  ct_mcall = 9 ∷ 0 ∷ 0 ∷ 0 ∷ 6 ∷ [];
  ct_sndlist = record { fb_base = 1 ∷ 2 ∷ 3 ∷ []; fb_current = 1; fb_len = 2 } ∷ [];
  ct_nonblocking = true;
  calls = [];
  wire = 1 ∷ [];
}

abbrev pub outcomes : List Outcome
outcomes = wrote 1 ∷ again ∷ []

pub inside0 : AllInside ct0.ct_sndlist
inside0 = (omega arith, tt)

abbrev pub ct_sent : CtData Table
ct_sent = record ct0 {
  ct_sndlist = record { fb_base = 1 ∷ 2 ∷ 3 ∷ []; fb_current = 2; fb_len = 1 } ∷ [];
  ct_datatx = 1;
  wire = 1 ∷ 2 ∷ [];
}

abbrev pub ucbi : CallbackInfo
ucbi = record { callback = some 4; cb_private = 5 }

abbrev pub called_xid : ℕ
called_xid = 8 * 2 ^ 24

-- The reply to the call, on a library in which a message is one word and the results.
abbrev pub word_reply : List ℕ → Option (ℕ × List ℕ)
word_reply [] = none
word_reply (a ∷ []) = none
word_reply (a ∷ b ∷ []) = none
word_reply (a ∷ b ∷ c ∷ []) = none
word_reply (a ∷ b ∷ c ∷ d ∷ body) = some (be32 (a ∷ b ∷ c ∷ d ∷ []), body)

abbrev pub word_host : Host
word_host = record { malloc = λ n. true; filler = 0; replymsg = word_reply }
