-- ===== src/Nfsclient/Runs.antt =====
-- The theorems on nfs_complete and on the statistics at concrete inputs.
use unfsclient.Prelude.{
  ℕ, ◌++◌, refl, ◌≡◌, true, false, arith, sum, ◌∷◌, replicate, List, some, ok, [], inl, inr, pos,
}
use unfsclient.Rpc.Types.{CtData, memcpy}
use unfsclient.Rpc.Fragment.{update_new_frag_state, collate_buf_list}
use unfsclient.Rpc.Reply.{call_user_cb}
use unfsclient.Rpc.Receive.{update_frag_state, update_record_state}
use unfsclient.Rpc.Receive.Framing.{IsIdle, marker}
use unfsclient.Rpc.Receive.Stream.{NoneCut, run_reads, concat, frames}
use unfsclient.Rpc.Client.{is_nonblocking, read_rpc_response}
use unfsclient.Rpc.Sample.{Table, table_laws, host, table, alloc, ct0, idle_state}
use unfsclient.Nfsclient.Context.{NfsCtx}
use unfsclient.Nfsclient.Complete.{Collected, nfs_complete, nfs_complete-Collected}
use unfsclient.Nfsclient.Stats.{Row, NfsstatCtx, nfsstat_init, u64}
use unfsclient.Nfsclient.Stats.Counts.{
  status_of, times, update_all, packet, frame, nfsstat_init-update_all, Update,
}
use unfsclient.Nfsclient.Tests.{ctx0}

abbrev empty_row : Row
empty_row = record { col_total = 0; col_success = 0; col_failed = 0; col_restime = 0 }

abbrev no_stats : NfsstatCtx
no_stats = record {
  packet_count = 0;
  proc_pkt_count = replicate 22 empty_row;
  starttime = record { tv_sec = 0; tv_usec = 0 };
  endtime = record { tv_sec = 0; tv_usec = 0 };
  restime_packet_count = 0;
  restime_usecs = 0;
}

-- A READ, its reply, and its response time.
abbrev updates : List Update
updates =
    packet 6
    ∷ status_of 6 0
    ∷ frame (record { tv_sec = 1; tv_usec = 0 })
    ∷ times 6 (record { tv_sec = 1; tv_usec = 0 }) (record { tv_sec = 1; tv_usec = 9 })
    ∷ []

stats_made : nfsstat_init true ≡ some no_stats
unfolding nfsstat_init
stats_made = refl

nfsstat_init-update_all_example :
    (stats' : NfsstatCtx) × (update_all no_stats updates ≡ ok stats')
    × (stats'.packet_count ≡ u64 (sum (λ r. r.col_total) stats'.proc_pkt_count))
    × (stats'.restime_usecs ≡ u64 (sum (λ r. r.col_restime) stats'.proc_pkt_count))
nfsstat_init-update_all_example =
    nfsstat_init-update_all no_stats updates stats_made
      (omega arith, (omega arith, (tt, (omega arith, tt))))

-- A handle with nothing queued and two calls pending, and a reply that comes in two reads.
abbrev quiet_ct : CtData Table
quiet_ct = record ct0 { ct_sndlist = [] }

abbrev quiet_ctx : NfsCtx Table
quiet_ctx = record ctx0 { nfs_cl = some quiet_ct }

idle : IsIdle quiet_ct.ct_record_state
idle = record {
  waits = record {
    no_frag = refl;
    some_header = omega arith;
    at_most_four = omega arith;
    header_size = refl;
  };
  whole_marker = refl;
  no_frags = refl;
  no_size = refl;
}

abbrev first_read : List ℕ
first_read = 128 ∷ 0 ∷ 0 ∷ 2 ∷ 5 ∷ []

abbrev halfway : CtData Table
halfway = record quiet_ct {
  ct_record_state = record idle_state {
    rs_frag_remaining = pos 1;
    rs_frag_buf_base = 5 ∷ 0 ∷ [];
    rs_frag_bufsz = 2;
    rs_frag_offset = 1;
    rs_fh_remaining = 0;
    rs_fraghdr = 128 ∷ 0 ∷ 0 ∷ 2 ∷ [];
    rs_last_frag = true;
  };
}

first_only : run_reads table host quiet_ct (first_read ∷ []) ≡ ok (halfway, 0)
unfolding update_frag_state update_new_frag_state memcpy run_reads
first_only = refl

uncut : NoneCut table host quiet_ct (first_read ∷ (9 ∷ []) ∷ [])
unfolding update_frag_state update_new_frag_state memcpy update_record_state call_user_cb
    collate_buf_list
uncut = (inl refl, (inr refl, tt))

blocks : is_nonblocking 0 ≡ false
unfolding is_nonblocking
blocks = refl

may_read : read_rpc_response 0 ≡ true
unfolding read_rpc_response
may_read = refl

two_reads : concat ((first_read ∷ []) ++ (9 ∷ []) ∷ []) ≡ frames ((5 ∷ 9 ∷ []) ∷ [])
unfolding marker
two_reads = refl

nfs_complete-Collected_example :
    (ct' : CtData Table) × (nfs_complete table host
        (some quiet_ctx)
        0
        []
        (first_read ∷ (9 ∷ []) ∷ [] ∷ [])
      ≡ ok (some (record quiet_ctx { nfs_cl = some ct' }), 1, [], [] ∷ []))
    × Collected table table_laws host alloc quiet_ct ct' ((5 ∷ 9 ∷ []) ∷ [])
nfs_complete-Collected_example =
    nfs_complete-Collected table table_laws host alloc quiet_ctx quiet_ct halfway 0 []
      ((5 ∷ 9 ∷ []) ∷ []) (first_read ∷ []) (9 ∷ []) ([] ∷ []) refl blocks may_read (omega arith)
      refl idle ((omega arith, omega arith), tt) (omega arith) (omega arith, tt) (omega arith)
      two_reads uncut first_only
