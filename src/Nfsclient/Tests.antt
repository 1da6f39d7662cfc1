-- ===== src/Nfsclient/Tests.antt =====
-- The theorems on the client library at concrete inputs.
use unfsclient.Prelude.{
  ◌%◌, ◌*◌, ◌+◌, ◌/◌, arith, ℕ, negsuc, Bool, [], none, List, ◌≡◌, refl, Option, ◌∷◌, some, pos,
  length, ok, true, ◌++◌, false,
}
use unfsclient.Rpc.Send.{again, writetcp_nb}
use unfsclient.Nfs3.Tests.{read_args, res_written, ok_bytes, args_bytes, read_ok}
use unfsclient.Nfs3.Small.{small, small_laws}
use unfsclient.Nfsclient.Reply.{nfs3_proc-xdr_to_res, call_bytes}
use unfsclient.Rpc.Reply.{dispatch_reply}
use unfsclient.Nfs3.Dispatch.{xdr_to_res}
use unfsclient.Rpc.Sample.{
  table, inside0, table_laws, called_xid, Table, outcomes, ct0, ct_sent, host, ucbi, word_host,
}
use unfsclient.Rpc.Types.{CtData}
use unfsclient.Rpc.Create.{clnttcp_nb_create, Sockaddr, Net}
use unfsclient.Xdr.Attr.{xdr_offset3, xdr_uint32, xdr_count3, xdr_nfs_fh3, xdr_uint64}
use unfsclient.Rpc.Create.Ready.{clnttcp_nb_create-Created, Created}
use unfsclient.Rpc.Client.{rpc_success, next_xid, clnttcp_nb_call, read_rpc_response}
use unfsclient.Nfsclient.Context.{check_ctx, ipproto_tcp, NfsCtx}
use unfsclient.Nfsclient.Call.{nfs3_proc, call_nfs_cl, keep_nfs_cl, open_nfs_cl, nfs3_call}
use unfsclient.Nfs3.Procs.{nfs3_read}
use unfsclient.Rpc.Reply.Answer.{fired, view}
use unfsclient.Rpc.Send.Queue.{all_pending}
use unfsclient.Xdr.Codec.{Writes, via, dep, seq, void}
use unfsclient.Xdr.Data.{xdr_read3args}
use unfsclient.Nfsclient.Mount.{
  xdr_to_exports, xdr_to_mountlist, xdr_to_mntres3, mount_messages_round_trip,
}
use unfsclient.Xdr.Mount.{
  Mountres3, xdr_dirpath, xdr_mountres3, Mountbody, xdr_mountlist, xdr_exports, xdr_name,
  Exportnode, xdr_mountstat3, xdr_mountres3_ok, xdr_fhandle3,
}
use unfsclient.Xdr.Library.{optional}

-- A record stream of one buffer: the marker, the header, the procedure and the arguments.
abbrev pub rec_stream : List ℕ → ℕ → Option (List ℕ) → List (List ℕ) × Bool
rec_stream mcall proc none = ([], false)
rec_stream mcall proc (some args) = ((128 ∷ 0 ∷ 0 ∷ 26 ∷ mcall ++ proc ∷ args) ∷ [], true)

abbrev pub net : Net Table
net = record {
  pmap_getport = λ addr prog vers. 2049;
  htons = λ n. n % 256 * 256 + n / 256;
  socket_fd = pos 3;
  connect = λ addr. true;
  fcntl_getfl = true;
  fcntl_setfl = true;
  lrand48 = 9;
  callhdr = λ xid prog vers. some (0 ∷ 0 ∷ 0 ∷ xid ∷ []);
  ght_create = [];
  sizeof_client = 24;
  sizeof_ct_data = 512;
  old_fraghdr = 7 ∷ 7 ∷ 7 ∷ 7 ∷ [];
  old_last_frag = true;
}

abbrev pub server : Sockaddr
server = record { sin_addr = 5; sin_port = 0 }

clnttcp_nb_create-Created_example :
    Created table table_laws host net refl refl
      (clnttcp_nb_create host net server 100003 3 (negsuc 0) 0 0).0
clnttcp_nb_create-Created_example =
    clnttcp_nb_create-Created table table_laws host net refl refl server 100003 3 (negsuc 0) 0 0

abbrev pub ctx0 : NfsCtx Table
ctx0 = record {
  address = 1;
  nfs_srv = some (2, server);
  nfs_mnt = some (3, server);
  nfs_transport = ipproto_tcp;
  nfs_mnt_cl = none;
  nfs_cl = some ct0;
  nfs_connflags = 1;
  nfs_rsize = 0;
  nfs_wsize = 0;
}

abbrev sent_bytes : List ℕ
sent_bytes = 128 ∷ 0 ∷ 0 ∷ 26 ∷ 8 ∷ 0 ∷ 0 ∷ 0 ∷ 6 ∷ 6 ∷ args_bytes

abbrev ct_read : CtData Table
ct_read = record ct_sent {
  ct_mcall = 8 ∷ 0 ∷ 0 ∷ 0 ∷ 6 ∷ [];
  ct_xid_to_ucb = ct0.ct_xid_to_ucb ++ (called_xid, ucbi) ∷ [];
  ct_pendingcalls = 3;
  ct_sndlist =
      ct_sent.ct_sndlist ++ record { fb_base = sent_bytes; fb_current = 0; fb_len = 30 } ∷ [];
}

abbrev ctx_read : NfsCtx Table
ctx_read = record ctx0 { nfs_cl = some ct_read }

read_runs :
    nfs3_proc table word_host net rec_stream small nfs3_read read_args
      (some ctx0)
      ucbi
      (some 6)
      outcomes
      []
    ≡ ok (some ctx_read, rpc_success, again ∷ [], [])
unfolding nfs3_proc nfs3_call open_nfs_cl call_nfs_cl keep_nfs_cl check_ctx clnttcp_nb_call
    writetcp_nb xdr_read3args via seq dep xdr_nfs_fh3 xdr_offset3 xdr_uint64 xdr_count3 xdr_uint32
read_runs = refl

abbrev res_bytes : List ℕ
res_bytes = 0 ∷ 0 ∷ 0 ∷ 0 ∷ ok_bytes

nfs3_proc-xdr_to_res_example :
    (ct' : CtData Table) × (ctx_read.nfs_cl ≡ some ct')
    × (ct'.wire ++ all_pending ct'.ct_sndlist
        ≡ ct0.wire
          ++ (all_pending ct0.ct_sndlist
              ++ call_bytes table table_laws word_host
                  (λ n. refl)
                  net
                  rec_stream
                  small
                  small_laws
                  nfs3_read
                  read_args
                  (next_xid ct0.ct_mcall)))
    × (view table table_laws (dispatch_reply table word_host ct' (8 ∷ 0 ∷ 0 ∷ 0 ∷ res_bytes))
        ≡ record {
          waiting = ct0.ct_xid_to_ucb;
          received = ct0.ct_datarx + length (8 ∷ 0 ∷ 0 ∷ 0 ∷ res_bytes);
          done = ct0.calls ++ fired ucbi res_bytes;
        })
    × (xdr_to_res small nfs3_read false true (some res_bytes) (length res_bytes)
        ≡ some (0, read_ok))
unfolding check_ctx next_xid read_rpc_response
nfs3_proc-xdr_to_res_example =
    nfs3_proc-xdr_to_res table table_laws word_host (λ n. refl) net rec_stream small small_laws
      nfs3_read read_args (0, read_ok) ctx0 ctx_read ct0 ucbi 6 outcomes (again ∷ []) [] []
      (8 ∷ 0 ∷ 0 ∷ 0 ∷ res_bytes) res_bytes refl refl refl inside0 refl read_runs refl res_written

abbrev pub mount_ok : Mountres3
mount_ok = (0, record { fhandle = 1 ∷ 2 ∷ 3 ∷ 4 ∷ []; auth_flavors = 6 ∷ [] })

abbrev pub mount_bytes : List ℕ
mount_bytes = 0 ∷ 0 ∷ 0 ∷ 0 ∷ 0 ∷ 0 ∷ 0 ∷ 4 ∷ 1 ∷ 2 ∷ 3 ∷ 4 ∷ 0 ∷ 0 ∷ 0 ∷ 1 ∷ 0 ∷ 0 ∷ 0 ∷ 6 ∷ []

pub mount_written : (xdr_mountres3 small).encode mount_ok ≡ some mount_bytes
unfolding xdr_mountres3 dep xdr_mountstat3 xdr_mountres3_ok via seq xdr_fhandle3 optional
mount_written = refl

abbrev mounts : List Mountbody
mounts =
    record { ml_hostname = 5 ∷ 6 ∷ 7 ∷ 8 ∷ []; ml_directory = 1 ∷ 1 ∷ 1 ∷ 1 ∷ [] }
    ∷ record { ml_hostname = 9 ∷ 6 ∷ 7 ∷ 8 ∷ []; ml_directory = 2 ∷ 1 ∷ 1 ∷ 1 ∷ [] }
    ∷ []

abbrev exports : List Exportnode
exports =
    record {
      ex_dir = 1 ∷ 1 ∷ 1 ∷ 1 ∷ [];
      ex_groups =
          record { gr_name = 7 ∷ 7 ∷ 7 ∷ 7 ∷ [] } ∷ record { gr_name = 8 ∷ 7 ∷ 7 ∷ 7 ∷ [] } ∷ [];
    }
    ∷ record { ex_dir = 2 ∷ 1 ∷ 1 ∷ 1 ∷ []; ex_groups = [] }
    ∷ []

abbrev pub mount_refused : Mountres3
mount_refused = (13, tt)

abbrev pub refused_bytes : List ℕ
refused_bytes = 0 ∷ 0 ∷ 0 ∷ 13 ∷ []

pub refused_written : (xdr_mountres3 small).encode mount_refused ≡ some refused_bytes
unfolding xdr_mountres3 dep xdr_mountstat3 void
refused_written = refl

name_written : (a b c d : ℕ) → Writes (xdr_name small) (a ∷ b ∷ c ∷ d ∷ [])
unfolding xdr_name via seq dep
name_written a b c d = (0 ∷ 0 ∷ 0 ∷ 4 ∷ a ∷ b ∷ c ∷ d ∷ [], refl)

dirpath_written : (a b c d : ℕ) → Writes (xdr_dirpath small) (a ∷ b ∷ c ∷ d ∷ [])
unfolding xdr_dirpath via seq dep
dirpath_written a b c d = (0 ∷ 0 ∷ 0 ∷ 4 ∷ a ∷ b ∷ c ∷ d ∷ [], refl)

mount_messages_round_trip_example :
    (xdr_to_mntres3 small true (some (mount_bytes ++ 9 ∷ [])) (length (mount_bytes ++ 9 ∷ []))
      ≡ some mount_ok)
    × ((cs : List ℕ) × ((xdr_mountlist small).encode mounts ≡ some cs)
        × (xdr_to_mountlist small true (cs ++ 9 ∷ []) (length (cs ++ 9 ∷ [])) ≡ mounts))
    × ((ds : List ℕ) × ((xdr_exports small).encode exports ≡ some ds)
        × (xdr_to_exports small true (some (ds ++ 9 ∷ [])) (length (ds ++ 9 ∷ [])) ≡ exports))
mount_messages_round_trip_example =
    mount_messages_round_trip small small_laws mount_ok mounts exports mount_bytes (9 ∷ [])
      mount_written
      (
        (name_written 5 6 7 8, dirpath_written 1 1 1 1),
        ((name_written 9 6 7 8, dirpath_written 2 1 1 1), tt),
      )
      (omega arith)
      (
        (dirpath_written 1 1 1 1, (name_written 7 7 7 7, (name_written 8 7 7 7, tt)), omega arith),
        ((dirpath_written 2 1 1 1, tt, omega arith), tt),
      )
      (omega arith)
