-- ===== src/Daemon/Runs.antt =====
-- The theorems on the actors and the start of the daemon at concrete inputs.
use unfsclient.Prelude.{
  ℕ, ok, [], none, arith, true, List, ◌>>=◌, length, some, ◌∷◌, ◌+◌, negsuc, pos, refl, ◌≢◌, All,
  ◌≡◌, Ensures, Bool, ◌==◌,
}
use unfsclient.Xdr.Object.{Lookup3res, xdr_lookup3res, xdr_lookup3resfail}
use unfsclient.Daemon.Contexts.Balance.{
  destroy_per_actor_context_pool-init_per_actor_context_pool, Pools,
}
use unfsclient.Daemon.Start.Bounds.{
  init_nfsclientd_context-nfscd_init, IsWithin, init_nfsclientd_context-IsWithin,
}
use unfsclient.Daemon.Start.{
  max_ctxpool_size, nfscd_destroy, strdup, max_threadpool_size, no_actors, NfsclientdContext,
  out_of_range, init_nfsclientd_context, NfsclientdOpts, nfscd_init,
}
use unfsclient.Daemon.Actors.{returned, nfscd_notify_actor_exit, monitor_round, Actors}
use unfsclient.Xdr.Attr.{xdr_nfsstat3, xdr_post_op_attr}
use unfsclient.Nfs3.Errors.{no_error, Errno}
use unfsclient.Xdr.Codec.{via, dep, void}
use unfsclient.Nfsclient.Tests.{mount_bytes, mount_written, refused_written, refused_bytes}
use unfsclient.Daemon.Actors.Pool.{IsRunning}
use unfsclient.Daemon.Actor.Answers.{
  nfs3_mount_cb-nfs3_actor_mount_remotedir, nfs3_lookup_cb-encode,
}
use unfsclient.Daemon.Start.Shutdown.{nfscd_destroy-nfscd_init}
use unfsclient.Daemon.Actors.Monitor.{monitor_round-Rounded, Rounded}
use unfsclient.Daemon.Actor.{
  nfscd_lookup, NfscdRequest, nfs3_lookup_cb, nfs3_mount_cb, nfs3_actor_mount_remotedir,
}
use unfsclient.Xdr.Library.{optional}
use unfsclient.Daemon.Contexts.{init_per_actor_context_pool}
use unfsclient.Nfsclient.Memory.{Memory}
use unfsclient.Daemon.Actors.Exit.{nfscd_notify_actor_exit-monitor_round, AfterExit, running}
use unfsclient.Nfs3.Small.{small_laws, small}
use unfsclient.Daemon.Main.Serves.{ParsedWithin, Good, main-Good}
use unfsclient.Daemon.Main.{main, Fuse}

abbrev tids : ℕ → ℕ
tids n = 100 + n

-- Three actors: one that asks for a restart, one that ended well, one that ended with an error.
abbrev ended : Actors
ended = record no_actors {
  threadcount = 3;
  actor_threads =
      record { tid = 100; exitstat = negsuc 1 }
      ∷ record { tid = 101; exitstat = pos 0 }
      ∷ record { tid = 102; exitstat = pos 5 }
      ∷ [];
  started = 100 ∷ 101 ∷ 102 ∷ [];
}

abbrev all_end : ℕ → Bool
all_end t = true

monitor_round-Rounded_example :
    (ctx' : Actors) × (monitor_round all_end tids ended ≡ ok (returned ctx'))
    × Rounded ended ctx' ended.actor_threads
monitor_round-Rounded_example = monitor_round-Rounded all_end tids ended (λ t. refl)

abbrev running_two : Actors
running_two = record no_actors {
  threadcount = 2;
  actor_threads =
      record { tid = 100; exitstat = negsuc 0 } ∷ record { tid = 101; exitstat = negsuc 0 } ∷ [];
  started = 100 ∷ 101 ∷ [];
}

-- Of the two the first asks for a restart, and the second goes on running.
nfscd_notify_actor_exit-monitor_round_example :
    AfterExit running_two 100
      (negsuc 1)
      []
      (running 101 ∷ [])
      (monitor_round (λ t. t == 100) tids (nfscd_notify_actor_exit running_two 100 (negsuc 1)))
nfscd_notify_actor_exit-monitor_round_example =
    nfscd_notify_actor_exit-monitor_round (λ t. t == 100) tids running_two 100 (negsuc 1) []
      (running 101 ∷ []) refl refl tt ((refl, (λ e. absurd (omega (arith, e))), refl), tt)

abbrev opts : NfsclientdOpts
opts = record {
  server = some (1 ∷ []);
  remotedir = some (2 ∷ []);
  mountpoint = some (3 ∷ []);
  srvaddr = some (record { sin_addr = 5; sin_port = 0 });
  ctxpoolsize = pos 2;
  threadpool = pos 4;
}

abbrev context : NfsclientdContext
context = record { mountopts = opts; md = none; rw_queue = none; actors = no_actors }

context_made : init_nfsclientd_context opts ≡ ok (some context)
unfolding init_nfsclientd_context strdup out_of_range
context_made = refl

init_nfsclientd_context-nfscd_init_example :
    let (ctx', is_set) = nfscd_init tids context in
    IsWithin max_ctxpool_size (pos 2)
    × IsWithin max_threadpool_size (pos 4)
    × (is_set ≡ true)
    × (ctx'.actors.threadcount ≡ 4)
    × (length ctx'.actors.actor_threads ≡ 4)
    × All IsRunning ctx'.actors.actor_threads
init_nfsclientd_context-nfscd_init_example =
    init_nfsclientd_context-nfscd_init tids opts context context_made

init_nfsclientd_context-IsWithin_example :
    (IsWithin max_ctxpool_size (pos 2)
      → IsWithin max_threadpool_size (pos 4)
      → (ctx : NfsclientdContext) × (init_nfsclientd_context opts ≡ ok (some ctx)))
    × (¬ (IsWithin max_ctxpool_size (pos 2) × IsWithin max_threadpool_size (pos 4))
        → init_nfsclientd_context opts ≡ ok none)
init_nfsclientd_context-IsWithin_example =
    init_nfsclientd_context-IsWithin opts (1 ∷ []) (2 ∷ []) (3 ∷ []) refl refl refl

nfscd_destroy-nfscd_init_example :
    let ctx' = nfscd_destroy (nfscd_init tids context).0 in
    (ctx'.actors.actor_threads ≡ [])
    × (ctx'.actors.cancelled ≡ ctx'.actors.started)
    × (ctx'.actors.joined ≡ ctx'.actors.started)
nfscd_destroy-nfscd_init_example = nfscd_destroy-nfscd_init tids context refl

-- Seven blocks: the array, and three for each of the two contexts.
abbrev heap : Memory
heap = record {
  live = 50 ∷ [];
  answers = some 60 ∷ some 61 ∷ some 62 ∷ some 63 ∷ some 64 ∷ some 65 ∷ some 66 ∷ [];
}

destroy_per_actor_context_pool-init_per_actor_context_pool_example :
    Pools opts heap (init_per_actor_context_pool {T = List ℕ} opts heap)
destroy_per_actor_context_pool-init_per_actor_context_pool_example =
    destroy_per_actor_context_pool-init_per_actor_context_pool opts heap

abbrev lookup_request : NfscdRequest
lookup_request = nfscd_lookup 70 1 (8 ∷ 8 ∷ 8 ∷ 8 ∷ [])

abbrev lookup_res : Lookup3res
lookup_res = (2, record { dir_attributes = none })

abbrev lookup_bytes : List ℕ
lookup_bytes = 0 ∷ 0 ∷ 0 ∷ 2 ∷ 0 ∷ 0 ∷ 0 ∷ 0 ∷ []

lookup_written : (xdr_lookup3res small).encode lookup_res ≡ some lookup_bytes
unfolding xdr_lookup3res dep xdr_nfsstat3 xdr_lookup3resfail via xdr_post_op_attr optional void
lookup_written = refl

nfs3_lookup_cb-encode_example :
    (lookup_res.0 ≡ 0
      → nfs3_lookup_cb small true (some lookup_bytes) (length lookup_bytes) lookup_request ≡ ok [])
    × (lookup_res.0 ≢ 0
        → (error : Errno) × (nfs3_lookup_cb small true
              (some lookup_bytes)
              (length lookup_bytes)
              lookup_request
            ≡ ok (record { to_request = lookup_request.fuserq; error = error } ∷ []))
          × (error ≢ no_error))
nfs3_lookup_cb-encode_example =
    nfs3_lookup_cb-encode small small_laws lookup_request lookup_res lookup_bytes lookup_written

nfs3_mount_cb-nfs3_actor_mount_remotedir_example :
    ((nfs3_mount_cb small true (some mount_bytes) (length mount_bytes) >>= λ fh.
    ok (nfs3_actor_mount_remotedir true fh))
      ≡ ok (some (1 ∷ 2 ∷ 3 ∷ 4 ∷ []), pos 0))
    × ((nfs3_mount_cb small true (some refused_bytes) (length refused_bytes) >>= λ fh.
          ok (nfs3_actor_mount_remotedir true fh))
        ≡ ok (none, negsuc 0))
nfs3_mount_cb-nfs3_actor_mount_remotedir_example =
    nfs3_mount_cb-nfs3_actor_mount_remotedir small small_laws
      (record { fhandle = 1 ∷ 2 ∷ 3 ∷ 4 ∷ []; auth_flavors = 6 ∷ [] }) 12 mount_bytes refused_bytes
      mount_written refused_written

abbrev fuse : Fuse
fuse = record {
  fuse_opt_parse = λ defaults. some opts;
  getaddrinfo = λ server. some (record { sin_addr = 5; sin_port = 0 });
  fuse_parse_cmdline = some (some (3 ∷ []));
  fuse_mount = true;
  fuse_lowlevel_new = true;
  fuse_set_signal_handlers = true;
}

main-Good_example : Ensures (Good (ParsedWithin fuse)) (main fuse)
main-Good_example = main-Good fuse
