-- ===== src/Daemon/Start.antt =====
-- The start and the end of the daemon: src/nfsclientd.c, and nfscd_init and nfscd_destroy of
-- src/nfscd_ops.c.
pub mod Bounds
pub mod Shutdown
use unfsclient.Prelude.{
  ℕ, ltb, false, List, ℤ, ◌>>=◌, fault, none, if◌then◌else◌, negsuc, true, ok, Option, Result, Bool,
  [], some, ◌||◌, ◌==◌, pos,
}
use unfsclient.Daemon.Actors.{
  is_negative, init_nfsclient_thread_pool, destroy_nfsclient_thread_pool, Actors,
}
use unfsclient.Daemon.Queue.{Queue, init_queue}
use unfsclient.Rpc.Receive.Well.{copied}
use unfsclient.Rpc.Create.{Sockaddr}

abbrev pub max_ctxpool_size : ℕ
max_ctxpool_size = 20

abbrev pub max_threadpool_size : ℕ
max_threadpool_size = 20

-- Strings are their bytes, `none` is NULL. `srvaddr` is what it points to, the sizes are ints.
pub record NfsclientdOpts : Type 0 where
  pub server : Option (List ℕ)
  pub remotedir : Option (List ℕ)
  pub mountpoint : Option (List ℕ)
  pub srvaddr : Option Sockaddr
  pub ctxpoolsize : ℤ
  pub threadpool : ℤ

-- `none` for the queues is memory not set up yet.
pub record NfsclientdContext : Type 0 where
  pub mountopts : NfsclientdOpts
  pub md : Option Queue
  pub rw_queue : Option Queue
  pub actors : Actors

-- What memset leaves of the fields for the actors.
abbrev pub no_actors : Actors
no_actors = record {
  threadcount = 0;
  actor_threads = [];
  actor_exit_notify = 0;
  monitor_tid = 0;
  started = [];
  joined = [];
  cancelled = [];
  printed = [];
}

-- strdup of NULL is undefined; there is memory.
unfoldable pub strdup : Option (List ℕ) → Result (Option (List ℕ))
strdup none = fault
strdup (some s) = ok (some s)

-- `(size <= 0) || (size > max)`
unfoldable pub out_of_range : ℤ → ℕ → Bool
out_of_range (pos n) max = n == 0 || ltb max n
out_of_range (negsuc n) max = true

-- `none` is NULL. The check comes after the options are copied.
unfoldable pub init_nfsclientd_context : NfsclientdOpts → Result (Option NfsclientdContext)
unfolding strdup out_of_range
init_nfsclientd_context opts = strdup opts.server >>= λ server.
    strdup opts.remotedir >>= λ remotedir. strdup opts.mountpoint >>= λ mountpoint.
    let copied : NfsclientdContext = record {
      mountopts = record {
        server = server;
        remotedir = remotedir;
        mountpoint = mountpoint;
        srvaddr = opts.srvaddr;
        ctxpoolsize = opts.ctxpoolsize;
        threadpool = opts.threadpool;
      };
      md = none;
      rw_queue = none;
      actors = no_actors;
    } in
    ok (
      if out_of_range opts.ctxpoolsize max_ctxpool_size
        || out_of_range opts.threadpool max_threadpool_size
      then none
      else some copied)

-- It returns 0 always.
unfoldable pub init_nfsclient_queues : NfsclientdContext → NfsclientdContext
init_nfsclient_queues ctx = record ctx { md = some init_queue; rw_queue = some init_queue }

unfoldable pub nfscd_destroy : NfsclientdContext → NfsclientdContext
nfscd_destroy ctx = record ctx { actors = destroy_nfsclient_thread_pool ctx.actors }

-- `true` when the global nfscd_ctx was set.
unfoldable pub nfscd_init : (ℕ → ℕ) → NfsclientdContext → NfsclientdContext × Bool
unfolding init_nfsclient_queues nfscd_destroy
nfscd_init tids ctx =
    let ctx1 = init_nfsclient_queues ctx in
    let (actors, r) = init_nfsclient_thread_pool tids ctx1.mountopts.threadpool ctx1.actors in
    let ctx2 = record ctx1 { actors = actors } in
    if is_negative r then (nfscd_destroy ctx2, false) else (ctx2, true)
