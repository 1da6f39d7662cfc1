-- ===== src/Daemon/Start/Bounds.antt =====
-- The pool sizes that the daemon accepts, and the threads that it starts with them.
use unfsclient.Prelude.{
  ℕ, pos_part, pos, ◌≡◌, false, ℤ, negsuc, ◌≤◌, ok, true, arith, ◌||◌, ap, List, ◌>>=◌, Bool, refl,
  none, Result, sym, if◌then◌else◌, Option, some, length, inl, Bool-cases, All, inr, ◌∙◌, stuck,
  ◌≢◌,
}
use unfsclient.Daemon.Start.{
  out_of_range, max_threadpool_size, strdup, init_nfsclientd_context, NfsclientdContext, no_actors,
  NfsclientdOpts, max_ctxpool_size, nfscd_init, init_nfsclient_queues,
}
use unfsclient.Rpc.Receive.Well.{copied}
use unfsclient.Daemon.Actors.Pool.{init_nfsclient_thread_pool-starts, IsRunning}
use unfsclient.Daemon.Actors.{is_negative}
use unfsclient.Daemon.Actors.Exit.{running}

-- An int from 1 to a maximum.
abbrev pub IsWithin : ℕ → ℤ → Type 0
IsWithin max size = (1 ≤ pos_part size) × (pos_part size ≤ max)

in_range : (size : ℤ) (max : ℕ) → out_of_range size max ≡ false → IsWithin max size
unfolding out_of_range
in_range (pos n) max e = (ground (arith, e), ground (arith, e))
in_range (negsuc n) max e = absurd (cc)

out_in_range : (size : ℤ) (max : ℕ) → IsWithin max size → out_of_range size max ≡ false
unfolding out_of_range
out_in_range (pos n) max (low, high) = ground (arith, low, high)
out_in_range (negsuc n) max (low, high) = absurd (omega (arith, low))

given :
    (o : Option (List ℕ)) {B : Type 0} (next : Option (List ℕ) → Result B) {end : B}
    → (strdup o >>= next) ≡ ok end
    → next o ≡ ok end
unfolding strdup
given none next e = cc
given (some s) next e = e

either_false : (a b : Bool) → (a || b) ≡ false → (a ≡ false) × (b ≡ false)
either_false true b e = cc
either_false false b e = (refl, e)

kept :
    (c : Bool) (copied ctx : NfsclientdContext)
    → ok (if c then none else some copied) ≡ ok (some ctx)
    → (c ≡ false) × (copied ≡ ctx)
kept true copied ctx e = cc
kept false copied ctx e = (refl, cc)

-- What an accepted context holds.
accepted :
    (opts : NfsclientdOpts) (ctx : NfsclientdContext)
    → init_nfsclientd_context opts ≡ ok (some ctx)
    → (out_of_range opts.ctxpoolsize max_ctxpool_size ≡ false)
      × (out_of_range opts.threadpool max_threadpool_size ≡ false)
      × (ctx.mountopts ≡ opts)
      × (ctx.actors ≡ no_actors)
unfolding init_nfsclientd_context
accepted opts ctx e =
    let e1 = given opts.server _ e in
    let e2 = given opts.remotedir _ e1 in
    let e3 = given opts.mountpoint _ e2 in
    let (c, same) =
      kept
        (out_of_range opts.ctxpoolsize max_ctxpool_size
          || out_of_range opts.threadpool max_threadpool_size)
        _ ctx e3 in
    let (p, q) =
      either_false (out_of_range opts.ctxpoolsize max_ctxpool_size)
        (out_of_range opts.threadpool max_threadpool_size) c in
    (p, q, ap (λ x. x.mountopts) (sym same), ap (λ x. x.actors) (sym same))

strdup->>= :
    {B : Type 0} (o : Option (List ℕ)) (next : Option (List ℕ) → Result B)
    → ((s : Option (List ℕ)) → next s ≢ stuck)
    → (strdup o >>= next) ≢ stuck
unfolding strdup
strdup->>= none next h = λ e. cc
strdup->>= (some s) next h = h (some s)

pub accepted-IsWithin :
    (opts : NfsclientdOpts) (ctx : NfsclientdContext)
    → init_nfsclientd_context opts ≡ ok (some ctx)
    → IsWithin max_ctxpool_size opts.ctxpoolsize × IsWithin max_threadpool_size opts.threadpool
accepted-IsWithin opts ctx e =
    let (p, q, same, none_yet) = accepted opts ctx e in
    (in_range opts.ctxpoolsize max_ctxpool_size p, in_range opts.threadpool max_threadpool_size q)

pub init_nfsclientd_context-ends : (opts : NfsclientdOpts) → init_nfsclientd_context opts ≢ stuck
unfolding init_nfsclientd_context
init_nfsclientd_context-ends opts = strdup->>= opts.server _ (λ server.
    strdup->>= opts.remotedir _ (λ remotedir. strdup->>= opts.mountpoint _ (λ mountpoint e. cc)))

-- Every context that the daemon accepts: from 1 to 20 client contexts to an actor and from 1 to 20
-- actors are asked for, and nfscd_init starts just as many actors, counts them, lists them as
-- running, and sets the global context.
pub init_nfsclientd_context-nfscd_init :
    (tids : ℕ → ℕ) (opts : NfsclientdOpts) (ctx : NfsclientdContext)
    → init_nfsclientd_context opts ≡ ok (some ctx)
    → let (ctx', is_set) = nfscd_init tids ctx in
      IsWithin max_ctxpool_size opts.ctxpoolsize
      × IsWithin max_threadpool_size opts.threadpool
      × (is_set ≡ true)
      × (ctx'.actors.threadcount ≡ pos_part opts.threadpool)
      × (length ctx'.actors.actor_threads ≡ pos_part opts.threadpool)
      × All IsRunning ctx'.actors.actor_threads
unfolding nfscd_init init_nfsclient_queues is_negative
init_nfsclientd_context-nfscd_init tids opts ctx e =
    let (p, q, same, none_yet) = accepted opts ctx e in
    let size : ctx.mountopts.threadpool ≡ opts.threadpool = ap (λ o. o.threadpool) same in
    let (r, count, listed, running, started) =
      init_nfsclient_thread_pool-starts tids ctx.mountopts.threadpool ctx.actors in
    (
      in_range opts.ctxpoolsize max_ctxpool_size p,
      in_range opts.threadpool max_threadpool_size q,
      rw r refl,
      rw r (count ∙ ap pos_part size),
      rw r (listed ∙ ap pos_part size),
      rw r running,
    )

-- When the three names are given, a context is made exactly for pool sizes from 1 to 20; for any
-- other sizes NULL is returned.
pub init_nfsclientd_context-IsWithin :
    (opts : NfsclientdOpts) (server remotedir mountpoint : List ℕ)
    → opts.server ≡ some server
    → opts.remotedir ≡ some remotedir
    → opts.mountpoint ≡ some mountpoint
    → (IsWithin max_ctxpool_size opts.ctxpoolsize
        → IsWithin max_threadpool_size opts.threadpool
        → (ctx : NfsclientdContext) × (init_nfsclientd_context opts ≡ ok (some ctx)))
      × (¬ (
            IsWithin max_ctxpool_size opts.ctxpoolsize
            × IsWithin max_threadpool_size opts.threadpool)
          → init_nfsclientd_context opts ≡ ok none)
unfolding init_nfsclientd_context strdup
init_nfsclientd_context-IsWithin opts server remotedir mountpoint s r m = (
  λ p q. (
    record {
      mountopts = record {
        server = some server;
        remotedir = some remotedir;
        mountpoint = some mountpoint;
        srvaddr = opts.srvaddr;
        ctxpoolsize = opts.ctxpoolsize;
        threadpool = opts.threadpool;
      };
      md = none;
      rw_queue = none;
      actors = no_actors;
    },
    rw
        (
          s,
          r,
          m,
          out_in_range opts.ctxpoolsize max_ctxpool_size p,
          out_in_range opts.threadpool max_threadpool_size q,
        )
        refl,
  ),
  λ outside. elim (Bool-cases (out_of_range opts.ctxpoolsize max_ctxpool_size)) [
    | inl bad ↦ rw (s, r, m, bad) refl
    | inr p ↦ elim (Bool-cases (out_of_range opts.threadpool max_threadpool_size)) [
      | inl bad ↦ rw (s, r, m, p, bad) refl
      | inr q ↦ absurd (
          outside (
            in_range opts.ctxpoolsize max_ctxpool_size p,
            in_range opts.threadpool max_threadpool_size q,
          ))
    ]
  ],
)
