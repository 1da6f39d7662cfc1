-- ===== src/Daemon/Start/Shutdown.antt =====
-- The end of the daemon: nfscd_destroy of src/nfscd_ops.c.
use unfsclient.Prelude.{
  ℕ, append-nil, ◌∙◌, ◌++◌, ◌∷◌, suc, zero, [], ◌≡◌, sym, refl, append_assoc, List, ap, length,
  pos_part,
}
use unfsclient.Daemon.Actors.{
  Actors, is_negative, ActorStatus, start_all, cancel_all, nfscd_startup_actor, nfscd_create_actor,
  nfscd_startup_locked, destroy_nfsclient_thread_pool, init_nfsclient_thread_pool,
}
use unfsclient.Daemon.Start.{
  no_actors, nfscd_init, nfscd_destroy, init_nfsclient_queues, NfsclientdContext,
}
use unfsclient.Daemon.Actors.Monitor.{tids_of, tids_of-append}
use unfsclient.Daemon.Actors.Exit.{running}
use unfsclient.Daemon.Actors.Pool.{init_nfsclient_thread_pool-starts}

cancel_all_lem :
    (l : List ActorStatus) (ctx : Actors)
    → ctx.actor_threads ≡ l
    → let ctx' = cancel_all l ctx in
      (ctx'.actor_threads ≡ [])
      × (ctx'.joined ≡ ctx.joined ++ tids_of l)
      × (ctx'.cancelled ≡ ctx.cancelled ++ tids_of l)
      × (ctx'.started ≡ ctx.started)
unfolding cancel_all
cancel_all_lem [] ctx e = (e, sym (append-nil ctx.joined), sym (append-nil ctx.cancelled), refl)
cancel_all_lem (ast ∷ rest) ctx e =
    let (a, b, c, d) =
      cancel_all_lem rest
        (record ctx {
          actor_threads = rest;
          joined = ctx.joined ++ ast.tid ∷ [];
          cancelled = ctx.cancelled ++ ast.tid ∷ [];
        })
        refl in
    (
      a,
      b ∙ append_assoc ctx.joined (ast.tid ∷ []) (tids_of rest),
      c ∙ append_assoc ctx.cancelled (ast.tid ∷ []) (tids_of rest),
      d,
    )

-- Every thread that was started is listed, and none was ended.
record Fresh (ctx : Actors) : Type 0 where
  listed : ctx.started ≡ tids_of ctx.actor_threads
  none_joined : ctx.joined ≡ []
  none_cancelled : ctx.cancelled ≡ []

start_all-Fresh : (tids : ℕ → ℕ) (n : ℕ) (ctx : Actors) → Fresh ctx → Fresh (start_all tids n ctx).0
unfolding start_all nfscd_startup_actor nfscd_startup_locked nfscd_create_actor is_negative
start_all-Fresh tids zero ctx f = f
start_all-Fresh tids (suc n) ctx f =
    let tid = tids (suc (length ctx.started)) in
    start_all-Fresh tids n (nfscd_startup_actor ctx tid).0 (record {
      listed =
          ap (λ l. l ++ tid ∷ []) f.listed
          ∙ sym (tids_of-append ctx.actor_threads (running tid ∷ []));
      none_joined = f.none_joined;
      none_cancelled = f.none_cancelled;
    })

Emptied : Actors → Type 0
Emptied ctx = (ctx.actor_threads ≡ []) × (ctx.cancelled ≡ ctx.started) × (ctx.joined ≡ ctx.started)

destroy-Emptied : (ctx : Actors) → Fresh ctx → Emptied (destroy_nfsclient_thread_pool ctx)
unfolding destroy_nfsclient_thread_pool Emptied
destroy-Emptied ctx f =
    let (a, j, c, s) = cancel_all_lem ctx.actor_threads ctx refl in
    (
      a,
      c ∙ ap (λ l. l ++ tids_of ctx.actor_threads) f.none_cancelled ∙ sym f.listed ∙ sym s,
      j ∙ ap (λ l. l ++ tids_of ctx.actor_threads) f.none_joined ∙ sym f.listed ∙ sym s,
    )

-- The end of a daemon that was just started: every actor that nfscd_init created is cancelled and
-- waited for, in the order of their start, and none is listed any more.
pub nfscd_destroy-nfscd_init :
    (tids : ℕ → ℕ) (ctx : NfsclientdContext)
    → ctx.actors ≡ no_actors
    → let ctx' = nfscd_destroy (nfscd_init tids ctx).0 in
      (ctx'.actors.actor_threads ≡ [])
      × (ctx'.actors.cancelled ≡ ctx'.actors.started)
      × (ctx'.actors.joined ≡ ctx'.actors.started)
unfolding nfscd_destroy nfscd_init init_nfsclient_queues is_negative destroy_nfsclient_thread_pool
    init_nfsclient_thread_pool Emptied
nfscd_destroy-nfscd_init tids ctx fresh =
    let size = ctx.mountopts.threadpool in
    let (r, _, _, _, _) = init_nfsclient_thread_pool-starts tids size ctx.actors in
    rw r (
      destroy-Emptied (init_nfsclient_thread_pool tids size ctx.actors).0 (
        start_all-Fresh tids (pos_part size)
          (record ctx.actors {
            actor_threads = [];
            actor_exit_notify = 0;
            monitor_tid = tids 0;
            threadcount = 0;
          })
          (record {
            listed = ap (λ a. a.started) fresh;
            none_joined = ap (λ a. a.joined) fresh;
            none_cancelled = ap (λ a. a.cancelled) fresh;
          })))
