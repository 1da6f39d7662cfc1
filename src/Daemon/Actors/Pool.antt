-- ===== src/Daemon/Actors/Pool.antt =====
-- The start of the actors: init_nfsclient_thread_pool of src/nfscd_ops.c.
use unfsclient.Prelude.{
  ℕ, ◌+◌, suc, refl, append_assoc, pos, length, [], append-nil, zero, List, ◌∷◌, length-append,
  ◌++◌, pos_part, sym, arith, ℤ, All, ◌≡◌, ◌∙◌,
}
use unfsclient.Daemon.Actors.{
  nfscd_startup_actor, ActorStatus, nfscd_create_actor, start_all, is_negative,
  init_nfsclient_thread_pool, nfscd_startup_locked, Actors, default_exit_status,
}

abbrev pub IsRunning : ActorStatus → Type 0
IsRunning ast = ast.exitstat ≡ default_exit_status

-- `n` threads more than before, none of which has ended.
pub record Started (ctx ctx' : Actors) (n : ℕ) : Type 0 where
  pub new_actors :
      (l : List ActorStatus) × (ctx'.actor_threads ≡ ctx.actor_threads ++ l)
      × (length l ≡ n)
      × All IsRunning l
  pub new_count : ctx'.threadcount ≡ ctx.threadcount + n
  pub new_started : length ctx'.started ≡ length ctx.started + n
  pub same_notify : ctx'.actor_exit_notify ≡ ctx.actor_exit_notify

Starts : Actors × ℤ → Actors → ℕ → Type 0
Starts (ctx', r) ctx n = Started ctx ctx' n × (r ≡ pos 0)

start_all-Starts : (tids : ℕ → ℕ) (n : ℕ) (ctx : Actors) → Starts (start_all tids n ctx) ctx n
unfolding start_all nfscd_startup_actor nfscd_startup_locked nfscd_create_actor is_negative Starts
start_all-Starts tids zero ctx = (
  record {
    new_actors = ([], sym (append-nil ctx.actor_threads), refl, tt);
    new_count = omega arith;
    new_started = omega arith;
    same_notify = refl;
  },
  refl,
)
start_all-Starts tids (suc n) ctx =
    let tid = tids (suc (length ctx.started)) in
    let ast : ActorStatus = record { tid = tid; exitstat = default_exit_status } in
    let ctx1 = (nfscd_startup_actor ctx tid).0 in
    let (s, r) = start_all-Starts tids n ctx1 in
    let (l, e, len, running) = s.new_actors in
    (
      record {
        new_actors = (
          ast ∷ l,
          e ∙ append_assoc ctx.actor_threads (ast ∷ []) l,
          omega (arith, len),
          (refl, running),
        );
        new_count = omega (arith, s.new_count);
        new_started = omega (arith, s.new_started, length-append ctx.started (tid ∷ []));
        same_notify = s.same_notify;
      },
      r,
    )

-- The pool starts: 0 is returned, and as many actors as the option says were created, counted and
-- listed as running.
pub init_nfsclient_thread_pool-starts :
    (tids : ℕ → ℕ) (tpool : ℤ) (ctx : Actors)
    → let (ctx', r) = init_nfsclient_thread_pool tids tpool ctx in
      (r ≡ pos 0)
      × (ctx'.threadcount ≡ pos_part tpool)
      × (length ctx'.actor_threads ≡ pos_part tpool)
      × All IsRunning ctx'.actor_threads
      × (length ctx'.started ≡ length ctx.started + pos_part tpool)
unfolding init_nfsclient_thread_pool Starts
init_nfsclient_thread_pool-starts tids tpool ctx =
    let ctx0 = record ctx {
      actor_threads = [];
      actor_exit_notify = 0;
      monitor_tid = tids 0;
      threadcount = 0;
    } in
    let (s, r) = start_all-Starts tids (pos_part tpool) ctx0 in
    let (l, e, len, running) = s.new_actors in
    (r, omega (arith, s.new_count), rw e len, rw e running, s.new_started)
