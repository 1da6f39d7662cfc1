-- ===== src/Daemon/Actors.antt =====
-- The actors of src/nfscd_ops.c: the threads that serve the requests, the list of them with their
-- exit status, and the monitor that restarts them.
pub mod Monitor
pub mod Pool
pub mod Exit
use unfsclient.Prelude.{
  ℕ, stuck, map, ◌∷◌, false, true, negsuc, Result, [], ℤ, pos, if◌then◌else◌, List, not, ok,
  pos_part, ◌==◌, suc, ◌++◌, ◌*◌, length, Bool, zero,
}

-- -1 is DEFAULT_EXIT_STATUS.
abbrev pub default_exit_status : ℤ
default_exit_status = negsuc 0

pub record ActorStatus : Type 0 where
  pub tid : ℕ
  pub exitstat : ℤ

-- The fields of struct nfsclientd_context that ast_lock guards, and the semaphore
-- actor_exit_notify. `started`, `joined`, `cancelled` and `printed` are the histories of the actors
-- created, of those that pthread_join waited for, of those cancelled, and of the statuses printed.
pub record Actors : Type 0 where
  pub threadcount : ℕ
  pub actor_threads : List ActorStatus
  pub actor_exit_notify : ℕ
  pub monitor_tid : ℕ
  pub started : List ℕ
  pub joined : List ℕ
  pub cancelled : List ℕ
  pub printed : List ℤ

-- __nfscd_startup_actor. `tid` is what pthread_create gives. The value is what the function returns.
unfoldable pub nfscd_create_actor : Actors → ℕ → Actors × ℤ
nfscd_create_actor ctx tid =
    let ast : ActorStatus = record { tid = tid; exitstat = default_exit_status } in
    (
      record ctx {
        threadcount = suc ctx.threadcount;
        actor_threads = ctx.actor_threads ++ ast ∷ [];
        started = ctx.started ++ tid ∷ [];
      },
      negsuc 0,
    )

-- _nfscd_startup_actor.
unfoldable pub nfscd_startup_locked : Actors → ℕ → Actors × ℤ
unfolding nfscd_create_actor
nfscd_startup_locked ctx tid = ((nfscd_create_actor ctx tid).0, pos 0)

-- Between lock and unlock of ast_lock.
unfoldable pub nfscd_startup_actor : Actors → ℕ → Actors × ℤ
unfolding nfscd_startup_locked
nfscd_startup_actor ctx tid = ((nfscd_startup_locked ctx tid).0, pos 0)

unfoldable pub is_negative : ℤ → Bool
is_negative (pos n) = false
is_negative (negsuc n) = true

-- The loop over i < tpool; `tids n` is what the call of pthread_create number n
-- gives, the call number 0 being that for the monitor.
unfoldable pub start_all : (ℕ → ℕ) → ℕ → Actors → Actors × ℤ
unfolding nfscd_startup_actor is_negative
start_all tids zero ctx = (ctx, pos 0)
start_all tids (suc n) ctx =
    let (ctx', r) = nfscd_startup_actor ctx (tids (suc (length ctx.started))) in
    let all = start_all tids n ctx' in if is_negative r then (ctx', negsuc 0) else all

-- `tpool` is an int. The monitor is the first thread that is created, and is not in the list. The
-- init_actor of NFS, nfs3_actor_init, does nothing.
unfoldable pub init_nfsclient_thread_pool : (ℕ → ℕ) → ℤ → Actors → Actors × ℤ
unfolding start_all
init_nfsclient_thread_pool tids tpool ctx = start_all tids (pos_part tpool) (record ctx {
  actor_threads = [];
  actor_exit_notify = 0;
  monitor_tid = tids 0;
  threadcount = 0;
})

-- One element of the loop of nfscd_notify_actor_exit.
unfoldable pub set_exitstat : ℕ → ℤ → ActorStatus → ActorStatus
set_exitstat tid status ast = if ast.tid == tid then record ast { exitstat = status } else ast

-- Between lock and unlock of ast_lock.
unfoldable pub nfscd_notify_actor_exit : Actors → ℕ → ℤ → Actors
unfolding set_exitstat
nfscd_notify_actor_exit ctx tid status = record ctx {
  actor_threads = map (set_exitstat tid status) ctx.actor_threads;
  actor_exit_notify = suc ctx.actor_exit_notify;
}

unfoldable pub is_positive : ℤ → Bool
is_positive (pos n) = not (n == 0)
is_positive (negsuc n) = false

-- `exitstat < DEFAULT_EXIT_STATUS`
unfoldable pub asks_restart : ℤ → Bool
asks_restart (pos n) = false
asks_restart (negsuc n) = not (n == 0)

-- The body of the monitor's loop over the list, on the element `ast` that heads it: `rest` is the
-- list behind it, and `tid` what pthread_create gives for a new thread.
unfoldable pub reap : Actors → ActorStatus → List ActorStatus → ℕ → Actors
unfolding is_positive asks_restart nfscd_startup_locked
reap ctx ast rest tid =
    let ctx1 = record ctx {
      actor_threads = rest;
      joined = ctx.joined ++ ast.tid ∷ [];
      printed = if is_positive ast.exitstat then ctx.printed ++ ast.exitstat ∷ [] else ctx.printed;
    } in
    if asks_restart ast.exitstat then (nfscd_startup_locked ctx1 tid).0 else ctx1

-- How a round of the monitor ends: it returns, or stands in pthread_join on a thread that does not
-- end, with ast_lock held.
pub data RoundEnd : Type 0 where
  returned : Actors → RoundEnd
  blocked : ℕ → Actors → RoundEnd

-- `exits` tells which threads end, so that pthread_join on them returns. flist_for_each_safe at the
-- head of a list: the successor is read before the body, so that an element added behind the last
-- one is not visited. `onward` is the rest of the loop.
unfoldable pub visit :
    (Actors → Result RoundEnd) → (ℕ → Bool) → (ℕ → ℕ) → Actors → List ActorStatus → Result RoundEnd
unfolding reap
visit onward exits tids ctx [] = ok (returned ctx)
visit onward exits tids ctx (ast ∷ []) =
    if exits ast.tid
    then ok (returned (reap ctx ast [] (tids (suc (length ctx.started)))))
    else ok (blocked ast.tid ctx)
visit onward exits tids ctx (ast ∷ next ∷ rest) =
    let further = onward (reap ctx ast (next ∷ rest) (tids (suc (length ctx.started)))) in
    if exits ast.tid then further else ok (blocked ast.tid ctx)

-- The fuel bounds the elements visited.
unfoldable pub reap_all : ℕ → (ℕ → Bool) → (ℕ → ℕ) → Actors → Result RoundEnd
unfolding visit
reap_all zero exits tids ctx = stuck
reap_all (suc n) exits tids ctx = visit (reap_all n exits tids) exits tids ctx ctx.actor_threads

-- One round of nfscd_actor_monitor behind sem_wait, between lock and unlock of ast_lock.
unfoldable pub monitor_round : (ℕ → Bool) → (ℕ → ℕ) → Actors → Result RoundEnd
unfolding reap_all
monitor_round exits tids ctx = reap_all (suc (2 * length ctx.actor_threads)) exits tids ctx

-- The loop of destroy_nfsclient_thread_pool over the list.
unfoldable pub cancel_all : List ActorStatus → Actors → Actors
cancel_all [] ctx = ctx
cancel_all (ast ∷ rest) ctx = cancel_all rest (record ctx {
  actor_threads = rest;
  joined = ctx.joined ++ ast.tid ∷ [];
  cancelled = ctx.cancelled ++ ast.tid ∷ [];
})

-- Between lock and unlock of ast_lock.
unfoldable pub destroy_nfsclient_thread_pool : Actors → Actors
unfolding cancel_all
destroy_nfsclient_thread_pool ctx = cancel_all ctx.actor_threads ctx
