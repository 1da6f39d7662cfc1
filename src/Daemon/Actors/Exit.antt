-- ===== src/Daemon/Actors/Exit.antt =====
-- The exit of an actor: nfscd_notify_actor_exit of src/nfscd_ops.c, and the monitor's answer.
use unfsclient.Prelude.{
  ℕ, zero, suc, ne→==, ==_refl, ◌≢◌, arith, map, [], All, List, ℤ, refl, ◌≡◌, ◌∷◌, ◌∙◌, ok, Result,
  if◌then◌else◌, ap, ◌+◌, ◌*◌, ◌<◌, length, ◌++◌, Bool, true, false,
}
use unfsclient.Daemon.Actors.{
  is_positive, set_exitstat, asks_restart, ActorStatus, default_exit_status, Actors, RoundEnd,
  returned, blocked, reap, visit, reap_all, nfscd_notify_actor_exit, monitor_round,
}
use unfsclient.Daemon.Actors.Pool.{IsRunning}
use unfsclient.Daemon.Actors.Monitor.{reap-Reaped, news, printing}

-- An actor that runs, goes on running, and is not the thread `tid`.
abbrev pub RunsBeside : (ℕ → Bool) → ℕ → ActorStatus → Type 0
RunsBeside exits tid ast = IsRunning ast × (ast.tid ≢ tid) × (exits ast.tid ≡ false)

abbrev pub running : ℕ → ActorStatus
running tid = record { tid = tid; exitstat = default_exit_status }

abbrev pub exited : ℕ → ℤ → ActorStatus
exited tid status = record { tid = tid; exitstat = status }

set_beside :
    (tid : ℕ) (status : ℤ) (ast : ActorStatus) → ast.tid ≢ tid → set_exitstat tid status ast ≡ ast
unfolding set_exitstat
set_beside tid status ast other = rw (ne→== ast.tid tid other) refl

map-set_beside :
    (exits : ℕ → Bool) (tid : ℕ) (status : ℤ) (l : List ActorStatus)
    → All (RunsBeside exits tid) l
    → map (set_exitstat tid status) l ≡ l
map-set_beside exits tid status [] h = refl
map-set_beside exits tid status (ast ∷ l) h =
    rw (set_beside tid status ast h.0.1, map-set_beside exits tid status l h.1) refl

set_exitstat-append :
    (tid : ℕ) (status : ℤ) (xs ys : List ActorStatus)
    → map (set_exitstat tid status) (xs ++ ys)
      ≡ map (set_exitstat tid status) xs ++ map (set_exitstat tid status) ys
set_exitstat-append tid status [] ys = refl
set_exitstat-append tid status (ast ∷ xs) ys =
    ap (◌∷◌ (set_exitstat tid status ast)) (set_exitstat-append tid status xs ys)

set_running : (tid : ℕ) (status : ℤ) → set_exitstat tid status (running tid) ≡ exited tid status
unfolding set_exitstat
set_running tid status = rw (==_refl tid) refl

map-set_exitstat :
    (exits : ℕ → Bool) (tid : ℕ) (status : ℤ) (xs ys : List ActorStatus)
    → All (RunsBeside exits tid) xs
    → All (RunsBeside exits tid) ys
    → map (set_exitstat tid status) (xs ++ running tid ∷ ys) ≡ xs ++ exited tid status ∷ ys
map-set_exitstat exits tid status xs ys hx hy =
    rw
      (
        set_exitstat-append tid status xs (running tid ∷ ys),
        map-set_beside exits tid status xs hx,
        set_running tid status,
        map-set_beside exits tid status ys hy,
      )
      refl

-- The monitor waited for the actor and did what include/nfsclientd.h says for its status; `ys` is
-- what the list had behind it.
pub record Answered (ctx ctx' : Actors) (tid : ℕ) (status : ℤ) (ys : List ActorStatus)
    : Type 0 where
  pub waited : ctx'.joined ≡ ctx.joined ++ tid ∷ []
  pub reported : ctx'.printed ≡ ctx.printed ++ (if is_positive status then status ∷ [] else [])
  pub restarted : length ctx'.started ≡ length ctx.started + (if asks_restart status then 1 else 0)
  pub listed :
      (new : ℕ) × (ctx'.actor_threads
        ≡ ys ++ (if asks_restart status then running new ∷ [] else []))

-- The monitor did nothing for the actor.
pub record Unanswered (ctx ctx' : Actors) (l : List ActorStatus) : Type 0 where
  pub none_waited : ctx'.joined ≡ ctx.joined
  pub none_reported : ctx'.printed ≡ ctx.printed
  pub none_restarted : ctx'.started ≡ ctx.started
  pub still_listed : ctx'.actor_threads ≡ l

-- How a round ends after the exit of `tid`, with the actors `xs` listed before it and `ys` behind.
abbrev pub AfterExit :
    Actors → ℕ → ℤ → List ActorStatus → List ActorStatus → Result RoundEnd → Type 0
AfterExit ctx tid status [] [] r =
    (ctx' : Actors) × (r ≡ ok (returned ctx')) × Answered ctx ctx' tid status []
AfterExit ctx tid status [] (y ∷ ys) r =
    (ctx' : Actors) × (r ≡ ok (blocked y.tid ctx')) × Answered ctx ctx' tid status (y ∷ ys)
AfterExit ctx tid status (x ∷ xs) ys r =
    (ctx' : Actors) × (r ≡ ok (blocked x.tid ctx'))
    × Unanswered ctx ctx' ((x ∷ xs) ++ exited tid status ∷ ys)

-- An actor that goes on running blocks the monitor when it heads the list.
running_blocks :
    (exits : ℕ → Bool) (tids : ℕ → ℕ) (n : ℕ) (ctx : Actors) (y : ActorStatus)
    → (l : List ActorStatus) → 0 < n
    → ctx.actor_threads ≡ y ∷ l
    → exits y.tid ≡ false
    → reap_all n exits tids ctx ≡ ok (blocked y.tid ctx)
unfolding reap_all visit
running_blocks exits tids zero ctx y l some_fuel e runs = absurd (omega arith)
running_blocks exits tids (suc n) ctx y [] some_fuel e runs =
    ap (visit (reap_all n exits tids) exits tids ctx) e ∙ rw runs refl
running_blocks exits tids (suc n) ctx y (z ∷ l) some_fuel e runs =
    ap (visit (reap_all n exits tids) exits tids ctx) e ∙ rw runs refl

reap-Answered :
    (ctx : Actors) (tid : ℕ) (status : ℤ) (ys : List ActorStatus) (new : ℕ)
    → Answered ctx (reap ctx (exited tid status) ys new) tid status ys
unfolding printing
reap-Answered ctx tid status ys new =
    let r = reap-Reaped ctx (exited tid status) ys new in
    record {
      waited = r.joined_one;
      reported = r.printed_one;
      restarted = r.started_one;
      listed = (new, r.left);
    }

after_exit :
    (exits : ℕ → Bool) (tids : ℕ → ℕ) (n : ℕ) (ctx : Actors) (tid : ℕ) (status : ℤ)
    → (xs ys : List ActorStatus) → ctx.actor_threads ≡ xs ++ exited tid status ∷ ys
    → length ctx.actor_threads < n
    → exits tid ≡ true
    → All (RunsBeside exits tid) xs
    → All (RunsBeside exits tid) ys
    → AfterExit ctx tid status xs ys (reap_all n exits tids ctx)
unfolding reap_all visit
after_exit exits tids zero ctx tid status xs ys e enough ends hx hy = absurd (omega arith)
after_exit exits tids (suc n) ctx tid status [] [] e enough ends hx hy =
    let new = tids (suc (length ctx.started)) in
    (
      reap ctx (exited tid status) [] new,
      ap (visit (reap_all n exits tids) exits tids ctx) e ∙ rw ends refl,
      reap-Answered ctx tid status [] new,
    )
after_exit exits tids (suc n) ctx tid status [] (y ∷ ys) e enough ends hx hy =
    let new = tids (suc (length ctx.started)) in
    let ctx1 = reap ctx (exited tid status) (y ∷ ys) new in
    let r = reap-Reaped ctx (exited tid status) (y ∷ ys) new in
    (
      ctx1,
      ap (visit (reap_all n exits tids) exits tids ctx) e
          ∙ rw ends (
              running_blocks exits tids n ctx1 y (ys ++ news (exited tid status) new)
                (omega (arith, ap length e)) r.left hy.0.2),
      reap-Answered ctx tid status (y ∷ ys) new,
    )
after_exit exits tids (suc n) ctx tid status (x ∷ xs) ys e enough ends hx hy = (
  ctx,
  running_blocks exits tids (suc n) ctx x (xs ++ exited tid status ∷ ys) (omega arith) e hx.0.2,
  record { none_waited = refl; none_reported = refl; none_restarted = refl; still_listed = e },
)

-- The notification changes only the list and the semaphore.
from_notified :
    (ctx : Actors) (tid : ℕ) (status : ℤ) (xs ys : List ActorStatus) (r : Result RoundEnd)
    → AfterExit (nfscd_notify_actor_exit ctx tid status) tid status xs ys r
    → AfterExit ctx tid status xs ys r
unfolding nfscd_notify_actor_exit
from_notified ctx tid status [] [] r (ctx', e, a) = (
  ctx',
  e,
  record { waited = a.waited; reported = a.reported; restarted = a.restarted; listed = a.listed },
)
from_notified ctx tid status [] (y ∷ ys) r (ctx', e, a) = (
  ctx',
  e,
  record { waited = a.waited; reported = a.reported; restarted = a.restarted; listed = a.listed },
)
from_notified ctx tid status (x ∷ xs) ys r (ctx', e, u) = (
  ctx',
  e,
  record {
    none_waited = u.none_waited;
    none_reported = u.none_reported;
    none_restarted = u.none_restarted;
    still_listed = u.still_listed;
  },
)

-- An actor ends and notifies its exit, while the other listed actors, if any, go on running. When no
-- actor is listed before it, the monitor's next round waits for it, prints a status above 0, and
-- starts one new actor for a status below -1 and none otherwise; then it ends when no other actor is
-- listed, and otherwise it blocks, with ast_lock held, on the actor listed behind. When an actor is
-- listed before it, the round blocks on the first of these, and the exit is not answered.
pub nfscd_notify_actor_exit-monitor_round :
    (exits : ℕ → Bool) (tids : ℕ → ℕ) (ctx : Actors) (tid : ℕ) (status : ℤ)
    → (xs ys : List ActorStatus)
    → ctx.actor_threads ≡ xs ++ record { tid = tid; exitstat = default_exit_status } ∷ ys
    → exits tid ≡ true
    → All (RunsBeside exits tid) xs
    → All (RunsBeside exits tid) ys
    → AfterExit ctx tid status xs ys
        (monitor_round exits tids (nfscd_notify_actor_exit ctx tid status))
unfolding nfscd_notify_actor_exit monitor_round
nfscd_notify_actor_exit-monitor_round exits tids ctx tid status xs ys e ends hx hy =
    let notified = nfscd_notify_actor_exit ctx tid status in
    let fuel = suc (2 * length notified.actor_threads) in
    from_notified ctx tid status xs ys (reap_all fuel exits tids notified) (
      after_exit exits tids fuel notified tid status xs ys
        (ap (map (set_exitstat tid status)) e ∙ map-set_exitstat exits tid status xs ys hx hy)
        (omega arith) ends hx hy)
