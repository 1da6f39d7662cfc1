-- ===== src/Daemon/Actors/Monitor.antt =====
-- A round of nfscd_actor_monitor of src/nfscd_ops.c.
use unfsclient.Prelude.{
  ℕ, map, ◌+◌, sum, refl, length, ◌≡◌, if◌then◌else◌, ◌≤◌, [], suc, Bool-cases, inr, ◌∷◌, ℤ, ◌++◌,
  inl, List, sym, length-append, arith, Bool, true, false, append-nil, sum-append, ◌∙◌, ap,
  append_assoc, Result, ok, ◌*◌, ◌<◌, zero,
}
use unfsclient.Daemon.Actors.{
  is_positive, ActorStatus, asks_restart, Actors, reap, default_exit_status, nfscd_create_actor,
  nfscd_startup_locked, monitor_round, reap_all, visit, RoundEnd, returned,
}

-- The actors of a list that ask for a restart, the statuses of it that are printed, and a bound of
-- the elements that a round visits.
abbrev pub restarts : ActorStatus → ℕ
restarts ast = if asks_restart ast.exitstat then 1 else 0

unfoldable pub printing : List ActorStatus → List ℤ
printing [] = []
printing (ast ∷ l) =
    let others = printing l in if is_positive ast.exitstat then ast.exitstat ∷ others else others

unfoldable pub visits : ActorStatus → ℕ
visits ast = suc (restarts ast)

abbrev pub tids_of : List ActorStatus → List ℕ
tids_of = map (λ ast. ast.tid)

-- What a round on the list `l` does.
pub record Rounded (ctx ctx' : Actors) (l : List ActorStatus) : Type 0 where
  pub joined_all : (others : List ℕ) × (ctx'.joined ≡ ctx.joined ++ (tids_of l ++ others))
  pub printed_all : ctx'.printed ≡ ctx.printed ++ printing l
  pub started_all : length ctx'.started ≡ length ctx.started + sum restarts l
  pub counted : ctx'.threadcount ≡ ctx.threadcount + sum restarts l
  pub at_most_one : length ctx'.actor_threads ≤ 1

pub printing-append : (xs ys : List ActorStatus) → printing (xs ++ ys) ≡ printing xs ++ printing ys
unfolding printing
printing-append [] ys = refl
printing-append (ast ∷ xs) ys = elim (Bool-cases (is_positive ast.exitstat)) [
  | inl yes_positive ↦ rw (yes_positive, printing-append xs ys) refl
  | inr not_positive ↦ rw (not_positive, printing-append xs ys) refl
]

abbrev pub news : ActorStatus → ℕ → List ActorStatus
news ast tid =
    if asks_restart ast.exitstat
    then record { tid = tid; exitstat = default_exit_status } ∷ []
    else []

-- What the body of the loop does.
pub record Reaped (ctx ctx' : Actors) (ast : ActorStatus) (rest new : List ActorStatus)
    : Type 0 where
  pub left : ctx'.actor_threads ≡ rest ++ new
  pub joined_one : ctx'.joined ≡ ctx.joined ++ ast.tid ∷ []
  pub printed_one : ctx'.printed ≡ ctx.printed ++ printing (ast ∷ [])
  pub started_one : length ctx'.started ≡ length ctx.started + restarts ast
  pub counted_one : ctx'.threadcount ≡ ctx.threadcount + restarts ast
  pub no_restarts : sum restarts new ≡ 0
  pub new_visits : sum visits new ≡ restarts ast
  pub new_prints : printing new ≡ []
  pub one_new : length new ≡ restarts ast

print_one :
    (c : Bool) (e : ℤ) (l : List ℤ)
    → (if c then l ++ e ∷ [] else l) ≡ l ++ (if c then e ∷ [] else [])
print_one true e l = refl
print_one false e l = sym (append-nil l)

pub reap-Reaped :
    (ctx : Actors) (ast : ActorStatus) (rest : List ActorStatus) (tid : ℕ)
    → Reaped ctx (reap ctx ast rest tid) ast rest (news ast tid)
unfolding reap nfscd_startup_locked nfscd_create_actor news printing visits asks_restart is_positive
reap-Reaped ctx ast rest tid = elim (Bool-cases (asks_restart ast.exitstat)) [
  | inl restarted ↦ rw restarted (record {
    left = refl;
    joined_one = refl;
    printed_one = print_one (is_positive ast.exitstat) ast.exitstat ctx.printed;
    started_one = rw restarted (length-append ctx.started (tid ∷ []));
    counted_one = rw restarted (omega arith);
    no_restarts = refl;
    new_visits = rw restarted (refl);
    new_prints = refl;
    one_new = rw restarted (refl);
  })
  | inr ended ↦ rw ended (record {
    left = sym (append-nil rest);
    joined_one = refl;
    printed_one = print_one (is_positive ast.exitstat) ast.exitstat ctx.printed;
    started_one = rw ended (omega arith);
    counted_one = rw ended (omega arith);
    no_restarts = refl;
    new_visits = rw ended (refl);
    new_prints = refl;
    one_new = rw ended (refl);
  })
]

-- The last element: what it adds is not visited.
last-Rounded :
    (ctx ctx' : Actors) (ast : ActorStatus) (new : List ActorStatus)
    → Reaped ctx ctx' ast [] new
    → length new ≤ 1
    → Rounded ctx ctx' (ast ∷ [])
last-Rounded ctx ctx' ast new r few = record {
  joined_all = ([], r.joined_one);
  printed_all = r.printed_one;
  started_all = omega (arith, r.started_one);
  counted = omega (arith, r.counted_one);
  at_most_one = rw r.left few;
}

pub tids_of-append : (xs ys : List ActorStatus) → tids_of (xs ++ ys) ≡ tids_of xs ++ tids_of ys
tids_of-append [] ys = refl
tids_of-append (ast ∷ xs) ys = ap (◌∷◌ ast.tid) (tids_of-append xs ys)

join_through :
    (js js1 : List ℕ) (ast : ActorStatus) (rest new : List ActorStatus) (others : List ℕ)
    → js1 ≡ js ++ ast.tid ∷ []
    → js1 ++ (tids_of (rest ++ new) ++ others)
      ≡ js ++ (tids_of (ast ∷ rest) ++ (tids_of new ++ others))
join_through js js1 ast rest new others e =
    rw
      (
        e,
        tids_of-append rest new,
        append_assoc js (ast.tid ∷ []) ((tids_of rest ++ tids_of new) ++ others),
        append_assoc (tids_of rest) (tids_of new) others,
      )
      refl

print_through :
    (ps ps1 : List ℤ) (ast : ActorStatus) (rest new : List ActorStatus)
    → ps1 ≡ ps ++ printing (ast ∷ [])
    → printing new ≡ []
    → ps1 ++ printing (rest ++ new) ≡ ps ++ printing (ast ∷ rest)
print_through ps ps1 ast rest new e none_new =
    rw
      (
        e,
        printing-append rest new,
        none_new,
        append-nil (printing rest),
        append_assoc ps (printing (ast ∷ [])) (printing rest),
        printing-append (ast ∷ []) rest,
      )
      refl

-- An element with others behind it: what it adds is visited after them.
next-Rounded :
    (ctx ctx1 ctx' : Actors) (ast : ActorStatus) (rest new : List ActorStatus)
    → Reaped ctx ctx1 ast rest new
    → Rounded ctx1 ctx' (rest ++ new)
    → Rounded ctx ctx' (ast ∷ rest)
next-Rounded ctx ctx1 ctx' ast rest new r s = record {
  joined_all =
      let (others, e) = s.joined_all in
      (
        tids_of new ++ others,
        e ∙ join_through ctx.joined ctx1.joined ast rest new others r.joined_one,
      );
  printed_all =
      s.printed_all
      ∙ print_through ctx.printed ctx1.printed ast rest new r.printed_one r.new_prints;
  started_all =
      omega (arith, r.started_one, s.started_all, sum-append restarts rest new, r.no_restarts);
  counted = omega (arith, r.counted_one, s.counted, sum-append restarts rest new, r.no_restarts);
  at_most_one = s.at_most_one;
}

visits_restarts : (l : List ActorStatus) → sum visits l ≤ 2 * length l
unfolding visits
visits_restarts [] = omega arith
visits_restarts (ast ∷ l) = elim (Bool-cases (asks_restart ast.exitstat)) [
  | inl restarted ↦ rw restarted (omega (arith, visits_restarts l))
  | inr ended ↦ rw ended (omega (arith, visits_restarts l))
]

restarts_le : (ast : ActorStatus) → restarts ast ≤ 1
restarts_le ast = elim (Bool-cases (asks_restart ast.exitstat)) [
  | inl restarted ↦ rw restarted (omega arith)
  | inr ended ↦ rw ended (omega arith)
]

Ends : Result RoundEnd → Actors → List ActorStatus → Type 0
Ends r ctx l = (ctx' : Actors) × (r ≡ ok (returned ctx')) × Rounded ctx ctx' l

reap_all-Rounded :
    (exits : ℕ → Bool)
    → ((t : ℕ) → exits t ≡ true)
    → (n : ℕ) (tids : ℕ → ℕ) (ctx : Actors) (l : List ActorStatus) → ctx.actor_threads ≡ l
    → sum visits l < n
    → Ends (reap_all n exits tids ctx) ctx l
unfolding reap_all visit Ends visits printing
reap_all-Rounded exits all zero tids ctx l e h = absurd (omega arith)
reap_all-Rounded exits all (suc n) tids ctx [] e h = (
  ctx,
  ap (visit (reap_all n exits tids) exits tids ctx) e,
  record {
    joined_all = ([], sym (append-nil ctx.joined));
    printed_all = sym (append-nil ctx.printed);
    started_all = omega arith;
    counted = omega arith;
    at_most_one = rw e (omega arith);
  },
)
reap_all-Rounded exits all (suc n) tids ctx (ast ∷ []) e h =
    let tid = tids (suc (length ctx.started)) in
    let r = reap-Reaped ctx ast [] tid in
    (
      reap ctx ast [] tid,
      ap (visit (reap_all n exits tids) exits tids ctx) e ∙ rw (all ast.tid) refl,
      last-Rounded ctx (reap ctx ast [] tid) ast (news ast tid) r
          (omega (arith, r.one_new, restarts_le ast)),
    )
reap_all-Rounded exits all (suc n) tids ctx (ast ∷ next ∷ rest) e h =
    let tid = tids (suc (length ctx.started)) in
    let r = reap-Reaped ctx ast (next ∷ rest) tid in
    let ctx1 = reap ctx ast (next ∷ rest) tid in
    let (ctx', done, s) =
      reap_all-Rounded exits all n tids ctx1 ((next ∷ rest) ++ news ast tid) r.left
        (omega (arith, h, sum-append visits (next ∷ rest) (news ast tid), r.new_visits)) in
    (
      ctx',
      ap (visit (reap_all n exits tids) exits tids ctx) e ∙ rw (all ast.tid) done,
      next-Rounded ctx ctx1 ctx' ast (next ∷ rest) (news ast tid) r s,
    )

-- A round of the monitor, when every thread ends and so every pthread_join returns, ends: it waits
-- for every listed actor, in order, prints the status of each that is above 0, starts a new actor
-- for each with a status below -1, and leaves at most one actor in the list.
pub monitor_round-Rounded :
    (exits : ℕ → Bool) (tids : ℕ → ℕ) (ctx : Actors)
    → ((t : ℕ) → exits t ≡ true)
    → (ctx' : Actors) × (monitor_round exits tids ctx ≡ ok (returned ctx'))
      × Rounded ctx ctx' ctx.actor_threads
unfolding monitor_round Ends
monitor_round-Rounded exits tids ctx all =
    reap_all-Rounded exits all (suc (2 * length ctx.actor_threads)) tids ctx ctx.actor_threads refl
      (omega (arith, visits_restarts ctx.actor_threads))
