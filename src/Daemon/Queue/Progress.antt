-- ===== src/Daemon/Queue/Progress.antt =====
-- That the enqueue and dequeue functions of src/nfscd_ops.c come to an end.
use unfsclient.Prelude.{
  ℕ, Bool, ◌≢◌, true, none, ◌==◌, some, List, ◌≡◌, refl, [], sum, arith, inl, All, inr,
  if◌then◌else◌, false, ◌⊎◌, ◌∷◌, Bool-cases, All-map, length,
}
use unfsclient.Daemon.Queue.{
  idle, dequeue, broken, Queue, deq_wait, enq_add, Pc, enq_post, deq_lock, enq_unlock, enqueue,
  deq_del, enq_lock, move, deq_unlock, deq_first, Reach, System,
}
use unfsclient.Daemon.Queue.Safety.{NotBroken, dequeue_never_breaks}
use unfsclient.Daemon.Queue.Invariant.{holds, unposted, awaits}
use unfsclient.Daemon.Queue.Moves.{Reach-IsSound}

-- The thread cannot go on.
abbrev pub IsBlocked : Queue → Pc → Type 0
IsBlocked q p = move q p ≡ none

unfoldable pub IsResting : Queue → Pc → Type 0
IsResting q p = (p ≡ idle) ⊎ ((p ≡ deq_wait) × (q.rq ≡ []))

unheld : (c : Bool) (r : Queue × Pc) → (if c then none else some r) ≡ none → c ≡ true
unheld true r e = refl
unheld false r e = cc

-- A thread inside its critical section can always go on.
holder_moves : (q : Queue) (p : Pc) → holds p ≡ 1 → move q p ≢ none
unfolding move enqueue dequeue
holder_moves q (enq_add a) h = λ e. cc
holder_moves q enq_post h = λ e. cc
holder_moves q enq_unlock h = λ e. cc
holder_moves q deq_first h = λ e. cc
holder_moves q (deq_del a) h = λ e. cc
holder_moves q (deq_unlock a) h = λ e. cc
holder_moves q idle h = absurd (omega (arith, h))
holder_moves q broken h = absurd (omega (arith, h))
holder_moves q (enq_lock a) h = absurd (omega (arith, h))
holder_moves q deq_wait h = absurd (omega (arith, h))
holder_moves q deq_lock h = absurd (omega (arith, h))

holds_cases : (p : Pc) → (holds p ≡ 0) ⊎ (holds p ≡ 1)
holds_cases (enq_add a) = inr refl
holds_cases enq_post = inr refl
holds_cases enq_unlock = inr refl
holds_cases deq_first = inr refl
holds_cases (deq_del a) = inr refl
holds_cases (deq_unlock a) = inr refl
holds_cases idle = inl refl
holds_cases broken = inl refl
holds_cases (enq_lock a) = inl refl
holds_cases deq_wait = inl refl
holds_cases deq_lock = inl refl

all_blocked : (q : Queue) (pcs : List Pc) → All (IsBlocked q) pcs → sum holds pcs ≡ 0
all_blocked q [] h = refl
all_blocked q (p ∷ pcs) h = elim (holds_cases p) [
  | inl none_held ↦ omega (arith, none_held, all_blocked q pcs h.1)
  | inr held ↦ absurd (holder_moves q p held h.0)
]

-- With the lock free, only a thread without a token waits.
blocked_rests :
    (q : Queue) (p : Pc)
    → q.locked ≡ false
    → NotBroken p
    → IsBlocked q p
    → (p ≡ idle) ⊎ ((p ≡ deq_wait) × (q.notify ≡ 0))
unfolding move enqueue dequeue
blocked_rests q idle free nb e = inl refl
blocked_rests q broken free nb e = absurd (nb refl)
blocked_rests q (enq_lock a) free nb e = absurd (let on = unheld q.locked _ e in cc)
blocked_rests q (enq_add a) free nb e = absurd (cc)
blocked_rests q enq_post free nb e = absurd (cc)
blocked_rests q enq_unlock free nb e = absurd (cc)
blocked_rests q deq_wait free nb e =
    inr (refl, let on = unheld (q.notify == 0) _ e in ground (arith, on))
blocked_rests q deq_lock free nb e = absurd (let on = unheld q.locked _ e in cc)
blocked_rests q deq_first free nb e = absurd (cc)
blocked_rests q (deq_del a) free nb e = absurd (cc)
blocked_rests q (deq_unlock a) free nb e = absurd (cc)

Waits : ℕ → Pc → Type 0
Waits k p = (p ≡ idle) ⊎ ((p ≡ deq_wait) × (k ≡ 0))

rests :
    (q : Queue) (pcs : List Pc)
    → q.locked ≡ false
    → All NotBroken pcs
    → All (IsBlocked q) pcs
    → All (Waits q.notify) pcs
unfolding Waits
rests q [] free nb h = tt
rests q (p ∷ pcs) free nb h = (blocked_rests q p free nb.0 h.0, rests q pcs free nb.1 h.1)

Waits-none_awaits :
    (k : ℕ) (pcs : List Pc) → All (Waits k) pcs → (sum awaits pcs ≡ 0) × (sum unposted pcs ≡ 0)
unfolding Waits
Waits-none_awaits k [] h = (refl, refl)
Waits-none_awaits k (p ∷ pcs) (inl e, h) =
    let (a, u) = Waits-none_awaits k pcs h in rw e (omega (arith, a), omega (arith, u))
Waits-none_awaits k (p ∷ pcs) (inr (e, z), h) =
    let (a, u) = Waits-none_awaits k pcs h in rw e (omega (arith, a), omega (arith, u))

Waits-IsResting :
    (q : Queue) (p : Pc) → (q.notify ≡ 0 → q.rq ≡ []) → Waits q.notify p → IsResting q p
unfolding Waits IsResting
Waits-IsResting q p empty (inl e) = inl e
Waits-IsResting q p empty (inr (e, z)) = inr (e, empty z)

empty_list : (l : List ℕ) → length l ≡ 0 → l ≡ []
empty_list [] e = refl
empty_list (a ∷ l) e = absurd (omega (arith, e))

-- The locks cannot lock up and no wake-up is lost: in a state that the threads can reach and in
-- which none of them can go on, every thread is idle or is waiting in sem_wait for a request while
-- the queue is empty.
pub blocked_only_by_empty_queue :
    (n : ℕ) (s : System) → Reach n s → All (IsBlocked s.queue) s.pcs → All (IsResting s.queue) s.pcs
blocked_only_by_empty_queue n s r h =
    let (nb, one, tokens) = dequeue_never_breaks n s r in
    let sound = Reach-IsSound r in
    let free : s.queue.locked ≡ false = elim (Bool-cases s.queue.locked) [
      | inl on ↦
          let e : sum holds s.pcs ≡ 1 = rw on at sound.one_holder in
          absurd (omega (arith, e, all_blocked s.queue s.pcs h))
      | inr off ↦ off
    ] in
    let waits = rests s.queue s.pcs free nb h in
    let (a, u) = Waits-none_awaits s.queue.notify s.pcs waits in
    All-map
      (λ p. Waits-IsResting s.queue p (λ z. empty_list s.queue.rq (omega (arith, tokens, a, u, z))))
      s.pcs waits
