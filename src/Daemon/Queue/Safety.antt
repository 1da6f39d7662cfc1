-- ===== src/Daemon/Queue/Safety.antt =====
-- What the enqueue and dequeue functions of src/nfscd_ops.c promise under every interleaving.
use unfsclient.Prelude.{
  ℕ, inr, List, ◌+◌, ◌≢◌, inl, ◌≤◌, ◌++◌, length, arith, All, ◌≡◌, All-map, sum, Bool-cases,
}
use unfsclient.Daemon.Queue.Invariant.{holds, Sees, unposted, awaits}
use unfsclient.Daemon.Queue.{
  deq_lock, idle, Pc, deq_wait, enq_lock, deq_first, enq_unlock, deq_unlock, System, Reach, broken,
  enq_add, enq_post, deq_del,
}
use unfsclient.Daemon.Queue.Moves.{Reach-IsSound}

abbrev pub NotBroken : Pc → Type 0
NotBroken p = p ≢ broken

Sees-NotBroken : (l : List ℕ) (p : Pc) → Sees l p → NotBroken p
Sees-NotBroken l broken h = absurd h
Sees-NotBroken l (deq_del b) h = λ e. cc
Sees-NotBroken l idle h = λ e. cc
Sees-NotBroken l (enq_lock b) h = λ e. cc
Sees-NotBroken l (enq_add b) h = λ e. cc
Sees-NotBroken l enq_post h = λ e. cc
Sees-NotBroken l enq_unlock h = λ e. cc
Sees-NotBroken l deq_wait h = λ e. cc
Sees-NotBroken l deq_lock h = λ e. cc
Sees-NotBroken l deq_first h = λ e. cc
Sees-NotBroken l (deq_unlock b) h = λ e. cc

-- However the threads interleave: no thread ever takes the head of an empty queue for a request,
-- at most one thread is between lock and unlock, and the queue is as long as the semaphore's value,
-- the threads that came through sem_wait without having removed their request yet, and the
-- requests not posted yet together.
pub dequeue_never_breaks :
    (n : ℕ) (s : System)
    → Reach n s
    → All NotBroken s.pcs
      × (sum holds s.pcs ≤ 1)
      × (length s.queue.rq ≡ s.queue.notify + sum awaits s.pcs + sum unposted s.pcs)
dequeue_never_breaks n s r =
    let sound = Reach-IsSound r in
    (
      All-map (Sees-NotBroken s.queue.rq) s.pcs sound.heads,
      elim (Bool-cases s.queue.locked) [
        | inl on ↦ let e : sum holds s.pcs ≡ 1 = rw on at sound.one_holder in omega (arith, e)
        | inr off ↦ let e : sum holds s.pcs ≡ 0 = rw off at sound.one_holder in omega (arith, e)
      ],
      sound.tokens,
    )

-- However the threads interleave, the requests leave in the order in which they entered: those
-- removed and then those still queued are those that were added.
pub dequeue-enqueue :
    (n : ℕ) (s : System) → Reach n s → s.queue.taken ++ s.queue.rq ≡ s.queue.entered
dequeue-enqueue n s r = (Reach-IsSound r).in_order
