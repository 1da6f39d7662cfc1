-- ===== src/Daemon/Tests.antt =====
-- The theorems on the daemon at concrete inputs.
use unfsclient.Prelude.{
  ℕ, sum, false, [], true, length, ◌≡◌, ◌≤◌, ◌++◌, List, Bool, ◌∷◌, All, refl, ◌+◌, some,
}
use unfsclient.Daemon.Queue.Safety.{NotBroken, dequeue-enqueue, dequeue_never_breaks}
use unfsclient.Daemon.Queue.{
  enqueues, init_queue, move, dequeue, deq_wait, enq_unlock, Pc, reach_step, enq_lock, System, Step,
  moved, dequeues, enq_add, enqueue, deq_lock, begin, Reach, reach_start, enq_post, idle,
}
use unfsclient.Daemon.Queue.Invariant.{unposted, holds, awaits}
use unfsclient.Daemon.Queue.Rest.{Moves, remaining, calls_come_to_rest}
use unfsclient.Daemon.Queue.Progress.{IsResting, IsBlocked, blocked_only_by_empty_queue}

-- Two threads: the first adds the request 7, the second takes it.
abbrev at : Bool → List ℕ → ℕ → Pc → Pc → System
at locked rq notify p p' = record {
  queue = record { locked = locked; rq = rq; notify = notify; entered = rq; taken = [] };
  pcs = p ∷ p' ∷ [];
}

first_moves :
    {s t : System} (p p' p2 : Pc)
    → s.pcs ≡ p ∷ p2 ∷ []
    → t.pcs ≡ p' ∷ p2 ∷ []
    → move s.queue p ≡ some (t.queue, p')
    → Step s t
first_moves p p' p2 = moved [] (p2 ∷ []) p p'

second_moves :
    {s t : System} (p p' p1 : Pc)
    → s.pcs ≡ p1 ∷ p ∷ []
    → t.pcs ≡ p1 ∷ p' ∷ []
    → move s.queue p ≡ some (t.queue, p')
    → Step s t
second_moves p p' p1 = moved (p1 ∷ []) [] p p'

abbrev s0 : System
s0 = at false [] 0 idle idle

reach0 : Reach 2 s0
unfolding init_queue
reach0 = reach_start

abbrev s1 : System
s1 = at false [] 0 (enq_lock 7) idle

reach1 : Reach 2 s1
reach1 = reach_step reach0 (begin [] (idle ∷ []) (enq_lock 7) (enqueues 7) refl refl refl)

abbrev s2 : System
s2 = at true [] 0 (enq_add 7) idle

reach2 : Reach 2 s2
unfolding move enqueue
reach2 = reach_step reach1 (first_moves (enq_lock 7) (enq_add 7) idle refl refl refl)

abbrev s3 : System
s3 = at true (7 ∷ []) 0 enq_post idle

reach3 : Reach 2 s3
unfolding move enqueue
reach3 = reach_step reach2 (first_moves (enq_add 7) enq_post idle refl refl refl)

abbrev s4 : System
s4 = at true (7 ∷ []) 1 enq_unlock idle

reach4 : Reach 2 s4
unfolding move enqueue
reach4 = reach_step reach3 (first_moves enq_post enq_unlock idle refl refl refl)

-- The second thread comes through sem_wait while the first still holds the lock.
abbrev s5 : System
s5 = at true (7 ∷ []) 1 enq_unlock deq_wait

reach5 : Reach 2 s5
reach5 = reach_step reach4 (begin (enq_unlock ∷ []) [] deq_wait dequeues refl refl refl)

abbrev s6 : System
s6 = at true (7 ∷ []) 0 enq_unlock deq_lock

reach6 : Reach 2 s6
unfolding move dequeue
reach6 = reach_step reach5 (second_moves deq_wait deq_lock enq_unlock refl refl refl)

dequeue_never_breaks_example :
    All NotBroken s6.pcs
    × (sum holds s6.pcs ≤ 1)
    × (length s6.queue.rq ≡ s6.queue.notify + sum awaits s6.pcs + sum unposted s6.pcs)
dequeue_never_breaks_example = dequeue_never_breaks 2 s6 reach6

dequeue-enqueue_example : s6.queue.taken ++ s6.queue.rq ≡ s6.queue.entered
dequeue-enqueue_example = dequeue-enqueue 2 s6 reach6

-- The second thread waits on an empty queue.
abbrev waiting : System
waiting = at false [] 0 idle deq_wait

Reach-waiting : Reach 2 waiting
Reach-waiting = reach_step reach0 (begin (idle ∷ []) [] deq_wait dequeues refl refl refl)

all_wait : All (IsBlocked waiting.queue) waiting.pcs
unfolding move dequeue
all_wait = (refl, (refl, tt))

blocked_only_by_empty_queue_example : All (IsResting waiting.queue) waiting.pcs
blocked_only_by_empty_queue_example = blocked_only_by_empty_queue 2 waiting Reach-waiting all_wait

-- The first thread holds the lock, and the second waits for it.
calls_come_to_rest_example :
    (k : ℕ) × (t : System) × Moves k s6 t
    × (k ≤ sum remaining s6.pcs)
    × All (IsResting t.queue) t.pcs
calls_come_to_rest_example = calls_come_to_rest 2 s6 reach6
