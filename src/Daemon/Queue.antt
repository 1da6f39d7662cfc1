-- ===== src/Daemon/Queue.antt =====
-- A request queue of src/nfscd_ops.c: the metadata queue (md_rq, md_lock, md_notify) or the data
-- queue (rw_rq, rw_lock, rw_notify), which the same code serves on fields of its own.
pub mod Invariant
pub mod Moves
pub mod Safety
pub mod Progress
pub mod Rest
use unfsclient.Prelude.{
  ℕ, none, some, ◌∷◌, ◌≡◌, suc, ◌==◌, ◌++◌, Option, [], false, Bool, true, if◌then◌else◌, List,
  replicate, ◌-◌,
}

-- `locked` says whether a thread holds the mutex, `notify` is the semaphore's value. Requests are
-- their addresses. `entered` is the history of the requests added, `taken` of those removed.
pub record Queue : Type 0 where
  pub locked : Bool
  pub rq : List ℕ
  pub notify : ℕ
  pub entered : List ℕ
  pub taken : List ℕ

-- INIT_FLIST_HEAD and sem_init.
unfoldable pub init_queue : Queue
init_queue = record { locked = false; rq = []; notify = 0; entered = []; taken = [] }

-- Where a thread stands in an enqueue or a dequeue function: the statement that it is about to
-- run. `broken` is a thread that took the head of an empty list for a request.
pub data Pc : Type 0 where
  idle broken : Pc
  enq_lock enq_add : ℕ → Pc
  enq_post enq_unlock : Pc
  deq_wait deq_lock deq_first : Pc
  deq_del deq_unlock : ℕ → Pc

unfoldable pub flist_first : List ℕ → Option ℕ
flist_first [] = none
flist_first (a ∷ l) = some a

-- The element is unlinked wherever it stands.
unfoldable pub flist_del : ℕ → List ℕ → List ℕ
flist_del a [] = []
flist_del a (b ∷ l) = if a == b then l else b ∷ flist_del a l

-- flist_entry on what flist_first returned.
unfoldable pub entry : Option ℕ → Pc
entry none = broken
entry (some a) = deq_del a

-- nfscd_enqueue_metadata_request and nfscd_enqueue_data_request, statement by statement; `none`
-- when the thread must wait.
unfoldable pub enqueue : Queue → Pc → Option (Queue × Pc)
enqueue q (enq_lock a) = if q.locked then none else some (record q { locked = true }, enq_add a)
enqueue q (enq_add a) =
    some (record q { rq = q.rq ++ a ∷ []; entered = q.entered ++ a ∷ [] }, enq_post)
enqueue q enq_post = some (record q { notify = suc q.notify }, enq_unlock)
enqueue q enq_unlock = some (record q { locked = false }, idle)
enqueue q p = none

-- nfscd_dequeue_metadata_request and nfscd_dequeue_data_request.
unfoldable pub dequeue : Queue → Pc → Option (Queue × Pc)
unfolding flist_first flist_del entry
dequeue q deq_wait =
    if q.notify == 0 then none else some (record q { notify = q.notify - 1 }, deq_lock)
dequeue q deq_lock = if q.locked then none else some (record q { locked = true }, deq_first)
dequeue q deq_first = some (q, entry (flist_first q.rq))
dequeue q (deq_del a) =
    some (record q { rq = flist_del a q.rq; taken = q.taken ++ a ∷ [] }, deq_unlock a)
dequeue q (deq_unlock a) = some (record q { locked = false }, idle)
dequeue q p = none

unfoldable pub move : Queue → Pc → Option (Queue × Pc)
unfolding enqueue dequeue
move q idle = none
move q broken = none
move q (enq_lock a) = enqueue q (enq_lock a)
move q (enq_add a) = enqueue q (enq_add a)
move q enq_post = enqueue q enq_post
move q enq_unlock = enqueue q enq_unlock
move q deq_wait = dequeue q deq_wait
move q deq_lock = dequeue q deq_lock
move q deq_first = dequeue q deq_first
move q (deq_del a) = dequeue q (deq_del a)
move q (deq_unlock a) = dequeue q (deq_unlock a)

-- A call that an idle thread can make.
pub data Begins : Pc → Type 0 where
  enqueues : (a : ℕ) → Begins (enq_lock a)
  dequeues : Begins deq_wait

-- The queue and the threads that use it.
pub record System : Type 0 where
  pub queue : Queue
  pub pcs : List Pc

pub data Step (s t : System) : Type 0 where
  begin :
      (xs ys : List Pc) (p : Pc)
      → Begins p
      → s.pcs ≡ xs ++ idle ∷ ys
      → t.pcs ≡ xs ++ p ∷ ys
      → t.queue ≡ s.queue
      → Step s t
  moved :
      (xs ys : List Pc) (p p' : Pc)
      → s.pcs ≡ xs ++ p ∷ ys
      → t.pcs ≡ xs ++ p' ∷ ys
      → move s.queue p ≡ some (t.queue, p')
      → Step s t

-- `n` threads that are idle, and what they can get to.
pub data Reach (n : ℕ) : System → Type 0 where
  reach_start : Reach n (record { queue = init_queue; pcs = replicate n idle })
  reach_step : {s t : System} → Reach n s → Step s t → Reach n t
