-- ===== src/Daemon/Queue/Rest.antt =====
-- That the calls in progress on a queue of src/nfscd_ops.c come to rest.
use unfsclient.Prelude.{
  ℕ, zero, suc, ◌+◌, ◌≤◌, ◌<◌, ◌≡◌, ◌∙◌, refl, ap, sum, sum-append, arith, List, [], ◌∷◌, ◌++◌, All,
  Option, Option-cases, none, some, Whenever, Whenever-some, Whenever-if, inl, inr, ◌⊎◌, ◌==◌,
}
use unfsclient.Daemon.Queue.{
  Pc, Queue, System, moved, Reach, reach_step, move, enqueue, dequeue, entry, flist_first, idle,
  broken, enq_lock, enq_add, enq_post, enq_unlock, deq_wait, deq_lock, deq_first, deq_del,
  deq_unlock,
}
use unfsclient.Daemon.Queue.Progress.{IsBlocked, IsResting, blocked_only_by_empty_queue}

-- The statements that a thread has left in its call.
unfoldable pub remaining : Pc → ℕ
remaining idle = 0
remaining broken = 0
remaining (enq_lock a) = 4
remaining (enq_add a) = 3
remaining enq_post = 2
remaining enq_unlock = 1
remaining deq_wait = 5
remaining deq_lock = 4
remaining deq_first = 3
remaining (deq_del a) = 2
remaining (deq_unlock a) = 1

-- `k` steps in which no new call begins.
pub data Moves : ℕ → System → System → Type 0 where
  moves_none : {s : System} → Moves 0 s s
  moves_more :
      {k : ℕ} {s t u : System} (xs ys : List Pc) (p p' : Pc)
      → s.pcs ≡ xs ++ p ∷ ys
      → t.pcs ≡ xs ++ p' ∷ ys
      → move s.queue p ≡ some (t.queue, p')
      → Moves k t u
      → Moves (suc k) s u

remaining-entry : (o : Option ℕ) → remaining (entry o) < 3
unfolding remaining entry
remaining-entry none = omega arith
remaining-entry (some a) = omega arith

Shorter : Pc → Queue × Pc → Type 0
Shorter p (q', p') = remaining p' < remaining p

move_remaining : (q : Queue) (p : Pc) → Whenever (Shorter p) (move q p)
unfolding move enqueue dequeue Shorter remaining
move_remaining q idle = tt
move_remaining q broken = tt
move_remaining q (enq_lock a) = Whenever-if (Shorter (enq_lock a)) q.locked _ (λ e. omega arith)
move_remaining q (enq_add a) = omega arith
move_remaining q enq_post = omega arith
move_remaining q enq_unlock = omega arith
move_remaining q deq_wait = Whenever-if (Shorter deq_wait) (q.notify == 0) _ (λ e. omega arith)
move_remaining q deq_lock = Whenever-if (Shorter deq_lock) q.locked _ (λ e. omega arith)
move_remaining q deq_first = remaining-entry (flist_first q.rq)
move_remaining q (deq_del a) = omega arith
move_remaining q (deq_unlock a) = omega arith

Moves-end : {k : ℕ} {s t : System} → Moves k s t → k + sum remaining t.pcs ≤ sum remaining s.pcs
unfolding Shorter
Moves-end moves_none = omega arith
Moves-end {s = s} (moves_more {t = m} xs ys p p' es em e behind) =
    let shorter : remaining p' < remaining p =
      Whenever-some (Shorter p) (move_remaining s.queue p) e in
    let at_s : sum remaining s.pcs ≡ sum remaining xs + sum remaining (p ∷ ys) =
      ap (sum remaining) es ∙ sum-append remaining xs (p ∷ ys) in
    let at_m : sum remaining m.pcs ≡ sum remaining xs + sum remaining (p' ∷ ys) =
      ap (sum remaining) em ∙ sum-append remaining xs (p' ∷ ys) in
    omega (arith, shorter, at_s, at_m, Moves-end behind)

-- A thread that can go on, or none.
movable :
    (q : Queue) (pcs : List Pc)
    → All (IsBlocked q) pcs
      ⊎ ((xs : List Pc) × (ys : List Pc) × (p : Pc) × (q' : Queue) × (p' : Pc) × (pcs
            ≡ xs ++ p ∷ ys)
          × (move q p ≡ some (q', p')))
movable q [] = inl tt
movable q (p ∷ pcs) = elim (Option-cases (move q p)) [
  | inr ((q', p'), e) ↦ inr ([], pcs, p, q', p', refl, e)
  | inl blocked ↦ elim (movable q pcs) [
    | inl others ↦ inl (blocked, others)
    | inr (xs, ys, r, q', r', split, e) ↦ inr (p ∷ xs, ys, r, q', r', ap (◌∷◌ p) split, e)
  ]
]

-- As many steps as there are statements left are enough.
rest_within :
    (m n : ℕ) (s : System)
    → Reach n s
    → sum remaining s.pcs < m
    → (k : ℕ) × (t : System) × Moves k s t × All (IsResting t.queue) t.pcs
rest_within zero n s r h = absurd (omega (arith, h))
rest_within (suc m) n s r h = elim (movable s.queue s.pcs) [
  | inl blocked ↦ (0, s, moves_none, blocked_only_by_empty_queue n s r blocked)
  | inr (xs, ys, p, q', p', split, e) ↦
      let t : System = record { queue = q'; pcs = xs ++ p' ∷ ys } in
      let shorter = Moves-end (moves_more {t = t} xs ys p p' split refl e moves_none) in
      let (k, u, run, rests) =
        rest_within m n t (reach_step r (moved xs ys p p' split refl e))
          (omega (arith, h, shorter)) in
      (suc k, u, moves_more xs ys p p' split refl e run, rests)
]

-- From every state that the threads can reach there is a run in which no new call begins, of at most
-- as many steps as the threads have statements left, to a state in which every call has returned but
-- those of dequeue that wait in sem_wait while the queue is empty.
pub calls_come_to_rest :
    (n : ℕ) (s : System)
    → Reach n s
    → (k : ℕ) × (t : System) × Moves k s t
      × (k ≤ sum remaining s.pcs)
      × All (IsResting t.queue) t.pcs
calls_come_to_rest n s r =
    let (k, t, run, rests) = rest_within (suc (sum remaining s.pcs)) n s r (omega arith) in
    (k, t, run, omega (arith, Moves-end run), rests)
