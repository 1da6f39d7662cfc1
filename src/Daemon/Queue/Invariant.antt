-- ===== src/Daemon/Queue/Invariant.antt =====
-- What every state of a request queue satisfies.
use unfsclient.Prelude.{
  ℕ, some, sum, if◌then◌else◌, ◌≡◌, ◌++◌, List, length, ◌+◌, All, ◌∷◌, arith, All-append,
  All-append_inv, [], sum-append,
}
use unfsclient.Daemon.Queue.{
  broken, deq_lock, deq_first, flist_first, Pc, enq_post, deq_unlock, Queue, enq_add, deq_del,
  enq_unlock, idle, deq_wait, enq_lock,
}

-- A thread between lock and unlock.
abbrev pub holds : Pc → ℕ
holds (enq_add a) = 1
holds enq_post = 1
holds enq_unlock = 1
holds deq_first = 1
holds (deq_del a) = 1
holds (deq_unlock a) = 1
holds _ = 0

-- A thread that came through sem_wait and has not removed its request.
abbrev pub awaits : Pc → ℕ
awaits deq_lock = 1
awaits deq_first = 1
awaits (deq_del a) = 1
awaits _ = 0

-- A thread that added a request and has not posted it.
abbrev pub unposted : Pc → ℕ
unposted enq_post = 1
unposted _ = 0

-- No thread is broken, and a thread about to unlink a request has it at the head of the queue.
abbrev pub Sees : List ℕ → Pc → Type 0
Sees rq broken = ⊥
Sees rq (deq_del a) = flist_first rq ≡ some a
Sees rq _ = Unit {0}

pub record IsSound (q : Queue) (pcs : List Pc) : Type 0 where
  pub tokens : length q.rq ≡ q.notify + sum awaits pcs + sum unposted pcs
  pub one_holder : sum holds pcs ≡ (if q.locked then 1 else 0)
  pub heads : All (Sees q.rq) pcs
  pub in_order : q.taken ++ q.rq ≡ q.entered

-- The same, seen from one thread among the others.
pub record IsSoundAt (q : Queue) (xs : List Pc) (p : Pc) (ys : List Pc) : Type 0 where
  pub tokens_at :
      length q.rq
      ≡ q.notify
        + (awaits p + (sum awaits xs + sum awaits ys))
        + (unposted p + (sum unposted xs + sum unposted ys))
  pub one_holder_at : holds p + (sum holds xs + sum holds ys) ≡ (if q.locked then 1 else 0)
  pub before : All (Sees q.rq) xs
  pub here : Sees q.rq p
  pub behind : All (Sees q.rq) ys
  pub in_order_at : q.taken ++ q.rq ≡ q.entered

sum-at :
    (w : Pc → ℕ) (xs ys : List Pc) (p : Pc) → sum w (xs ++ p ∷ ys) ≡ w p + (sum w xs + sum w ys)
sum-at w xs ys p = omega (arith, sum-append w xs (p ∷ ys))

pub at_thread :
    (q : Queue) (xs ys : List Pc) (p : Pc) → IsSound q (xs ++ p ∷ ys) → IsSoundAt q xs p ys
at_thread q xs ys p s =
    let (b, h) = All-append_inv (Sees q.rq) xs (p ∷ ys) s.heads in
    record {
      tokens_at = rw (sum-at awaits xs ys p, sum-at unposted xs ys p) at s.tokens;
      one_holder_at = rw (sum-at holds xs ys p) at s.one_holder;
      before = b;
      here = h.0;
      behind = h.1;
      in_order_at = s.in_order;
    }

pub at_all : (q : Queue) (xs ys : List Pc) (p : Pc) → IsSoundAt q xs p ys → IsSound q (xs ++ p ∷ ys)
at_all q xs ys p s = record {
  tokens = rw (sum-at awaits xs ys p, sum-at unposted xs ys p) s.tokens_at;
  one_holder = rw (sum-at holds xs ys p) s.one_holder_at;
  heads = All-append (Sees q.rq) xs (p ∷ ys) s.before (s.here, s.behind);
  in_order = s.in_order_at;
}

flist_first-append :
    (l : List ℕ) (a b : ℕ) → flist_first l ≡ some b → flist_first (l ++ a ∷ []) ≡ some b
unfolding flist_first
flist_first-append [] a b e = cc
flist_first-append (c ∷ l) a b e = e

-- Adding at the tail keeps the head that a thread saw.
pub Sees-append : (l : List ℕ) (a : ℕ) (p : Pc) → Sees l p → Sees (l ++ a ∷ []) p
Sees-append l a (deq_del b) h = flist_first-append l a b h
Sees-append l a broken h = absurd h
Sees-append l a idle h = tt
Sees-append l a (enq_lock b) h = tt
Sees-append l a (enq_add b) h = tt
Sees-append l a enq_post h = tt
Sees-append l a enq_unlock h = tt
Sees-append l a deq_wait h = tt
Sees-append l a deq_lock h = tt
Sees-append l a deq_first h = tt
Sees-append l a (deq_unlock b) h = tt

-- A thread outside the lock sees nothing of the queue.
Sees_outside : (l l' : List ℕ) (p : Pc) → holds p ≡ 0 → Sees l p → Sees l' p
Sees_outside l l' (deq_del b) e h = absurd (omega (arith, e))
Sees_outside l l' broken e h = absurd h
Sees_outside l l' idle e h = tt
Sees_outside l l' (enq_lock b) e h = tt
Sees_outside l l' (enq_add b) e h = tt
Sees_outside l l' enq_post e h = tt
Sees_outside l l' enq_unlock e h = tt
Sees_outside l l' deq_wait e h = tt
Sees_outside l l' deq_lock e h = tt
Sees_outside l l' deq_first e h = tt
Sees_outside l l' (deq_unlock b) e h = tt

pub All-Sees_outside :
    (l l' : List ℕ) (pcs : List Pc) → sum holds pcs ≡ 0 → All (Sees l) pcs → All (Sees l') pcs
All-Sees_outside l l' [] e h = tt
All-Sees_outside l l' (p ∷ pcs) e h =
    (Sees_outside l l' p (omega (arith, e)) h.0, All-Sees_outside l l' pcs (omega (arith, e)) h.1)
