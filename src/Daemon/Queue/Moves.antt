-- ===== src/Daemon/Queue/Moves.antt =====
-- Every step of a thread keeps what a request queue satisfies.
use unfsclient.Prelude.{
  ℕ, false, arith, ◌≡◌, sym, Bool-cases, List, ◌+◌, sum, inl, inr, true, refl, some, [], ap, ◌++◌,
  All-map, ◌⊎◌, none, ◌∙◌, suc, ==_refl, length-append, length, ◌∷◌, append_assoc, ◌<◌, Whenever-if,
  All-replicate, Whenever-some, ◌==◌, replicate, if◌then◌else◌, Whenever, sum-replicate_zero, ◌-◌,
}
use unfsclient.Daemon.Queue.Invariant.{
  Sees, awaits, unposted, holds, IsSoundAt, Sees-append, All-Sees_outside, at_all, IsSound,
  at_thread,
}
use unfsclient.Daemon.Queue.{
  Queue, Pc, idle, deq_first, deq_del, deq_unlock, enq_post, flist_del, flist_first, enq_add, entry,
  broken, reach_step, enqueue, reach_start, enqueues, move, Step, Reach, enq_unlock, System,
  deq_lock, init_queue, deq_wait, enq_lock, dequeue, begin, dequeues, Begins, moved,
}
use unfsclient.Nfsclient.Memory.{free}

flist_first-cases :
    (l : List ℕ) → ((a : ℕ) × (flist_first l ≡ some a)) ⊎ ((flist_first l ≡ none) × (l ≡ []))
unfolding flist_first
flist_first-cases [] = inr (refl, refl)
flist_first-cases (a ∷ l) = inl (a, refl)

flist_del-first : (l : List ℕ) (a : ℕ) → flist_first l ≡ some a → a ∷ flist_del a l ≡ l
unfolding flist_first flist_del
flist_del-first [] a e = cc
flist_del-first (b ∷ l) a e = let same : b ≡ a = cc in rw (same, ==_refl a) refl

module _ (q : Queue) (xs ys : List Pc) where
  After : Queue × Pc → Type 0
  After (q', p') = IsSoundAt q' xs p' ys

  lock-IsSoundAt :
      (p p' : Pc)
      → holds p ≡ 0
      → holds p' ≡ 1
      → awaits p' ≡ awaits p
      → unposted p ≡ 0
      → unposted p' ≡ 0
      → Sees q.rq p'
      → IsSoundAt q xs p ys
      → q.locked ≡ false
      → IsSoundAt (record q { locked = true }) xs p' ys
  lock-IsSoundAt p p' hp hp' aw up up' sees s free = record {
    tokens_at = rw (aw, up', sym up) s.tokens_at;
    one_holder_at =
        let e : holds p + (sum holds xs + sum holds ys) ≡ 0 = rw free at s.one_holder_at in
        omega (arith, e, hp, hp');
    before = s.before;
    here = sees;
    behind = s.behind;
    in_order_at = s.in_order_at;
  }

  -- While a thread holds the lock no other does.
  alone :
      (p : Pc)
      → holds p ≡ 1
      → IsSoundAt q xs p ys
      → (q.locked ≡ true) × (sum holds xs ≡ 0) × (sum holds ys ≡ 0)
  alone p hp s = elim (Bool-cases q.locked) [
    | inl on ↦
        let e : holds p + (sum holds xs + sum holds ys) ≡ 1 = rw on at s.one_holder_at in
        (on, omega (arith, e, hp), omega (arith, e, hp))
    | inr off ↦
        let e : holds p + (sum holds xs + sum holds ys) ≡ 0 = rw off at s.one_holder_at in
        absurd (omega (arith, e, hp))
  ]

  unlock-IsSoundAt :
      (p : Pc)
      → holds p ≡ 1
      → awaits p ≡ 0
      → unposted p ≡ 0
      → IsSoundAt q xs p ys
      → IsSoundAt (record q { locked = false }) xs idle ys
  unlock-IsSoundAt p hp ap' up s =
      let (on, e, f) = alone p hp s in
      record {
        tokens_at = omega (arith, s.tokens_at, ap', up);
        one_holder_at = omega (arith, e, f);
        before = s.before;
        here = tt;
        behind = s.behind;
        in_order_at = s.in_order_at;
      }

  -- The token that a thread took at sem_wait is worth an element.
  first-IsSoundAt : IsSoundAt q xs deq_first ys → IsSoundAt q xs (entry (flist_first q.rq)) ys
  unfolding entry
  first-IsSoundAt s = elim (flist_first-cases q.rq) [
    | inl (a, e) ↦ rw e (record {
      tokens_at = s.tokens_at;
      one_holder_at = s.one_holder_at;
      before = s.before;
      here = e;
      behind = s.behind;
      in_order_at = s.in_order_at;
    })
    | inr (e, empty) ↦
        let none_left : length q.rq ≡ 0 = ap length empty in
        absurd (omega (arith, s.tokens_at, none_left))
  ]

  add-IsSoundAt :
      (a : ℕ)
      → IsSoundAt q xs (enq_add a) ys
      → IsSoundAt (record q { rq = q.rq ++ a ∷ []; entered = q.entered ++ a ∷ [] }) xs enq_post ys
  add-IsSoundAt a s = record {
    tokens_at = omega (arith, s.tokens_at, length-append q.rq (a ∷ []));
    one_holder_at = s.one_holder_at;
    before = All-map (Sees-append q.rq a) xs s.before;
    here = tt;
    behind = All-map (Sees-append q.rq a) ys s.behind;
    in_order_at = sym (append_assoc q.taken q.rq (a ∷ [])) ∙ ap (λ l. l ++ a ∷ []) s.in_order_at;
  }

  del-IsSoundAt :
      (a : ℕ)
      → IsSoundAt q xs (deq_del a) ys
      → IsSoundAt
          (record q { rq = flist_del a q.rq; taken = q.taken ++ a ∷ [] })
          xs
          (deq_unlock a)
          ys
  del-IsSoundAt a s =
      let (on, e, f) = alone (deq_del a) refl s in
      let cut = flist_del-first q.rq a s.here in
      record {
        tokens_at =
            let shorter : suc (length (flist_del a q.rq)) ≡ length q.rq = ap length cut in
            omega (arith, s.tokens_at, shorter);
        one_holder_at = s.one_holder_at;
        before = All-Sees_outside q.rq (flist_del a q.rq) xs e s.before;
        here = tt;
        behind = All-Sees_outside q.rq (flist_del a q.rq) ys f s.behind;
        in_order_at =
            append_assoc q.taken (a ∷ []) (flist_del a q.rq)
            ∙ ap (λ l. q.taken ++ l) cut
            ∙ s.in_order_at;
      }

  locked-Whenever :
      (q' : Queue) (p' : Pc)
      → (q.locked ≡ false → After (q', p'))
      → Whenever After (if q.locked then none else some (q', p'))
  locked-Whenever q' p' = Whenever-if After q.locked (some (q', p'))

  wait-IsSoundAt :
      (q.notify == 0) ≡ false
      → IsSoundAt q xs deq_wait ys
      → IsSoundAt (record q { notify = q.notify - 1 }) xs deq_lock ys
  wait-IsSoundAt e s = record {
    tokens_at =
        let some_left : 0 < q.notify = ground (arith, e) in omega (arith, s.tokens_at, some_left);
    one_holder_at = s.one_holder_at;
    before = s.before;
    here = tt;
    behind = s.behind;
    in_order_at = s.in_order_at;
  }

  post-IsSoundAt :
      IsSoundAt q xs enq_post ys → IsSoundAt (record q { notify = suc q.notify }) xs enq_unlock ys
  post-IsSoundAt s = record {
    tokens_at = omega (arith, s.tokens_at);
    one_holder_at = s.one_holder_at;
    before = s.before;
    here = tt;
    behind = s.behind;
    in_order_at = s.in_order_at;
  }

  move-IsSoundAt : (p : Pc) → IsSoundAt q xs p ys → Whenever After (move q p)
  unfolding move enqueue dequeue After
  move-IsSoundAt idle s = tt
  move-IsSoundAt broken s = tt
  move-IsSoundAt (enq_lock a) s =
      locked-Whenever _ _ (lock-IsSoundAt (enq_lock a) (enq_add a) refl refl refl refl refl tt s)
  move-IsSoundAt (enq_add a) s = add-IsSoundAt a s
  move-IsSoundAt enq_post s = post-IsSoundAt s
  move-IsSoundAt enq_unlock s = unlock-IsSoundAt enq_unlock refl refl refl s
  move-IsSoundAt deq_wait s = Whenever-if After (q.notify == 0) _ (λ e. wait-IsSoundAt e s)
  move-IsSoundAt deq_lock s =
      locked-Whenever _ _ (lock-IsSoundAt deq_lock deq_first refl refl refl refl refl tt s)
  move-IsSoundAt deq_first s = first-IsSoundAt s
  move-IsSoundAt (deq_del a) s = del-IsSoundAt a s
  move-IsSoundAt (deq_unlock a) s = unlock-IsSoundAt (deq_unlock a) refl refl refl s

begin-IsSoundAt :
    (q : Queue) (xs ys : List Pc) {p : Pc} → Begins p → IsSoundAt q xs idle ys → IsSoundAt q xs p ys
begin-IsSoundAt q xs ys (enqueues a) s = record {
  tokens_at = s.tokens_at;
  one_holder_at = s.one_holder_at;
  before = s.before;
  here = tt;
  behind = s.behind;
  in_order_at = s.in_order_at;
}
begin-IsSoundAt q xs ys dequeues s = record {
  tokens_at = s.tokens_at;
  one_holder_at = s.one_holder_at;
  before = s.before;
  here = tt;
  behind = s.behind;
  in_order_at = s.in_order_at;
}

pub Step-IsSound : {s t : System} → Step s t → IsSound s.queue s.pcs → IsSound t.queue t.pcs
unfolding After
Step-IsSound {s} {t} (begin xs ys p b es et eq) sound =
    rw (et, eq)
      (at_all s.queue xs ys p
        (begin-IsSoundAt s.queue xs ys b (at_thread s.queue xs ys idle (rw es at sound))))
Step-IsSound {s} {t} (moved xs ys p p' es et e) sound = rw et (
    at_all t.queue xs ys p' (
      Whenever-some (After s.queue xs ys)
        (move-IsSoundAt s.queue xs ys p (at_thread s.queue xs ys p (rw es at sound))) e))

init-IsSound : (n : ℕ) → IsSound init_queue (replicate n idle)
unfolding init_queue
init-IsSound n = record {
  tokens =
      omega (arith, sum-replicate_zero awaits n idle refl, sum-replicate_zero unposted n idle refl);
  one_holder = sum-replicate_zero holds n idle refl;
  heads = All-replicate (Sees []) n idle tt;
  in_order = refl;
}

pub Reach-IsSound : {n : ℕ} {s : System} → Reach n s → IsSound s.queue s.pcs
Reach-IsSound {n} reach_start = init-IsSound n
Reach-IsSound (reach_step r st) = Step-IsSound st (Reach-IsSound r)
