-- ===== src/Daemon/Contexts/Balance.antt =====
-- That the client contexts of an actor are freed as they were taken.
use mathlib.Core.Option
use unfsclient.Prelude.{
  ℕ, refl, ◌+◌, [], zero, ok, ◌++◌, Result, some, Option, arith, ◌≡◌, suc, ap, ◌∷◌, List, length,
  ◌≤◌, none, inr, sym, inl, subst, pos_part,
}
use unfsclient.Nfsclient.Memory.{
  held, free_all-held, Memory, count-append, count, count_self, free-held, malloc-cases,
}
use unfsclient.Nfsclient.Context.{NfsCtx, blocks, ipproto_tcp, nfs_init}
use unfsclient.Daemon.Contexts.{
  init_contexts, destroy_contexts, nfsc_cfl_nonblocking, init_per_actor_context_pool,
  destroy_per_actor_context_pool, fill_pool,
}
use unfsclient.Nfsclient.Context.Leak.{Balanced, nfs_init-Inits, nfs_destroy-free_all}
use unfsclient.Daemon.Start.{NfsclientdOpts}
use unfsclient.Rpc.Create.{Sockaddr}

module _ {T : Type 0} where
  abbrev pub all_blocks : List (NfsCtx T) → List ℕ
  all_blocks [] = []
  all_blocks (c ∷ cs) = blocks c ++ all_blocks cs

  -- The contexts that were made, and the heap behind them.
  abbrev Filled : ℕ → Memory → Option (List (NfsCtx T)) → Memory → Type 0
  Filled n m none m' = Unit {0}
  Filled n m (some cs) m' =
      (length cs ≡ n) × ((a : ℕ) → held m' a ≡ held m a + count a (all_blocks cs))

  abbrev Fills : ℕ → Memory → Result (Option (List (NfsCtx T)) × Memory) → Type 0
  Fills n m r = (o : Option (List (NfsCtx T))) × (m' : Memory) × (r ≡ ok (o, m')) × Filled n m o m'

  more-Filled :
      (n : ℕ) (m m1 m2 : Memory) (c : NfsCtx T) (o : Option (List (NfsCtx T)))
      → Balanced m (some c) m1
      → Filled n m1 o m2
      → Filled (suc n) m (Option.map (λ cs. c ∷ cs) o) m2
  more-Filled n m m1 m2 c none b f = tt
  more-Filled n m m1 m2 c (some cs) b (len, f) =
      (ap suc len, λ a. omega (arith, b a, f a, count-append a (blocks c) (all_blocks cs)))

  init_contexts-Fills :
      (srvaddr : Option Sockaddr) (n : ℕ) (m : Memory) → Fills n m (init_contexts srvaddr n m)
  unfolding init_contexts
  init_contexts-Fills srvaddr zero m = (some [], m, refl, (refl, λ a. omega arith))
  init_contexts-Fills srvaddr (suc n) m =
      let (o, m1, e, b) = nfs_init-Inits srvaddr ipproto_tcp nfsc_cfl_nonblocking m in
      filled (init_contexts-Fills srvaddr n) o m1 e b
    where
      filled :
          ((m1 : Memory) → Fills n m1 (init_contexts srvaddr n m1))
          → (o : Option (NfsCtx T)) (m1 : Memory)
          → nfs_init srvaddr ipproto_tcp nfsc_cfl_nonblocking m ≡ ok (o, m1)
          → Balanced m o m1
          → Fills (suc n) m (init_contexts srvaddr (suc n) m)
      filled others none m1 e b = (none, m1, rw e refl, tt)
      filled others (some c) m1 e b =
          let (o, m2, e2, f) = others m1 in
          (Option.map (λ cs. c ∷ cs) o, m2, rw (e, e2) refl, more-Filled n m m1 m2 c o b f)

  destroy_contexts-held :
      (cs : List (NfsCtx T)) (n : ℕ) (m : Memory)
      → length cs ≡ n
      → ((a : ℕ) → count a (all_blocks cs) ≤ held m a)
      → (m' : Memory) × (destroy_contexts n cs m ≡ ok m')
        × ((a : ℕ) → held m' a + count a (all_blocks cs) ≡ held m a)
  unfolding destroy_contexts
  destroy_contexts-held [] zero m len h = (m, refl, λ a. omega arith)
  destroy_contexts-held [] (suc n) m len h = absurd (omega (arith, len))
  destroy_contexts-held (c ∷ cs) zero m len h = absurd (omega (arith, len))
  destroy_contexts-held (c ∷ cs) (suc n) m len h =
      let (m1, e1, h1) =
        free_all-held (blocks c) m
          (λ a. omega (arith, h a, count-append a (blocks c) (all_blocks cs))) in
      let (m2, e2, h2) =
        destroy_contexts-held cs n m1 (omega (arith, len))
          (λ a. omega (arith, h a, h1 a, count-append a (blocks c) (all_blocks cs))) in
      (
        m2,
        rw (nfs_destroy-free_all c m, e1) e2,
        λ a. omega (arith, h1 a, h2 a, count-append a (blocks c) (all_blocks cs)),
      )

  -- What becomes of a pool that was made on the heap `m`: destroying it gives the heap back.
  abbrev pub Returned : NfsclientdOpts → Memory → Option (ℕ × List (NfsCtx T)) → Memory → Type 0
  Returned opts m none m' = Unit {0}
  Returned opts m (some (ctxpool, cs)) m' =
      (length cs ≡ pos_part opts.ctxpoolsize)
      × ((m'' : Memory) × (destroy_per_actor_context_pool opts (ctxpool, cs) m' ≡ ok m'')
          × ((a : ℕ) → held m'' a ≡ held m a))

  abbrev pub Pools :
      NfsclientdOpts → Memory → Result (Option (ℕ × List (NfsCtx T)) × Memory) → Type 0
  Pools opts m r =
      (o : Option (ℕ × List (NfsCtx T))) × (m' : Memory) × (r ≡ ok (o, m')) × Returned opts m o m'

  Filled-Returned :
      (opts : NfsclientdOpts) (m m1 m2 : Memory) (ctxpool : ℕ) (o : Option (List (NfsCtx T)))
      → m1.live ≡ ctxpool ∷ m.live
      → Filled (pos_part opts.ctxpoolsize) m1 o m2
      → Returned opts m (Option.map (λ l. (ctxpool, l)) o) m2
  unfolding destroy_per_actor_context_pool
  Filled-Returned opts m m1 m2 ctxpool none l f = tt
  Filled-Returned opts m m1 m2 ctxpool (some cs) l (len, f) =
      let (m3, e3, h3) =
        destroy_contexts-held cs (pos_part opts.ctxpoolsize) m2 len (λ a. omega (arith, f a)) in
      let own = count_self ctxpool m.live in
      let (m4, e4, h4) =
        free-held ctxpool m3 (omega (arith, f ctxpool, h3 ctxpool, ap (count ctxpool) l, own)) in
      (len, (m4, rw (e3, e4) refl, λ a. omega (arith, f a, h3 a, h4 a, ap (count a) l)))

  -- On every heap init_per_actor_context_pool comes to an end without undefined behaviour; and when
  -- it returns a pool, it holds as many contexts as the option says, and
  -- destroy_per_actor_context_pool frees each of its blocks once and leaves in use what was in use
  -- before.
  pub destroy_per_actor_context_pool-init_per_actor_context_pool :
      (opts : NfsclientdOpts) (m : Memory) → Pools opts m (init_per_actor_context_pool opts m)
  unfolding init_per_actor_context_pool fill_pool
  destroy_per_actor_context_pool-init_per_actor_context_pool opts m = elim (malloc-cases m) [
    | inl (m1, e1, l1) ↦ subst (λ r. Pools opts m (fill_pool opts r)) (sym e1) (none, m1, refl, tt)
    | inr (ctxpool, m1, e1, l1) ↦
        let (o, m2, e2, f) = init_contexts-Fills opts.srvaddr (pos_part opts.ctxpoolsize) m1 in
        subst (λ r. Pools opts m (fill_pool opts r)) (sym e1)
          (
            Option.map (λ l. (ctxpool, l)) o,
            m2,
            rw e2 refl,
            Filled-Returned opts m m1 m2 ctxpool o l1 f,
          )
  ]
