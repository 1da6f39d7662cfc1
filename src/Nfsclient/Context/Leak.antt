-- ===== src/Nfsclient/Context/Leak.antt =====
-- That src/nfsclient.c frees what it takes.
use unfsclient.Prelude.{
  ℕ, ◌∷◌, some, ◌++◌, inl, [], Result, ap, ◌+◌, ◌≡◌, none, Option, ok, inr, refl, >>=-all, sym,
  subst, ◌∙◌, arith,
}
use unfsclient.Nfsclient.Context.{
  block, free_field, nfs_destroy, NfsCtx, blocks, nfs_init, init_mnt, init_srv, init_ctx, malloc,
}
use unfsclient.Nfsclient.Memory.{
  malloc-cases, held, Memory, free_all, free-held, free-free_all, free_all-append, count,
  count_self,
}
use unfsclient.Rpc.Create.{Sockaddr}

free_field-block : (o : Option (ℕ × Sockaddr)) (m : Memory) → free_field o m ≡ free_all (block o) m
unfolding free_field free_all
free_field-block none m = refl
free_field-block (some (b, a)) m = free-free_all b m

module _ {T : Type 0} where
  pub nfs_destroy-free_all :
      (c : NfsCtx T) (m : Memory) → nfs_destroy (some c) m ≡ free_all (blocks c) m
  unfolding nfs_destroy
  nfs_destroy-free_all c m =
      rw
        (
          free_all-append (block c.nfs_srv) (block c.nfs_mnt ++ c.address ∷ []) m,
          free_field-block c.nfs_srv m,
        )
        (>>=-all (free_all (block c.nfs_srv) m) (λ m1.
          rw (free_all-append (block c.nfs_mnt) (c.address ∷ []) m1, free_field-block c.nfs_mnt m1)
            (>>=-all (free_all (block c.nfs_mnt) m1) (λ m2. free-free_all c.address m2))))

  -- The heap after a call of nfs_init, by what it returned.
  abbrev pub Balanced : Memory → Option (NfsCtx T) → Memory → Type 0
  Balanced m none m' = (a : ℕ) → held m' a ≡ held m a
  Balanced m (some c) m' = (a : ℕ) → held m' a ≡ held m a + count a (blocks c)

  abbrev pub Inits : Memory → Result (Option (NfsCtx T) × Memory) → Type 0
  Inits m r = (o : Option (NfsCtx T)) × (m' : Memory) × (r ≡ ok (o, m')) × Balanced m o m'

  module _ (srv : Sockaddr) (proto connflags : ℕ) (m : Memory) where
    init_mnt-Inits :
        (c s : ℕ) (m2 : Memory)
        → m2.live ≡ s ∷ c ∷ m.live
        → Inits m (init_mnt srv proto connflags c s (malloc m2))
    unfolding init_mnt
    init_mnt-Inits c s m2 l2 = elim (malloc-cases m2) [
      | inl (m3, e3, l3) ↦
          let taken : (a : ℕ) → held m3 a ≡ count a (s ∷ c ∷ m.live) =
            λ a. ap (count a) (l3 ∙ l2) in
          let (m4, e4, h4) = free-held s m3 (omega (arith, taken s, count_self s (c ∷ m.live))) in
          let (m5, e5, h5) = free-held c m4 (omega (arith, taken c, h4 c, count_self c m.live)) in
          subst (λ r. Inits m (init_mnt srv proto connflags c s r)) (sym e3)
            (none, m5, rw (e4, e5) refl, λ a. omega (arith, taken a, h4 a, h5 a))
      | inr (t, m3, e3, l3) ↦
          subst (λ r. Inits m (init_mnt srv proto connflags c s r)) (sym e3)
            (_, m3, refl, λ a. omega (arith, ap (count a) l3, ap (count a) l2))
    ]

    init_srv-Inits :
        (c : ℕ) (m1 : Memory)
        → m1.live ≡ c ∷ m.live
        → Inits m (init_srv srv proto connflags c (malloc m1))
    unfolding init_srv
    init_srv-Inits c m1 l1 = elim (malloc-cases m1) [
      | inl (m2, e2, l2) ↦
          let taken : (a : ℕ) → held m2 a ≡ count a (c ∷ m.live) = λ a. ap (count a) (l2 ∙ l1) in
          let (m3, e3, h3) = free-held c m2 (omega (arith, taken c, count_self c m.live)) in
          subst (λ r. Inits m (init_srv srv proto connflags c r)) (sym e2)
            (none, m3, rw e3 refl, λ a. omega (arith, taken a, h3 a))
      | inr (s, m2, e2, l2) ↦
          subst (λ r. Inits m (init_srv srv proto connflags c r)) (sym e2)
            (init_mnt-Inits c s m2 (l2 ∙ ap (◌∷◌ s) l1))
    ]

    init_ctx-Inits : Inits m (init_ctx srv proto connflags (malloc m))
    unfolding init_ctx
    init_ctx-Inits = elim (malloc-cases m) [
      | inl (m1, e1, l1) ↦
          subst (λ r. Inits m (init_ctx srv proto connflags r)) (sym e1)
            (none, m1, refl, λ a. ap (count a) l1)
      | inr (c, m1, e1, l1) ↦
          subst (λ r. Inits m (init_ctx srv proto connflags r)) (sym e1) (init_srv-Inits c m1 l1)
    ]

  pub nfs_init-Inits :
      (srv : Option Sockaddr) (proto connflags : ℕ) (m : Memory)
      → Inits m (nfs_init srv proto connflags m)
  unfolding nfs_init
  nfs_init-Inits none proto connflags m = (none, m, refl, λ a. refl)
  nfs_init-Inits (some srv) proto connflags m = init_ctx-Inits srv proto connflags m
