-- ===== src/Daemon/Contexts.antt =====
-- The client contexts of an actor: init_per_actor_context_pool and destroy_per_actor_context_pool of
-- src/nfscd_ops.c.
pub mod Balance
use mathlib.Core.Option
use unfsclient.Prelude.{
  ℕ, ◌∷◌, Result, ◌>>=◌, Option, fault, none, map, List, pos_part, some, suc, [], ok, zero,
}
use unfsclient.Nfsclient.Memory.{Memory, free, malloc}
use unfsclient.Daemon.Start.{NfsclientdOpts}
use unfsclient.Nfsclient.Context.{nfs_destroy, ipproto_tcp, NfsCtx, nfs_init}
use unfsclient.Rpc.Create.{Sockaddr}

abbrev pub nfsc_cfl_nonblocking : ℕ
nfsc_cfl_nonblocking = 1

module _ {T : Type 0} where
  -- The loop, on the number of contexts still to make. What is made when nfs_init returns NULL is
  -- lost.
  unfoldable pub init_contexts :
      Option Sockaddr → ℕ → Memory → Result (Option (List (NfsCtx T)) × Memory)
  init_contexts srvaddr zero m = ok (some [], m)
  init_contexts srvaddr (suc n) m =
      nfs_init srvaddr ipproto_tcp nfsc_cfl_nonblocking m >>= λ (ctx, m1). elim ctx [
        | none ↦ ok (none, m1)
        | some c ↦
            (init_contexts srvaddr n m1 >>= λ (others, m2).
            ok (Option.map (λ cs. c ∷ cs) others, m2))
      ]

  -- The array's block, and what it holds.
  unfoldable pub fill_pool :
      NfsclientdOpts → Option ℕ × Memory → Result (Option (ℕ × List (NfsCtx T)) × Memory)
  unfolding init_contexts
  fill_pool opts (none, m) = ok (none, m)
  fill_pool opts (some ctxpool, m) =
      init_contexts opts.srvaddr (pos_part opts.ctxpoolsize) m >>= λ (cs, m1).
      ok (Option.map (λ l. (ctxpool, l)) cs, m1)

  unfoldable pub init_per_actor_context_pool :
      NfsclientdOpts → Memory → Result (Option (ℕ × List (NfsCtx T)) × Memory)
  unfolding fill_pool
  init_per_actor_context_pool opts m = fill_pool opts (malloc m)

  -- The loop over i < psize.
  unfoldable pub destroy_contexts : ℕ → List (NfsCtx T) → Memory → Result Memory
  destroy_contexts zero cs m = ok m
  destroy_contexts (suc n) [] m = fault
  destroy_contexts (suc n) (c ∷ cs) m = nfs_destroy (some c) m >>= λ m1. destroy_contexts n cs m1

  unfoldable pub destroy_per_actor_context_pool :
      NfsclientdOpts → ℕ × List (NfsCtx T) → Memory → Result Memory
  unfolding destroy_contexts
  destroy_per_actor_context_pool opts (ctxpool, cs) m =
      destroy_contexts (pos_part opts.ctxpoolsize) cs m >>= λ m1. free ctxpool m1
