-- ===== src/Nfsclient/Context.antt =====
-- The client context: src/nfsclient.c and include/nfs_ctx.h.
pub mod Leak
use unfsclient.Prelude.{
  ℕ, some, Bool, ◌||◌, none, false, ok, List, ◌++◌, Result, Option, ◌>>=◌, [], ◌∷◌, ◌==◌, >>=-all,
  sym,
}
use unfsclient.Nfsclient.Memory.{free, Memory, malloc}
use unfsclient.Rpc.Types.{CtData}
use unfsclient.Rpc.Create.{Sockaddr}

abbrev pub ipproto_tcp : ℕ
ipproto_tcp = 6

abbrev pub ipproto_udp : ℕ
ipproto_udp = 17

-- `address` is the block of the struct itself; an address of a server is its block and what it
-- holds. `none` is NULL. nfs_errno is never touched.
pub record NfsCtx (T : Type 0) : Type 0 where
  pub address : ℕ
  pub nfs_srv : Option (ℕ × Sockaddr)
  pub nfs_mnt : Option (ℕ × Sockaddr)
  pub nfs_transport : ℕ
  pub nfs_mnt_cl : Option (CtData T)
  pub nfs_cl : Option (CtData T)
  pub nfs_connflags : ℕ
  pub nfs_rsize : ℕ
  pub nfs_wsize : ℕ

-- The blocks of a context.
abbrev pub block : Option (ℕ × Sockaddr) → List ℕ
block none = []
block (some (b, a)) = b ∷ []

-- `free` of a field that is not NULL.
unfoldable pub free_field : Option (ℕ × Sockaddr) → Memory → Result Memory
free_field none m = ok m
free_field (some (b, a)) m = free b m

module _ {T : Type 0} where
  -- nfs_init behind its third malloc, its second, and its first.
  unfoldable pub init_mnt :
      Sockaddr → ℕ → ℕ → ℕ → ℕ → Option ℕ × Memory → Result (Option (NfsCtx T) × Memory)
  init_mnt srv proto connflags ctx nfs_srv (none, m) =
      free nfs_srv m >>= λ m1. free ctx m1 >>= λ m2. ok (none, m2)
  init_mnt srv proto connflags ctx nfs_srv (some nfs_mnt, m) = ok (
    some (record {
      address = ctx;
      nfs_srv = some (nfs_srv, srv);
      nfs_mnt = some (nfs_mnt, srv);
      nfs_transport = proto;
      nfs_mnt_cl = none;
      nfs_cl = none;
      nfs_connflags = connflags;
      nfs_rsize = 0;
      nfs_wsize = 0;
    }),
    m,
  )

  unfoldable pub init_srv :
      Sockaddr → ℕ → ℕ → ℕ → Option ℕ × Memory → Result (Option (NfsCtx T) × Memory)
  unfolding init_mnt
  init_srv srv proto connflags ctx (none, m) = free ctx m >>= λ m1. ok (none, m1)
  init_srv srv proto connflags ctx (some nfs_srv, m) =
      init_mnt srv proto connflags ctx nfs_srv (malloc m)

  unfoldable pub init_ctx :
      Sockaddr → ℕ → ℕ → Option ℕ × Memory → Result (Option (NfsCtx T) × Memory)
  unfolding init_srv
  init_ctx srv proto connflags (none, m) = ok (none, m)
  init_ctx srv proto connflags (some ctx, m) = init_srv srv proto connflags ctx (malloc m)

  unfoldable pub nfs_init : Option Sockaddr → ℕ → ℕ → Memory → Result (Option (NfsCtx T) × Memory)
  unfolding init_ctx
  nfs_init none proto connflags m = ok (none, m)
  nfs_init (some srv) proto connflags m = init_ctx srv proto connflags (malloc m)

  unfoldable pub check_ctx : Option (NfsCtx T) → Bool
  check_ctx none = false
  check_ctx (some ctx) = ctx.nfs_transport == ipproto_udp || ctx.nfs_transport == ipproto_tcp

  unfoldable pub nfs_destroy : Option (NfsCtx T) → Memory → Result Memory
  unfolding free_field
  nfs_destroy none m = ok m
  nfs_destroy (some ctx) m =
      free_field ctx.nfs_srv m >>= λ m1. free_field ctx.nfs_mnt m1 >>= λ m2. free ctx.address m2

  -- The blocks in the order in which nfs_destroy frees them.
  abbrev pub blocks : NfsCtx T → List ℕ
  blocks ctx = block ctx.nfs_srv ++ (block ctx.nfs_mnt ++ ctx.address ∷ [])
