-- ===== src/Daemon/Main.antt =====
-- main of src/nfsclientd.c.
pub mod Serves
use unfsclient.Prelude.{
  ℕ, true, [], Result, none, Option, Bool, negsuc, ℤ, ◌>>=◌, if◌then◌else◌, ◌||◌, ◌∷◌, pos, false,
  some, ok, List,
}
use unfsclient.Daemon.Start.{init_nfsclientd_context, NfsclientdContext, NfsclientdOpts}
use unfsclient.Rpc.Create.{Sockaddr}

-- What libfuse and the resolver answer. `none` and `false` are their failures; the mount point is
-- `some none` when the command line has none.
pub record Fuse : Type 0 where
  pub fuse_opt_parse : NfsclientdOpts → Option NfsclientdOpts
  pub getaddrinfo : Option (List ℕ) → Option Sockaddr
  pub fuse_parse_cmdline : Option (Option (List ℕ))
  pub fuse_mount : Bool
  pub fuse_lowlevel_new : Bool
  pub fuse_set_signal_handlers : Bool

-- What main has done to the world: the file system mounted, the session made, the requests served,
-- the session destroyed, and the file system unmounted.
pub data Event : Type 0 where
  mounted session_made served session_destroyed unmounted : Event

-- The defaults are one context and one thread. The other fields are set before they are read.
abbrev pub default_opts : NfsclientdOpts
default_opts = record {
  server = none;
  remotedir = none;
  mountpoint = none;
  srvaddr = none;
  ctxpoolsize = pos 1;
  threadpool = pos 1;
}

-- From fuse_mount on, with the value that main returns.
unfoldable pub serve : Fuse → ℤ × List Event
serve f =
    if f.fuse_mount
    then (if f.fuse_lowlevel_new
        then (if f.fuse_set_signal_handlers
            then (pos 0, mounted ∷ session_made ∷ served ∷ session_destroyed ∷ [])
            else (pos 0, mounted ∷ session_made ∷ session_destroyed ∷ []))
        else (negsuc 0, mounted ∷ unmounted ∷ []))
    else (negsuc 0, [])

unfoldable pub with_context : Fuse → Option NfsclientdContext → ℤ × List Event
unfolding serve
with_context f none = (negsuc 0, [])
with_context f (some ctx) = serve f

unfoldable pub with_mountpoint :
    Fuse → NfsclientdOpts → Option (Option (List ℕ)) → Result (ℤ × List Event)
unfolding with_context
with_mountpoint f options none = ok (negsuc 0, [])
with_mountpoint f options (some mountpoint) =
    init_nfsclientd_context (record options { mountpoint = mountpoint }) >>= λ ctx.
    ok (with_context f ctx)

unfoldable pub with_address : Fuse → NfsclientdOpts → Option Sockaddr → Result (ℤ × List Event)
unfolding with_mountpoint
with_address f options none = ok (negsuc 0, [])
with_address f options (some srv_addr) =
    with_mountpoint f (record options { srvaddr = some srv_addr }) f.fuse_parse_cmdline

unfoldable pub is_null : Option (List ℕ) → Bool
is_null none = true
is_null (some s) = false

unfoldable pub with_options : Fuse → Option NfsclientdOpts → Result (ℤ × List Event)
unfolding with_address is_null
with_options f none = ok (negsuc 0, [])
with_options f (some options) =
    if is_null options.server || is_null options.remotedir
    then ok (negsuc 0, [])
    else with_address f options (f.getaddrinfo options.server)

unfoldable pub main : Fuse → Result (ℤ × List Event)
unfolding with_options
main f = with_options f (f.fuse_opt_parse default_opts)
