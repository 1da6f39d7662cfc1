-- ===== src/Daemon/Main/Serves.antt =====
-- When main of src/nfsclientd.c serves requests.
use unfsclient.Prelude.{
  ℕ, [], ◌≡◌, inl, ◌⊎◌, none, ◌∷◌, pos, ok, List, Option, negsuc, refl, sum, ℤ, Bool-cases, inr,
  some, fault, ◌>>=◌, false, Bool, ◌||◌, Ensures, Result, if◌then◌else◌, stuck, true, Ensures-map,
}
use unfsclient.Daemon.Start.{
  NfsclientdContext, NfsclientdOpts, max_ctxpool_size, init_nfsclientd_context, max_threadpool_size,
}
use unfsclient.Daemon.Main.{
  session_destroyed, Event, Fuse, served, with_context, unmounted, session_made, mounted, serve,
  is_null, default_opts, with_options, with_mountpoint, main, with_address,
}
use unfsclient.Daemon.Start.Bounds.{IsWithin, accepted-IsWithin, init_nfsclientd_context-ends}
use unfsclient.Rpc.Create.{Sockaddr}

-- How often the requests are served, and how many sessions are left over.
abbrev pub serving : Event → ℕ
serving served = 1
serving _ = 0

abbrev pub made : Event → ℕ
made session_made = 1
made _ = 0

abbrev pub destroyed : Event → ℕ
destroyed session_destroyed = 1
destroyed _ = 0

-- A run returns 0 and made a session and destroyed it, or returns -1 and made none.
abbrev pub IsTidy : ℤ × List Event → Type 0
IsTidy (r, es) =
    ((r ≡ pos 0) × (sum made es ≡ 1) × (sum destroyed es ≡ 1))
    ⊎ ((r ≡ negsuc 0) × (sum made es ≡ 0) × (sum destroyed es ≡ 0))

refused-IsTidy : (es : List Event) → sum made es ≡ 0 → sum destroyed es ≡ 0 → IsTidy (negsuc 0, es)
refused-IsTidy es m d = inr (refl, m, d)

serve-IsTidy : (f : Fuse) → IsTidy (serve f)
unfolding serve
serve-IsTidy f = elim (Bool-cases f.fuse_mount) [
  | inr bad ↦ rw bad (refused-IsTidy [] refl refl)
  | inl fine ↦ elim (Bool-cases f.fuse_lowlevel_new) [
    | inr bad ↦ rw (fine, bad) (refused-IsTidy (mounted ∷ unmounted ∷ []) refl refl)
    | inl new ↦ elim (Bool-cases f.fuse_set_signal_handlers) [
      | inl set ↦ rw (fine, new, set) (inl (refl, refl, refl))
      | inr bad ↦ rw (fine, new, bad) (inl (refl, refl, refl))
    ]
  ]
]

abbrev pub Accepts : NfsclientdOpts → Type 0
Accepts opts =
    IsWithin max_ctxpool_size opts.ctxpoolsize × IsWithin max_threadpool_size opts.threadpool

-- A run that is tidy, and serves only when `A` holds.
abbrev pub Good : Type 0 → ℤ × List Event → Type 0
Good A p = IsTidy p × (sum serving p.1 ≡ 0 ⊎ A)

refused-Good : (A : Type 0) → Good A (negsuc 0, [])
refused-Good A = (refused-IsTidy [] refl refl, inl refl)

context-Good :
    (f : Fuse) (opts : NfsclientdOpts) (r : Result (Option NfsclientdContext))
    → init_nfsclientd_context opts ≡ r
    → Ensures (Good (Accepts opts)) (r >>= λ ctx. ok (with_context f ctx))
unfolding with_context
context-Good f opts fault e = tt
context-Good f opts stuck e = init_nfsclientd_context-ends opts e
context-Good f opts (ok none) e = refused-Good (Accepts opts)
context-Good f opts (ok (some ctx)) e = (serve-IsTidy f, inr (accepted-IsWithin opts ctx e))

mountpoint-Good :
    (f : Fuse) (options : NfsclientdOpts) (o : Option (Option (List ℕ)))
    → Ensures (Good (Accepts options)) (with_mountpoint f options o)
unfolding with_mountpoint
mountpoint-Good f options none = refused-Good (Accepts options)
mountpoint-Good f options (some mountpoint) =
    context-Good f (record options { mountpoint = mountpoint }) _ refl

address-Good :
    (f : Fuse) (options : NfsclientdOpts) (o : Option Sockaddr)
    → Ensures (Good (Accepts options)) (with_address f options o)
unfolding with_address
address-Good f options none = refused-Good (Accepts options)
address-Good f options (some srv_addr) =
    mountpoint-Good f (record options { srvaddr = some srv_addr }) f.fuse_parse_cmdline

either-Good :
    (A : Type 0) (c : Bool) (x y : Result (ℤ × List Event))
    → Ensures (Good A) x
    → Ensures (Good A) y
    → Ensures (Good A) (if c then x else y)
either-Good A true x y hx hy = hx
either-Good A false x y hx hy = hy

-- The options that were parsed have sizes in their ranges.
abbrev pub ParsedWithin : Fuse → Type 0
ParsedWithin f =
    (options : NfsclientdOpts) × (f.fuse_opt_parse default_opts ≡ some options) × Accepts options

options-Good :
    (f : Fuse) (o : Option NfsclientdOpts)
    → f.fuse_opt_parse default_opts ≡ o
    → Ensures (Good (ParsedWithin f)) (with_options f o)
unfolding with_options
options-Good f none e = refused-Good (ParsedWithin f)
options-Good f (some options) e =
    either-Good (ParsedWithin f) (is_null options.server || is_null options.remotedir) _ _
      (refused-Good (ParsedWithin f))
      (Ensures-map (Good (Accepts options)) (Good (ParsedWithin f))
        (λ p (tidy, serves). (
          tidy,
          elim serves [ inl none_served ↦ inl none_served | inr within ↦ inr (options, e, within) ],
        ))
        (with_address f options (f.getaddrinfo options.server))
        (address-Good f options (f.getaddrinfo options.server)))

-- Whatever the libraries answer, main comes to an end; and unless it ends in undefined behaviour it
-- returns 0 and has made one session and destroyed it, or returns -1 and has made none; and it has
-- served requests only when the sizes among the parsed options are from 1 to 20.
pub main-Good : (f : Fuse) → Ensures (Good (ParsedWithin f)) (main f)
unfolding main
main-Good f = options-Good f (f.fuse_opt_parse default_opts) refl
