-- ===== src/Rpc/Create/Ready.antt =====
-- What a connection of src/clnt_tcp_nb.c is like when it was just created.
use mathlib.Core.Option
use unfsclient.Prelude.{
  ℕ, ◌≡◌, [], length, Option, some, refl, List, none, arith, ◌==◌, pos, Option-cases, false,
  if◌then◌else◌, true, ◌&&◌, Bool, ℤ, inl, inr, negsuc,
}
use unfsclient.Rpc.Types.{GhtLaws, Ght, CtData, Host}
use unfsclient.Rpc.Receive.Framing.{IsIdle}
use unfsclient.Rpc.Create.{
  Net, new_ct_data, connected, find_port, Sockaddr, default_sockrw_size, below_zero,
  clnttcp_b_create, clnttcp_sock_setflag, keep_handle, clnttcp_nb_create,
}
use unfsclient.Rpc.Client.{is_nonblocking}

module _ {T : Type 0} (g : Ght T) (laws : GhtLaws g) (h : Host) (net : Net T)
    (fresh : laws.entries net.ght_create ≡ []) where
  -- Between two records, with nothing queued, nothing counted and no call waiting.
  pub record IsReady (ct : CtData T) : Type 0 where
    pub is_idle : IsIdle ct.ct_record_state
    pub none_queued : ct.ct_sndlist ≡ []
    pub none_counted : ct.ct_pendingcalls ≡ 0
    pub none_waits : laws.entries ct.ct_xid_to_ucb ≡ []

  abbrev AllReady : Option (CtData T) → Type 0
  AllReady none = Unit {0}
  AllReady (some ct) = IsReady ct

  module _ (four : length net.old_fraghdr ≡ 4) where
    new_ct_data-IsReady : (mcall : List ℕ) → IsReady (new_ct_data h net mcall)
    unfolding new_ct_data
    new_ct_data-IsReady mcall = record {
      is_idle = record {
        waits = record {
          no_frag = refl;
          some_header = omega arith;
          at_most_four = omega arith;
          header_size = four;
        };
        whole_marker = refl;
        no_frags = refl;
        no_size = refl;
      };
      none_queued = refl;
      none_counted = refl;
      none_waits = fresh;
    }

    either_Ready :
        (c : Bool) (x y : Option (CtData T) × Sockaddr)
        → AllReady x.0
        → AllReady y.0
        → AllReady (if c then x else y).0
    either_Ready true x y hx hy = hx
    either_Ready false x y hx hy = hy

    header-Ready : (hdr : Option (List ℕ)) → AllReady (Option.map (new_ct_data h net) hdr)
    header-Ready none = tt
    header-Ready (some mcall) = new_ct_data-IsReady mcall

    clnttcp_b_create-Ready :
        (raddr : Sockaddr) (prog vers : ℕ) (sockp : ℤ) (sbufsz rbufsz : ℕ)
        → AllReady (clnttcp_b_create h net raddr prog vers sockp sbufsz rbufsz).0
    unfolding clnttcp_b_create
    clnttcp_b_create-Ready raddr prog vers sockp sbufsz rbufsz =
        either_Ready (h.malloc net.sizeof_client && h.malloc net.sizeof_ct_data) _ _
          (elim (Option-cases (find_port h net raddr prog vers)) [
            | inl e ↦ rw e tt
            | inr (found, e) ↦ rw e (
                either_Ready
                  (connected h net found sockp
                    && h.malloc (if rbufsz == 0 then default_sockrw_size else rbufsz))
                  _ _ (header-Ready (net.callhdr net.lrand48 prog vers)) tt)
          ])
          tt

    -- A handle that is ready and whose socket does not block, or NULL.
    abbrev pub Created : Option (CtData T) → Type 0
    Created none = Unit {0}
    Created (some ct) = IsReady ct × (ct.ct_nonblocking ≡ true)

    set-Created :
        (ct : CtData T) (c : Bool)
        → IsReady ct
        → Created (
            keep_handle h net (
              if c
              then (some (record ct { ct_nonblocking = true }), pos 0)
              else (some ct, negsuc 0)))
    unfolding keep_handle below_zero
    set-Created ct true r = (
      record {
        is_idle = r.is_idle;
        none_queued = r.none_queued;
        none_counted = r.none_counted;
        none_waits = r.none_waits;
      },
      refl,
    )
    set-Created ct false r = tt

    setflag-Created :
        (handle : Option (CtData T))
        → AllReady handle
        → Created (keep_handle h net (clnttcp_sock_setflag h net handle 1))
    unfolding clnttcp_sock_setflag keep_handle is_nonblocking below_zero
    setflag-Created none r = tt
    setflag-Created (some ct) r = set-Created ct (net.fcntl_getfl && net.fcntl_setfl) r

    -- When the hash table that ght_create makes is empty, every handle that clnttcp_nb_create
    -- returns is between two records, has nothing queued, counts no call and has none waiting, and
    -- its socket does not block.
    pub clnttcp_nb_create-Created :
        (raddr : Sockaddr) (prog vers : ℕ) (sockp : ℤ) (sbufsz rbufsz : ℕ)
        → Created (clnttcp_nb_create h net raddr prog vers sockp sbufsz rbufsz).0
    unfolding clnttcp_nb_create
    clnttcp_nb_create-Created raddr prog vers sockp sbufsz rbufsz =
        setflag-Created (clnttcp_b_create h net raddr prog vers sockp sbufsz rbufsz).0
          (clnttcp_b_create-Ready raddr prog vers sockp sbufsz rbufsz)
