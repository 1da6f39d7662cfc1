-- ===== src/Rpc/Create.antt =====
-- The creation of a connection: clnttcp_b_create, clnttcp_sock_setflag and clnttcp_nb_create of
-- src/clnt_tcp_nb.c.
pub mod Ready
use mathlib.Core.Option
use unfsclient.Prelude.{
  ℕ, [], negsuc, not, true, ◌==◌, ℤ, ◌&&◌, map, Bool, none, if◌then◌else◌, some, List, false, pos,
  Option, suc, zero,
}
use unfsclient.Rpc.Types.{Host, CtData}
use unfsclient.Rpc.Client.{is_nonblocking}
use unfsclient.Rpc.Fragment.{rpc_record_header}

pub record Sockaddr : Type 0 where
  pub sin_addr : ℕ
  pub sin_port : ℕ

-- What sockets, the port mapper, the clock and libghthash answer. `socket_fd` and `connect` are what
-- the calls of those names give, `callhdr` is the header that xdr_callhdr writes for an xid, a
-- program and a version, and `old_fraghdr` and `old_last_frag` are what fresh memory holds.
pub record Net (T : Type 0) : Type 0 where
  pub pmap_getport : Sockaddr → ℕ → ℕ → ℕ
  pub htons : ℕ → ℕ
  pub socket_fd : ℤ
  pub connect : Sockaddr → Bool
  pub fcntl_getfl : Bool
  pub fcntl_setfl : Bool
  pub lrand48 : ℕ
  pub callhdr : ℕ → ℕ → ℕ → Option (List ℕ)
  pub ght_create : T
  pub sizeof_client : ℕ
  pub sizeof_ct_data : ℕ
  pub old_fraghdr : List ℕ
  pub old_last_frag : Bool

abbrev pub default_sockrw_size : ℕ
default_sockrw_size = 32768

unfoldable pub above_zero : ℤ → Bool
above_zero (pos n) = not (n == 0)
above_zero (negsuc n) = false

unfoldable pub below_zero : ℤ → Bool
below_zero (pos n) = false
below_zero (negsuc n) = true

unfoldable pub with_port : (ℕ → ℕ) → Sockaddr → ℕ → Option Sockaddr
with_port htons raddr zero = none
with_port htons raddr (suc port) = some (record raddr { sin_port = htons (suc port) })

module _ {T : Type 0} (h : Host) (net : Net T) where
  -- The fields that the constructor sets once the header is written. The descriptor, the address,
  -- the buffer sizes and the read buffer are not kept.
  unfoldable pub new_ct_data : List ℕ → CtData T
  new_ct_data mcall = record {
    ct_record_state = record {
      rs_frag_list = [];
      rs_recordsize = 0;
      rs_frag_remaining = negsuc 0;
      rs_frag_buf_base = [];
      rs_frag_bufsz = 0;
      rs_frag_offset = 0;
      rs_fh_remaining = rpc_record_header;
      rs_fraghdr = net.old_fraghdr;
      rs_last_frag = net.old_last_frag;
    };
    ct_xid_to_ucb = net.ght_create;
    ct_datarx = 0;
    ct_datatx = 0;
    ct_pendingcalls = 0;
    ct_mcall = mcall;
    ct_sndlist = [];
    ct_nonblocking = false;
    calls = [];
    wire = [];
  }

  -- `sin_port == 0` asks the port mapper, and keeps the port that it knows; `none` is port 0.
  unfoldable pub find_port : Sockaddr → ℕ → ℕ → Option Sockaddr
  unfolding with_port
  find_port raddr prog vers =
      if raddr.sin_port == 0
      then with_port net.htons raddr (net.pmap_getport raddr prog vers)
      else some raddr

  -- Whether there is a connected socket, when the caller's is negative or not.
  unfoldable pub connected : Sockaddr → ℤ → Bool
  unfolding above_zero below_zero
  connected raddr sockp =
      if below_zero sockp then above_zero net.socket_fd && net.connect raddr else true

  -- The client, `none` for NULL, and the address, which keeps a port that was found.
  unfoldable pub clnttcp_b_create : Sockaddr → ℕ → ℕ → ℤ → ℕ → ℕ → Option (CtData T) × Sockaddr
  unfolding new_ct_data find_port connected
  clnttcp_b_create raddr prog vers sockp sbufsz rbufsz =
      if h.malloc net.sizeof_client && h.malloc net.sizeof_ct_data
      then elim (find_port raddr prog vers) [
        | none ↦ (none, raddr)
        | some found ↦
            if connected found sockp
              && h.malloc (if rbufsz == 0 then default_sockrw_size else rbufsz)
            then (Option.map new_ct_data (net.callhdr net.lrand48 prog vers), found)
            else (none, found)
      ]
      else (none, raddr)

  unfoldable pub clnttcp_sock_setflag : Option (CtData T) → ℕ → Option (CtData T) × ℤ
  clnttcp_sock_setflag none flags = (none, negsuc 0)
  clnttcp_sock_setflag (some ct) flags =
      if is_nonblocking flags
      then (if net.fcntl_getfl && net.fcntl_setfl
          then (some (record ct { ct_nonblocking = true }), pos 0)
          else (some ct, negsuc 0))
      else (some ct, pos 0)

  -- A handle whose socket cannot be made non-blocking is destroyed.
  unfoldable pub keep_handle : Option (CtData T) × ℤ → Option (CtData T)
  unfolding below_zero
  keep_handle (handle, r) = if below_zero r then none else handle

  -- RPC_NONBLOCK_WAIT is 1. For a NULL handle NULL is returned.
  unfoldable pub clnttcp_nb_create : Sockaddr → ℕ → ℕ → ℤ → ℕ → ℕ → Option (CtData T) × Sockaddr
  unfolding clnttcp_b_create clnttcp_sock_setflag keep_handle
  clnttcp_nb_create raddr prog vers sockp sbufsz rbufsz =
      let (handle, found) = clnttcp_b_create raddr prog vers sockp sbufsz rbufsz in
      (keep_handle (clnttcp_sock_setflag handle 1), found)
