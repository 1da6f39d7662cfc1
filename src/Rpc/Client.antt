-- ===== src/Rpc/Client.antt =====
-- The calls that the NFS layer makes: rpc_cb, clnttcp_nb_receive and clnttcp_nb_call of
-- src/clnt_tcp_nb.c.
pub mod Sends
pub mod Callback
pub mod Pending
pub mod Xids
pub mod Calls
pub mod Collects
use unfsclient.Prelude.{
  ℕ, some, List, false, true, if◌then◌else◌, stuck, ◌*◌, Bool, none, ◌^◌, length, ◌-◌, ◌&&◌, ◌%◌,
  Result, ◌+◌, ◌==◌, ◌>>=◌, not, ◌||◌, [], Option, ◌∷◌, ok, ◌/◌,
}
use unfsclient.Rpc.Send.{writetcp_nb, Outcome, send_buffers}
use unfsclient.Rpc.Types.{CtData, Ght, be32, sizeof_callback_info, CallbackInfo, Host}
use unfsclient.Rpc.Receive.{update_frag_state}

-- RPC_NONBLOCK_WAIT is 1, RPC_NO_TX_FLUSH 2 and RPC_NO_RX 4.
unfoldable pub is_nonblocking : ℕ → Bool
is_nonblocking flag = flag % 2 == 1

unfoldable pub flush_tx_buffer : ℕ → Bool
flush_tx_buffer flag = flag / 2 % 2 == 0

unfoldable pub read_rpc_response : ℕ → Bool
read_rpc_response flag = flag / 4 % 2 == 0

-- `none` is RPC_DEFAULT_FLAGS: the flags of the socket.
unfoldable pub call_flag : Bool → Option ℕ → ℕ
call_flag nonblocking none = if nonblocking then 1 else 0
call_flag nonblocking (some flag) = flag

pub data ClntStat : Type 0 where
  rpc_success rpc_cantencodeargs rpc_systemerror : ClntStat

-- `--(*xid)` on a little-endian machine: the xid lies in network order, and is counted down as a
-- native word. The bytes of the word and of what stands behind it.
unfoldable pub next_xid : List ℕ → List ℕ
next_xid [] = []
next_xid (a ∷ []) = a ∷ []
next_xid (a ∷ b ∷ []) = a ∷ b ∷ []
next_xid (a ∷ b ∷ c ∷ []) = a ∷ b ∷ c ∷ []
next_xid (a ∷ b ∷ c ∷ d ∷ bs) =
    let n = (a + b * 2 ^ 8 + c * 2 ^ 16 + d * 2 ^ 24 + 2 ^ 32 - 1) % 2 ^ 32 in
    (n % 256) ∷ (n / 2 ^ 8 % 256) ∷ (n / 2 ^ 16 % 256) ∷ (n / 2 ^ 24) ∷ bs

module _ {T : Type 0} where
  -- The result of send_buffers is not looked at.
  unfoldable pub flush : CtData T → ℕ → List Outcome → Result (CtData T × List Outcome)
  unfolding is_nonblocking flush_tx_buffer
  flush ct flag ws =
      if flush_tx_buffer flag
      then (send_buffers ct (not (is_nonblocking flag)) ws >>= λ (ct', fine, behind).
          ok (ct', behind))
      else ok (ct, ws)

module _ {T : Type 0} (h : Host) where
  -- The buffers that the XDR record stream hands to writetcp_nb, until one write fails.
  unfoldable pub write_all :
      CtData T → List (List ℕ) → List Outcome → Result (CtData T × Bool × List Outcome)
  write_all ct [] ws = ok (ct, true, ws)
  write_all ct (buf ∷ bufs) ws = writetcp_nb h ct buf (length buf) ws >>= λ (ct', r, behind).
      elim r [ none ↦ ok (ct', false, behind) | some n ↦ write_all ct' bufs behind ]

module _ {T : Type 0} (g : Ght T) (h : Host) where
  -- One entry of `reads` for each read(2), empty for a result that is not positive. Returns the
  -- count of callbacks, and the reads not used. select(2) only waits.
  unfoldable pub rpc_cb : CtData T → ℕ → List (List ℕ) → Result (CtData T × ℕ × List (List ℕ))
  unfolding is_nonblocking
  rpc_cb ct flag [] = stuck
  rpc_cb ct flag ([] ∷ reads) = ok (ct, 0, reads)
  rpc_cb ct flag ((b ∷ buf) ∷ reads) = update_frag_state g h ct (b ∷ buf) >>= λ (ct', called_back).
      if called_back == 0 && not (ct'.ct_nonblocking && is_nonblocking flag)
      then rpc_cb ct' flag reads
      else ok (ct', called_back, reads)

  unfoldable pub clnttcp_nb_receive :
      CtData T
      → ℕ
      → List Outcome
      → List (List ℕ)
      → Result (CtData T × ℕ × List Outcome × List (List ℕ))
  unfolding rpc_cb flush read_rpc_response
  clnttcp_nb_receive ct flag ws reads = flush ct flag ws >>= λ (ct', behind).
      if ct'.ct_pendingcalls == 0 || not (read_rpc_response flag)
      then ok (ct', 0, behind, reads)
      else (rpc_cb ct' flag reads >>= λ (ct'', called_back, later). ok (
        record ct'' {
          ct_pendingcalls = (ct''.ct_pendingcalls + (2 ^ 32 - called_back % 2 ^ 32)) % 2 ^ 32;
        },
        called_back,
        behind,
        later,
      ))

  module _ (marshal : List ℕ → List (List ℕ) × Bool) where
    -- `marshal` is glibc's record stream on the call header, the procedure, the credentials and the
    -- arguments: the buffers that it writes, and whether every routine returned TRUE.
    unfoldable pub clnttcp_nb_call :
        CtData T
        → CallbackInfo
        → Option ℕ
        → List Outcome
        → List (List ℕ)
        → Result (CtData T × ClntStat × List Outcome × List (List ℕ))
    unfolding next_xid write_all clnttcp_nb_receive call_flag
    clnttcp_nb_call ct ucbi callflag ws reads =
        let mcall = next_xid ct.ct_mcall in
        let ct1 = record ct {
          ct_mcall = mcall;
          ct_xid_to_ucb = g.ght_insert ct.ct_xid_to_ucb ucbi (be32 mcall);
        } in
        let flag = call_flag ct.ct_nonblocking callflag in
        if h.malloc sizeof_callback_info
        then (write_all h ct1 (marshal mcall).0 ws >>= λ (ct2, fine, behind).
            if fine && (marshal mcall).1
            then (clnttcp_nb_receive
                  (record ct2 { ct_pendingcalls = (ct2.ct_pendingcalls + 1) % 2 ^ 32 }) flag behind
                  reads
                >>= λ (ct3, called_back, behind', later). ok (ct3, rpc_success, behind', later))
            else ok (ct2, rpc_cantencodeargs, behind, reads))
        else ok (ct, rpc_systemerror, ws, reads)
