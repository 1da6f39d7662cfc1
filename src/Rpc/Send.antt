-- ===== src/Rpc/Send.antt =====
-- The sending side of src/clnt_tcp_nb.c: send_buffers and writetcp_nb.
pub mod Queue
pub mod Bytes
pub mod Complete
use unfsclient.Prelude.{
  ℕ, ◌+◌, ◌++◌, not, drop, ok, take, some, ◌∷◌, false, true, if◌then◌else◌, ◌-◌, none, ltb, stuck,
  List, Result, Option, Bool, [], ◌>>=◌, ◌&&◌,
}
use unfsclient.Rpc.Types.{CtData, FragBuffer, Host}
use unfsclient.Rpc.Fragment.{add_buffer_list}

-- What a write(2) comes back with. `wrote n` takes as many as n of the bytes that it was offered;
-- `again` is EAGAIN.
pub data Outcome : Type 0 where
  wrote : ℕ → Outcome
  again : Outcome
  failed : Outcome

-- The bytes of a buffer that are still to be written.
abbrev pub pending : FragBuffer → List ℕ
pending f = take f.fb_len (drop f.fb_current f.fb_base)

unfoldable pub advance : ℕ → FragBuffer → FragBuffer
advance n f = record f { fb_current = f.fb_current + n; fb_len = f.fb_len - n }

-- Where send_buffers stops: the buffers left, the bytes that were written and their count, whether
-- it returns 0 (else -1), and the outcomes not used.
pub record Sent : Type 0 where
  pub left : List FragBuffer
  pub bytes : List ℕ
  pub count : ℕ
  pub fine : Bool
  pub behind : List Outcome

unfoldable pub stop : List FragBuffer → Bool → List Outcome → Sent
stop l fine ws = record { left = l; bytes = []; count = 0; fine = fine; behind = ws }

unfoldable pub also_sent : List ℕ → ℕ → Sent → Sent
also_sent bs n s = record s { bytes = bs ++ s.bytes; count = n + s.count }

unfoldable pub after_write : ℕ → FragBuffer → List FragBuffer → List FragBuffer
unfolding advance
after_write n f fs = if ltb n f.fb_len then advance n f ∷ fs else fs

-- The loop over ct_sndlist: one outcome for each write(2). A blocking call goes back to select(2)
-- after EAGAIN or a partial write, and any other call returns.
unfoldable pub send_list : Bool → List FragBuffer → List Outcome → Result Sent
unfolding stop also_sent after_write
send_list blocking [] ws = ok (stop [] true ws)
send_list blocking (f ∷ fs) [] = stuck
send_list blocking (f ∷ fs) (failed ∷ ws) = ok (stop (f ∷ fs) false ws)
send_list blocking (f ∷ fs) (again ∷ ws) =
    let later = send_list blocking (f ∷ fs) ws in
    if blocking then later else ok (stop (f ∷ fs) true ws)
send_list blocking (f ∷ fs) (wrote n ∷ ws) =
    let written = (if ltb f.fb_len n then f.fb_len else n) in
    let later = send_list blocking (after_write written f fs) ws in
    (if ltb written f.fb_len && not blocking
      then ok (stop (after_write written f fs) true ws)
      else later)
    >>= λ s. ok (also_sent (take written (pending f)) written s)

module _ {T : Type 0} where
  unfoldable pub after_send : CtData T → Sent → CtData T
  after_send ct s = record ct {
    ct_sndlist = s.left;
    ct_datatx = ct.ct_datatx + s.count;
    wire = ct.wire ++ s.bytes;
  }

  -- Returns whether the result is 0, and the outcomes not used.
  unfoldable pub send_buffers :
      CtData T → Bool → List Outcome → Result (CtData T × Bool × List Outcome)
  unfolding send_list after_send
  send_buffers ct blocking ws =
      send_list blocking ct.ct_sndlist ws >>= λ s. ok (after_send ct s, s.fine, s.behind)

  -- `none` is -1, else the result is `len`.
  unfoldable pub writetcp_nb :
      Host → CtData T → List ℕ → ℕ → List Outcome → Result (CtData T × Option ℕ × List Outcome)
  unfolding add_buffer_list send_buffers
  writetcp_nb h ct buf len ws = elim (add_buffer_list h ct.ct_sndlist buf len false) [
    | none ↦ ok (ct, none, ws)
    | some l ↦ send_buffers (record ct { ct_sndlist = l }) false ws >>= λ (ct', fine, behind).
        ok (ct', (if fine then some len else none), behind)
  ]
