-- ===== src/Rpc/Send/Bytes.antt =====
-- send_buffers neither loses nor repeats a byte.
use unfsclient.Prelude.{
  ℕ, [], ◌++◌, length, arith, ◌∷◌, ◌+◌, ◌≡◌, ap, append_assoc, List, take, refl, take_all, ok, Bool,
  true, false, ◌∙◌, >>=-eq-ok, Ensures-ok, length-append, Option, append-nil, some,
}
use unfsclient.Rpc.Types.{CtData, FragBuffer, Host, sizeof_frag_buffer}
use unfsclient.Rpc.Send.{Outcome, send_list, writetcp_nb, send_buffers, after_send}
use unfsclient.Rpc.Receive.Feed.{counted}
use unfsclient.Rpc.Fragment.{add_buffer_list}
use unfsclient.Rpc.Send.Queue.{
  all_pending, all_pending-append, AllInside, send_list-Keeps, send_list-Counts,
}

-- The buffer that add_buffer_list links in for a copy of the bytes.
unfoldable pub copy_of : List ℕ → FragBuffer
copy_of buf = record { fb_base = buf; fb_current = 0; fb_len = length buf }

pub add_buffer_list-copies :
    (h : Host) (l : List FragBuffer) (buf : List ℕ)
    → h.malloc (sizeof_frag_buffer + (1 + length buf)) ≡ true
    → add_buffer_list h l buf (length buf) false ≡ some (l ++ copy_of buf ∷ [])
unfolding add_buffer_list copy_of
add_buffer_list-copies h l buf served = rw (served, take_all (length buf) buf (omega arith)) refl

pub AllInside-append :
    (l : List FragBuffer) (buf : List ℕ) → AllInside l → AllInside (l ++ copy_of buf ∷ [])
unfolding copy_of
AllInside-append [] buf inside = (omega arith, tt)
AllInside-append (f ∷ l) buf (room, inside) = (room, AllInside-append l buf inside)

pending-copy :
    (l : List FragBuffer) (buf : List ℕ)
    → all_pending (l ++ copy_of buf ∷ []) ≡ all_pending l ++ buf
unfolding copy_of
pending-copy l buf =
    all_pending-append l (copy_of buf ∷ [])
    ∙ ap (λ bs. all_pending l ++ bs)
        (append-nil (take (length buf) buf) ∙ take_all (length buf) buf (omega arith))

module _ {T : Type 0} where
  -- Every byte queued is written once and in order, whatever write(2) does: what the wire has got,
  -- and then what is queued, is the same before and after, and the count of bytes sent grows by
  -- what the wire has got, when the queued buffers lie within their memory.
  pub send_buffers-conserves :
      (ct ct' : CtData T) (blocking fine : Bool) (ws behind : List Outcome)
      → AllInside ct.ct_sndlist
      → send_buffers ct blocking ws ≡ ok (ct', fine, behind)
      → (ct'.wire ++ all_pending ct'.ct_sndlist ≡ ct.wire ++ all_pending ct.ct_sndlist)
        × (ct'.ct_datatx + length ct.wire ≡ ct.ct_datatx + length ct'.wire)
        × AllInside ct'.ct_sndlist
  unfolding send_buffers after_send
  send_buffers-conserves ct ct' blocking fine ws behind inside e =
      let (s, e1, e2) = >>=-eq-ok (send_list blocking ct.ct_sndlist ws) _ e in
      let (counted, inside') = send_list-Counts blocking ct.ct_sndlist ws s inside e1 in
      Ensures-ok
        (λ (p : CtData T × Bool × List Outcome).
          (p.0.wire ++ all_pending p.0.ct_sndlist ≡ ct.wire ++ all_pending ct.ct_sndlist)
          × (p.0.ct_datatx + length ct.wire ≡ ct.ct_datatx + length p.0.wire)
          × AllInside p.0.ct_sndlist)
        (
          append_assoc ct.wire s.bytes (all_pending s.left)
              ∙ ap (λ bs. ct.wire ++ bs) (send_list-Keeps blocking ct.ct_sndlist ws s e1),
          omega (arith, counted, length-append ct.wire s.bytes),
          inside',
        )
        e2

  -- What the RPC layer writes is queued behind what is queued already, when there is memory for the
  -- buffer, and goes out in that order.
  pub writetcp_nb-queues :
      (h : Host) (ct ct' : CtData T) (buf : List ℕ) (r : Option ℕ) (ws behind : List Outcome)
      → h.malloc (sizeof_frag_buffer + (1 + length buf)) ≡ true
      → AllInside ct.ct_sndlist
      → writetcp_nb h ct buf (length buf) ws ≡ ok (ct', r, behind)
      → (ct'.wire ++ all_pending ct'.ct_sndlist ≡ ct.wire ++ (all_pending ct.ct_sndlist ++ buf))
        × AllInside ct'.ct_sndlist
  unfolding writetcp_nb
  writetcp_nb-queues h ct ct' buf r ws behind served inside e =
      let l = ct.ct_sndlist ++ copy_of buf ∷ [] in
      let e' = rw (writetcp_nb, add_buffer_list-copies h ct.ct_sndlist buf served) at e in
      let ((ct1, fine, behind1), e1, e2) =
        >>=-eq-ok (send_buffers (record ct { ct_sndlist = l }) false ws) _ e' in
      let (kept, counted, inside') =
        send_buffers-conserves (record ct { ct_sndlist = l }) ct1 false fine ws behind1
          (AllInside-append ct.ct_sndlist buf inside) e1 in
      Ensures-ok
        (λ (p : CtData T × Option ℕ × List Outcome).
          (p.0.wire ++ all_pending p.0.ct_sndlist ≡ ct.wire ++ (all_pending ct.ct_sndlist ++ buf))
          × AllInside p.0.ct_sndlist)
        (kept ∙ ap (λ bs. ct.wire ++ bs) (pending-copy ct.ct_sndlist buf), inside') e2
