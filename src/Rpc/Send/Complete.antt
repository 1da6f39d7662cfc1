-- ===== src/Rpc/Send/Complete.antt =====
-- When send_buffers comes to an end.
use unfsclient.Prelude.{
  ℕ, refl, false, ◌∷◌, take, ◌+◌, ok, length, ◌<◌, arith, List, ltb, ◌≡◌, [], true, if◌then◌else◌,
  ◌≤◌, append-nil, ◌++◌, Bool, Result, ◌&&◌, ap, ◌>>=◌,
}
use unfsclient.Rpc.Send.{
  also_sent, again, wrote, Outcome, send_list, pending, after_write, Sent, failed, stop, advance,
  send_buffers, after_send,
}
use unfsclient.Rpc.Types.{FragBuffer, CtData}
use unfsclient.Rpc.Send.Queue.{all_pending, send_list-Keeps}

-- Each write(2) takes a byte at least.
abbrev pub AllWrite : List Outcome → Type 0
AllWrite [] = Unit {0}
AllWrite (wrote n ∷ ws) = (0 < n) × AllWrite ws
AllWrite (again ∷ ws) = ⊥
AllWrite (failed ∷ ws) = ⊥

-- As many write(2) calls as bytes, and one for each buffer.
abbrev pub work : List FragBuffer → ℕ
work [] = 0
work (f ∷ fs) = f.fb_len + 1 + work fs

after_write-work :
    (f : FragBuffer) (fs : List FragBuffer) (n : ℕ)
    → 0 < n
    → work (after_write (if ltb f.fb_len n then f.fb_len else n) f fs) < work (f ∷ fs)
unfolding after_write advance
after_write-work f fs n some_byte = ground arith

goes_on :
    (c : Bool) (m later : Result Sent) (g : Sent → Sent) (s : Sent)
    → later ≡ ok s
    → ((if c && false then m else later) >>= λ s1. ok (g s1)) ≡ ok (g s)
goes_on true m later g s done = rw done refl
goes_on false m later g s done = rw done refl

stops_or :
    (c : Bool) (m : Sent) (later : Result Sent) (g : Sent → Sent)
    → (c ≡ false → (s : Sent) × (later ≡ ok s))
    → (s : Sent) × (((if c && true then ok m else later) >>= λ s1. ok (g s1)) ≡ ok s)
stops_or true m later g on = (g m, refl)
stops_or false m later g on = let (s, done) = on refl in (g s, rw done refl)

pub send_list-empties :
    (l : List FragBuffer) (ws : List Outcome)
    → AllWrite ws
    → work l ≤ length ws
    → (s : Sent) × (send_list true l ws ≡ ok s) × (s.left ≡ []) × (s.fine ≡ true)
unfolding send_list also_sent stop
send_list-empties [] ws writes enough = (stop [] true ws, refl, refl, refl)
send_list-empties (f ∷ fs) [] writes enough = absurd (omega arith)
send_list-empties (f ∷ fs) (wrote n ∷ ws) writes enough =
    let k = (if ltb f.fb_len n then f.fb_len else n) in
    let (s, done, nothing, fine) =
      send_list-empties (after_write k f fs) ws writes.1
        (omega (arith, after_write-work f fs n writes.0)) in
    (
      also_sent (take k (pending f)) k s,
      goes_on (ltb k f.fb_len) _ _ (also_sent (take k (pending f)) k) s done,
      nothing,
      fine,
    )
send_list-empties (f ∷ fs) (again ∷ ws) writes enough = absurd writes
send_list-empties (f ∷ fs) (failed ∷ ws) writes enough = absurd writes

pub send_list-returns :
    (l : List FragBuffer) (ws : List Outcome)
    → length l ≤ length ws
    → (s : Sent) × (send_list false l ws ≡ ok s)
unfolding send_list after_write
send_list-returns [] ws enough = (stop [] true ws, refl)
send_list-returns (f ∷ fs) [] enough = absurd (omega arith)
send_list-returns (f ∷ fs) (failed ∷ ws) enough = (stop (f ∷ fs) false ws, refl)
send_list-returns (f ∷ fs) (again ∷ ws) enough = (stop (f ∷ fs) true ws, refl)
send_list-returns (f ∷ fs) (wrote n ∷ ws) enough =
    let k = (if ltb f.fb_len n then f.fb_len else n) in
    stops_or (ltb k f.fb_len) _ (send_list false (after_write k f fs) ws)
      (also_sent (take k (pending f)) k)
      (λ whole.
        send_list-returns (after_write k f fs) ws (ground (arith, whole, enough, after_write)))

module _ {T : Type 0} where
  -- A blocking flush, with a write(2) for each byte and each buffer at hand that takes a byte at
  -- least, returns 0, leaves no buffer, and has put every
  -- queued byte on the wire.
  pub send_buffers-flushes :
      (ct : CtData T) (ws : List Outcome)
      → AllWrite ws
      → work ct.ct_sndlist ≤ length ws
      → (ct' : CtData T) × (behind : List Outcome) × (send_buffers ct true ws
          ≡ ok (ct', true, behind))
        × (ct'.ct_sndlist ≡ [])
        × (ct'.wire ≡ ct.wire ++ all_pending ct.ct_sndlist)
  unfolding send_buffers after_send
  send_buffers-flushes ct ws writes enough =
      let (s, done, nothing, fine) = send_list-empties ct.ct_sndlist ws writes enough in
      let kept = rw (nothing, append-nil) at (send_list-Keeps true ct.ct_sndlist ws s done) in
      (after_send ct s, s.behind, rw (done, fine) refl, nothing, ap (λ bs. ct.wire ++ bs) kept)

  -- A flush that must not block returns after at most one write(2) for each queued buffer,
  -- whatever these come back with.
  pub send_buffers-returns :
      (ct : CtData T) (ws : List Outcome)
      → length ct.ct_sndlist ≤ length ws
      → (ct' : CtData T) × (fine : Bool) × (behind : List Outcome) × (send_buffers ct false ws
          ≡ ok (ct', fine, behind))
  unfolding send_buffers
  send_buffers-returns ct ws enough =
      let (s, done) = send_list-returns ct.ct_sndlist ws enough in
      (after_send ct s, s.fine, s.behind, rw done refl)
