-- ===== src/Rpc/Receive/Stream.antt =====
-- A whole stream of RPC records, in any number of reads.
use unfsclient.Prelude.{
  ℕ, refl, sym, ap, ◌≡◌, ok, fault, stuck, ◌∙◌, List, Result, true, Ensures, ◌∷◌, ◌++◌, [], ◌>>=◌,
  arith, length, inr, inl,
}
use unfsclient.Rpc.Reply.Answer.{answer, View, view}
use unfsclient.Rpc.Types.{Host, CtData, Ght, GhtLaws}
use unfsclient.Rpc.Receive.Append.{update_frag_state-append, then_feed, IsAtSeam}
use unfsclient.Rpc.Receive.Feed.{counted, feed-nil}
use unfsclient.Rpc.Receive.Deliver.{update_record_state-answer}
use unfsclient.Rpc.Receive.Framing.{Fits, fragment, feed-fragment, IsIdle}
use unfsclient.Rpc.Receive.Progress.{update_frag_state-IsWell, Ended}
use unfsclient.Rpc.Receive.{update_frag_state}
use unfsclient.Rpc.Receive.Well.{IsWell}

-- RPC messages sent as records of one fragment each.
abbrev pub frames : List (List ℕ) → List ℕ
frames [] = []
frames (p ∷ ps) = fragment true p ++ frames ps

abbrev pub AllFit : List (List ℕ) → Type 0
AllFit [] = Unit {0}
AllFit (p ∷ ps) = Fits p × AllFit ps

abbrev pub concat : List (List ℕ) → List ℕ
concat [] = []
concat (c ∷ cs) = c ++ concat cs

abbrev pub answers : Host → View → List (List ℕ) → View
answers h v [] = v
answers h v (p ∷ ps) = answers h (answer h v p) ps

module _ {T : Type 0} (g : Ght T) (h : Host) where
  -- One call of update_frag_state for each read(2).
  unfoldable pub run_reads : CtData T → List (List ℕ) → Result (CtData T × ℕ)
  run_reads ct [] = ok (ct, 0)
  run_reads ct (c ∷ cs) = update_frag_state g h ct c >>= λ (ct', n). counted n (run_reads ct' cs)

  -- No read ends in the middle of a record marker.
  abbrev pub NoneCut : CtData T → List (List ℕ) → Type 0
  NoneCut ct [] = Unit {0}
  NoneCut ct (c ∷ cs) =
      Ensures (λ (p : CtData T × ℕ). IsAtSeam p.0.ct_record_state × NoneCut p.0 cs)
        (update_frag_state g h ct c)

module _ {T : Type 0} (g : Ght T) (h : Host) (alloc : (n : ℕ) → h.malloc n ≡ true) where
  Ensures-fst :
      (P Q : CtData T × ℕ → Type 0) (r : Result (CtData T × ℕ))
      → Ensures (λ p. P p × Q p) r
      → Ensures P r
  Ensures-fst P Q (ok p) e = e.0
  Ensures-fst P Q fault e = tt
  Ensures-fst P Q stuck e = e

  -- From a well-formed state, with memory for every request, and when no read ends inside a record
  -- marker: the outcome of any number of reads, faults included, is that of one read of all the
  -- bytes.
  pub run_reads-concat :
      (ct : CtData T) (cs : List (List ℕ))
      → IsWell ct.ct_record_state
      → NoneCut g h ct cs
      → run_reads g h ct cs ≡ update_frag_state g h ct (concat cs)
  unfolding run_reads
  run_reads-concat ct [] well cut = sym (feed-nil g h alloc ct)
  run_reads-concat ct (c ∷ cs) well cut =
      settle (λ ct' well' cut'. run_reads-concat ct' cs well' cut') (update_frag_state g h ct c) cut
        (update_frag_state-IsWell g h alloc ct c well)
      ∙ sym (
          update_frag_state-append g h alloc ct c (concat cs) well
            (Ensures-fst _ (λ p. NoneCut g h p.0 cs) (update_frag_state g h ct c) cut))
    where
      settle :
          ((ct' : CtData T)
            → IsWell ct'.ct_record_state
            → NoneCut g h ct' cs
            → run_reads g h ct' cs ≡ update_frag_state g h ct' (concat cs))
          → (m : Result (CtData T × ℕ))
          → Ensures (λ (p : CtData T × ℕ). IsAtSeam p.0.ct_record_state × NoneCut g h p.0 cs) m
          → Ensures (Ended g h alloc) m
          → (m >>= λ (ct', n). counted n (run_reads g h ct' cs)) ≡ then_feed g h alloc (concat cs) m
      settle rest_same (ok (ct', n)) seam well' = ap (counted n) (rest_same ct' well' seam.1)
      settle rest_same fault seam well' = refl
      settle rest_same stuck seam well' = refl

  module _ (laws : GhtLaws g) where
    feed-frame :
        (ct : CtData T) (p : List ℕ)
        → IsIdle ct.ct_record_state
        → Fits p
        → (ct' : CtData T) × (update_frag_state g h ct (fragment true p) ≡ ok (ct', 1))
          × (view g laws ct' ≡ answer h (view g laws ct) p)
          × IsIdle ct'.ct_record_state
    feed-frame ct p idle fits =
        let (ct', done, same, idle') = update_record_state-answer g laws h alloc ct p idle in
        (
          ct',
          feed-fragment g h alloc ct true p idle.waits idle.whole_marker fits ∙ rw done refl,
          same,
          idle',
        )

    feed-frames :
        (ct : CtData T) (ps : List (List ℕ))
        → IsIdle ct.ct_record_state
        → AllFit ps
        → (ct' : CtData T) × (update_frag_state g h ct (frames ps) ≡ ok (ct', length ps))
          × (view g laws ct' ≡ answers h (view g laws ct) ps)
          × IsIdle ct'.ct_record_state
    feed-frames ct [] idle fit = (ct, feed-nil g h alloc ct, refl, idle)
    feed-frames ct (p ∷ ps) idle fit =
        let (ct1, done, same, idle1) = feed-frame ct p idle fit.0 in
        let (ct2, done2, same2, idle2) = feed-frames ct1 ps idle1 fit.1 in
        (
          ct2,
          update_frag_state-append g h alloc ct (fragment true p) (frames ps) (inl idle.waits)
                (rw done (inr idle1.whole_marker))
              ∙ rw (done, done2) (ground arith),
          same2 ∙ ap (λ v. answers h v ps) same,
          idle2,
        )

    -- Reception of a whole stream of RPC messages, one fragment to a record, between records, with
    -- memory for every request: however the bytes are cut into reads, as long as no read ends inside
    -- a record marker, the loop ends without a fault, each message is answered in order as the
    -- abstract `answer` says, the count returned is the number of messages, and the state is again
    -- between two records. Each message has a byte at least and fewer than 2 ^ 31.
    pub run_reads-answers :
        (ct : CtData T) (ps cs : List (List ℕ))
        → IsIdle ct.ct_record_state
        → AllFit ps
        → concat cs ≡ frames ps
        → NoneCut g h ct cs
        → (ct' : CtData T) × (run_reads g h ct cs ≡ ok (ct', length ps))
          × (view g laws ct' ≡ answers h (view g laws ct) ps)
          × IsIdle ct'.ct_record_state
    run_reads-answers ct ps cs idle fit same cut =
        let (ct', done, seen, idle') = feed-frames ct ps idle fit in
        (
          ct',
          run_reads-concat ct cs (inl idle.waits) cut ∙ ap (update_frag_state g h ct) same ∙ done,
          seen,
          idle',
        )
