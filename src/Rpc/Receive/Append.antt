-- ===== src/Rpc/Receive/Append.antt =====
-- How the bytes are cut into reads does not matter to update_frag_state, as long as no record
-- marker is cut.
use native.Mathlib.Decide.{dec_lt}
use unfsclient.Rpc.Types.{RpcRecordState, CtData, Host, Ght}
use unfsclient.Rpc.Receive.{update_record_state, update_frag_state}
use unfsclient.Prelude.{
  ℕ, ◌≡◌, Result, ok, ◌⊎◌, true, List, arith, [], inl, ◌≤◌, take, ◌<◌, refl, inr, ◌∙◌, ◌>>=◌,
  length, drop, ◌∷◌, fault, ap, take_all, stuck, suc, ◌++◌, zero, length-append, take-append_le,
  length-drop, Ensures, drop-append_le, sym, take-append_ge, drop-append_ge, ◌-◌,
}
use unfsclient.Rpc.Receive.Well.{IsWaiting, IsInside, marked, IsWell, copied-append}
use unfsclient.Rpc.Receive.Rounds.{absorbed, update_record_state-IsWaiting, absorbed-IsInside}
use unfsclient.Rpc.Receive.Progress.{opened-marked}
use unfsclient.Rpc.Receive.Feed.{
  feed, feed-nil, feed-short, entered, feed-long, feed-inside, absorbed_header, feed_complete,
  counted, counted_zero, counted-counted,
}

-- No record marker is read in part.
abbrev pub IsAtSeam : RpcRecordState → Type 0
IsAtSeam rs = (rs.rs_fh_remaining ≡ 0) ⊎ (rs.rs_fh_remaining ≡ 4)

-- A marker that was read in part is not at a seam.
marked_seam :
    (rs : RpcRecordState) (src : List ℕ)
    → IsWaiting rs
    → length src < rs.rs_fh_remaining
    → 0 < length src
    → ¬ IsAtSeam (marked rs src)
unfolding marked
marked_seam rs src w lt full = omega (arith, w.at_most_four)

module _ {T : Type 0} (g : Ght T) (h : Host) (alloc : (n : ℕ) → h.malloc n ≡ true) where
  -- The run that feeds `b` to the state which a run ended in.
  abbrev pub then_feed : List ℕ → Result (CtData T × ℕ) → Result (CtData T × ℕ)
  then_feed b r = r >>= λ (ct, n). counted n ((feed g h alloc) ct b)

  counted-then_feed :
      (n : ℕ) (b : List ℕ) (r : Result (CtData T × ℕ))
      → counted n (then_feed b r) ≡ then_feed b (counted n r)
  counted-then_feed n b (ok (ct, m)) = counted-counted n m ((feed g h alloc) ct b)
  counted-then_feed n b fault = refl
  counted-then_feed n b stuck = refl

  abbrev pub EndsAtSeam : CtData T × ℕ → Type 0
  EndsAtSeam (ct, n) = IsAtSeam ct.ct_record_state

  EndsAtSeam-counted :
      (n : ℕ) (r : Result (CtData T × ℕ)) → Ensures EndsAtSeam (counted n r) → Ensures EndsAtSeam r
  EndsAtSeam-counted n (ok (ct, m)) h' = h'
  EndsAtSeam-counted n fault h' = h'
  EndsAtSeam-counted n stuck h' = h'

  abbrev Seamless : CtData T → List ℕ → List ℕ → Type 0
  Seamless ct a b =
      Ensures EndsAtSeam ((feed g h alloc) ct a)
      → (feed g h alloc) ct (a ++ b) ≡ then_feed b ((feed g h alloc) ct a)

  Seamless-nil : (ct : CtData T) (b : List ℕ) → Seamless ct [] b
  Seamless-nil ct b seam = rw ((feed-nil g h alloc) ct) (sym (counted_zero ((feed g h alloc) ct b)))

  absorbed-append :
      (ct : CtData T) (r : ℕ) (a b : List ℕ)
      → IsInside r ct.ct_record_state
      → length a ≤ r
      → absorbed g h alloc (r - length a) (absorbed g h alloc r ct a) b
        ≡ absorbed g h alloc r ct (a ++ b)
  absorbed-append ct r a b i le =
      ap (λ rs. record ct { ct_record_state = rs })
        (rw (take_all r a le, take-append_ge r a b le)
          (copied-append r ct.ct_record_state a (take (r - length a) b) i le))

  -- The cut is inside the fragment.
  Seamless-short :
      (ct : CtData T) (r : ℕ) (a b : List ℕ)
      → IsInside r ct.ct_record_state
      → length a < r
      → (feed g h alloc) ct (a ++ b) ≡ then_feed b ((feed g h alloc) ct a)
  Seamless-short ct r a b i lt =
      rw
        (
          (feed-inside g h alloc) ct r a i lt,
          counted_zero ((feed g h alloc) (absorbed g h alloc r ct a) b),
        )
        (elim (dec_lt (length b) (r - length a)) [
          | yes short ↦
              (feed-inside g h alloc) ct r (a ++ b) i (omega (arith, length-append a b))
              ∙ rw
                  (
                    (feed-inside g h alloc) (absorbed g h alloc r ct a) (r - length a) b there
                        short,
                    absorbed-append ct r a b i (omega arith),
                  )
                  refl
          | no long ↦
              (feed_complete g h alloc) ct r (a ++ b) i (omega (arith, length-append a b))
                (omega (arith, length-append a b))
              ∙ rw
                  (
                    (feed_complete g h alloc) (absorbed g h alloc r ct a) (r - length a) b there
                        (omega arith) (omega arith),
                    absorbed-append ct r a b i (omega arith),
                    drop-append_ge r a b (omega arith),
                  )
                  refl
        ])
    where
      there : IsInside (r - length a) (absorbed g h alloc r ct a).ct_record_state
      there =
          absorbed-IsInside g h alloc ct r (r - length a) a
            (omega (arith, ap length (take_all r a (omega arith)))) i

  -- The cut is behind the fragment.
  Seamless-behind :
      (k : ℕ)
      → ((ct : CtData T) (a b : List ℕ)
          → IsWaiting ct.ct_record_state
          → length a < k
          → Seamless ct a b)
      → (ct : CtData T) (r : ℕ) (a b : List ℕ) → IsInside r ct.ct_record_state
      → length a < k
      → r ≤ length a
      → 0 < length a
      → Seamless ct a b
  Seamless-behind k waiting ct r a b i lt le full seam =
      (feed_complete g h alloc) ct r (a ++ b) i (omega (arith, length-append a b))
        (omega (arith, length-append a b))
      ∙ rw (take-append_le r a b le, drop-append_le r a b le)
          (settle (update_record_state g h (absorbed g h alloc r ct a)) refl)
      ∙ ap (then_feed b) (sym ((feed_complete g h alloc) ct r a i le full))
    where
      settle :
          (m : Result (CtData T × ℕ))
          → update_record_state g h (absorbed g h alloc r ct a) ≡ m
          → (m >>= λ (ct', n). counted n ((feed g h alloc) ct' (drop r a ++ b)))
            ≡ then_feed b (m >>= λ (ct', n). counted n ((feed g h alloc) ct' (drop r a)))
      settle (ok (ct', n)) e =
          let w =
            (update_record_state-IsWaiting g h alloc (absorbed g h alloc r ct a) {ct' = ct'} {n = n}
              ((absorbed_header g h alloc) ct r a i) e).0 in
          let inner =
            EndsAtSeam-counted n ((feed g h alloc) ct' (drop r a))
              (rw ((feed_complete g h alloc) ct r a i le full, e) at seam) in
          ap (counted n) (waiting ct' (drop r a) b w (omega (arith, length-drop r a)) inner)
          ∙ counted-then_feed n b ((feed g h alloc) ct' (drop r a))
      settle fault e = refl
      settle stuck e = refl

  Seamless-inside :
      (k : ℕ)
      → ((ct : CtData T) (a b : List ℕ)
          → IsWaiting ct.ct_record_state
          → length a < k
          → Seamless ct a b)
      → (ct : CtData T) (r : ℕ) (a b : List ℕ) → IsInside r ct.ct_record_state
      → length a < k
      → Seamless ct a b
  Seamless-inside k waiting ct r [] b i lt seam = Seamless-nil ct b seam
  Seamless-inside k waiting ct r (x ∷ a) b i lt seam = elim (dec_lt (length (x ∷ a)) r) [
    | yes short ↦ Seamless-short ct r (x ∷ a) b i short
    | no long ↦ Seamless-behind k waiting ct r (x ∷ a) b i lt (omega arith) (omega arith) seam
  ]

  Seamless-waiting :
      (k : ℕ) (ct : CtData T) (a b : List ℕ)
      → IsWaiting ct.ct_record_state
      → length a < k
      → Seamless ct a b
  Seamless-waiting zero ct a b w lt seam = elim lt [ ]
  Seamless-waiting (suc k) ct [] b w lt seam = Seamless-nil ct b seam
  Seamless-waiting (suc k) ct (x ∷ a) b w lt seam =
      elim (dec_lt (length (x ∷ a)) ct.ct_record_state.rs_fh_remaining) [
        | yes short ↦ absurd (
            marked_seam ct.ct_record_state (x ∷ a) w short (omega arith)
              (rw ((feed-short g h alloc) ct (x ∷ a) w short) at seam))
        | no long ↦
            (feed-long g h alloc) ct (x ∷ a ++ b) w (omega (arith, length-append (x ∷ a) b))
            ∙ rw
                (
                  take-append_le ct.ct_record_state.rs_fh_remaining (x ∷ a) b (omega arith),
                  drop-append_le ct.ct_record_state.rs_fh_remaining (x ∷ a) b (omega arith),
                )
                (Seamless-inside k (Seamless-waiting k) ((entered g h alloc) ct (x ∷ a)) _
                  (drop ct.ct_record_state.rs_fh_remaining (x ∷ a)) b
                  (opened-marked g h alloc ct.ct_record_state (x ∷ a) w (omega arith))
                  (omega
                    (arith, w.some_header, length-drop ct.ct_record_state.rs_fh_remaining (x ∷ a)))
                  (rw ((feed-long g h alloc) ct (x ∷ a) w (omega arith)) at seam))
            ∙ ap (then_feed b) (sym ((feed-long g h alloc) ct (x ∷ a) w (omega arith)))
      ]

  -- From a well-formed state, with memory for every request: a read of a ++ b does what a read of a
  -- and then a read of b do, faults included, unless the first one ends in the middle of a record
  -- marker.
  pub update_frag_state-append :
      (ct : CtData T) (a b : List ℕ)
      → IsWell ct.ct_record_state
      → Ensures EndsAtSeam (update_frag_state g h ct a)
      → update_frag_state g h ct (a ++ b) ≡ then_feed b (update_frag_state g h ct a)
  update_frag_state-append ct a b (inl w) seam =
      Seamless-waiting (suc (length a)) ct a b w (omega arith) seam
  update_frag_state-append ct a b (inr (r, i)) seam =
      Seamless-inside (suc (length a)) (Seamless-waiting (suc (length a))) ct r a b i (omega arith)
        seam
