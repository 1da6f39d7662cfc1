-- ===== src/Rpc/Receive/Progress.antt =====
-- Every round of the loop ends and makes progress, so as many rounds as bytes are enough.
use native.Mathlib.Decide.{dec_lt}
use unfsclient.Prelude.{
  ℕ, zero, suc, ◌+◌, ◌-◌, ◌≤◌, ◌<◌, ◌≡◌, refl, ap, inl, inr, true, List, [], ◌∷◌, arith, ok, length,
  take, drop, length-append, length-drop, length-take_le, take_all, Ensures, Ensures->>=,
  Ensures-every, >>=-Ensures_eq,
}
use unfsclient.Rpc.Types.{RpcRecordState, CtData, Host, Ght, be32}
use unfsclient.Rpc.Fragment.{frag_size}
use unfsclient.Rpc.Receive.{start_frag, frag_round, frag_loop, update_frag_state}
use unfsclient.Rpc.Receive.Well.{
  IsWaiting, IsInside, IsWell, copied, marked, marked-IsWaiting, opened, opened-IsInside,
  start-short, start-long,
}
use unfsclient.Rpc.Receive.Rounds.{
  update_record_state-IsWaiting, update_record_state-ne-stuck, round-short, round-long, absorbed,
  round-inside, round_complete, absorbed-IsInside,
}

module _ {T : Type 0} (g : Ght T) (h : Host) (alloc : (n : ℕ) → h.malloc n ≡ true) where
  pub opened-marked :
      (rs : RpcRecordState) (buf : List ℕ)
      → IsWaiting rs
      → rs.rs_fh_remaining ≤ length buf
      → IsInside
          (frag_size (be32 (marked rs (take rs.rs_fh_remaining buf)).rs_fraghdr))
          (opened h (marked rs (take rs.rs_fh_remaining buf)))
  unfolding marked
  opened-marked rs buf w le =
      opened-IsInside h alloc (marked rs (take rs.rs_fh_remaining buf))
        (omega (arith, length-take_le rs.rs_fh_remaining buf le))
        (omega (
          arith,
          w.header_size,
          w.at_most_four,
          length-take_le rs.rs_fh_remaining buf le,
          length-append (take rs.rs_fh_remaining buf)
              (drop (length (take rs.rs_fh_remaining buf)) rs.rs_fraghdr),
          length-drop (length (take rs.rs_fh_remaining buf)) rs.rs_fraghdr,
        ))

  start-IsWell :
      (ct : CtData T) (buf : List ℕ)
      → IsWaiting ct.ct_record_state
      → IsWell (start_frag g h ct buf).0.ct_record_state
        × (length (start_frag g h ct buf).1 ≤ length buf - 1)
  unfolding start_frag
  start-IsWell ct [] w = (inl w, omega arith)
  start-IsWell ct (b ∷ buf) w =
      elim (dec_lt (length (b ∷ buf)) ct.ct_record_state.rs_fh_remaining) [
        | yes short ↦
            rw (start-short h ct.ct_record_state (b ∷ buf) w short)
              (inl (marked-IsWaiting _ _ w short), omega arith)
        | no long ↦ rw (start-long h alloc ct.ct_record_state (b ∷ buf) w (omega arith)) (
          inr (_, opened-marked ct.ct_record_state (b ∷ buf) w (omega arith)),
          omega (arith, w.some_header, length-drop ct.ct_record_state.rs_fh_remaining (b ∷ buf)),
        )
      ]

  -- Every round ends, keeps the state well formed and consumes a byte.
  abbrev pub Progress : List ℕ → CtData T × List ℕ × ℕ → Type 0
  Progress buf (ct', behind, n) = IsWell ct'.ct_record_state × (length behind < length buf)

  pub frag_round-IsWell :
      (ct : CtData T) (buf : List ℕ)
      → IsWell ct.ct_record_state
      → 0 < length buf
      → Ensures (Progress buf) (frag_round g h ct buf)
  unfolding copied
  frag_round-IsWell ct buf (inl w) full =
      elim (dec_lt (length buf) ct.ct_record_state.rs_fh_remaining) [
        | yes short ↦
            rw (round-short g h alloc ct buf w short full)
              (inl (marked-IsWaiting _ _ w short), omega arith)
        | no long ↦ rw (round-long g h alloc ct buf w (omega arith)) (
          inr (_, opened-marked ct.ct_record_state buf w (omega arith)),
          omega (arith, w.some_header, length-drop ct.ct_record_state.rs_fh_remaining buf),
        )
      ]
  frag_round-IsWell ct buf (inr (r, i)) full = elim (dec_lt (length buf) r) [
    | yes short ↦ rw (round-inside g h alloc ct r buf i short) (
      inr (
        r - length buf,
        absorbed-IsInside g h alloc ct r (r - length buf) buf
            (omega (arith, ap length (take_all r buf (omega arith)))) i,
      ),
      omega arith,
    )
    | no long ↦ rw (round_complete g h alloc ct r buf i (omega arith)) (
        Ensures->>= (λ (p : CtData T × ℕ). IsWaiting p.0.ct_record_state) _ _ _
          (Ensures-every _ _ (update_record_state-ne-stuck g h alloc (absorbed g h alloc r ct buf))
            (λ p e.
              (update_record_state-IsWaiting g h alloc (absorbed g h alloc r ct buf) {ct' = p.0}
                {n = p.1} i.header_size e).0))
          (λ p w.
            let (well, le) = start-IsWell p.0 (drop r buf) w in
            (well, omega (arith, le, length-drop r buf))))
  ]

  abbrev pub Ended : CtData T × ℕ → Type 0
  Ended (ct, n) = IsWell ct.ct_record_state

  -- With a round for each byte the loop never runs out of rounds, and ends in a well-formed state.
  frag_loop-IsWell :
      (fuel : ℕ) (ct : CtData T) (buf : List ℕ)
      → IsWell ct.ct_record_state
      → length buf ≤ fuel
      → Ensures Ended (frag_loop g h fuel ct buf)
  unfolding frag_loop
  frag_loop-IsWell fuel ct [] well le = well
  frag_loop-IsWell zero ct (b ∷ buf) well le = elim le [ ]
  frag_loop-IsWell (suc fuel) ct (b ∷ buf) well le =
      Ensures->>= (Progress (b ∷ buf)) _ _ _ (frag_round-IsWell ct (b ∷ buf) well (omega arith))
        λ p made.
          Ensures->>= Ended Ended (frag_loop g h fuel p.0 p.1) (λ q. ok (q.0, p.2 + q.1))
            (frag_loop-IsWell fuel p.0 p.1 made.0 (omega (arith, made.1))) (λ q done. done)

  -- More rounds than bytes change nothing.
  pub frag_loop_fuel :
      (fuel more : ℕ) (ct : CtData T) (buf : List ℕ)
      → IsWell ct.ct_record_state
      → length buf ≤ fuel
      → length buf ≤ more
      → frag_loop g h fuel ct buf ≡ frag_loop g h more ct buf
  unfolding frag_loop
  frag_loop_fuel fuel more ct [] well le le' = refl
  frag_loop_fuel zero more ct (b ∷ buf) well le le' = elim le [ ]
  frag_loop_fuel (suc fuel) zero ct (b ∷ buf) well le le' = elim le' [ ]
  frag_loop_fuel (suc fuel) (suc more) ct (b ∷ buf) well le le' =
      >>=-Ensures_eq (Progress (b ∷ buf)) _ _ _ (frag_round-IsWell ct (b ∷ buf) well (omega arith))
        λ p made.
          rw (
            frag_loop_fuel fuel more p.0 p.1 made.0 (omega (arith, made.1)) (omega (arith, made.1)))

  -- From a well-formed state, with memory for every request, the loop of update_frag_state ends
  -- within a round for each byte, and unless it ends in a fault the state is well-formed again.
  pub update_frag_state-IsWell :
      (ct : CtData T) (buf : List ℕ)
      → IsWell ct.ct_record_state
      → Ensures Ended (update_frag_state g h ct buf)
  unfolding update_frag_state
  update_frag_state-IsWell ct buf well = frag_loop-IsWell (length buf) ct buf well (omega arith)
