-- ===== src/Rpc/Receive/Feed.antt =====
-- What a run of update_frag_state does first, by what the state awaits.
use native.Mathlib.Decide.{dec_lt}
use unfsclient.Rpc.Types.{CtData, Host, Ght}
use unfsclient.Rpc.Receive.{
  update_record_state, start_frag, frag_round, frag_loop, update_frag_state,
}
use unfsclient.Prelude.{
  ℕ, ◌≡◌, Result, ok, true, List, arith, [], inl, ◌+◌, ◌≤◌, take, ◌<◌, refl, inr, ◌∙◌, ◌>>=◌,
  length, drop, ◌∷◌, Ensures-ok, fault, ap, take_all, stuck,
}
use unfsclient.Rpc.Receive.Well.{
  IsWaiting, start-short, opened, IsInside, marked, start-long, IsWell, copied_none, copied,
}
use unfsclient.Rpc.Receive.Rounds.{
  round-short, round-long, absorbed, round-inside, update_record_state-IsWaiting, round_complete,
  update_record_state-ne-stuck,
}
use unfsclient.Rpc.Receive.Progress.{frag_round-IsWell, frag_loop_fuel, Progress}

-- `r` with the count `n` added to its own.
abbrev pub counted {ℓ} : {A : Type ℓ} → ℕ → Result (A × ℕ) → Result (A × ℕ)
counted n r = r >>= λ (a, m). ok (a, n + m)

pub counted_zero {ℓ} : {A : Type ℓ} (r : Result (A × ℕ)) → counted 0 r ≡ r
counted_zero (ok (a, m)) = ground arith
counted_zero fault = refl
counted_zero stuck = refl

pub counted-counted {ℓ} :
    {A : Type ℓ} (n m : ℕ) (r : Result (A × ℕ)) → counted n (counted m r) ≡ counted (n + m) r
counted-counted n m (ok (a, k)) = ground arith
counted-counted n m fault = refl
counted-counted n m stuck = refl

module _ {T : Type 0} (g : Ght T) (h : Host) (alloc : (n : ℕ) → h.malloc n ≡ true) where
  abbrev pub feed : CtData T → List ℕ → Result (CtData T × ℕ)
  feed = update_frag_state g h

  pub feed-nil : (ct : CtData T) → feed ct [] ≡ ok (ct, 0)
  unfolding update_frag_state frag_loop
  feed-nil ct = refl

  pub feed-round :
      (ct ct' : CtData T) (buf behind : List ℕ) (n : ℕ)
      → IsWell ct.ct_record_state
      → 0 < length buf
      → frag_round g h ct buf ≡ ok (ct', behind, n)
      → feed ct buf ≡ counted n (feed ct' behind)
  unfolding update_frag_state frag_loop
  feed-round ct ct' [] behind n well full e = elim full [ ]
  feed-round ct ct' (b ∷ buf) behind n well full e =
      let made =
        Ensures-ok (Progress g h alloc (b ∷ buf))
          (frag_round-IsWell g h alloc ct (b ∷ buf) well full) e in
      rw (
        e,
        frag_loop_fuel g h alloc (length buf) (length behind) ct' behind made.0
            (omega (arith, made.1)) (omega arith),
      )

  -- Less than the rest of a marker.
  pub feed-short :
      (ct : CtData T) (buf : List ℕ)
      → IsWaiting ct.ct_record_state
      → length buf < ct.ct_record_state.rs_fh_remaining
      → feed ct buf ≡ ok (record ct { ct_record_state = marked ct.ct_record_state buf }, 0)
  unfolding marked
  feed-short ct [] w lt = feed-nil ct ∙ ground arith
  feed-short ct (b ∷ buf) w lt =
      feed-round ct _ (b ∷ buf) [] 0 (inl w) (omega arith)
        (round-short g h alloc ct (b ∷ buf) w lt (omega arith))
      ∙ rw (feed-nil (record ct { ct_record_state = marked ct.ct_record_state (b ∷ buf) })) refl

  -- The rest of a marker, and what follows it.
  abbrev pub entered : CtData T → List ℕ → CtData T
  entered ct buf = record ct {
    ct_record_state =
        opened h (marked ct.ct_record_state (take ct.ct_record_state.rs_fh_remaining buf));
  }

  pub feed-long :
      (ct : CtData T) (buf : List ℕ)
      → IsWaiting ct.ct_record_state
      → ct.ct_record_state.rs_fh_remaining ≤ length buf
      → feed ct buf ≡ feed (entered ct buf) (drop ct.ct_record_state.rs_fh_remaining buf)
  feed-long ct buf w le =
      feed-round ct _ buf _ 0 (inl w) (omega (arith, w.some_header))
        (round-long g h alloc ct buf w le)
      ∙ counted_zero _

  -- Less than the rest of a fragment.
  pub feed-inside :
      (ct : CtData T) (r : ℕ) (buf : List ℕ)
      → IsInside r ct.ct_record_state
      → length buf < r
      → feed ct buf ≡ ok (absorbed g h alloc r ct buf, 0)
  feed-inside ct r [] i lt =
      feed-nil ct ∙ rw (take_all {A = ℕ} r [] (omega arith), copied_none r ct.ct_record_state i)
  feed-inside ct r (b ∷ buf) i lt =
      feed-round ct _ (b ∷ buf) [] 0 (inr (r, i)) (omega arith)
        (round-inside g h alloc ct r (b ∷ buf) i lt)
      ∙ rw (feed-nil (absorbed g h alloc r ct (b ∷ buf))) refl

  pub feed-fault :
      (ct : CtData T) (buf : List ℕ)
      → 0 < length buf
      → frag_round g h ct buf ≡ fault
      → feed ct buf ≡ fault
  unfolding update_frag_state frag_loop
  feed-fault ct [] full e = elim full [ ]
  feed-fault ct (b ∷ buf) full e = rw e

  pub absorbed_header :
      (ct : CtData T) (r : ℕ) (buf : List ℕ)
      → IsInside r ct.ct_record_state
      → length (absorbed g h alloc r ct buf).ct_record_state.rs_fraghdr ≡ 4
  unfolding copied
  absorbed_header ct r buf i = i.header_size

  pub start-feed :
      (ct : CtData T) (buf : List ℕ)
      → IsWaiting ct.ct_record_state
      → feed (start_frag g h ct buf).0 (start_frag g h ct buf).1 ≡ feed ct buf
  unfolding start_frag
  start-feed ct [] w = refl
  start-feed ct (b ∷ buf) w = elim (dec_lt (length (b ∷ buf)) ct.ct_record_state.rs_fh_remaining) [
    | yes short ↦
        rw (start-short h ct.ct_record_state (b ∷ buf) w short, feed-short ct (b ∷ buf) w short)
          (feed-nil _)
    | no long ↦
        rw
          (
            start-long h alloc ct.ct_record_state (b ∷ buf) w (omega arith),
            feed-long ct (b ∷ buf) w (omega arith),
          )
          refl
  ]

  -- The rest of a fragment, and what follows it.
  pub feed_complete :
      (ct : CtData T) (r : ℕ) (buf : List ℕ)
      → IsInside r ct.ct_record_state
      → r ≤ length buf
      → 0 < length buf
      → feed ct buf ≡ (
          update_record_state g h (absorbed g h alloc r ct buf) >>= λ (ct', n).
          counted n (feed ct' (drop r buf)))
  feed_complete ct r buf i le full =
      settle (update_record_state g h (absorbed g h alloc r ct buf)) refl
    where
      settle :
          (m : Result (CtData T × ℕ))
          → update_record_state g h (absorbed g h alloc r ct buf) ≡ m
          → feed ct buf ≡ (m >>= λ (ct', n). counted n (feed ct' (drop r buf)))
      settle (ok (ct', n)) e =
          let w =
            (update_record_state-IsWaiting g h alloc (absorbed g h alloc r ct buf) {ct' = ct'}
              {n = n} (absorbed_header ct r buf i) e).0 in
          feed-round ct _ buf _ n (inr (r, i)) full (round_complete g h alloc ct r buf i le ∙ rw e)
          ∙ ap (counted n) (start-feed ct' (drop r buf) w)
      settle fault e = feed-fault ct buf full (round_complete g h alloc ct r buf i le ∙ rw e)
      settle stuck e = absurd (update_record_state-ne-stuck g h alloc _ e)
