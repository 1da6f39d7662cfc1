-- ===== src/Rpc/Client/Collects.antt =====
-- How rpc_cb of src/clnt_tcp_nb.c collects whole messages when its caller blocks.
use unfsclient.Prelude.{
  ℕ, ◌+◌, ◌<◌, ◌≡◌, ◌∙◌, sym, refl, ap, arith, Bool, true, false, ◌&&◌, ◌==◌, List, [], ◌∷◌, ◌++◌,
  All, length, ok, >>=-eq-ok, Ensures-ok,
}
use unfsclient.Rpc.Types.{CtData, Host, Ght}
use unfsclient.Rpc.Receive.{update_frag_state}
use unfsclient.Rpc.Receive.Stream.{run_reads}
use unfsclient.Rpc.Client.{rpc_cb, is_nonblocking}

-- The read brings bytes.
abbrev pub IsSome : List ℕ → Type 0
IsSome c = 0 < length c

and_false : (b : Bool) → (b && false) ≡ false
and_false true = refl
and_false false = refl

pub nonzero : (n : ℕ) → 0 < n → (n == 0) ≡ false
nonzero n h = ground arith

module _ {T : Type 0} (g : Ght T) (h : Host) where
  -- What a first read does to the rest of them.
  first_read :
      (ct ct' : CtData T) (c : List ℕ) (cs : List (List ℕ)) (k : ℕ)
      → run_reads g h ct (c ∷ cs) ≡ ok (ct', k)
      → (p : CtData T × ℕ) × (q : CtData T × ℕ) × (update_frag_state g h ct c ≡ ok p)
        × (run_reads g h p.0 cs ≡ ok q)
        × (q.0 ≡ ct')
        × (p.1 + q.1 ≡ k)
  unfolding run_reads
  first_read ct ct' c cs k e =
      let (p, e1, f) = >>=-eq-ok (update_frag_state g h ct c) _ e in
      let (q, e2, f2) = >>=-eq-ok (run_reads g h p.0 cs) _ f in
      (
        p,
        q,
        e1,
        e2,
        Ensures-ok (λ (r : CtData T × ℕ). q.0 ≡ r.0) refl f2,
        Ensures-ok (λ (r : CtData T × ℕ). p.1 + q.1 ≡ r.1) refl f2,
      )

  -- As long as no read completes a message the loop goes on, and it stops behind the read that does.
  pub rpc_cb_stops :
      (flag : ℕ)
      → is_nonblocking flag ≡ false
      → (pre : List (List ℕ)) (last : List ℕ) (rest : List (List ℕ)) (ct ct1 ct' : CtData T) (k : ℕ)
      → All IsSome pre
      → IsSome last
      → run_reads g h ct pre ≡ ok (ct1, 0)
      → run_reads g h ct (pre ++ last ∷ []) ≡ ok (ct', k)
      → 0 < k
      → rpc_cb g h ct flag (pre ++ last ∷ rest) ≡ ok (ct', k, rest)
  unfolding rpc_cb run_reads
  rpc_cb_stops flag blocks [] [] rest ct ct1 ct' k some_pre some_last quiet whole pos =
      absurd (omega (arith, some_last))
  rpc_cb_stops flag blocks [] (b ∷ buf) rest ct ct1 ct' k some_pre some_last quiet whole pos =
      let (p, q, e1, e2, same, sum) = first_read ct ct' (b ∷ buf) [] k whole in
      let none_more : 0 ≡ q.1 = Ensures-ok (λ (r : CtData T × ℕ). 0 ≡ r.1) refl e2 in
      let at_end : p.0 ≡ q.0 = Ensures-ok (λ (r : CtData T × ℕ). p.0 ≡ r.0) refl e2 in
      let all : p.1 ≡ k = omega (arith, sum, none_more) in
      rw (e1, all, nonzero k pos, at_end ∙ same) refl
  rpc_cb_stops flag blocks ([] ∷ pre) last rest ct ct1 ct' k some_pre some_last quiet whole pos =
      absurd (omega (arith, some_pre.0))
  rpc_cb_stops flag blocks ((b ∷ buf) ∷ pre) last rest ct ct1 ct' k some_pre some_last quiet whole
        pos =
      let (p, q, e1, e2, same, sum) = first_read ct ct' (b ∷ buf) (pre ++ last ∷ []) k whole in
      let (p2, q2, f1, f2, same2, sum2) = first_read ct ct1 (b ∷ buf) pre 0 quiet in
      let twice : p2 ≡ p = Ensures-ok (λ r. p2 ≡ r) refl (sym f1 ∙ e1) in
      let none_yet : p.1 ≡ 0 = omega (arith, ap (λ (r : CtData T × ℕ). r.1) twice, sum2) in
      let all : q.1 ≡ k = omega (arith, none_yet, sum) in
      rw (e1, none_yet, blocks, and_false p.0.ct_nonblocking)
        (rpc_cb_stops flag blocks pre last rest p.0 q2.0 ct' k some_pre.1 some_last
          ((ap (λ (r : CtData T × ℕ). run_reads g h r.0 pre) (sym twice)
            ∙ f2
            ∙ ap (λ n. ok (q2.0, n)) (omega (arith, sum2))))
          (e2 ∙ ap (λ c. ok (c, q.1)) same ∙ ap (λ n. ok (ct', n)) all) pos)
