-- ===== src/Rpc/Send/Queue.antt =====
-- The loop of send_buffers neither loses nor repeats a byte.
use unfsclient.Prelude.{
  ℕ, [], ◌++◌, suc, length, ◌≤◌, arith, ◌∷◌, ◌+◌, ◌≡◌, ap, append_assoc, List, take, zero, refl,
  ◌-◌, drop, take_all, Bool-cases, inr, drop-drop, ltb, sym, inl, ok, Bool, true, false, ◌∙◌,
  >>=-eq-ok, ◌&&◌, Ensures-ok, not, if◌then◌else◌, length-take_le, Result, ◌>>=◌, length-append,
  length-drop,
}
use unfsclient.Rpc.Types.{FragBuffer}
use unfsclient.Rpc.Send.{
  after_write, advance, pending, Outcome, again, failed, wrote, Sent, send_list, also_sent, stop,
}

abbrev pub all_pending : List FragBuffer → List ℕ
all_pending [] = []
all_pending (f ∷ fs) = pending f ++ all_pending fs

pub all_pending-append :
    (l m : List FragBuffer) → all_pending (l ++ m) ≡ all_pending l ++ all_pending m
all_pending-append [] m = refl
all_pending-append (f ∷ l) m =
    rw (all_pending-append l m, append_assoc (pending f) (all_pending l) (all_pending m)) refl

-- The buffers lie within their memory.
abbrev pub AllInside : List FragBuffer → Type 0
AllInside [] = Unit {0}
AllInside (f ∷ fs) = (f.fb_current + f.fb_len ≤ length f.fb_base) × AllInside fs

take-drop_more : (n k : ℕ) (xs : List ℕ) → n ≤ k → take n xs ++ take (k - n) (drop n xs) ≡ take k xs
take-drop_more zero k xs le = ap (λ m. take m xs) (omega arith)
take-drop_more (suc n) zero xs le = absurd (omega arith)
take-drop_more (suc n) (suc k) [] le = take_all {A = ℕ} (suc k - suc n) [] (omega arith)
take-drop_more (suc n) (suc k) (x ∷ xs) le =
    let same : suc k - suc n ≡ k - n = omega arith in
    rw same (ap (λ ys. x ∷ ys) (take-drop_more n k xs (omega arith)))

take-take_le : (n k : ℕ) (xs : List ℕ) → n ≤ k → take n (take k xs) ≡ take n xs
take-take_le zero k xs le = refl
take-take_le (suc n) zero xs le = absurd (omega arith)
take-take_le (suc n) (suc k) [] le = refl
take-take_le (suc n) (suc k) (x ∷ xs) le = ap (λ ys. x ∷ ys) (take-take_le n k xs (omega arith))

advance-pending :
    (f : FragBuffer) (n : ℕ)
    → n ≤ f.fb_len
    → take n (pending f) ++ pending (advance n f) ≡ pending f
unfolding advance
advance-pending f n le =
    rw
      (
        take-take_le n f.fb_len (drop f.fb_current f.fb_base) le,
        sym (drop-drop f.fb_current n (f.fb_current + n) f.fb_base refl),
      )
      (take-drop_more n f.fb_len (drop f.fb_current f.fb_base) le)

-- What was written, and what is pending after it, is what was pending before.
after_write-pending :
    (f : FragBuffer) (fs : List FragBuffer) (n : ℕ)
    → n ≤ f.fb_len
    → take n (pending f) ++ all_pending (after_write n f fs) ≡ all_pending (f ∷ fs)
unfolding after_write
after_write-pending f fs n le = elim (Bool-cases (ltb n f.fb_len)) [
  | inl less ↦ rw less (
      sym (append_assoc (take n (pending f)) (pending (advance n f)) (all_pending fs))
      ∙ ap (λ bs. bs ++ all_pending fs) (advance-pending f n le))
  | inr every ↦ rw every (
      ap (λ bs. bs ++ all_pending fs)
        (take-take_le n f.fb_len (drop f.fb_current f.fb_base) le
          ∙ ap (λ k. take k (drop f.fb_current f.fb_base)) (ground (arith, every))))
]

after_write-AllInside :
    (f : FragBuffer) (fs : List FragBuffer) (n : ℕ)
    → AllInside (f ∷ fs)
    → AllInside (after_write n f fs)
unfolding after_write advance
after_write-AllInside f fs n inside = ground arith

-- The bytes of a send_buffers and what it leaves, against what there was.
abbrev Keeps : List FragBuffer → Sent → Type 0
Keeps l s = s.bytes ++ all_pending s.left ≡ all_pending l

-- The count is that of the bytes, and the buffers stay within their memory.
abbrev Counts : Sent → Type 0
Counts s = (s.count ≡ length s.bytes) × AllInside s.left

also_sent-Keeps :
    (f : FragBuffer) (fs : List FragBuffer) (n : ℕ) (s : Sent)
    → n ≤ f.fb_len
    → Keeps (after_write n f fs) s
    → Keeps (f ∷ fs) (also_sent (take n (pending f)) n s)
unfolding also_sent
also_sent-Keeps f fs n s le k =
    append_assoc (take n (pending f)) s.bytes (all_pending s.left)
    ∙ ap (λ bs. take n (pending f) ++ bs) k
    ∙ after_write-pending f fs n le

length-pending :
    (f : FragBuffer) (n : ℕ)
    → n ≤ f.fb_len
    → f.fb_current + f.fb_len ≤ length f.fb_base
    → length (take n (pending f)) ≡ n
length-pending f n le room = rw (take-take_le n f.fb_len (drop f.fb_current f.fb_base) le) (
    length-take_le n (drop f.fb_current f.fb_base)
      (omega (arith, length-drop f.fb_current f.fb_base)))

offered : (n k : ℕ) → (if ltb k n then k else n) ≤ k
offered n k = ground arith

-- What holds where send_list stops, and over each write, holds of the whole run.
module _ (P : List FragBuffer → Sent → Type 0)
    (stops : (l : List FragBuffer) (fine : Bool) (ws : List Outcome) → P l (stop l fine ws))
    (writes : (f : FragBuffer) (fs : List FragBuffer) (n : ℕ) (s : Sent)
      → n ≤ f.fb_len
      → P (after_write n f fs) s
      → P (f ∷ fs) (also_sent (take n (pending f)) n s)) where
  write_step :
      (b : Bool) (f : FragBuffer) (fs : List FragBuffer) (k : ℕ) (ws : List Outcome)
      → (later : Result Sent) (s : Sent) → k ≤ f.fb_len
      → ((s1 : Sent) → later ≡ ok s1 → P (after_write k f fs) s1)
      → ((if ltb k f.fb_len && not b then ok (stop (after_write k f fs) true ws) else later)
          >>= λ s1. ok (also_sent (take k (pending f)) k s1))
        ≡ ok s
      → P (f ∷ fs) s
  write_step b f fs k ws later s le rest_holds e =
      let (s1, e1, e2) =
        >>=-eq-ok
          (if ltb k f.fb_len && not b then ok (stop (after_write k f fs) true ws) else later)
          (λ s1. ok (also_sent (take k (pending f)) k s1)) e in
      Ensures-ok (P (f ∷ fs)) (writes f fs k s1 le (either (ltb k f.fb_len && not b) s1 e1)) e2
    where
      either :
          (c : Bool) (s1 : Sent)
          → (if c then ok (stop (after_write k f fs) true ws) else later) ≡ ok s1
          → P (after_write k f fs) s1
      either true s1 e1 =
          Ensures-ok (P (after_write k f fs)) (stops (after_write k f fs) true ws) e1
      either false s1 e1 = rest_holds s1 e1

  pub send_list-induct :
      (b : Bool) (l : List FragBuffer) (ws : List Outcome) (s : Sent)
      → send_list b l ws ≡ ok s
      → P l s
  unfolding send_list
  send_list-induct b [] ws s e = Ensures-ok (P []) (stops [] true ws) e
  send_list-induct b (f ∷ fs) [] s e = cc
  send_list-induct b (f ∷ fs) (failed ∷ ws) s e =
      Ensures-ok (P (f ∷ fs)) (stops (f ∷ fs) false ws) e
  send_list-induct true (f ∷ fs) (again ∷ ws) s e = send_list-induct true (f ∷ fs) ws s e
  send_list-induct false (f ∷ fs) (again ∷ ws) s e =
      Ensures-ok (P (f ∷ fs)) (stops (f ∷ fs) true ws) e
  send_list-induct b (f ∷ fs) (wrote n ∷ ws) s e =
      let k = (if ltb f.fb_len n then f.fb_len else n) in
      write_step b f fs k ws (send_list b (after_write k f fs) ws) s (offered n f.fb_len)
        (λ s1. send_list-induct b (after_write k f fs) ws s1) e

pub send_list-Keeps :
    (b : Bool) (l : List FragBuffer) (ws : List Outcome) (s : Sent)
    → send_list b l ws ≡ ok s
    → Keeps l s
unfolding stop
send_list-Keeps = send_list-induct Keeps (λ l fine ws. refl) also_sent-Keeps

pub send_list-Counts :
    (b : Bool) (l : List FragBuffer) (ws : List Outcome) (s : Sent)
    → AllInside l
    → send_list b l ws ≡ ok s
    → Counts s
unfolding stop also_sent
send_list-Counts b l ws s inside e =
    send_list-induct (λ l s. AllInside l → Counts s) (λ l fine ws inside. (refl, inside))
      (λ f fs n s le rest_holds inside.
        let (same, inside') = rest_holds (after_write-AllInside f fs n inside) in
        (
          omega (
            arith,
            same,
            length-append (take n (pending f)) s.bytes,
            length-pending f n le inside.0,
          ),
          inside',
        ))
      b l ws s e inside
