-- ===== src/Rpc/Client/Calls.antt =====
-- Calls of clnttcp_nb_call of src/clnt_tcp_nb.c after one another.
use unfsclient.Prelude.{
  ℕ, zero, suc, ◌<◌, ◌≡◌, ◌≢◌, ◌∙◌, sym, refl, ap, arith, List, [], ◌∷◌, ◌++◌, All, All-append,
  Bool, true, false, none, some, ok, map, length, length-append, subst, ne→==, ◌^◌,
}
use unfsclient.Rpc.Types.{CtData, Host, Ght, GhtLaws, CallbackInfo, lookup, be32}
use unfsclient.Rpc.Send.{Outcome}
use unfsclient.Rpc.Send.Queue.{AllInside}
use unfsclient.Rpc.Client.{clnttcp_nb_call, read_rpc_response, rpc_success, next_xid}
use unfsclient.Rpc.Client.Callback.{Called, clnttcp_nb_call-Called}
use unfsclient.Rpc.Client.Xids.{IsXid, after, be32-after-ne}

-- No two are equal.
abbrev pub AllDistinct : List ℕ → Type 0
AllDistinct [] = Unit {0}
AllDistinct (k ∷ ks) = All (λ j. j ≢ k) ks × AllDistinct ks

distinct_snoc :
    (ks : List ℕ) (k : ℕ) → AllDistinct ks → All (λ j. j ≢ k) ks → AllDistinct (ks ++ k ∷ [])
distinct_snoc [] k d h = (tt, tt)
distinct_snoc (j ∷ ks) k d h =
    (All-append (λ i. i ≢ j) ks (k ∷ []) d.0 ((λ e. h.0 (sym e)), tt), distinct_snoc ks k d.1 h.1)

abbrev pub keys : List (ℕ × CallbackInfo) → List ℕ
keys = map (λ e. e.0)

abbrev pub values : List (ℕ × CallbackInfo) → List CallbackInfo
values = map (λ e. e.1)

keys_snoc :
    (m : List (ℕ × CallbackInfo)) (k : ℕ) (c : CallbackInfo)
    → (keys (m ++ (k, c) ∷ []) ≡ keys m ++ k ∷ [])
      × (values (m ++ (k, c) ∷ []) ≡ values m ++ c ∷ [])
keys_snoc [] k c = (refl, refl)
keys_snoc (e ∷ m) k c =
    let (same, same') = keys_snoc m k c in (ap (◌∷◌ e.0) same, ap (◌∷◌ e.1) same')

lookup_new : (m : List (ℕ × CallbackInfo)) (k : ℕ) → All (λ j. j ≢ k) (keys m) → lookup k m ≡ none
lookup_new [] k h = refl
lookup_new ((j, c) ∷ m) k h = rw (ne→== j k h.0) (lookup_new m k h.1)

-- The xids of the first `n` calls after the header `bs`.
xids : ℕ → List ℕ → List ℕ
xids zero bs = []
xids (suc n) bs = xids n bs ++ be32 (after (suc n) bs) ∷ []

xids_new :
    (m n : ℕ) (bs : List ℕ)
    → IsXid bs
    → m < n
    → n < 2 ^ 32
    → All (λ j. j ≢ be32 (after n bs)) (xids m bs)
unfolding xids
xids_new zero n bs h lt few = tt
xids_new (suc m) n bs h lt few =
    All-append (λ j. j ≢ be32 (after n bs)) (xids m bs) (be32 (after (suc m) bs) ∷ [])
      (xids_new m n bs h (omega arith) few) (be32-after-ne (suc m) n bs h lt (omega arith), tt)

xids_distinct : (n : ℕ) (bs : List ℕ) → IsXid bs → n < 2 ^ 32 → AllDistinct (xids n bs)
unfolding xids
xids_distinct zero bs h few = tt
xids_distinct (suc n) bs h few =
    distinct_snoc (xids n bs) (be32 (after (suc n) bs)) (xids_distinct n bs h (omega arith))
      (xids_new n (suc n) bs h (omega arith) few)

module _ {T : Type 0} (g : Ght T) (h : Host) where
  -- Calls that succeeded, with the callbacks of `us` in this order, and none of which read a reply.
  pub data Calls (ct : CtData T) : List CallbackInfo → CtData T → Type 0 where
    calls_none : Calls ct [] ct
    calls_more :
        {us : List CallbackInfo} {ct1 ct2 : CtData T}
        → Calls ct us ct1
        → (marshal : List ℕ → List (List ℕ) × Bool) (ucbi : CallbackInfo) (flag : ℕ)
        → (ws behind : List Outcome) (reads later : List (List ℕ)) → read_rpc_response flag ≡ false
        → clnttcp_nb_call g h marshal ct1 ucbi (some flag) ws reads
          ≡ ok (ct2, rpc_success, behind, later)
        → Calls ct (us ++ ucbi ∷ []) ct2

module _ {T : Type 0} (g : Ght T) (laws : GhtLaws g) (h : Host)
    (alloc : (n : ℕ) → h.malloc n ≡ true) where
  record Entered (ct ct' : CtData T) (us : List CallbackInfo) : Type 0 where
    inside : AllInside ct'.ct_sndlist
    header : ct'.ct_mcall ≡ after (length us) ct.ct_mcall
    under : keys (laws.entries ct'.ct_xid_to_ucb) ≡ xids (length us) ct.ct_mcall
    held : values (laws.entries ct'.ct_xid_to_ucb) ≡ us

  Entered-more :
      (ct ct1 ct2 : CtData T) (us : List CallbackInfo) (ucbi : CallbackInfo) (bs : List ℕ)
      → Entered ct ct1 us
      → Called g laws h alloc ct1 ct2 ucbi (next_xid ct1.ct_mcall) bs
      → Entered ct ct2 (us ++ ucbi ∷ [])
  unfolding after xids
  Entered-more ct ct1 ct2 us ucbi bs e c =
      let one : length (us ++ ucbi ∷ []) ≡ suc (length us) =
        length-append us (ucbi ∷ []) ∙ omega arith in
      let (ks, vs) =
        keys_snoc (laws.entries ct1.ct_xid_to_ucb) (be32 (next_xid ct1.ct_mcall)) ucbi in
      record {
        inside = c.still_inside;
        header = c.sent_mcall ∙ ap next_xid e.header ∙ rw one refl;
        under = ap keys c.waits ∙ ks ∙ rw (e.under, e.header, one) refl;
        held = ap values c.waits ∙ vs ∙ ap (λ l. l ++ ucbi ∷ []) e.held;
      }

  Calls-Entered :
      (ct ct' : CtData T) (us : List CallbackInfo)
      → IsXid ct.ct_mcall
      → AllInside ct.ct_sndlist
      → laws.entries ct.ct_xid_to_ucb ≡ []
      → Calls g h ct us ct'
      → length us < 2 ^ 32
      → Entered ct ct' us
  unfolding after xids
  Calls-Entered ct _ _ word inside empty calls_none few = record {
    inside = inside;
    header = refl;
    under = ap keys empty;
    held = ap values empty;
  }
  Calls-Entered ct _ _ word inside empty
        (calls_more {us = us} {ct1 = ct1} {ct2 = ct2} before marshal ucbi flag ws behind reads later
          no_rx made)
        few =
      let fewer : suc (length us) < 2 ^ 32 = omega (arith, few, length-append us (ucbi ∷ [])) in
      let e = Calls-Entered ct ct1 us word inside empty before (omega (arith, fewer)) in
      let new : lookup (be32 (next_xid ct1.ct_mcall)) (laws.entries ct1.ct_xid_to_ucb) ≡ none =
        lookup_new (laws.entries ct1.ct_xid_to_ucb) (be32 (next_xid ct1.ct_mcall)) (
          rw (e.under, e.header)
            (xids_new (length us) (suc (length us)) ct.ct_mcall word (omega arith) fewer)) in
      Entered-more ct ct1 ct2 us ucbi _ e (
        clnttcp_nb_call-Called g laws h alloc marshal ct1 ct2 ucbi flag ws behind reads later no_rx
          e.inside new made)

  -- Fewer than 2 ^ 32 calls of clnttcp_nb_call after one another that succeed and read no reply,
  -- from a handle for which no call waits, whose header begins with a word of four bytes and whose
  -- queued buffers lie within their memory, with memory for every request: the table has an entry
  -- for each call, in their order and with its callback, and no two under the same xid.
  pub clnttcp_nb_call-AllDistinct :
      (ct ct' : CtData T) (us : List CallbackInfo)
      → IsXid ct.ct_mcall
      → AllInside ct.ct_sndlist
      → laws.entries ct.ct_xid_to_ucb ≡ []
      → Calls g h ct us ct'
      → length us < 2 ^ 32
      → (values (laws.entries ct'.ct_xid_to_ucb) ≡ us)
        × AllDistinct (keys (laws.entries ct'.ct_xid_to_ucb))
  clnttcp_nb_call-AllDistinct ct ct' us word inside empty calls few =
      let e = Calls-Entered ct ct' us word inside empty calls few in
      (e.held, subst AllDistinct (sym e.under) (xids_distinct (length us) ct.ct_mcall word few))
