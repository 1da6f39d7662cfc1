-- ===== src/Rpc/Reply/Answer.antt =====
-- What call_user_cb promises: a reply is handed to the callback of its xid, whichever way the
-- callback was found, and that callback is forgotten.
use unfsclient.Prelude.{
  ℕ, none, [], append-nil, ◌++◌, length, some, arith, ◌+◌, List, ◌≡◌, ◌∷◌, refl, inr, Option-cases,
  inl,
}
use unfsclient.Rpc.Reply.{dispatch_reply, finish_reply, take_callback}
use unfsclient.Rpc.Types.{
  Ght, CtData, Call, CallbackInfo, Host, GhtLaws, first, lookup, erase, erase_absent,
}

-- The calls that wait for a reply, oldest first, the bytes received and the callbacks run.
pub record View : Type 0 where
  pub waiting : List (ℕ × CallbackInfo)
  pub received : ℕ
  pub done : List Call

abbrev pub fired : CallbackInfo → List ℕ → List Call
fired cbi body = elim cbi.callback [
  | none ↦ []
  | some f ↦ record { function = f; private = cbi.cb_private; body = body } ∷ []
]

unfoldable pub reply_to : ℕ → List ℕ → View → View
reply_to xid body v = elim (lookup xid v.waiting) [
  | none ↦ v
  | some cbi ↦ record v { waiting = erase xid v.waiting; done = v.done ++ fired cbi body }
]

unfoldable pub answer : Host → View → List ℕ → View
answer h v msg = elim (h.replymsg msg) [
  | none ↦ v
  | some (xid, body) ↦ reply_to xid body (record v { received = v.received + length msg })
]

module _ {T : Type 0} (g : Ght T) (laws : GhtLaws g) where
  abbrev pub view : CtData T → View
  view ct = record {
    waiting = laws.entries ct.ct_xid_to_ucb;
    received = ct.ct_datarx;
    done = ct.calls;
  }

  -- The short way for the oldest call and the lookup by xid do the same.
  finish_reply-reply_to :
      (ct : CtData T) (l : List (ℕ × CallbackInfo)) (xid : ℕ) (body : List ℕ)
      → laws.entries ct.ct_xid_to_ucb ≡ l
      → view (elim (first l) [
        | none ↦ ct
        | some (cached, _) ↦ finish_reply g (take_callback g ct cached xid) body
      ])
        ≡ reply_to xid body (view ct)
  unfolding reply_to finish_reply take_callback
  finish_reply-reply_to ct [] xid body e = ground (arith)
  finish_reply-reply_to ct ((k, c) ∷ l) xid body e = ground (
    arith,
    append-nil ct.calls,
    laws.remove_first_value ct.ct_xid_to_ucb,
    laws.remove_first_rest ct.ct_xid_to_ucb,
    laws.remove_value ct.ct_xid_to_ucb xid,
    laws.remove_rest ct.ct_xid_to_ucb xid,
    erase_absent xid l,
  )

  -- A complete message does to the view what `answer` promises, whether its call is the oldest one,
  -- another one or none: its bytes are counted, the callback of its xid is run on the bytes behind
  -- the reply header and forgotten, and a message that is no RPC reply changes nothing.
  pub dispatch_reply-answer :
      (h : Host) (ct : CtData T) (msg : List ℕ)
      → view (dispatch_reply g h ct msg) ≡ answer h (view ct) msg
  unfolding dispatch_reply answer
  dispatch_reply-answer h ct msg = elim (Option-cases (h.replymsg msg)) [
    | inl bad ↦ ground (arith, bad)
    | inr ((xid, body), good) ↦
        rw (good, dispatch_reply, answer, laws.first_lem)
          (finish_reply-reply_to (record ct { ct_datarx = ct.ct_datarx + length msg }) _ xid body
            refl)
  ]
