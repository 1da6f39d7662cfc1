-- ===== src/Nfsclient/Reply.antt =====
-- A call of src/nfsv3/nfs3.c and the reply to it.
use unfsclient.Prelude.{
  ℕ, ◌≡◌, Option, List, ◌>>=◌, true, ok, Bool, some, fault, Result, stuck, refl, sym, ap,
  append-nil, ◌++◌, ◌∙◌, length, [], ◌+◌, false, Ensures-ok, none,
}
use unfsclient.Rpc.Types.{GhtLaws, Ght, CtData, CallbackInfo, Host, be32, lookup}
use unfsclient.Xdr.Library.{XdrLib, XdrLaws}
use unfsclient.Rpc.Send.{Outcome}
use unfsclient.Nfsclient.Context.{NfsCtx, check_ctx}
use unfsclient.Nfsclient.Call.{call_nfs_cl, open_nfs_cl, nfs3_call, CallEnd, nfs3_proc, keep_nfs_cl}
use unfsclient.Rpc.Client.{clnttcp_nb_call, ClntStat, rpc_success, next_xid, read_rpc_response}
use unfsclient.Rpc.Create.{Net}
use unfsclient.Rpc.Receive.Stream.{concat}
use unfsclient.Rpc.Reply.{dispatch_reply}
use unfsclient.Rpc.Client.Callback.{clnttcp_nb_call-dispatch_reply}
use unfsclient.Rpc.Reply.Answer.{view, fired}
use unfsclient.Rpc.Send.Queue.{all_pending, AllInside}
use unfsclient.Nfs3.Procs.{number, xdr_res, Proc, Res, xdr_args, Args}
use unfsclient.Nfs3.Messages.{xdr_to-encode}
use unfsclient.Nfs3.Convert.{xdr_to}
use unfsclient.Nfs3.Dispatch.{xdr_to_res_lem, xdr_to_res}
use unfsclient.Nfs3.Codecs.{xdr_res-IsCodec}
use unfsclient.Rpc.Sample.{ucbi}

module _ {T : Type 0} where
  Succeeds :
      NfsCtx T
      → List Outcome
      → List (List ℕ)
      → Result (CtData T × ClntStat × List Outcome × List (List ℕ))
      → Type 0
  Succeeds ctx' behind unread r =
      (ct' : CtData T) × (ctx'.nfs_cl ≡ some ct') × (r ≡ ok (ct', rpc_success, behind, unread))

  open_cl : CallEnd T → Option (CtData T)
  open_cl (none, s, ws, rs) = none
  open_cl (some ctx, s, ws, rs) = ctx.nfs_cl

  -- The status and the handle of a call that succeeded.
  succeeded :
      (ctx ctx' : NfsCtx T) (r : Result (CtData T × ClntStat × List Outcome × List (List ℕ)))
      → (behind : List Outcome) (unread : List (List ℕ))
      → (r >>= keep_nfs_cl ctx) ≡ ok (some ctx', rpc_success, behind, unread)
      → Succeeds ctx' behind unread r
  unfolding keep_nfs_cl Succeeds open_cl
  succeeded ctx ctx' fault behind unread e = cc
  succeeded ctx ctx' stuck behind unread e = cc
  succeeded ctx ctx' (ok (ct', stat, behind', unread')) behind unread e =
      let left : CallEnd T = (some (record ctx { nfs_cl = some ct' }), stat, behind', unread') in
      let same = Ensures-ok (λ c. left ≡ c) refl e in
      (ct', sym (ap open_cl same), ap (λ c. ok (ct', c.1, c.2, c.3)) same)

module _ {T : Type 0} (g : Ght T) (h : Host) (net : Net T)
    (rec_stream : List ℕ → ℕ → Option (List ℕ) → List (List ℕ) × Bool) where
  -- An open handle is called on.
  nfs3_call_open :
      (proc : ℕ) (args : Option (List ℕ)) (ctx : NfsCtx T) (ct : CtData T) (cbi : CallbackInfo)
      → (callflag : Option ℕ) (ws : List Outcome) (reads : List (List ℕ))
      → check_ctx (some ctx) ≡ true
      → ctx.nfs_cl ≡ some ct
      → nfs3_call g h net rec_stream proc args (some ctx) cbi callflag ws reads ≡ (
          clnttcp_nb_call g h (λ mcall. rec_stream mcall proc args) ct cbi callflag ws reads
          >>= keep_nfs_cl ctx)
  unfolding nfs3_call open_nfs_cl call_nfs_cl
  nfs3_call_open proc args ctx ct cbi callflag ws reads fine e = rw (fine, e) refl

module _ {T : Type 0} (g : Ght T) (laws : GhtLaws g) (h : Host)
    (alloc : (n : ℕ) → h.malloc n ≡ true) (net : Net T)
    (rec_stream : List ℕ → ℕ → Option (List ℕ) → List (List ℕ) × Bool) (x : XdrLib)
    (xlaws : XdrLaws x) where
  -- The buffers that a call writes.
  abbrev pub call_bytes : (p : Proc) → Args p → List ℕ → List ℕ
  call_bytes p args mcall =
      concat (rec_stream mcall (number p) ((xdr_args x false p).encode args)).0

  -- A call of any of the 22 procedures and the reply to it. The context is accepted and has a handle
  -- whose queued buffers lie within their memory, there is memory for every request, the flag
  -- forbids reading, the call's xid is free, and the call succeeds: then the bytes of the record
  -- stream for the procedure's number and encoded arguments have joined the queue in order; and a
  -- message with the call's xid whose body is an encoded result of the procedure runs the callback
  -- of this call on that body, leaves waiting the calls that waited before, and the body is read as
  -- that result by the procedure's xdr_to function.
  pub nfs3_proc-xdr_to_res :
      (p : Proc) (args : Args p) (res : Res p) (ctx ctx' : NfsCtx T) (ct : CtData T)
      → (ucbi : CallbackInfo) (flag : ℕ) (ws behind : List Outcome) (reads unread : List (List ℕ))
      → (msg body : List ℕ) → check_ctx (some ctx) ≡ true
      → ctx.nfs_cl ≡ some ct
      → read_rpc_response flag ≡ false
      → AllInside ct.ct_sndlist
      → lookup (be32 (next_xid ct.ct_mcall)) (laws.entries ct.ct_xid_to_ucb) ≡ none
      → nfs3_proc g h net rec_stream x p args (some ctx) ucbi (some flag) ws reads
        ≡ ok (some ctx', rpc_success, behind, unread)
      → h.replymsg msg ≡ some (be32 (next_xid ct.ct_mcall), body)
      → (xdr_res x false p).encode res ≡ some body
      → (ct' : CtData T) × (ctx'.nfs_cl ≡ some ct')
        × (ct'.wire ++ all_pending ct'.ct_sndlist
            ≡ ct.wire ++ (all_pending ct.ct_sndlist ++ call_bytes p args (next_xid ct.ct_mcall)))
        × (view g laws (dispatch_reply g h ct' msg) ≡ record {
          waiting = laws.entries ct.ct_xid_to_ucb;
          received = ct.ct_datarx + length msg;
          done = ct.calls ++ fired ucbi body;
        })
        × (xdr_to_res x p false true (some body) (length body) ≡ some res)
  unfolding nfs3_proc Succeeds
  nfs3_proc-xdr_to_res p args res ctx ctx' ct ucbi flag ws behind reads unread msg body fine is_open
        no_rx inside new e reply enc =
      let encoded = (xdr_args x false p).encode args in
      let marshal : List ℕ → List (List ℕ) × Bool = λ mcall. rec_stream mcall (number p) encoded in
      let (ct', kept, called) =
        succeeded ctx ctx' (clnttcp_nb_call g h marshal ct ucbi (some flag) ws reads) behind unread
          (sym (
              nfs3_call_open g h net rec_stream (number p) encoded ctx ct ucbi (some flag) ws reads
                fine is_open)
            ∙ e) in
      let (queued, answered) =
        clnttcp_nb_call-dispatch_reply g laws h alloc marshal ct ct' ucbi flag ws behind reads
          unread msg body no_rx inside new called reply in
      let whole : xdr_to (xdr_res x false p) true (some body) (length body) ≡ some res =
        rw append-nil at
          (xdr_to-encode (xdr_res x false p) (xdr_res-IsCodec x xlaws p) res body [] enc) in
      (ct', kept, queued, answered, rw xdr_to_res_lem whole)
