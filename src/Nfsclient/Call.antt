-- ===== src/Nfsclient/Call.antt =====
-- The calls of src/nfsv3/nfs3.c and src/nfsv3/mount3.c over the RPC client.
use unfsclient.Prelude.{
  ℕ, if◌then◌else◌, negsuc, false, ◌==◌, ok, ◌>>=◌, Option, fault, none, Result, ◌%◌, List, Bool,
  some,
}
use unfsclient.Rpc.Create.{clnttcp_nb_create, clnttcp_b_create, Net, Sockaddr}
use unfsclient.Rpc.Types.{Host, Ght, CtData, CallbackInfo}
use unfsclient.Xdr.Library.{XdrLib}
use unfsclient.Nfsclient.Context.{check_ctx, NfsCtx}
use unfsclient.Rpc.Client.{clnttcp_nb_call, ClntStat, rpc_systemerror}
use unfsclient.Nfs3.Procs.{Proc, number, Args, xdr_args}
use unfsclient.Rpc.Send.{Outcome}
use unfsclient.Xdr.Codec.{Codec, void}
use unfsclient.Xdr.Mount.{xdr_dirpath}

abbrev pub nfs_program : ℕ
nfs_program = 100003

abbrev pub mount_program : ℕ
mount_program = 100005

abbrev pub nfs_v3 : ℕ
nfs_v3 = 3

abbrev pub mount_v3 : ℕ
mount_v3 = 3

-- What a call gives back: the context, the status, and the outcomes and reads not used.
abbrev pub CallEnd : Type 0 → Type 0
CallEnd T = Option (NfsCtx T) × ClntStat × List Outcome × List (List ℕ)

-- The calls of src/nfsv3/mount3.c, their numbers and their arguments.
pub data MountProc : Type 0 where
  mount3_null mount3_mnt mount3_dump mount3_umnt mount3_umntall mount3_export : MountProc

abbrev pub mount_number : MountProc → ℕ
mount_number mount3_null = 0
mount_number mount3_mnt = 1
mount_number mount3_dump = 2
mount_number mount3_umnt = 3
mount_number mount3_umntall = 4
mount_number mount3_export = 5

abbrev pub MountArgs : MountProc → Type 0
MountArgs mount3_null = Unit {0}
MountArgs mount3_mnt = List ℕ
MountArgs mount3_dump = Unit {0}
MountArgs mount3_umnt = List ℕ
MountArgs mount3_umntall = Unit {0}
MountArgs mount3_export = Unit {0}

abbrev pub xdr_mount_args : XdrLib → (p : MountProc) → Codec (MountArgs p)
xdr_mount_args x mount3_null = void
xdr_mount_args x mount3_mnt = xdr_dirpath x
xdr_mount_args x mount3_dump = void
xdr_mount_args x mount3_umnt = xdr_dirpath x
xdr_mount_args x mount3_umntall = void
xdr_mount_args x mount3_export = void

-- The handle is changed in place.
unfoldable pub keep_nfs_cl :
    {T : Type 0}
    → NfsCtx T
    → CtData T × ClntStat × List Outcome × List (List ℕ)
    → Result (CallEnd T)
keep_nfs_cl ctx (ct, stat, behind, unread) =
    ok (some (record ctx { nfs_cl = some ct }), stat, behind, unread)

unfoldable pub keep_mnt_cl :
    {T : Type 0}
    → NfsCtx T
    → CtData T × ClntStat × List Outcome × List (List ℕ)
    → Result (CallEnd T)
keep_mnt_cl ctx (ct, stat, behind, unread) =
    ok (some (record ctx { nfs_mnt_cl = some ct }), stat, behind, unread)

-- `rec_stream mcall proc args` is glibc's record stream on a call: the buffers that it writes for
-- the header `mcall`, the procedure, the credentials and the encoded arguments, and whether it
-- succeeds; `none` stands for arguments that their routine refuses.
module _ {T : Type 0} (g : Ght T) (h : Host) (net : Net T)
    (rec_stream : List ℕ → ℕ → Option (List ℕ) → List (List ℕ) × Bool) where
  -- `-1` is RPC_ANYSOCK. setsockopt changes nothing that is kept.
  unfoldable pub create_nfs_cl : NfsCtx T → Sockaddr → Option (CtData T) × Sockaddr
  create_nfs_cl ctx srv =
      if ctx.nfs_connflags % 2 == 1
      then clnttcp_nb_create h net srv nfs_program nfs_v3 (negsuc 0) ctx.nfs_wsize ctx.nfs_rsize
      else clnttcp_b_create h net srv nfs_program nfs_v3 (negsuc 0) ctx.nfs_wsize ctx.nfs_rsize

  -- The handle for nfsd, made when there is none; a NULL address is read.
  unfoldable pub open_nfs_cl : NfsCtx T → Result (NfsCtx T)
  unfolding create_nfs_cl
  open_nfs_cl ctx = elim ctx.nfs_cl [
    | some ct ↦ ok ctx
    | none ↦ elim ctx.nfs_srv [
      | none ↦ fault
      | some (b, srv) ↦
          let (cl, found) = create_nfs_cl ctx srv in
          ok (record ctx { nfs_cl = cl; nfs_srv = some (b, found) })
    ]
  ]

  unfoldable pub call_nfs_cl :
      ℕ
      → Option (List ℕ)
      → CallbackInfo
      → Option ℕ
      → List Outcome
      → List (List ℕ)
      → NfsCtx T
      → Option (CtData T)
      → Result (CallEnd T)
  unfolding keep_nfs_cl
  call_nfs_cl proc args cbi callflag ws reads ctx none = ok (some ctx, rpc_systemerror, ws, reads)
  call_nfs_cl proc args cbi callflag ws reads ctx (some ct) =
      clnttcp_nb_call g h (λ mcall. rec_stream mcall proc args) ct cbi callflag ws reads
      >>= keep_nfs_cl ctx

  -- `args` are the encoded arguments.
  unfoldable pub nfs3_call :
      ℕ
      → Option (List ℕ)
      → Option (NfsCtx T)
      → CallbackInfo
      → Option ℕ
      → List Outcome
      → List (List ℕ)
      → Result (CallEnd T)
  unfolding open_nfs_cl call_nfs_cl
  nfs3_call proc args none cbi callflag ws reads = ok (none, rpc_systemerror, ws, reads)
  nfs3_call proc args (some ctx) cbi callflag ws reads =
      if check_ctx (some ctx)
      then (open_nfs_cl ctx >>= λ ctx'.
          call_nfs_cl proc args cbi callflag ws reads ctx' ctx'.nfs_cl)
      else ok (some ctx, rpc_systemerror, ws, reads)

  -- The handle for mountd, always non-blocking.
  unfoldable pub open_mnt_cl : NfsCtx T → Result (NfsCtx T)
  open_mnt_cl ctx = elim ctx.nfs_mnt_cl [
    | some ct ↦ ok ctx
    | none ↦ elim ctx.nfs_mnt [
      | none ↦ fault
      | some (b, srv) ↦
          let (cl, found) = clnttcp_nb_create h net srv mount_program mount_v3 (negsuc 0) 0 0 in
          ok (record ctx { nfs_mnt_cl = cl; nfs_mnt = some (b, found) })
    ]
  ]

  unfoldable pub call_mnt_cl :
      ℕ
      → Option (List ℕ)
      → CallbackInfo
      → Option ℕ
      → List Outcome
      → List (List ℕ)
      → NfsCtx T
      → Option (CtData T)
      → Result (CallEnd T)
  unfolding keep_mnt_cl
  call_mnt_cl proc args cbi callflag ws reads ctx none = ok (some ctx, rpc_systemerror, ws, reads)
  call_mnt_cl proc args cbi callflag ws reads ctx (some ct) =
      clnttcp_nb_call g h (λ mcall. rec_stream mcall proc args) ct cbi callflag ws reads
      >>= keep_mnt_cl ctx

  unfoldable pub mount3_call :
      ℕ
      → Option (List ℕ)
      → Option (NfsCtx T)
      → CallbackInfo
      → Option ℕ
      → List Outcome
      → List (List ℕ)
      → Result (CallEnd T)
  unfolding open_mnt_cl call_mnt_cl
  mount3_call proc args none cbi callflag ws reads = ok (none, rpc_systemerror, ws, reads)
  mount3_call proc args (some ctx) cbi callflag ws reads =
      if check_ctx (some ctx)
      then (open_mnt_cl ctx >>= λ ctx'.
          call_mnt_cl proc args cbi callflag ws reads ctx' ctx'.nfs_mnt_cl)
      else ok (some ctx, rpc_systemerror, ws, reads)

  module _ (x : XdrLib) where
    -- nfs3_null to nfs3_commit: each passes its number and its routine. The arguments are encoded
    -- with their payload.
    unfoldable pub nfs3_proc :
        (p : Proc)
        → Args p
        → Option (NfsCtx T)
        → CallbackInfo
        → Option ℕ
        → List Outcome
        → List (List ℕ)
        → Result (CallEnd T)
    unfolding nfs3_call
    nfs3_proc p args = nfs3_call (number p) ((xdr_args x false p).encode args)

    -- mount3_mnt to mount3_export.
    unfoldable pub mount3_proc :
        (p : MountProc)
        → MountArgs p
        → Option (NfsCtx T)
        → CallbackInfo
        → Option ℕ
        → List Outcome
        → List (List ℕ)
        → Result (CallEnd T)
    unfolding mount3_call
    mount3_proc p args = mount3_call (mount_number p) ((xdr_mount_args x p).encode args)
