-- ===== src/Rpc/Types.antt =====
-- The state of src/clnt_tcp_nb.c, and what it uses of other libraries.
use unfsclient.Prelude.{
  ℕ, ◌+◌, ◌≡◌, ◌*◌, ◌^◌, ◌%◌, Bool, List, [], ◌∷◌, ◌++◌, Option, none, some, ℤ, ◌==◌, leb,
  if◌then◌else◌, Result, ok, fault, length, take, drop, arith, refl,
}

-- A buffer of the send list, or a received fragment. `fb_current` is an offset into `fb_base`.
pub record FragBuffer : Type 0 where
  pub fb_base : List ℕ
  pub fb_current : ℕ
  pub fb_len : ℕ

-- `rs_frag_buf_base` is the buffer that it points to.
pub record RpcRecordState : Type 0 where
  pub rs_frag_list : List FragBuffer
  pub rs_recordsize : ℕ
  pub rs_frag_remaining : ℤ
  pub rs_frag_buf_base : List ℕ
  pub rs_frag_bufsz : ℕ
  pub rs_frag_offset : ℕ
  pub rs_fh_remaining : ℕ
  pub rs_fraghdr : List ℕ
  pub rs_last_frag : Bool

-- Function and data pointers are numbers; `none` is NULL.
pub record CallbackInfo : Type 0 where
  pub callback : Option ℕ
  pub cb_private : ℕ

-- A user callback that was run: the function, its private pointer and the bytes handed to it.
pub record Call : Type 0 where
  pub function : ℕ
  pub private : ℕ
  pub body : List ℕ

-- `T` is the hash table type of libghthash. `ct_pendingcalls` is an int, as the word of 32 bits that
-- stands for it, and `ct_mcall` the call header up to `ct_mpos`. `calls` is the history of the callbacks run, and
-- `wire` the history of the bytes that write(2) accepted.
pub record CtData (T : Type 0) : Type 0 where
  pub ct_record_state : RpcRecordState
  pub ct_xid_to_ucb : T
  pub ct_datarx : ℕ
  pub ct_datatx : ℕ
  pub ct_pendingcalls : ℕ
  pub ct_mcall : List ℕ
  pub ct_sndlist : List FragBuffer
  pub ct_nonblocking : Bool
  pub calls : List Call
  pub wire : List ℕ

-- libc and glibc's RPC. `malloc n` says whether a request for n bytes is served, `filler` is what
-- fresh memory holds, and `replymsg` is xdr_replymsg on a whole message: the xid and the bytes
-- behind the reply header.
pub record Host : Type 0 where
  pub malloc : ℕ → Bool
  pub filler : ℕ
  pub replymsg : List ℕ → Option (ℕ × List ℕ)

-- The calls of libghthash, on a table from xids to callbacks.
pub record Ght (T : Type 0) : Type 0 where
  pub ght_insert : T → CallbackInfo → ℕ → T
  pub ght_first : T → Option (ℕ × CallbackInfo)
  pub ght_remove_first : T → T × Option CallbackInfo
  pub ght_remove : T → ℕ → T × Option CallbackInfo

module _ {ℓ} {A : Type ℓ} where
  abbrev pub lookup : ℕ → List (ℕ × A) → Option A
  lookup k [] = none
  lookup k ((j, a) ∷ m) = if j == k then some a else lookup k m

  abbrev pub erase : ℕ → List (ℕ × A) → List (ℕ × A)
  erase k [] = []
  erase k ((j, a) ∷ m) = if j == k then m else (j, a) ∷ erase k m

  pub erase_absent : (k : ℕ) (m : List (ℕ × A)) → lookup k m ≡ none → erase k m ≡ m
  erase_absent k [] e = refl
  erase_absent k ((j, a) ∷ m) e = ground (arith, erase_absent k m)

  abbrev pub first : List (ℕ × A) → Option (ℕ × A)
  first [] = none
  first (e ∷ m) = some e

  abbrev pub first_value : List (ℕ × A) → Option A
  first_value [] = none
  first_value ((j, a) ∷ m) = some a

  abbrev pub rest : List (ℕ × A) → List (ℕ × A)
  rest [] = []
  rest (e ∷ m) = m

  abbrev pub insert : ℕ → A → List (ℕ × A) → List (ℕ × A)
  insert k a m = elim (lookup k m) [ none ↦ m ++ (k, a) ∷ [] | some b ↦ m ]

-- What include/ght_hash_table.h documents: a map that iterates from the oldest entry, and does
-- not insert a key twice.
pub record GhtLaws {T : Type 0} (g : Ght T) : Type 0 where
  pub entries : T → List (ℕ × CallbackInfo)
  pub entries-insert :
      (t : T) (c : CallbackInfo) (k : ℕ) → entries (g.ght_insert t c k) ≡ insert k c (entries t)
  pub first_lem : (t : T) → g.ght_first t ≡ first (entries t)
  pub remove_first_value : (t : T) → (g.ght_remove_first t).1 ≡ first_value (entries t)
  pub remove_first_rest : (t : T) → entries (g.ght_remove_first t).0 ≡ rest (entries t)
  pub remove_value : (t : T) (k : ℕ) → (g.ght_remove t k).1 ≡ lookup k (entries t)
  pub remove_rest : (t : T) (k : ℕ) → entries (g.ght_remove t k).0 ≡ erase k (entries t)

-- sizeof (struct frag_buffer), on a 64-bit machine.
abbrev pub sizeof_frag_buffer : ℕ
sizeof_frag_buffer = 40

-- memcpy (buf + off, src, n), n the length of src.
unfoldable pub memcpy : List ℕ → ℕ → List ℕ → Result (List ℕ)
memcpy buf off src =
    if leb (off + length src) (length buf)
    then ok (take off buf ++ (src ++ drop (off + length src) buf))
    else fault

-- sizeof (struct callback_info), on a 64-bit machine.
abbrev pub sizeof_callback_info : ℕ
sizeof_callback_info = 16

-- memcpy (&x, hdr, 4) followed by ntohl: a big-endian word.
abbrev pub be32 : List ℕ → ℕ
be32 [] = 0
be32 (a ∷ []) = 0
be32 (a ∷ b ∷ []) = 0
be32 (a ∷ b ∷ c ∷ []) = 0
be32 (a ∷ b ∷ c ∷ d ∷ _) = (a * 2 ^ 24 + b * 2 ^ 16 + c * 2 ^ 8 + d) % 2 ^ 32
