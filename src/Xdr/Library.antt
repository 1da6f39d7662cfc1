-- ===== src/Xdr/Library.antt =====
-- The routines of glibc's XDR library that src/nfsv3/nfs3_xdr.c calls, as parameters, and what that
-- file builds from them over and over: a union on a flag, and a union on a status.
use unfsclient.Prelude.{
  ℕ, ◌≡◌, List, true, refl, ℤ, some, suc, zero, Option, Bool, false, none, ◌%◌, ◌^◌, ◌-◌, [], ◌∷◌,
  All, length, ◌<◌, arith,
}
use unfsclient.Xdr.Codec.{
  Writes, IsCodec, dep-IsCodec, void-IsCodec, Codec, via, void, dep, via-IsCodec, refuse,
  refuse-IsCodec,
}

-- Enum values and flags of xdr_enum are the 32-bit words that stand for them. `pointer` is
-- xdr_pointer, where NULL is `none`; `ints` is xdr_array of xdr_int. `depth` is how deep a routine may
-- call itself before the stack is used up.
pub record XdrLib : Type 1 where
  pub u_long : Codec ℕ
  pub long : Codec ℤ
  pub u_quad : Codec ℕ
  pub quad : Codec ℤ
  pub enum : Codec ℕ
  pub bool : Codec Bool
  pub opaque : ℕ → Codec (List ℕ)
  pub bytes : ℕ → Codec (List ℕ)
  pub string : ℕ → Codec (List ℕ)
  pub pointer : {A : Type 0} → Codec A → Codec (Option A)
  pub ints : ℕ → Codec (List ℕ)
  pub depth : ℕ

-- RFC 1832: each routine reads what it wrote, from the front, in units of four bytes; and a pointer
-- is written when it is NULL or its object can be written.
pub record XdrLaws (x : XdrLib) : Type 1 where
  pub u_long_law : IsCodec x.u_long
  pub long_law : IsCodec x.long
  pub u_quad_law : IsCodec x.u_quad
  pub quad_law : IsCodec x.quad
  pub enum_law : IsCodec x.enum
  pub bool_law : IsCodec x.bool
  pub opaque_law : (n : ℕ) → n % 4 ≡ 0 → IsCodec (x.opaque n)
  pub bytes_law : (n : ℕ) → IsCodec (x.bytes n)
  pub string_law : (n : ℕ) → IsCodec (x.string n)
  pub pointer_law : {A : Type 0} (c : Codec A) → IsCodec c → IsCodec (x.pointer c)
  pub pointer_none : {A : Type 0} (c : Codec A) → Writes (x.pointer c) none
  pub pointer_some : {A : Type 0} (c : Codec A) (a : A) → Writes c a → Writes (x.pointer c) (some a)
  pub ints_law : (n : ℕ) → IsCodec (x.ints n)

-- The length bound ~0, an unsigned int.
abbrev pub no_limit : ℕ
no_limit = 2 ^ 32 - 1

-- The arm of a union that a flag selects.
abbrev pub When : Type 0 → Bool → Type 0
When A true = A
When A false = Unit {0}

abbrev pub when : {A : Type 0} → Codec A → (b : Bool) → Codec (When A b)
when c true = c
when c false = void

abbrev pub flagged : {A : Type 0} → (b : Bool) × When A b → Option A
flagged (true, a) = some a
flagged (false, tt) = none

abbrev pub flag_of : {A : Type 0} → Option A → (b : Bool) × When A b
flag_of none = (false, tt)
flag_of (some a) = (true, a)

unfoldable pub optional : {A : Type 0} → Codec Bool → Codec A → Codec (Option A)
optional bool c = via flagged flag_of (dep bool (when c))

-- A linked list as the pointer to its first node: the fields of the node, and the nodes behind it.
abbrev pub nodes : {A : Type 0} → Option (A × List A) → List A
nodes none = []
nodes (some (a, l)) = a ∷ l

abbrev pub first_node : {A : Type 0} → List A → Option (A × List A)
first_node [] = none
first_node (a ∷ l) = some (a, l)

-- The routine for a pointer to a node, when `link next` is that routine with `next` for the pointer
-- to the node behind it. The stack bounds the calls inside each other.
unfoldable pub chain :
    {A : Type 0} → (Codec (List A) → Codec (Option (A × List A))) → ℕ → Codec (List A)
chain link zero = refuse
chain link (suc n) = via nodes first_node (link (chain link n))

pub chain-IsCodec :
    {A : Type 0} (link : Codec (List A) → Codec (Option (A × List A)))
    → ((next : Codec (List A)) → IsCodec next → IsCodec (link next))
    → (n : ℕ) → IsCodec (chain link n)
unfolding chain
chain-IsCodec link good zero = refuse-IsCodec
chain-IsCodec {A = A} link good (suc n) =
    via-IsCodec nodes first_node back (good (chain link n) (chain-IsCodec link good n))
  where
    back : (l : List A) → nodes (first_node l) ≡ l
    back [] = refl
    back (a ∷ l) = refl

-- A list of fewer nodes than the stack has room for is written, when its nodes can be written.
pub chain-Writes :
    {A : Type 0} (link : Codec (List A) → Codec (Option (A × List A))) (W : A → Type 0)
    → ((next : Codec (List A)) → Writes (link next) none)
    → ((next : Codec (List A)) (a : A) (l : List A)
        → W a
        → Writes next l
        → Writes (link next) (some (a, l)))
    → (n : ℕ) (l : List A) → All W l
    → length l < n
    → Writes (chain link n) l
unfolding chain via
chain-Writes link W at_none at_some zero l h room = absurd (omega arith)
chain-Writes link W at_none at_some (suc n) [] h room = at_none (chain link n)
chain-Writes link W at_none at_some (suc n) (a ∷ l) h room =
    at_some (chain link n) a l h.0
      (chain-Writes link W at_none at_some n l h.1 (omega (arith, room)))

-- The arms of a result: NFS3_OK, and every other status.
abbrev pub OkOr : Type 0 → Type 0 → ℕ → Type 0
OkOr A B zero = A
OkOr A B (suc n) = B

abbrev pub ok_or : {A B : Type 0} → Codec A → Codec B → (n : ℕ) → Codec (OkOr A B n)
ok_or c d zero = c
ok_or c d (suc n) = d

pub optional-IsCodec :
    {A : Type 0} {bool : Codec Bool} {c : Codec A}
    → IsCodec bool
    → IsCodec c
    → IsCodec (optional bool c)
unfolding optional
optional-IsCodec {A = A} {bool = bool} {c = c} hb hc =
    via-IsCodec flagged flag_of back (dep-IsCodec bool (when c) hb each)
  where
    back : (o : Option A) → flagged (flag_of o) ≡ o
    back none = refl
    back (some a) = refl

    each : (b : Bool) → IsCodec (when c b)
    each true = hc
    each false = void-IsCodec

pub ok_or-IsCodec :
    {A B : Type 0} {s : Codec ℕ} {c : Codec A} {d : Codec B}
    → IsCodec s
    → IsCodec c
    → IsCodec d
    → IsCodec (dep s (ok_or c d))
ok_or-IsCodec {s = s} {c = c} {d = d} hs hc hd = dep-IsCodec s (ok_or c d) hs each
  where
    each : (n : ℕ) → IsCodec (ok_or c d n)
    each zero = hc
    each (suc n) = hd
