-- ===== src/Nfs3/Messages.antt =====
-- What the xdr_to_* functions of src/nfsv3/nfs3.c make of the messages that the routines write.
use unfsclient.Prelude.{
  ℕ, arith, length, none, take_all, ◌<◌, refl, take, ◌≡◌, true, some, Option, List, ◌++◌,
  take-append-drop, length-drop, ap, drop, append-nil, ◌∙◌, sym, [], length-append,
}
use unfsclient.Xdr.Codec.{Codec, IsCodec}
use unfsclient.Nfs3.Convert.{xdr_to}

module _ {A : Type 0} (c : Codec A) (hc : IsCodec c) where
  pub xdr_to-encode :
      (a : A) (bs t : List ℕ)
      → c.encode a ≡ some bs
      → xdr_to c true (some (bs ++ t)) (length (bs ++ t)) ≡ some a
  unfolding xdr_to
  xdr_to-encode a bs t e =
      rw (take_all (length (bs ++ t)) (bs ++ t) (omega arith), hc.round_trip a bs t e) refl

  behind : Option (A × List ℕ) → ℕ
  behind none = 0
  behind (some (a, r)) = length r

  -- A codec that reads a proper prefix of what it wrote would read it twice.
  decode-prefix :
      (a : A) (bs : List ℕ) (n : ℕ)
      → c.encode a ≡ some bs
      → n < length bs
      → (o : Option (A × List ℕ)) → c.decode (take n bs) ≡ o
      → o ≡ none
  unfolding behind
  decode-prefix a bs n e lt none d = refl
  decode-prefix a bs n e lt (some (b, r)) d =
      let long : c.decode bs ≡ some (b, r ++ drop n bs) =
        rw take-append-drop at (hc.extends b (take n bs) r (drop n bs) d) in
      let whole : c.decode bs ≡ some (a, []) = rw append-nil at (hc.round_trip a bs [] e) in
      let nothing : length (r ++ drop n bs) ≡ 0 = ap behind (sym long ∙ whole) in
      absurd (omega (arith, nothing, length-append r (drop n bs), length-drop n bs))

  pub xdr_to-prefix :
      (a : A) (bs : List ℕ) (n : ℕ)
      → c.encode a ≡ some bs
      → n < length bs
      → xdr_to c true (some bs) n ≡ none
  unfolding xdr_to
  xdr_to-prefix a bs n e lt = rw (decode-prefix a bs n e lt _ refl) refl
