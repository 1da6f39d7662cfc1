-- ===== src/Xdr/Codec.antt =====
-- What an xdrproc_t of src/nfsv3/nfs3_xdr.c does in its two directions, and the ways in which the
-- routines of that file are put together.
use unfsclient.Prelude.{
  ℕ, length, Option, refl, none, ◌%◌, some, ◌≡◌, List, [], ◌++◌, length-append, sym, append_assoc,
  arith, ap,
}

-- `encode` is XDR_ENCODE to a memory stream with room, `decode` is XDR_DECODE; `none` is FALSE.
-- Decoding returns the bytes behind what it read.
pub record Codec (A : Type 0) : Type 0 where
  pub encode : A → Option (List ℕ)
  pub decode : List ℕ → Option (A × List ℕ)

-- A codec that can be relied on: it reads back what it wrote, reads from the front alone, and
-- writes whole XDR units of four bytes.
pub record IsCodec {A : Type 0} (c : Codec A) : Type 0 where
  pub round_trip : (a : A) (bs t : List ℕ) → c.encode a ≡ some bs → c.decode (bs ++ t) ≡ some (a, t)
  pub extends :
      (a : A) (bs r t : List ℕ) → c.decode bs ≡ some (a, r) → c.decode (bs ++ t) ≡ some (a, r ++ t)
  pub aligned : (a : A) (bs : List ℕ) → c.encode a ≡ some bs → length bs % 4 ≡ 0

-- The value can be written.
abbrev pub Writes : {A : Type 0} → Codec A → A → Type 0
Writes c a = (bs : List ℕ) × (c.encode a ≡ some bs)

infixl 5 ◌>>?◌
abbrev pub ◌>>?◌ : {A B : Type 0} → Option A → (A → Option B) → Option B
none >>? f = none
some a >>? f = f a

>>?-eq-some :
    {A B : Type 0} (m : Option A) (f : A → Option B) {b : B}
    → (m >>? f) ≡ some b
    → (a : A) × (m ≡ some a) × (f a ≡ some b)
>>?-eq-some none f e = cc
>>?-eq-some (some a) f e = (a, refl, e)

-- A field, and a union arm or further fields behind it that its value selects.
unfoldable pub dep :
    {A : Type 0} {B : A → Type 0} → Codec A → ((a : A) → Codec (B a)) → Codec ((a : A) × B a)
dep c d = record {
  encode = λ (a, b). c.encode a >>? λ x. ((d a).encode b >>? λ y. some (x ++ y));
  decode = λ bs. c.decode bs >>? λ (a, r). ((d a).decode r >>? λ (b, r'). some ((a, b), r'));
}

-- A field and what stands behind it.
unfoldable pub seq : {A B : Type 0} → Codec A → Codec B → Codec (A × B)
seq c d = dep c (λ _. d)

-- The fields as a struct.
unfoldable pub via : {A B : Type 0} → (A → B) → (B → A) → Codec A → Codec B
via to from c = record {
  encode = λ b. c.encode (from b);
  decode = λ bs. c.decode bs >>? λ (a, r). some (to a, r);
}

-- An arm without a body.
unfoldable pub void : Codec (Unit {0})
void = record { encode = λ _. some []; decode = λ bs. some (tt, bs) }

-- An arm that is refused.
unfoldable pub refuse : {A : Type 0} → Codec A
refuse = record { encode = λ _. none; decode = λ _. none }

pub seq-Writes :
    {A B : Type 0} (c : Codec A) (d : Codec B) (a : A) (b : B)
    → Writes c a
    → Writes d b
    → Writes (seq c d) (a, b)
unfolding seq dep
seq-Writes c d a b (xs, ex) (ys, ey) = (xs ++ ys, rw (ex, ey) refl)

-- The bytes behind what was read, when more bytes follow.
then_more : {A : Type 0} → List ℕ → Option (A × List ℕ) → Option (A × List ℕ)
then_more t none = none
then_more t (some (a, r)) = some (a, r ++ t)

module _ {A : Type 0} {B : A → Type 0} (c : Codec A) (d : (a : A) → Codec (B a)) (hc : IsCodec c)
    (hd : (a : A) → IsCodec (d a)) where
  dep-round_trip :
      (a : A) (b : B a) (bs t : List ℕ)
      → (dep c d).encode (a, b) ≡ some bs
      → (dep c d).decode (bs ++ t) ≡ some ((a, b), t)
  unfolding dep
  dep-round_trip a b bs t e =
      let (x, ex, e1) = >>?-eq-some (c.encode a) _ e in
      let (y, ey, e2) = >>?-eq-some ((d a).encode b) _ e1 in
      let whole : x ++ y ≡ bs = cc in
      rw (sym whole, append_assoc x y t, hc.round_trip a x (y ++ t) ex, (hd a).round_trip b y t ey)
        refl

  dep-extends :
      (v : (a : A) × B a) (bs r t : List ℕ)
      → (dep c d).decode bs ≡ some (v, r)
      → (dep c d).decode (bs ++ t) ≡ some (v, r ++ t)
  unfolding then_more dep
  dep-extends v bs r t e =
      let ((a, r1), e1, f1) = >>?-eq-some (c.decode bs) _ e in
      let ((b, r2), e2, f2) = >>?-eq-some ((d a).decode r1) _ f1 in
      rw (hc.extends a bs r1 t e1, (hd a).extends b r1 r2 t e2) (ap (then_more t) f2)

  dep-aligned :
      (a : A) (b : B a) (bs : List ℕ) → (dep c d).encode (a, b) ≡ some bs → length bs % 4 ≡ 0
  unfolding dep
  dep-aligned a b bs e =
      let (x, ex, e1) = >>?-eq-some (c.encode a) _ e in
      let (y, ey, e2) = >>?-eq-some ((d a).encode b) _ e1 in
      let whole : x ++ y ≡ bs = cc in
      rw (sym whole) (omega (arith, length-append x y, hc.aligned a x ex, (hd a).aligned b y ey))

  pub dep-IsCodec : IsCodec (dep c d)
  dep-IsCodec = record {
    round_trip = λ (a, b). dep-round_trip a b;
    extends = dep-extends;
    aligned = λ (a, b). dep-aligned a b;
  }

pub seq-IsCodec :
    {A B : Type 0} {c : Codec A} {d : Codec B} → IsCodec c → IsCodec d → IsCodec (seq c d)
unfolding seq
seq-IsCodec {c = c} {d = d} hc hd = dep-IsCodec c (λ _. d) hc (λ _. hd)

module _ {A B : Type 0} {c : Codec A} (to : A → B) (from : B → A)
    (to-from : (b : B) → to (from b) ≡ b) (hc : IsCodec c) where
  via-extends :
      (b : B) (bs r t : List ℕ)
      → (via to from c).decode bs ≡ some (b, r)
      → (via to from c).decode (bs ++ t) ≡ some (b, r ++ t)
  unfolding then_more via
  via-extends b bs r t e =
      let ((a, r1), e1, f1) = >>?-eq-some (c.decode bs) _ e in
      rw (hc.extends a bs r1 t e1) (ap (then_more t) f1)

  pub via-IsCodec : IsCodec (via to from c)
  unfolding via
  via-IsCodec = record {
    round_trip = λ b bs t e. rw (hc.round_trip (from b) bs t e, to-from b) refl;
    extends = via-extends;
    aligned = λ b bs e. hc.aligned (from b) bs e;
  }

pub void-IsCodec : IsCodec void
unfolding void
void-IsCodec = record {
  round_trip = λ tt bs t e. ground arith;
  extends = λ tt bs r t e. ground arith;
  aligned = λ tt bs e. ground arith;
}

pub refuse-IsCodec : {A : Type 0} → IsCodec (refuse {A = A})
unfolding refuse
refuse-IsCodec = record {
  round_trip = λ a bs t e. cc;
  extends = λ a bs r t e. cc;
  aligned = λ a bs e. cc;
}

module _ {A B : Type 0} (c : Codec A) (d : Codec B) where
  -- The bytes of a field and of what stands behind it.
  pub seq-parts :
      (a : A) (b : B) (bs : List ℕ)
      → (seq c d).encode (a, b) ≡ some bs
      → (x : List ℕ) × (y : List ℕ) × (c.encode a ≡ some x) × (d.encode b ≡ some y) × (x ++ y ≡ bs)
  unfolding seq dep
  seq-parts a b bs e =
      let (x, ex, e1) = >>?-eq-some (c.encode a) _ e in
      let (y, ey, e2) = >>?-eq-some (d.encode b) _ e1 in (x, y, ex, ey, cc)

  -- What stands behind a field may be read by another routine than wrote it.
  pub seq-behind :
      IsCodec c
      → (a : A) (b : B) (x y bs t r : List ℕ) → c.encode a ≡ some x
      → x ++ y ≡ bs
      → d.decode (y ++ t) ≡ some (b, r)
      → (seq c d).decode (bs ++ t) ≡ some ((a, b), r)
  unfolding seq dep
  seq-behind hc a b x y bs t r ex whole rest =
      rw (sym whole, append_assoc x y t, hc.round_trip a x (y ++ t) ex, rest) refl
