-- ===== src/Nfs3/Small.antt =====
-- A small XDR library, for the tests: words of less than 256, opaque data of four bytes, arrays of at
-- most one element, and calls at most four deep.
use unfsclient.Prelude.{
  ℕ, ◌≡◌, not, Bool, ◌==◌, some, true, false, sym, List, ltb, ◌∷◌, length, Option, refl, ◌%◌,
  if◌then◌else◌, ◌++◌, none, [],
}
use unfsclient.Xdr.Codec.{
  dep, void, via, refuse, seq-IsCodec, via-IsCodec, Codec, ◌>>?◌, seq, refuse-IsCodec, IsCodec,
}
use unfsclient.Xdr.Library.{XdrLib, XdrLaws, optional, optional-IsCodec}

abbrev put_word : ℕ → Option (List ℕ)
put_word n = if ltb n 256 then some (0 ∷ 0 ∷ 0 ∷ n ∷ []) else none

abbrev get_word : List ℕ → Option (ℕ × List ℕ)
get_word [] = none
get_word (a ∷ []) = none
get_word (a ∷ b ∷ []) = none
get_word (a ∷ b ∷ c ∷ []) = none
get_word (a ∷ b ∷ c ∷ d ∷ bs) = some (d, bs)

abbrev word : Codec ℕ
word = record { encode = put_word; decode = get_word }

written :
    (c : Bool) (n : ℕ) (bs : List ℕ)
    → (if c then some (0 ∷ 0 ∷ 0 ∷ n ∷ []) else none) ≡ some bs
    → 0 ∷ 0 ∷ 0 ∷ n ∷ [] ≡ bs
written true n bs e = cc
written false n bs e = cc

word_extends :
    (n : ℕ) (bs r t : List ℕ) → get_word bs ≡ some (n, r) → get_word (bs ++ t) ≡ some (n, r ++ t)
word_extends n [] r t e = cc
word_extends n (a ∷ []) r t e = cc
word_extends n (a ∷ b ∷ []) r t e = cc
word_extends n (a ∷ b ∷ c ∷ []) r t e = cc
word_extends n (a ∷ b ∷ c ∷ d ∷ bs) r t e = cc

word-IsCodec : IsCodec word
word-IsCodec = record {
  round_trip = λ n bs t e. rw (sym (written (ltb n 256) n bs e)) refl;
  extends = word_extends;
  aligned = λ n bs e. rw (sym (written (ltb n 256) n bs e)) refl;
}

abbrev flag : Codec Bool
flag = via (λ n. not (n == 0)) (λ b. if b then 1 else 0) word

flag-IsCodec : IsCodec flag
flag-IsCodec = via-IsCodec _ _ back word-IsCodec
  where
    back : (b : Bool) → not ((if b then 1 else 0) == 0) ≡ b
    back true = refl
    back false = refl

abbrev two_words : Codec ℕ
two_words = via (λ (high, low). low) (λ n. (0, n)) (seq word word)

two_words-IsCodec : IsCodec two_words
two_words-IsCodec = via-IsCodec _ _ (λ n. refl) (seq-IsCodec word-IsCodec word-IsCodec)

abbrev put_four : List ℕ → Option (List ℕ)
put_four [] = none
put_four (a ∷ []) = none
put_four (a ∷ b ∷ []) = none
put_four (a ∷ b ∷ c ∷ []) = none
put_four (a ∷ b ∷ c ∷ d ∷ []) = some (a ∷ b ∷ c ∷ d ∷ [])
put_four (a ∷ b ∷ c ∷ d ∷ e ∷ bs) = none

abbrev get_four : List ℕ → Option (List ℕ × List ℕ)
get_four [] = none
get_four (a ∷ []) = none
get_four (a ∷ b ∷ []) = none
get_four (a ∷ b ∷ c ∷ []) = none
get_four (a ∷ b ∷ c ∷ d ∷ bs) = some (a ∷ b ∷ c ∷ d ∷ [], bs)

four_round_trip :
    (xs bs t : List ℕ)
    → put_four xs ≡ some bs
    → (get_four (bs ++ t) ≡ some (xs, t)) × (length bs % 4 ≡ 0)
four_round_trip [] bs t e = cc
four_round_trip (a ∷ []) bs t e = cc
four_round_trip (a ∷ b ∷ []) bs t e = cc
four_round_trip (a ∷ b ∷ c ∷ []) bs t e = cc
four_round_trip (a ∷ b ∷ c ∷ d ∷ []) bs t e =
    let same : a ∷ b ∷ c ∷ d ∷ [] ≡ bs = cc in rw (sym same) (refl, refl)
four_round_trip (a ∷ b ∷ c ∷ d ∷ x ∷ xs) bs t e = cc

four_extends :
    (xs bs r t : List ℕ) → get_four bs ≡ some (xs, r) → get_four (bs ++ t) ≡ some (xs, r ++ t)
four_extends xs [] r t e = cc
four_extends xs (a ∷ []) r t e = cc
four_extends xs (a ∷ b ∷ []) r t e = cc
four_extends xs (a ∷ b ∷ c ∷ []) r t e = cc
four_extends xs (a ∷ b ∷ c ∷ d ∷ bs) r t e = cc

abbrev four : Codec (List ℕ)
four = record { encode = put_four; decode = get_four }

four-IsCodec : IsCodec four
four-IsCodec = record {
  round_trip = λ xs bs t e. (four_round_trip xs bs t e).0;
  extends = four_extends;
  aligned = λ xs bs e. (four_round_trip xs bs [] e).1;
}

-- A word 4, and four bytes.
abbrev counted_four : Codec (List ℕ)
counted_four = via (λ (n, xs). xs) (λ xs. (4, xs)) (seq word four)

counted_four-IsCodec : IsCodec counted_four
counted_four-IsCodec = via-IsCodec _ _ (λ xs. refl) (seq-IsCodec word-IsCodec four-IsCodec)

abbrev at_most_one : {A : Type 0} → Option A → List A
at_most_one none = []
at_most_one (some a) = a ∷ []

abbrev put_short : {A : Type 0} → Codec A → List A → Option (List ℕ)
put_short c [] = (optional flag c).encode none
put_short c (a ∷ []) = (optional flag c).encode (some a)
put_short c (a ∷ b ∷ l) = none

abbrev short_end : {A : Type 0} → Option A × List ℕ → Option (List A × List ℕ)
short_end (o, r) = some (at_most_one o, r)

abbrev get_short : {A : Type 0} → Codec A → List ℕ → Option (List A × List ℕ)
get_short c bs = (optional flag c).decode bs >>? short_end

abbrev short : {A : Type 0} → Codec A → Codec (List A)
short c = record { encode = put_short c; decode = get_short c }

short_put :
    {A : Type 0} (c : Codec A) (l : List A) (bs : List ℕ)
    → put_short c l ≡ some bs
    → (o : Option A) × (at_most_one o ≡ l) × ((optional flag c).encode o ≡ some bs)
short_put c [] bs e = (none, refl, e)
short_put c (a ∷ []) bs e = (some a, refl, e)
short_put c (a ∷ b ∷ l) bs e = cc

short_got :
    {A : Type 0} (o : Option (Option A × List ℕ)) (l : List A) (r : List ℕ)
    → (o >>? short_end) ≡ some (l, r)
    → (p : Option A) × (at_most_one p ≡ l) × (o ≡ some (p, r))
short_got none l r e = cc
short_got (some (p, s)) l r e =
    let l_same : at_most_one p ≡ l = cc in let r_same : s ≡ r = cc in (p, l_same, rw r_same refl)

short-IsCodec : {A : Type 0} (c : Codec A) → IsCodec c → IsCodec (short c)
short-IsCodec c hc =
    let opt : IsCodec (optional flag c) = optional-IsCodec flag-IsCodec hc in
    record {
      round_trip = λ l bs t e.
          let (o, same, enc) = short_put c l bs e in rw (opt.round_trip o bs t enc, same) refl;
      extends = λ l bs r t e.
          let (o, same, dec) = short_got ((optional flag c).decode bs) l r e in
          rw (opt.extends o bs r t dec, same) refl;
      aligned = λ l bs e. let (o, same, enc) = short_put c l bs e in opt.aligned o bs enc;
    }

abbrev pub small : XdrLib
small = record {
  u_long = word;
  long = refuse;
  u_quad = two_words;
  quad = refuse;
  enum = word;
  bool = flag;
  opaque = λ n. four;
  bytes = λ n. counted_four;
  string = λ n. counted_four;
  pointer = λ c. optional flag c;
  ints = λ n. short word;
  depth = 4;
}

pub small_laws : XdrLaws small
unfolding optional via dep void
small_laws = record {
  u_long_law = word-IsCodec;
  long_law = refuse-IsCodec;
  u_quad_law = two_words-IsCodec;
  quad_law = refuse-IsCodec;
  enum_law = word-IsCodec;
  bool_law = flag-IsCodec;
  opaque_law = λ n whole. four-IsCodec;
  bytes_law = λ n. counted_four-IsCodec;
  string_law = λ n. counted_four-IsCodec;
  pointer_law = λ c hc. optional-IsCodec flag-IsCodec hc;
  pointer_none = λ c. (0 ∷ 0 ∷ 0 ∷ 0 ∷ [], refl);
  pointer_some = λ c a (bs, e). (0 ∷ 0 ∷ 0 ∷ 1 ∷ bs, rw e refl);
  ints_law = λ n. short-IsCodec word word-IsCodec;
}
