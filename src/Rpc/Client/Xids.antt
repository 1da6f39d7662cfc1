-- ===== src/Rpc/Client/Xids.antt =====
-- The xids that clnttcp_nb_call of src/clnt_tcp_nb.c gives its calls.
use unfsclient.Prelude.{ℕ, zero, suc, ◌+◌, ◌*◌, ◌%◌, ◌^◌, ◌<◌, ◌≡◌, ◌≢◌, arith, List, [], ◌∷◌}
use unfsclient.Rpc.Types.{be32}
use unfsclient.Rpc.Client.{next_xid}

-- The header begins with a word of four bytes.
abbrev pub IsXid : List ℕ → Type 0
IsXid (a ∷ b ∷ c ∷ d ∷ bs) = (a < 256) × (b < 256) × (c < 256) × (d < 256)
IsXid bs = ⊥

-- The header after so many calls.
unfoldable pub after : ℕ → List ℕ → List ℕ
unfolding next_xid
after zero bs = bs
after (suc n) bs = next_xid (after n bs)

-- The word that a little-endian machine reads.
abbrev le32 : List ℕ → ℕ
le32 (a ∷ b ∷ c ∷ d ∷ bs) = a + b * 2 ^ 8 + c * 2 ^ 16 + d * 2 ^ 24
le32 bs = 0

next_xid_lem :
    (bs : List ℕ)
    → IsXid bs
    → IsXid (next_xid bs) × ((le32 (next_xid bs) + 1) % 2 ^ 32 ≡ le32 bs % 2 ^ 32)
unfolding next_xid
next_xid_lem (a ∷ b ∷ c ∷ d ∷ bs) (ha, hb, hc, hd) =
    ((omega arith, omega arith, omega arith, omega arith), omega arith)
next_xid_lem [] h = elim h [ ]
next_xid_lem (a ∷ []) h = elim h [ ]
next_xid_lem (a ∷ b ∷ []) h = elim h [ ]
next_xid_lem (a ∷ b ∷ c ∷ []) h = elim h [ ]

after_lem :
    (k : ℕ) (bs : List ℕ)
    → IsXid bs
    → IsXid (after k bs) × ((le32 (after k bs) + k) % 2 ^ 32 ≡ le32 bs % 2 ^ 32)
unfolding after
after_lem zero bs h = (h, omega arith)
after_lem (suc k) bs h =
    let (h1, e1) = after_lem k bs h in
    let (h2, e2) = next_xid_lem (after k bs) h1 in (h2, omega (arith, e1, e2))

-- A word of four bytes is read alike by both orders or by none.
be32-le32 : (rest bs : List ℕ) → IsXid rest → IsXid bs → be32 rest ≡ be32 bs → le32 rest ≡ le32 bs
be32-le32 (a ∷ b ∷ c ∷ d ∷ rest) (a' ∷ b' ∷ c' ∷ d' ∷ bs) (ha, hb, hc, hd) (ha', hb', hc', hd') e =
    omega arith
be32-le32 [] bs h h' e = elim h [ ]
be32-le32 (a ∷ []) bs h h' e = elim h [ ]
be32-le32 (a ∷ b ∷ []) bs h h' e = elim h [ ]
be32-le32 (a ∷ b ∷ c ∷ []) bs h h' e = elim h [ ]
be32-le32 (a ∷ b ∷ c ∷ d ∷ rest) [] h h' e = elim h' [ ]
be32-le32 (a ∷ b ∷ c ∷ d ∷ rest) (a' ∷ []) h h' e = elim h' [ ]
be32-le32 (a ∷ b ∷ c ∷ d ∷ rest) (a' ∷ b' ∷ []) h h' e = elim h' [ ]
be32-le32 (a ∷ b ∷ c ∷ d ∷ rest) (a' ∷ b' ∷ c' ∷ []) h h' e = elim h' [ ]

-- Of fewer than 2 ^ 32 headers after one another no two begin with the same word.
pub be32-after-ne :
    (j k : ℕ) (bs : List ℕ)
    → IsXid bs
    → j < k
    → k < j + 2 ^ 32
    → be32 (after j bs) ≢ be32 (after k bs)
be32-after-ne j k bs h lt near same =
    let (hj, ej) = after_lem j bs h in
    let (hk, ek) = after_lem k bs h in
    omega (arith, ej, ek, be32-le32 (after j bs) (after k bs) hj hk same)
