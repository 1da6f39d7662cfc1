-- ===== src/Nfsclient/Memory.antt =====
-- The heap as src/nfsclient.c and src/nfscd_ops.c use it.
use unfsclient.Prelude.{
  ℕ, Option, ◌≤◌, ◌++◌, [], List, none, ok, ◌>>=◌, refl, ◌+◌, ◌==◌, ◌≡◌, true, false, if◌then◌else◌,
  fault, ◌∷◌, arith, ==_refl, some, Result, inl, ◌⊎◌, inr, sym, >>=-all, >>=_assoc, ◌∙◌, suc, stuck,
}

-- The addresses of the blocks in use, and what the calls of malloc to come give: `none` is NULL.
pub record Memory : Type 0 where
  pub live : List ℕ
  pub answers : List (Option ℕ)

abbrev pub count : ℕ → List ℕ → ℕ
count a [] = 0
count a (b ∷ l) = (if a == b then 1 else 0) + count a l

abbrev pub without : ℕ → List ℕ → List ℕ
without a [] = []
without a (b ∷ l) = if a == b then l else b ∷ without a l

answered : List (Option ℕ) → List ℕ → Option ℕ × Memory
answered [] live = (none, record { live = live; answers = [] })
answered (none ∷ rest) live = (none, record { live = live; answers = rest })
answered (some a ∷ rest) live = (some a, record { live = a ∷ live; answers = rest })

unfoldable pub malloc : Memory → Option ℕ × Memory
unfolding answered
malloc m = answered m.answers m.live

-- Freeing what is not in use is undefined.
unfoldable pub free : ℕ → Memory → Result Memory
free a m = if count a m.live == 0 then fault else ok (record m { live = without a m.live })

-- How often an address is in use.
abbrev pub held : Memory → ℕ → ℕ
held m a = count a m.live

pub count_self : (a : ℕ) (l : List ℕ) → count a (a ∷ l) ≡ suc (count a l)
count_self a l = let one = ==_refl a in ground (arith, one)

pub count-append : (a : ℕ) (xs ys : List ℕ) → count a (xs ++ ys) ≡ count a xs + count a ys
count-append a [] ys = omega arith
count-append a (b ∷ xs) ys = omega (arith, count-append a xs ys)

count-without :
    (a b : ℕ) (l : List ℕ)
    → 1 ≤ count b l
    → count a (without b l) + (if a == b then 1 else 0) ≡ count a l
count-without a b [] h = absurd (omega arith)
count-without a b (c ∷ l) h = ground (arith, count-without a b l)

NoBlock : Memory → Option ℕ × Memory → Type 0
NoBlock m r = (m' : Memory) × (r ≡ (none, m')) × (m'.live ≡ m.live)

NewBlock : Memory → Option ℕ × Memory → Type 0
NewBlock m r = (b : ℕ) × (m' : Memory) × (r ≡ (some b, m')) × (m'.live ≡ b ∷ m.live)

answered-cases :
    (l : List (Option ℕ)) (m : Memory)
    → NoBlock m (answered l m.live) ⊎ NewBlock m (answered l m.live)
unfolding answered NoBlock NewBlock
answered-cases [] m = inl (_, refl, refl)
answered-cases (none ∷ rest) m = inl (_, refl, refl)
answered-cases (some b ∷ rest) m = inr (b, _, refl, refl)

-- A call of malloc gives NULL and changes nothing, or adds a block.
pub malloc-cases :
    (m : Memory)
    → ((m' : Memory) × (malloc m ≡ (none, m')) × (m'.live ≡ m.live))
      ⊎ ((b : ℕ) × (m' : Memory) × (malloc m ≡ (some b, m')) × (m'.live ≡ b ∷ m.live))
unfolding malloc NoBlock NewBlock
malloc-cases m = answered-cases m.answers m

pub free-held :
    (b : ℕ) (m : Memory)
    → 1 ≤ held m b
    → (m' : Memory) × (free b m ≡ ok m')
      × ((a : ℕ) → held m' a + (if a == b then 1 else 0) ≡ held m a)
unfolding free
free-held b m h =
    let used : (count b m.live == 0) ≡ false = ground (arith, h) in
    (record m { live = without b m.live }, rw used refl, λ a. count-without a b m.live h)

-- Freeing several blocks, in order.
unfoldable pub free_all : List ℕ → Memory → Result Memory
unfolding free
free_all [] m = ok m
free_all (b ∷ bs) m = free b m >>= λ m'. free_all bs m'

pub free_all-held :
    (bs : List ℕ) (m : Memory)
    → ((a : ℕ) → count a bs ≤ held m a)
    → (m' : Memory) × (free_all bs m ≡ ok m') × ((a : ℕ) → held m' a + count a bs ≡ held m a)
unfolding free_all
free_all-held [] m h = (m, refl, λ a. omega arith)
free_all-held (b ∷ bs) m h =
    let (m1, e1, h1) =
      free-held b m
        (let one : (b == b) ≡ true = ==_refl b in let most = h b in ground (arith, most, one)) in
    let (m2, e2, h2) = free_all-held bs m1 (λ a. omega (arith, h a, h1 a)) in
    (m2, rw e1 e2, λ a. omega (arith, h1 a, h2 a))

free_one : (r : Result Memory) → (r >>= λ m. ok m) ≡ r
free_one (ok m) = refl
free_one fault = refl
free_one stuck = refl

pub free-free_all : (b : ℕ) (m : Memory) → free b m ≡ free_all (b ∷ []) m
unfolding free_all
free-free_all b m = sym (free_one (free b m))

pub free_all-append :
    (xs ys : List ℕ) (m : Memory) → free_all (xs ++ ys) m ≡ (free_all xs m >>= λ m'. free_all ys m')
unfolding free_all
free_all-append [] ys m = refl
free_all-append (b ∷ xs) ys m =
    >>=-all (free b m) (free_all-append xs ys)
    ∙ sym (>>=_assoc (free b m) (free_all xs) (free_all ys))
