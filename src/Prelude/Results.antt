-- ===== src/Prelude/Results.antt =====
-- What a run of C code ends in. `fault` is undefined behaviour: a write outside a buffer, or a
-- null pointer read. `stuck` means that a loop's fuel ran out.
use mathlib.Core.Path.{◌≡◌, refl, subst}
use mathlib.Core.Logic.{◌≢◌}

-- The two bad ends come first.
pub data Result {ℓ} (A : Type ℓ) : Type ℓ where
  fault stuck : Result A
  ok : A → Result A

module _ {ℓ κ} {A : Type ℓ} {B : Type κ} where
  infixl 5 ◌>>=◌
  abbrev pub ◌>>=◌ : Result A → (A → Result B) → Result B
  fault >>= next = fault
  stuck >>= next = stuck
  ok a >>= next = next a

  -- What came before a good end was a good end too.
  pub >>=-eq-ok :
      (r : Result A) (next : A → Result B) {end : B}
      → (r >>= next) ≡ ok end
      → (mid : A) × (r ≡ ok mid) × (next mid ≡ ok end)
  >>=-eq-ok fault next e = cc
  >>=-eq-ok stuck next e = cc
  >>=-eq-ok (ok mid) next e = (mid, refl, e)

  -- A bind that ends in `stuck` got stuck in one of its parts.
  pub >>=-ne-stuck :
      (m : Result A) (f : A → Result B)
      → m ≢ stuck
      → ((a : A) → m ≡ ok a → f a ≢ stuck)
      → (m >>= f) ≢ stuck
  >>=-ne-stuck (ok a) f hm hf = hf a refl
  >>=-ne-stuck fault f hm hf = λ e. cc
  >>=-ne-stuck stuck f hm hf = absurd (hm refl)

pub >>=_assoc {ℓ κ μ} :
    {A : Type ℓ} {B : Type κ} {C : Type μ} (m : Result A) (f : A → Result B) (k : B → Result C)
    → (m >>= f >>= k) ≡ (m >>= λ a. f a >>= k)
>>=_assoc (ok a) f k = refl
>>=_assoc fault f k = refl
>>=_assoc stuck f k = refl

-- The run gets to an end, and what it returns, unless it ends in a fault, has the property.
abbrev pub Ensures {ℓ} : {A : Type ℓ} → (A → Type 0) → Result A → Type 0
Ensures P (ok a) = P a
Ensures P fault = Unit {0}
Ensures P stuck = ⊥

module _ {ℓ κ} {A : Type ℓ} {B : Type κ} where
  pub Ensures->>= :
      (P : A → Type 0) (Q : B → Type 0) (m : Result A) (f : A → Result B)
      → Ensures P m
      → ((a : A) → P a → Ensures Q (f a))
      → Ensures Q (m >>= f)
  Ensures->>= P Q (ok a) f hm hf = hf a hm
  Ensures->>= P Q fault f hm hf = tt
  Ensures->>= P Q stuck f hm hf = absurd hm

  -- Two continuations that agree where the property holds.
  pub >>=-Ensures_eq :
      (P : A → Type 0) (m : Result A) (f k : A → Result B)
      → Ensures P m
      → ((a : A) → P a → f a ≡ k a)
      → (m >>= f) ≡ (m >>= k)
  >>=-Ensures_eq P (ok a) f k hm eq = eq a hm
  >>=-Ensures_eq P fault f k hm eq = refl
  >>=-Ensures_eq P stuck f k hm eq = refl

module _ {ℓ} {A : Type ℓ} (P : A → Type 0) where
  pub Ensures-ok : {r : Result A} {a : A} → Ensures P r → r ≡ ok a → P a
  Ensures-ok e h = subst (Ensures P) h e

  pub Ensures-every : (r : Result A) → r ≢ stuck → ((a : A) → r ≡ ok a → P a) → Ensures P r
  Ensures-every (ok a) ns h = h a refl
  Ensures-every fault ns h = tt
  Ensures-every stuck ns h = ns refl

pub >>=-all {ℓ κ} :
    {A : Type ℓ} {B : Type κ} (m : Result A) {f k : A → Result B}
    → ((a : A) → f a ≡ k a)
    → (m >>= f) ≡ (m >>= k)
>>=-all (ok a) h = h a
>>=-all fault h = refl
>>=-all stuck h = refl

pub Ensures-map {ℓ} :
    {A : Type ℓ} (P Q : A → Type 0)
    → ((a : A) → P a → Q a)
    → (r : Result A) → Ensures P r
    → Ensures Q r
Ensures-map P Q f (ok a) h = f a h
Ensures-map P Q f fault h = tt
Ensures-map P Q f stuck h = h
