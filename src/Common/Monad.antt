-- ===== src/Common/Monad.antt =====
-- The result of running a piece of the program on a state: it returns, it reads or writes outside
-- an object, or a loop that waits for the hardware has used up the rounds that it was given.
use mathlib.Core.Path.{◌≡◌, refl, ap}
use mathlib.Core.Logic.{◌⊎◌, inl, inr}

pub data Run (S A : Type 0) : Type 0 where
  done : A → S → Run S A
  fault : Run S A
  spins : Run S A

abbrev pub M : Type 0 → Type 0 → Type 0
M S A = S → Run S A

abbrev pub pure : {S A : Type 0} → A → M S A
pure a s = done a s

infixl 5 ◌>>=◌ ◌>>◌
abbrev pub ◌>>=◌ : {S A B : Type 0} → M S A → (A → M S B) → M S B
◌>>=◌ m f s = elim (m s) [ done a s' ↦ f a s' | fault ↦ fault | spins ↦ spins ]

abbrev pub ◌>>◌ : {S B : Type 0} → M S (Unit {0}) → M S B → M S B
m >> k = m >>= λ _. k

-- A step that returns is followed by the rest.
pub >>=-done :
    {S A B : Type 0} (m : M S A) (f : A → M S B) (s : S) {a : A} {s' : S}
    → m s ≡ done a s'
    → (m >>= f) s ≡ f a s'
>>=-done m f s e = ap (λ r. elim r [ done a s' ↦ f a s' | fault ↦ fault | spins ↦ spins ]) e

-- Nothing follows a step that is undefined.
pub >>=-fault :
    {S A B : Type 0} (m : M S A) (f : A → M S B) (s : S) → m s ≡ fault → (m >>= f) s ≡ fault
>>=-fault m f s e = ap (λ r. elim r [ done a s' ↦ f a s' | fault ↦ fault | spins ↦ spins ]) e

-- To split on the result of a run and keep the equation.
pub Run-cases :
    {S A : Type 0} (r : Run S A)
    → ((a : A) × (s : S) × (r ≡ done a s)) ⊎ ((r ≡ fault) ⊎ (r ≡ spins))
Run-cases (done a s) = inl (a, s, refl)
Run-cases fault = inr (inl refl)
Run-cases spins = inr (inr refl)
