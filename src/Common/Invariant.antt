-- ===== src/Common/Invariant.antt =====
-- Pieces of a program that keep an invariant of the state and never have a fault.
use mathlib.Core.Bool.{Bool, true, false}
use rpi_rt_ether_cat_slave_i.Common.Monad.{Run, done, fault, spins, M, pure, ◌>>=◌, ◌>>◌}
use rpi_rt_ether_cat_slave_i.Common.Tests.{if◌then◌else◌}

-- `P` holds of the result and the state of a run that returns, and the run is not a fault.
pub data Post {S A : Type 0} (P : A → S → Type 0) : Run S A → Type 0 where
  returns : {a : A} {s : S} → P a s → Post P (done a s)
  waits : Post P spins

-- From a state with the invariant, the piece does not have a fault, and ends with the invariant if it
-- returns.
pub record Keeps {S A : Type 0} (I : S → Type 0) (m : M S A) : Type 0 where
  pub post : (s : S) → I s → Post (λ a t. I t) (m s)

module _ {S A : Type 0} {I : S → Type 0} where
  pub Keeps-pure : (a : A) → Keeps I (pure a)
  Keeps-pure a = record { post = λ s h. returns h }

  pub Keeps-then :
      {B : Type 0} {m : M S A} {f : A → M S B}
      → Keeps I m
      → ((a : A) → Keeps I (f a))
      → Keeps I (m >>= f)
  Keeps-then {B} {m} {f} k l = record { post = λ s h. next (m s) (k.post s h) }
    where
      next :
          (r : Run S A)
          → Post (λ a t. I t) r
          → Post (λ b t. I t) (elim r [ done a s' ↦ f a s' | fault ↦ fault | spins ↦ spins ])
      next _ (returns {a} {s} h) = (l a).post s h
      next _ waits = waits

  pub Keeps-if : {m n : M S A} (b : Bool) → Keeps I m → Keeps I n → Keeps I (if b then m else n)
  Keeps-if true k l = k
  Keeps-if false k l = l

infixr 1 ◌⟫◌
pub ◌⟫◌ :
    {S B : Type 0} {I : S → Type 0} {m : M S (Unit {0})} {n : M S B}
    → Keeps I m
    → Keeps I n
    → Keeps I (m >> n)
k ⟫ l = Keeps-then k (λ _. l)
