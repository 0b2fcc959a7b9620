-- ===== src/Base/Act.antt =====
-- Calls of services. `W` is everything outside the process (Postgres, Redis, Kafka, Slack, the
-- clock): a call returns its result and the world after it. A call that can fail returns a `Result`.
use Prim.Native.String.{String}
use mathlib.Core.Path.{◌≡◌, refl}
use mathlib.Core.Logic.{◌⊎◌, inl, inr}

pub data Result {ℓ} (A : Type ℓ) : Type ℓ where
  ok : A → Result A
  err : String → Result A

abbrev pub Act : Type 0 → Type 0 → Type 0
Act W A = W → A × W

infixl 5 ◌>>=◌ ◌>>◌
abbrev pub ◌>>=◌ : {W A B : Type 0} → Act W A → (A → Act W B) → Act W B
(m >>= f) w = let (a, w') = m w in f a w'

abbrev pub ◌>>◌ : {W A B : Type 0} → Act W A → Act W B → Act W B
(m >> k) w = let (a, w') = m w in k w'

abbrev pub pure : {W A : Type 0} → A → Act W A
pure a w = (a, w)

pub Result-cases {ℓ} :
    {A : Type ℓ} (r : Result A) → ((a : A) × (r ≡ ok a)) ⊎ ((e : String) × (r ≡ err e))
Result-cases (ok a) = inl (a, refl)
Result-cases (err e) = inr (e, refl)
