-- ===== src/Nachos/Outcome.antt =====
-- How a kernel routine ends: with a value, at a failed ASSERT, or by an access outside an array.
use distributed_ascii_server.Prelude.{ℕ, ◌≡◌, refl}

pub data Outcome {ℓ} (A : Type ℓ) : Type ℓ where
  ok : A → Outcome A
  assert_failed : Outcome A
  out_of_bounds : Outcome A

infixl 5 ◌>>=◌
abbrev pub ◌>>=◌ {ℓ κ} : {A : Type ℓ} {B : Type κ} → Outcome A → (A → Outcome B) → Outcome B
ok a >>= f = f a
assert_failed >>= f = assert_failed
out_of_bounds >>= f = out_of_bounds

-- What a chain that succeeds went through.
module _ {ℓ κ} {A : Type ℓ} {B : Type κ} (rest : A → Outcome B) (result : B) where
  pub went_through :
      (step : Outcome A)
      → (step >>= rest) ≡ ok result
      → (between : A) × (step ≡ ok between) × (rest between ≡ ok result)
  went_through assert_failed ran = cc
  went_through out_of_bounds ran = cc
  went_through (ok between) ran = (between, refl, ran)

-- (int) -1
abbrev pub minus_one : ℕ
minus_one = 4294967295
