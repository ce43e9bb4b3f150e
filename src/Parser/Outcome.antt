-- ===== src/Parser/Outcome.antt =====
-- How a run of the parser ends. `failed` stands for the result (size_t)-1: every caller passes it
-- on, and the parser's lists are then freed.
use bano.Base.{ℕ, zero, suc, ◌≡◌, ◌≢◌, refl, ◌⊎◌, inl, inr}

pub data Outcome {ℓ} (A : Type ℓ) : Type ℓ where
  done : A → Outcome A
  failed : Outcome A
  no_fuel : Outcome A

infixl 5 ◌>>=◌
abbrev pub ◌>>=◌ {ℓ κ} : {A : Type ℓ} {B : Type κ} → Outcome A → (A → Outcome B) → Outcome B
done a >>= f = f a
failed >>= f = failed
no_fuel >>= f = no_fuel

-- `malloc`, on the number of requests that are still granted
abbrev pub alloc : ℕ → Outcome ℕ
alloc zero = failed
alloc (suc mem) = done mem

pub >>=-eq-done {ℓ κ} :
    {A : Type ℓ} {B : Type κ} (m : Outcome A) (f : A → Outcome B) {b : B}
    → (m >>= f) ≡ done b
    → (a : A) × (m ≡ done a) × (f a ≡ done b)
>>=-eq-done (done a) f h = (a, refl, h)
>>=-eq-done failed f h = cc
>>=-eq-done no_fuel f h = cc

-- A bind has enough fuel if its parts have.
pub >>=-ne-no_fuel {ℓ κ} :
    {A : Type ℓ} {B : Type κ} (m : Outcome A) (f : A → Outcome B)
    → m ≢ no_fuel
    → ((a : A) → m ≡ done a → f a ≢ no_fuel)
    → (m >>= f) ≢ no_fuel
>>=-ne-no_fuel (done a) f h k = k a refl
>>=-ne-no_fuel failed f h k = λ e. cc
>>=-ne-no_fuel no_fuel f h k = absurd (h refl)

pub alloc-ne-no_fuel : (mem : ℕ) → alloc mem ≢ no_fuel
alloc-ne-no_fuel zero = λ e. cc
alloc-ne-no_fuel (suc mem) = λ e. cc

pub >>=-eq-no_fuel {ℓ κ} :
    {A : Type ℓ} {B : Type κ} (m : Outcome A) (f : A → Outcome B)
    → (m >>= f) ≡ no_fuel
    → (m ≡ no_fuel) ⊎ ((a : A) × (m ≡ done a) × (f a ≡ no_fuel))
>>=-eq-no_fuel (done a) f h = inr (a, refl, h)
>>=-eq-no_fuel failed f h = cc
>>=-eq-no_fuel no_fuel f h = inl refl
