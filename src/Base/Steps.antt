-- ===== src/Base/Steps.antt =====
-- The result of code that may leave what the C language defines.

-- What a step gives; `undefined` where the C language leaves it so.
pub data Step (A : Type 0) : Type 0 where
  returns : A → Step A
  out_of_fuel : Step A
  undefined : Step A

infixl 5 ◌>>=◌
abbrev pub ◌>>=◌ : {A B : Type 0} → Step A → (A → Step B) → Step B
returns a >>= f = f a
out_of_fuel >>= f = out_of_fuel
undefined >>= f = undefined
