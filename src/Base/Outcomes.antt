-- ===== src/Base/Outcomes.antt =====
-- The outcome of code that may throw or abort.
use Prim.Native.String.{String}

-- The standard exceptions that the code throws, with their messages, and the abort of a failed
-- CHECK_F. `undefined` stands for undefined behaviour.
pub data Error : Type 0 where
  invalid_argument logic_error domain_error out_of_range : String → Error
  check_failed : String → Error
  undefined : String → Error

-- `out_of_fuel` has no counterpart in the program: a loop that is bounded by fuel gave up.
pub data Outcome {ℓ} (A : Type ℓ) : Type ℓ where
  ok : A → Outcome A
  err : Error → Outcome A
  out_of_fuel : Outcome A

infixl 5 ◌>>=◌
abbrev pub ◌>>=◌ {κ ℓ} : {B : Type κ} {A : Type ℓ} → Outcome A → (A → Outcome B) → Outcome B
out_of_fuel >>= next = out_of_fuel
err thrown >>= next = err thrown
ok result >>= next = next result

-- The code returns, and its result is in `P`.
abbrev pub Returns : {A : Type 0} → (A → Type 0) → Outcome A → Type 0
Returns P (ok a) = P a
Returns P (err e) = ⊥
Returns P out_of_fuel = ⊥

pub Returns_bind :
    {A B : Type 0} (P : B → Type 0) (Q : A → Type 0) (m : Outcome A) (f : A → Outcome B)
    → Returns Q m
    → ((a : A) → Q a → Returns P (f a))
    → Returns P (m >>= f)
Returns_bind P Q (ok a) f h k = k a h
Returns_bind P Q (err e) f h k = absurd h
Returns_bind P Q out_of_fuel f h k = absurd h

abbrev pub Any : {A : Type 0} → A → Type 0
Any a = Unit

-- Where nothing is known of what the first part returns.
pub after_any :
    {A B : Type 0} (P : B → Type 0) (m : Outcome A) (f : A → Outcome B)
    → Returns Any m
    → ((a : A) → Returns P (f a))
    → Returns P (m >>= f)
after_any P m f h k = Returns_bind P Any m f h (λ a _. k a)
