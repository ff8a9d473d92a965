-- ===== src/Outcome.antt =====
-- Python's exceptions as values: what a call returns, or what it raises. `cancelled` is a
-- `BaseException`, which no `except Exception` catches; `out_of_fuel` is the model's own, and is
-- not caught either.
use python_smartdns.Prelude.{String, ◌≡◌, refl}

pub data Exn : Type 0 where
  cancelled out_of_fuel : Exn
  nxdomain form_error key_error type_error value_error index_error attribute_error : Exn
  recursion_error timeout_error os_error : Exn
  runtime_error : String → Exn

pub data Outcome {ℓ} (A : Type ℓ) : Type ℓ where
  done : A → Outcome A
  raised : Exn → Outcome A

infixl 5 ◌>>=◌ ◌>>◌
abbrev pub ◌>>=◌ {ℓ κ} : {A : Type ℓ} {B : Type κ} → Outcome A → (A → Outcome B) → Outcome B
done a >>= f = f a
raised e >>= f = raised e

abbrev pub ◌>>◌ {ℓ} : {B : Type ℓ} → Outcome (Unit {0}) → Outcome B → Outcome B
m >> k = m >>= λ _. k

pub >>=-eq-done {ℓ κ} :
    {A : Type ℓ} {B : Type κ} (m : Outcome A) (f : A → Outcome B) {b : B}
    → (m >>= f) ≡ done b
    → (a : A) × (m ≡ done a) × (f a ≡ done b)
>>=-eq-done (done a) f h = (a, refl, h)
>>=-eq-done (raised e) f h = cc
