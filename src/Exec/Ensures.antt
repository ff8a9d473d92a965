-- ===== src/Exec/Ensures.antt =====
-- What a coroutine ends with, from any state: a value with a property, or an exception of a kind.
use python_smartdns.Prelude.{◌≡◌, refl}
use python_smartdns.Outcome.{Exn, cancelled, out_of_fuel, Outcome, done, raised}
use python_smartdns.Exec.{Exec, lift, ◌>>=◌, continue, handle, try_except}

abbrev pub Post {ℓ} : {A : Type ℓ} → (A → Type 0) → (Exn → Type 0) → Outcome A → Type 0
Post P E (done a) = P a
Post P E (raised e) = E e

-- The exceptions that leave an `except Exception`.
abbrev pub OnlyCancelled : Exn → Type 0
OnlyCancelled cancelled = Unit
OnlyCancelled _ = ⊥

-- Any exception of Python's.
abbrev pub AnyPython : Exn → Type 0
AnyPython out_of_fuel = ⊥
AnyPython _ = Unit

abbrev pub Always {ℓ} : {A : Type ℓ} → A → Type 0
Always a = Unit

abbrev pub Whatever : Exn → Type 0
Whatever e = Unit

pub record Ensures {ℓ κ} {S : Type ℓ} {A : Type κ} (P : A → Type 0) (E : Exn → Type 0)
    (m : Exec S A) : Type ℓ where
  pub at : (s : S) → Post P E (m s).0

module _ {ℓ κ} {S : Type ℓ} {A : Type κ} where
  pub Ensures-map :
      (P : A → Type 0) (E F : Exn → Type 0) (m : Exec S A)
      → ((e : Exn) → E e → F e)
      → Ensures P E m
      → Ensures P F m
  Ensures-map P E F m f h = record { at = λ s. go (m s).0 (h.at s) }
    where
      go : (r : Outcome A) → Post P E r → Post P F r
      go (done a) p = p
      go (raised e) p = f e p

  handled :
      (P : A → Type 0) (h : Exn → Exec S A)
      → ((e : Exn) → Ensures P OnlyCancelled (h e))
      → (r : Outcome A) (s : S) → Post P AnyPython r
      → Post P OnlyCancelled (handle h r s).0
  handled P h k (done a) s p = p
  handled P h k (raised cancelled) s p = tt
  handled P h k (raised out_of_fuel) s p = absurd p
  handled P h k (raised e) s p = (k e).at s

  -- What a handler of every `Exception` lets out.
  pub Ensures-try :
      (P : A → Type 0) (m : Exec S A) (h : Exn → Exec S A)
      → Ensures P AnyPython m
      → ((e : Exn) → Ensures P OnlyCancelled (h e))
      → Ensures P OnlyCancelled (try_except m h)
  Ensures-try P m h e k = record { at = λ s. handled P h k (m s).0 (m s).1 (e.at s) }

module _ {ℓ κ μ} {S : Type ℓ} {A : Type κ} {B : Type μ} where
  continued :
      (P : A → Type 0) (Q : B → Type 0) (E : Exn → Type 0) (f : A → Exec S B)
      → ((a : A) → P a → Ensures Q E (f a))
      → (r : Outcome A) (s : S) → Post P E r
      → Post Q E (continue r f s).0
  continued P Q E f k (done a) s p = (k a p).at s
  continued P Q E f k (raised e) s p = p

  pub Ensures-bind :
      (P : A → Type 0) (Q : B → Type 0) (E : Exn → Type 0) (m : Exec S A) (f : A → Exec S B)
      → Ensures P E m
      → ((a : A) → P a → Ensures Q E (f a))
      → Ensures Q E (m >>= f)
  Ensures-bind P Q E m f e k = record { at = λ s. continued P Q E f k (m s).0 (m s).1 (e.at s) }

pub OnlyCancelled-AnyPython : (e : Exn) → OnlyCancelled e → AnyPython e
OnlyCancelled-AnyPython cancelled h = tt
OnlyCancelled-AnyPython e h = absurd h

anything {ℓ} : {A : Type ℓ} (r : Outcome A) → Post Always Whatever r
anything (done a) = tt
anything (raised e) = tt

pub Ensures-trivial {ℓ κ} : {S : Type ℓ} {A : Type κ} (m : Exec S A) → Ensures Always Whatever m
Ensures-trivial m = record { at = λ s. anything (m s).0 }

pub Ensures-lift {ℓ} :
    {S : Type ℓ} {A : Type 0} (P : A → Type 0) (r : Outcome A)
    → ((a : A) → r ≡ done a → P a)
    → Ensures {S = S} P Whatever (lift r)
Ensures-lift P (done a) h = record { at = λ s. h a refl }
Ensures-lift P (raised e) h = record { at = λ s. tt }
