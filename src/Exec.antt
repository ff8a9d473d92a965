-- ===== src/Exec.antt =====
-- Coroutines that read and write an object and may raise: the object comes back beside the
-- exception too, since what was written before it stays written.
pub mod Ensures
use python_smartdns.Prelude.{◌≡◌, refl, ap}
use python_smartdns.Outcome.{Exn, cancelled, out_of_fuel, Outcome, done, raised}

abbrev pub Exec {ℓ κ} : Type ℓ → Type κ → Type (ℓ ⊔ κ)
Exec S A = S → Outcome A × S

abbrev pub pure {ℓ κ} : {S : Type ℓ} {A : Type κ} → A → Exec S A
pure a s = (done a, s)

abbrev pub raise {ℓ κ} : {S : Type ℓ} {A : Type κ} → Exn → Exec S A
raise e s = (raised e, s)

abbrev pub lift {ℓ κ} : {S : Type ℓ} {A : Type κ} → Outcome A → Exec S A
lift r s = (r, s)

abbrev pub get {ℓ} : {S : Type ℓ} → Exec S S
get s = (done s, s)

abbrev pub modify {ℓ} : {S : Type ℓ} → (S → S) → Exec S (Unit {0})
modify f s = (done tt, f s)

abbrev pub continue {ℓ κ μ} :
    {S : Type ℓ} {A : Type κ} {B : Type μ} → Outcome A → (A → Exec S B) → Exec S B
continue (done a) f s = f a s
continue (raised e) f s = (raised e, s)

infixl 5 ◌>>=◌ ◌>>◌
abbrev pub ◌>>=◌ {ℓ κ μ} :
    {S : Type ℓ} {A : Type κ} {B : Type μ} → Exec S A → (A → Exec S B) → Exec S B
◌>>=◌ m f s = let (r, s') = m s in continue r f s'

abbrev pub ◌>>◌ {ℓ κ} : {S : Type ℓ} {B : Type κ} → Exec S (Unit {0}) → Exec S B → Exec S B
m >> k = m >>= λ _. k

-- `try: m  except Exception as exc: handle(exc)`
abbrev pub handle {ℓ κ} : {S : Type ℓ} {A : Type κ} → (Exn → Exec S A) → Outcome A → Exec S A
handle h (done a) s = (done a, s)
handle h (raised cancelled) s = (raised cancelled, s)
handle h (raised out_of_fuel) s = (raised out_of_fuel, s)
handle h (raised e) s = h e s

abbrev pub try_except {ℓ κ} : {S : Type ℓ} {A : Type κ} → Exec S A → (Exn → Exec S A) → Exec S A
try_except m h s = let (r, s') = m s in handle h r s'

-- A sequence that returned: both parts did.
pub >>=-eq-done {ℓ κ μ} :
    {S : Type ℓ} {A : Type κ} {B : Type μ} (m : Exec S A) (f : A → Exec S B) (s t : S) (b : B)
    → (m >>= f) s ≡ (done b, t)
    → (a : A) × (u : S) × (m s ≡ (done a, u)) × (f a u ≡ (done b, t))
>>=-eq-done {S} {A} {B} m f s t b h = go (m s) refl h
  where
    go :
        (r : Outcome A × S)
        → m s ≡ r
        → continue r.0 f r.1 ≡ (done b, t)
        → (a : A) × (u : S) × (m s ≡ (done a, u)) × (f a u ≡ (done b, t))
    go (done a, u) e k = (a, u, e, k)
    go (raised x, u) e k = absurd (cc (ap (λ (p : Outcome B × S). p.0) k))
