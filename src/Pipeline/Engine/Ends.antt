-- ===== src/Pipeline/Engine/Ends.antt =====
-- Coroutines of the pipeline that end, and the loops of dns_forwarder/plugin_api/base.py as such.
use python_smartdns.Prelude.{
  ℕ, ◌||◌, String, Bool, true, false, Bool-cases, List, [], ◌∷◌, ◌++◌, All, ◌≡◌, inl, inr,
  if◌then◌else◌,
}
use python_smartdns.Outcome
use python_smartdns.Outcome.{
  Exn, cancelled, out_of_fuel, nxdomain, Outcome, done, raised, >>=-eq-done,
}
use python_smartdns.Exec.{Exec, pure, try_except, ◌>>=◌}
use python_smartdns.Exec.Ensures.{
  Post, Always, OnlyCancelled, AnyPython, OnlyCancelled-AnyPython, Ensures, Ensures-bind,
  Ensures-map, Ensures-try,
}
use python_smartdns.Dns.{Question, Message, Answer, Wire, Dnspython, servfail}
use python_smartdns.Pipeline.Context.{RequestContext}
use python_smartdns.Plugins.{
  Plugin, Hook, insert_by, ordered_plugins, unless_stopped, request_loop, response_loop,
  observe_loop, manager_on_finish,
}
use python_smartdns.Prelude.Int.{ℤ, leb_ℤ}
use python_smartdns.Dispatcher.Endings.{Settles}

-- Coroutines that end, with a value or with an exception of Python's.
abbrev pub Ends {ℓ} : {A : Type ℓ} → Exec RequestContext A → Type 0
Ends m = Ensures Always AnyPython m

abbrev pub Returns {ℓ} : {A : Type ℓ} → Outcome A → Type 0
Returns r = Post Always AnyPython r

-- The hooks of a plugin never report the model's own exception.
pub record IsPython (p : Plugin) : Type 0 where
  pub on_request : Ensures Always AnyPython p.on_request
  pub on_response : Ensures Always AnyPython p.on_response
  pub on_observe : Ensures Always AnyPython p.on_observe
  pub on_finish : Ensures Always AnyPython p.on_finish

-- Nor do the calls of dnspython.
pub record IsDnspython (d : Dnspython) : Type 0 where
  pub make_response : (m : Message) → Post Always AnyPython (d.make_response m)
  pub to_wire : (m : Message) → Post Always AnyPython (d.to_wire m)
  pub from_wire : (w : Wire) → Post Always AnyPython (d.from_wire w)
  pub make_answer :
      (name : String) (rdtype rdclass : ℕ) (m : Message)
      → Post Always AnyPython (d.make_answer name rdtype rdclass m)

-- The server failure that the program sends for a request: `make_response` accepts the request, as
-- it does where QR is clear, and its result can be rendered, read and wrapped in an `Answer`.
pub record Responds (d : Dnspython) (request : Message) : Type 0 where
  pub response : Message
  pub made : d.make_response request ≡ done response
  pub wire : Wire
  pub rendered : d.to_wire (record response { rcode = servfail; id = request.id }) ≡ done wire
  pub copy : Message
  pub read : d.from_wire wire ≡ done copy
  pub answer : Question → Answer
  pub wrapped :
      (q : Question)
      → d.make_answer q.name q.rdtype q.rdclass (record copy { id = request.id }) ≡ done (answer q)

pub Ends-bind {ℓ κ} :
    {A : Type ℓ} {B : Type κ} (m : Exec RequestContext A) (f : A → Exec RequestContext B)
    → Ends m
    → ((a : A) → Ends (f a))
    → Ends (m >>= f)
Ends-bind m f h k = Ensures-bind Always Always AnyPython m f h (λ a _. k a)

pub Ends-if {ℓ} :
    {A : Type ℓ} (b : Bool) (m n : Exec RequestContext A)
    → Ends m
    → Ends n
    → Ends (if b then m else n)
Ends-if true m n h k = h
Ends-if false m n h k = k

pub Returns-bind {ℓ κ} :
    {A : Type ℓ} {B : Type κ} (m : Outcome A) (f : A → Outcome B)
    → Returns m
    → ((a : A) → Returns (f a))
    → Returns (Outcome.◌>>=◌ m f)
Returns-bind (done a) f h k = k a
Returns-bind (raised e) f h k = h

pub tried : (m : Exec RequestContext (Unit {0})) → Ends m → Settles (try_except m (λ exc. pure tt))
tried m h = Ensures-try Always m (λ exc. pure tt) h (λ exc. record { at = λ s. tt })

pub Settles-Ends {ℓ} : {A : Type ℓ} (m : Exec RequestContext A) → Settles m → Ends m
Settles-Ends m h = Ensures-map Always OnlyCancelled AnyPython m OnlyCancelled-AnyPython h

-- The plugins' hooks, in any order.
module _ (key : Plugin → ℤ) where
  insert_by-All :
      (p : Plugin) (ps : List Plugin)
      → IsPython p
      → All IsPython ps
      → All IsPython (insert_by key p ps)
  unfolding insert_by
  insert_by-All p [] h k = (h, tt)
  insert_by-All p (q ∷ qs) h k = elim (Bool-cases (leb_ℤ (key p) (key q))) [
    | inl b ↦ rw b (h, k)
    | inr b ↦ rw b (k.0, insert_by-All p qs h k.1)
  ]

  pub ordered_plugins-All :
      (ps : List Plugin) → All IsPython ps → All IsPython (ordered_plugins key ps)
  unfolding ordered_plugins
  ordered_plugins-All [] h = tt
  ordered_plugins-All (p ∷ ps) h =
      insert_by-All p (ordered_plugins key ps) h.0 (ordered_plugins-All ps h.1)

unless_stopped-Ends : (m : Hook) → Ends m → Ends (unless_stopped m)
unless_stopped-Ends m h = record { at = λ s. go s (s.drop_request || s.stop_processing) }
  where
    go : (s : RequestContext) (b : Bool) → Post Always AnyPython (if b then pure tt s else m s).0
    go s true = tt
    go s false = h.at s

pub request_loop-Ends : (ps : List Plugin) → All IsPython ps → Ends (request_loop ps)
unfolding request_loop
request_loop-Ends [] h = record { at = λ s. tt }
request_loop-Ends (p ∷ ps) h = record {
  at = λ s.
      (Ends-bind p.on_request (λ _. unless_stopped (request_loop ps)) h.0.on_request
          (λ _. unless_stopped-Ends (request_loop ps) (request_loop-Ends ps h.1))).at
        (record s { plugin_order = s.plugin_order ++ p.name ∷ [] });
}

pub response_loop-Ends : (ps : List Plugin) → All IsPython ps → Ends (response_loop ps)
unfolding response_loop
response_loop-Ends [] h = record { at = λ s. tt }
response_loop-Ends (p ∷ ps) h =
    Ends-bind p.on_response (λ _. unless_stopped (response_loop ps)) h.0.on_response
      (λ _. unless_stopped-Ends (response_loop ps) (response_loop-Ends ps h.1))

pub observe_loop-Ends : (ps : List Plugin) → All IsPython ps → Ends (observe_loop ps)
unfolding observe_loop
observe_loop-Ends [] h = record { at = λ s. tt }
observe_loop-Ends (p ∷ ps) h =
    Ends-bind p.on_observe (λ _. observe_loop ps) h.0.on_observe (λ _. observe_loop-Ends ps h.1)

pub manager_on_finish-Ends : (ps : List Plugin) → All IsPython ps → Ends (manager_on_finish ps)
unfolding manager_on_finish
manager_on_finish-Ends [] h = record { at = λ s. tt }
manager_on_finish-Ends (p ∷ ps) h =
    Ends-bind (try_except p.on_finish (λ exc. pure tt)) (λ _. manager_on_finish ps)
      (Settles-Ends (try_except p.on_finish (λ exc. pure tt)) (tried p.on_finish h.0.on_finish))
      (λ _. manager_on_finish-Ends ps h.1)
