-- ===== src/Examples/Registrations.antt =====
-- Plugins that register objects, once under new names and once under a name that is taken.
use python_smartdns.Prelude.{ℕ, some, List, [], ◌∷◌, ◌≡◌, refl}
use python_smartdns.Outcome.{value_error, done, raised}
use python_smartdns.Plugins.Registrations.{
  register, PluginRegistry, Registration, register_context, register_context_factory,
  register_resolver, register_answer, build_registration, build_items, build_context_extensions,
  of_value, of_factory, apply_registration, register_all,
}
use python_smartdns.Plugins.Registered.{register_all-eq}

abbrev empty : PluginRegistry ℕ ℕ ℕ
empty = record { context_registry = []; resolver_registry = []; answer_registry = [] }

-- A name may stand in two buckets.
abbrev calls : List (Registration ℕ ℕ ℕ)
calls = register_context "a" 1 ∷ register_answer "a" 2 ∷ register_resolver "b" 3 ∷ []

abbrev filled : PluginRegistry ℕ ℕ ℕ
filled = record {
  context_registry = ("a", of_value 1) ∷ [];
  resolver_registry = ("b", 3) ∷ [];
  answer_registry = ("a", 2) ∷ [];
}

taken : register_all (register_context_factory "a" (λ u. done 4) ∷ []) filled ≡ raised value_error
unfolding register_all apply_registration register
taken = refl

abbrev made : PluginRegistry ℕ ℕ ℕ
made = record filled { context_registry = ("a", of_value 1) ∷ ("c", of_factory (λ u. done 4)) ∷ [] }

built : build_context_extensions made ≡ done (("a", some 1) ∷ ("c", some 4) ∷ [])
unfolding build_items build_registration
built = refl

register_all-eq_example : register_all calls empty ≡ done filled
register_all-eq_example = register_all-eq calls empty
