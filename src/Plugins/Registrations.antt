-- ===== src/Plugins/Registrations.antt =====
-- dns_forwarder/plugin_api/base.py: `PluginRegistry`, where plugins register objects by name when
-- they are set up. A dict is the list of its items, in the order in which they were inserted.
use python_smartdns.Prelude.{String, Option, none, some, List, [], ◌∷◌, ◌++◌, elem, if◌then◌else◌}
use python_smartdns.Outcome.{value_error, Outcome, done, raised, ◌>>=◌}

abbrev pub Bucket : Type 0 → Type 0
Bucket A = List (String × A)

abbrev pub keys : {A : Type 0} → Bucket A → List String
keys [] = []
keys (item ∷ items) = item.0 ∷ keys items

-- `PluginRegistry._register`
unfoldable pub register : {A : Type 0} → Bucket A → String → A → Outcome (Bucket A)
register bucket name value =
    if elem name (keys bucket) then raised value_error else done (bucket ++ (name, value) ∷ [])

module _ (V R B : Type 0) where
  -- `ContextRegistration`, whose factory may raise
  pub record ContextRegistration : Type 0 where
    pub value : Option V
    pub factory : Option (Unit {0} → Outcome V)

  pub record PluginRegistry : Type 0 where
    pub context_registry : Bucket ContextRegistration
    pub resolver_registry : Bucket R
    pub answer_registry : Bucket B

  -- A call of one of the methods that register.
  pub data Registration : Type 0 where
    register_context : String → V → Registration
    register_context_factory : String → (Unit {0} → Outcome V) → Registration
    register_resolver : String → R → Registration
    register_answer : String → B → Registration

module _ {V R B : Type 0} where
  -- `ContextRegistration.build`
  unfoldable pub build_registration : ContextRegistration V R B → Outcome (Option V)
  build_registration c = elim c.factory [
    | some factory ↦ factory tt >>= λ v. done (some v)
    | none ↦ done c.value
  ]

  abbrev pub of_value : V → ContextRegistration V R B
  of_value v = record { value = some v; factory = none }

  abbrev pub of_factory : (Unit {0} → Outcome V) → ContextRegistration V R B
  of_factory f = record { value = none; factory = some f }

  unfoldable pub apply_registration :
      PluginRegistry V R B → Registration V R B → Outcome (PluginRegistry V R B)
  apply_registration r (register_context name v) =
      register r.context_registry name (of_value v) >>= λ b.
      done (record r { context_registry = b })
  apply_registration r (register_context_factory name f) =
      register r.context_registry name (of_factory f) >>= λ b.
      done (record r { context_registry = b })
  apply_registration r (register_resolver name v) =
      register r.resolver_registry name v >>= λ b. done (record r { resolver_registry = b })
  apply_registration r (register_answer name v) =
      register r.answer_registry name v >>= λ b. done (record r { answer_registry = b })

  -- The calls of the plugins' `setup`, one after another; the first that raises ends the build.
  unfoldable pub register_all :
      List (Registration V R B) → PluginRegistry V R B → Outcome (PluginRegistry V R B)
  register_all [] r = done r
  register_all (c ∷ cs) r = apply_registration r c >>= register_all cs

  -- The items that the calls ask for, bucket by bucket.
  abbrev pub contexts_of : List (Registration V R B) → Bucket (ContextRegistration V R B)
  contexts_of [] = []
  contexts_of (register_context name v ∷ cs) = (name, of_value v) ∷ contexts_of cs
  contexts_of (register_context_factory name f ∷ cs) = (name, of_factory f) ∷ contexts_of cs
  contexts_of (register_resolver name v ∷ cs) = contexts_of cs
  contexts_of (register_answer name v ∷ cs) = contexts_of cs

  abbrev pub resolvers_of : List (Registration V R B) → Bucket R
  resolvers_of [] = []
  resolvers_of (register_context name v ∷ cs) = resolvers_of cs
  resolvers_of (register_context_factory name f ∷ cs) = resolvers_of cs
  resolvers_of (register_resolver name v ∷ cs) = (name, v) ∷ resolvers_of cs
  resolvers_of (register_answer name v ∷ cs) = resolvers_of cs

  abbrev pub answers_of : List (Registration V R B) → Bucket B
  answers_of [] = []
  answers_of (register_context name v ∷ cs) = answers_of cs
  answers_of (register_context_factory name f ∷ cs) = answers_of cs
  answers_of (register_resolver name v ∷ cs) = answers_of cs
  answers_of (register_answer name v ∷ cs) = (name, v) ∷ answers_of cs

  -- The loop of `PluginManager.build_context_extensions` over the items
  unfoldable pub build_items : Bucket (ContextRegistration V R B) → Outcome (Bucket (Option V))
  build_items [] = done []
  build_items (item ∷ items) =
      build_registration item.1 >>= λ v. build_items items >>= λ built. done ((item.0, v) ∷ built)

  abbrev pub build_context_extensions : PluginRegistry V R B → Outcome (Bucket (Option V))
  build_context_extensions r = build_items r.context_registry

  -- A copy: the items are the same.
  abbrev pub build_answer_registry : PluginRegistry V R B → Bucket B
  build_answer_registry r = r.answer_registry
