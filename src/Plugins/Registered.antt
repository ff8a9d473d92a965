-- ===== src/Plugins/Registered.antt =====
-- dns_forwarder/plugin_api/base.py: what the registry holds after the calls that register.
use mathlib.Core.List.{append-nil, append_assoc}
use python_smartdns.Prelude.{
  String, Bool, true, false, ◌&&◌, not, Bool-cases, List, [], ◌∷◌, ◌++◌, elem, ◌≡◌, refl, ap, inl,
  inr, arith, if◌then◌else◌,
}
use python_smartdns.Outcome.{value_error, Outcome, done, raised, ◌>>=◌}
use python_smartdns.Plugins.Registrations.{
  Bucket, keys, register, PluginRegistry, Registration, register_context, register_context_factory,
  register_resolver, register_answer, of_value, of_factory, apply_registration, register_all,
  contexts_of, resolvers_of, answers_of,
}

-- No name stands twice, nor among those used before.
abbrev pub are_fresh : List String → List String → Bool
are_fresh used [] = true
are_fresh used (n ∷ ns) = not (elem n used) && are_fresh (used ++ n ∷ []) ns

keys-append :
    {A : Type 0} (xs : Bucket A) (n : String) (v : A) → keys (xs ++ (n, v) ∷ []) ≡ keys xs ++ n ∷ []
keys-append [] n v = refl
keys-append (x ∷ xs) n v = ap (λ ks. x.0 ∷ ks) (keys-append xs n v)

-- One call on a bucket, before the calls that put `items` there; `cond` is the test on the names,
-- which asks that those of this bucket are fresh.
register-then :
    {A C D : Type 0} (bucket : Bucket A) (n : String) (v : A) (items : Bucket A)
    (cond : Bool → Bool) (put : Bucket A → C) (k : C → Outcome D) (g : Bucket A → D)
    → cond false ≡ false
    → ((b : Bucket A)
        → k (put b) ≡ (
            if cond (are_fresh (keys b) (keys items))
            then done (g (b ++ items))
            else raised value_error))
    → ((register bucket n v >>= λ b. done (put b)) >>= k) ≡ (
        if cond (are_fresh (keys bucket) (n ∷ keys items))
        then done (g (bucket ++ (n, v) ∷ items))
        else raised value_error)
unfolding register
register-then bucket n v items cond put k g c h = elim (Bool-cases (elem n (keys bucket))) [
  | inl e ↦ rw (e, c) refl
  | inr e ↦
      rw
        (
          e,
          h (bucket ++ (n, v) ∷ []),
          keys-append bucket n v,
          append_assoc bucket ((n, v) ∷ []) items,
        )
        refl
]

module _ {V R B : Type 0} where
  -- The registry with the items of the calls behind its own.
  abbrev pub with_calls : PluginRegistry V R B → List (Registration V R B) → PluginRegistry V R B
  with_calls r cs = record {
    context_registry = r.context_registry ++ contexts_of cs;
    resolver_registry = r.resolver_registry ++ resolvers_of cs;
    answer_registry = r.answer_registry ++ answers_of cs;
  }

  -- In each of the three buckets the calls use new names.
  abbrev pub use_new_names : PluginRegistry V R B → List (Registration V R B) → Bool
  use_new_names r cs =
      are_fresh (keys r.context_registry) (keys (contexts_of cs))
      && are_fresh (keys r.resolver_registry) (keys (resolvers_of cs))
      && are_fresh (keys r.answer_registry) (keys (answers_of cs))

  -- Calls that register objects, one after another on a registry, put each object behind those of
  -- its bucket, with nothing replaced, if no name is in its bucket already or used twice for it;
  -- else one of them raises `ValueError`. A name may stand in several buckets.
  pub register_all-eq :
      (cs : List (Registration V R B)) (r : PluginRegistry V R B)
      → register_all cs r
        ≡ (if use_new_names r cs then done (with_calls r cs) else raised value_error)
  unfolding register_all apply_registration
  register_all-eq [] r =
      rw
        (
          append-nil r.context_registry,
          append-nil r.resolver_registry,
          append-nil r.answer_registry,
        )
        refl
  register_all-eq (register_context n v ∷ cs) r =
      register-then r.context_registry n (of_value v) (contexts_of cs)
        (λ x.
          x
          && are_fresh (keys r.resolver_registry) (keys (resolvers_of cs))
          && are_fresh (keys r.answer_registry) (keys (answers_of cs)))
        (λ b. record r { context_registry = b }) (register_all cs)
        (λ b. record (with_calls r cs) { context_registry = b }) refl
        (λ b. register_all-eq cs (record r { context_registry = b }))
  register_all-eq (register_context_factory n v ∷ cs) r =
      register-then r.context_registry n (of_factory v) (contexts_of cs)
        (λ x.
          x
          && are_fresh (keys r.resolver_registry) (keys (resolvers_of cs))
          && are_fresh (keys r.answer_registry) (keys (answers_of cs)))
        (λ b. record r { context_registry = b }) (register_all cs)
        (λ b. record (with_calls r cs) { context_registry = b }) refl
        (λ b. register_all-eq cs (record r { context_registry = b }))
  register_all-eq (register_resolver n v ∷ cs) r =
      register-then r.resolver_registry n v (resolvers_of cs)
        (λ x.
          are_fresh (keys r.context_registry) (keys (contexts_of cs))
          && x
          && are_fresh (keys r.answer_registry) (keys (answers_of cs)))
        (λ b. record r { resolver_registry = b }) (register_all cs)
        (λ b. record (with_calls r cs) { resolver_registry = b }) (ground arith)
        (λ b. register_all-eq cs (record r { resolver_registry = b }))
  register_all-eq (register_answer n v ∷ cs) r =
      register-then r.answer_registry n v (answers_of cs)
        (λ x.
          are_fresh (keys r.context_registry) (keys (contexts_of cs))
          && are_fresh (keys r.resolver_registry) (keys (resolvers_of cs))
          && x)
        (λ b. record r { answer_registry = b }) (register_all cs)
        (λ b. record (with_calls r cs) { answer_registry = b }) (ground arith)
        (λ b. register_all-eq cs (record r { answer_registry = b }))
