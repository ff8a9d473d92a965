-- ===== src/Bundled/Block/Supplied.antt =====
-- What the rules of the plugin for static answers have for a type.
use python_smartdns.Prelude.{
  ℕ, true, false, ◌==◌, is_empty, map, Bool-cases, String, List, [], ◌∷◌, ◌≡◌, refl, ◌⊎◌, inl, inr,
  arith,
}
use python_smartdns.Dns.{Question, address, RRset}
use python_smartdns.Bundled.Block.{BlockPluginRuleConfig, serves, static_records}

-- What a rule has for a type: addresses for A and AAAA, and for any other type the mark that it is
-- blocked.
abbrev pub Supplies : BlockPluginRuleConfig → ℕ → Type 0
Supplies rule rdtype =
    ((rdtype ≡ 1) × (rule.ipv4_addresses ≡ [] → ⊥))
    ⊎ ((rdtype ≡ 28) × (rule.ipv6_addresses ≡ [] → ⊥))
    ⊎ ((rdtype ≡ 1 → ⊥) × (rdtype ≡ 28 → ⊥) × (rule.block_other ≡ true))

is_empty-false : (xs : List String) → is_empty xs ≡ false → xs ≡ [] → ⊥
is_empty-false [] h e = cc h
is_empty-false (x ∷ xs) h e = cc e

not_nil-is_empty : (xs : List String) → (xs ≡ [] → ⊥) → is_empty xs ≡ false
not_nil-is_empty [] h = absurd (h refl)
not_nil-is_empty (x ∷ xs) h = refl

pub serves-Supplies :
    (rule : BlockPluginRuleConfig) (rdtype : ℕ) → serves rule rdtype ≡ true → Supplies rule rdtype
serves-Supplies rule rdtype h = elim (Bool-cases (rdtype == 1)) [
  | inl a ↦
      let e : is_empty rule.ipv4_addresses ≡ false = ground (arith, a, h) in
      inl (ground (arith, a), is_empty-false rule.ipv4_addresses e)
  | inr a ↦ elim (Bool-cases (rdtype == 28)) [
    | inl b ↦
        let e : is_empty rule.ipv6_addresses ≡ false = ground (arith, a, b, h) in
        inr (inl (ground (arith, b), is_empty-false rule.ipv6_addresses e))
    | inr b ↦ inr (
        inr (
          λ k. absurd (ground (arith, a, k)),
          λ k. absurd (ground (arith, b, k)),
          ground (arith, a, b, h),
        ))
  ]
]

pub Supplies-serves :
    (rule : BlockPluginRuleConfig) (rdtype : ℕ) → Supplies rule rdtype → serves rule rdtype ≡ true
Supplies-serves rule rdtype (inl (a, n)) = ground (arith, a, not_nil-is_empty rule.ipv4_addresses n)
Supplies-serves rule rdtype (inr (inl (b, n))) =
    ground (arith, b, not_nil-is_empty rule.ipv6_addresses n)
Supplies-serves rule rdtype (inr (inr (a, b, other))) = elim (Bool-cases (rdtype == 1)) [
  | inl k ↦ absurd (a (ground (arith, k)))
  | inr k ↦ elim (Bool-cases (rdtype == 28)) [
    | inl l ↦ absurd (b (ground (arith, l)))
    | inr l ↦ ground (arith, k, l, other)
  ]
]

-- The records that answer a question by a rule: one set with all addresses of the kind asked for, and
-- none for another type.
abbrev pub set_of : Question → ℕ → List String → RRset
set_of q ttl ips = record {
  name = q.name;
  rdtype = q.rdtype;
  rdclass = 1;
  ttl = ttl;
  records = map address ips;
}

abbrev pub Holds : Question → BlockPluginRuleConfig → List RRset → Type 0
Holds q rule sets =
    ((q.rdtype ≡ 1) × (sets ≡ set_of q rule.response_ttl_seconds rule.ipv4_addresses ∷ []))
    ⊎ ((q.rdtype ≡ 28) × (sets ≡ set_of q rule.response_ttl_seconds rule.ipv6_addresses ∷ []))
    ⊎ ((q.rdtype ≡ 1 → ⊥) × (q.rdtype ≡ 28 → ⊥) × (sets ≡ []))

pub static_records-Holds :
    (q : Question) (rule : BlockPluginRuleConfig)
    → Supplies rule q.rdtype
    → Holds q rule (static_records q rule)
unfolding static_records
static_records-Holds q rule (inl (a, n)) =
    let t : (q.rdtype == 1) ≡ true = ground (arith, a) in
    rw (t, not_nil-is_empty rule.ipv4_addresses n) (inl (a, refl))
static_records-Holds q rule (inr (inl (b, n))) =
    let f : (q.rdtype == 1) ≡ false = ground (arith, b) in
    let t : (q.rdtype == 28) ≡ true = ground (arith, b) in
    rw (f, t, not_nil-is_empty rule.ipv6_addresses n) (inr (inl (b, refl)))
static_records-Holds q rule (inr (inr (a, b, other))) = elim (Bool-cases (q.rdtype == 1)) [
  | inl k ↦ absurd (a (ground (arith, k)))
  | inr k ↦ elim (Bool-cases (q.rdtype == 28)) [
    | inl l ↦ absurd (b (ground (arith, l)))
    | inr l ↦ rw (k, l) (inr (inr (a, b, refl)))
  ]
]
