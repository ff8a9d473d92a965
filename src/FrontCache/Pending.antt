-- ===== src/FrontCache/Pending.antt =====
-- The keys that are pending, as a dictionary.
use python_smartdns.Prelude.{
  ℕ, true, Bool-cases, some, List, [], ◌∷◌, ◌≡◌, refl, sym, subst, ◌∙◌, ◌⊎◌, inl, inr,
}
use python_smartdns.FrontCache.{Key, same_key, lookup, without}
use python_smartdns.FrontCache.Coalescing.{same_key-eq}

pub lookup-cons :
    (k : Key) (e : ℕ) (p : List (Key × ℕ)) (j : Key) (x : ℕ)
    → lookup ((k, e) ∷ p) j ≡ some x
    → ((k ≡ j) × (e ≡ x)) ⊎ (lookup p j ≡ some x)
lookup-cons k e p j x h = elim (Bool-cases (same_key k j)) [
  | inl b ↦ let found : some e ≡ some x = rw b at h in inl (same_key-eq k j b, cc found)
  | inr b ↦ inr (rw b at h)
]

pub lookup-without :
    (p : List (Key × ℕ)) (k j : Key) (x : ℕ)
    → lookup (without p k) j ≡ some x
    → (lookup p j ≡ some x) × (k ≡ j → ⊥)
lookup-without [] k j x h = absurd (cc h)
lookup-without ((l, e) ∷ p) k j x h = elim (Bool-cases (same_key l k)) [
  | inl b ↦
      let (found, other) = lookup-without p k j x (rw b at h) in
      let lk : l ≡ k = same_key-eq l k b in
      elim (Bool-cases (same_key l j)) [
        | inl y ↦ absurd (other (sym lk ∙ same_key-eq l j y))
        | inr y ↦ (rw y found, other)
      ]
  | inr b ↦ elim (Bool-cases (same_key l j)) [
    | inl y ↦
        let first : some e ≡ some x = rw (b, y) at h in
        (rw y first, λ kj. absurd (cc (b, subst (λ z. same_key l z ≡ true) (sym kj) y)))
    | inr y ↦ let (found, other) = lookup-without p k j x (rw (b, y) at h) in (rw y found, other)
  ]
]

pub without-lookup :
    (p : List (Key × ℕ)) (k j : Key) → (k ≡ j → ⊥) → lookup (without p k) j ≡ lookup p j
without-lookup [] k j h = refl
without-lookup ((l, e) ∷ p) k j h = elim (Bool-cases (same_key l k)) [
  | inl b ↦ elim (Bool-cases (same_key l j)) [
    | inl y ↦ absurd (h (sym (same_key-eq l k b) ∙ same_key-eq l j y))
    | inr y ↦ rw (b, y) (without-lookup p k j h)
  ]
  | inr b ↦ elim (Bool-cases (same_key l j)) [
    | inl y ↦ rw (b, y) refl
    | inr y ↦ rw (b, y) (without-lookup p k j h)
  ]
]
