-- ===== src/Tags.antt =====
-- Tests on tags, which requests, rules, results and addresses carry, in terms of membership.
use python_smartdns.Prelude.{
  String, Bool, true, false, not, ◌&&◌, List, [], ◌∷◌, elem, any, is_empty, Mem, ◌≡◌, ◌↔◌, ◌⊎◌,
  refl, inl, inr, arith, str_eq, eq_iff, Bool-cases, elem-Mem_iff,
}

-- A tag of the first list is among the second.
abbrev pub Meets : List String → List String → Type 0
Meets xs ys = (x : String) × Mem x xs × Mem x ys

pub any-Meets : (xs ys : List String) → any (λ x. elem x ys) xs ≡ true → Meets xs ys
any-Meets [] ys h = absurd (cc)
any-Meets (x ∷ xs) ys h = elim (Bool-cases (elem x ys)) [
  | inl e ↦ (x, (elem-Mem_iff x (x ∷ xs)).0 (ground (arith, eq_iff x x)), (elem-Mem_iff x ys).0 e)
  | inr e ↦
      let (z, m, n) = any-Meets xs ys (rw e at h) in
      (z, (elem-Mem_iff z (x ∷ xs)).0 (ground (arith, (elem-Mem_iff z xs).1 m)), n)
]

any_of_elem :
    (x : String) (xs ys : List String)
    → elem x xs ≡ true
    → elem x ys ≡ true
    → any (λ t. elem t ys) xs ≡ true
any_of_elem x [] ys h k = absurd (cc)
any_of_elem x (z ∷ xs) ys h k = elim (Bool-cases (str_eq z x)) [
  | inl e ↦ rw ((eq_iff z x).0 e, k)
  | inr e ↦ ground (arith, any_of_elem x xs ys (rw e at h) k)
]

pub Meets-any : (xs ys : List String) → Meets xs ys → any (λ x. elem x ys) xs ≡ true
Meets-any xs ys (x, m, n) = any_of_elem x xs ys ((elem-Mem_iff x xs).1 m) ((elem-Mem_iff x ys).1 n)

is_empty-eq {ℓ} : {A : Type ℓ} (xs : List A) → is_empty xs ≡ true → xs ≡ []
is_empty-eq [] h = refl
is_empty-eq (x ∷ xs) h = absurd (cc)

eq-is_empty {ℓ} : {A : Type ℓ} (xs : List A) → xs ≡ [] → is_empty xs ≡ true
eq-is_empty xs h = rw h

-- The test `if wanted and not found` in words.
pub empty_or_iff :
    {P : Type 0} (xs : List String) (found : Bool)
    → (found ≡ true) ↔ P
    → (not (not (is_empty xs) && not found) ≡ true) ↔ ((xs ≡ []) ⊎ P)
empty_or_iff xs found (to, from) = elim (Bool-cases (is_empty xs)) [
  | inl e ↦ (λ h. inl (is_empty-eq xs e), λ h. rw e)
  | inr e ↦ elim (Bool-cases found) [
    | inl f ↦ (λ h. inr (to f), λ h. rw (e, f))
    | inr f ↦ (
      λ h. absurd (ground (arith, h, e, f)),
      λ h. elim h [
        | inl nil ↦ absurd (cc (eq-is_empty xs nil, e))
        | inr p ↦ absurd (cc (from p, f))
      ],
    )
  ]
]

pub excluded_iff :
    (xs ys : List String)
    → (not (not (is_empty xs) && any (λ x. elem x ys) xs) ≡ true) ↔ (¬ Meets xs ys)
excluded_iff [] ys = (λ h m. absurd (cc (Meets-any [] ys m)), λ h. refl)
excluded_iff (x ∷ xs) ys = elim (Bool-cases (any (λ t. elem t ys) (x ∷ xs))) [
  | inl e ↦ (λ h. absurd (ground (arith, h, e)), λ h. absurd (h (any-Meets (x ∷ xs) ys e)))
  | inr e ↦ (λ h m. cc (Meets-any (x ∷ xs) ys m, e), λ h. ground (arith, e))
]

pub &&_iff :
    {P Q : Type 0} (a b : Bool) → (a ≡ true) ↔ P → (b ≡ true) ↔ Q → (a && b ≡ true) ↔ (P × Q)
&&_iff true b (p, p') (q, q') = (λ h. (p refl, q h), λ h. q' h.1)
&&_iff false b (p, p') (q, q') = (λ h. absurd (cc), λ h. absurd (cc (p' h.0)))
