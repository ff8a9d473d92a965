-- ===== src/Prelude/Lists.antt =====
-- Lists measured by native numbers, and Python sets of texts as lists with a membership test.
use Prim.Native.Nat.{ℕ, suc, ◌+◌}
use Prim.Native.String.{String}
use mathlib.Core.Bool.{Bool, true, false, ◌||◌, Bool-set}
use mathlib.Core.List.{
  List, [], ◌∷◌, ◌++◌, Mem, mem-cons_self, mem-cons_of_mem, eq-or-mem_of_mem-cons, not-mem-nil,
}
use mathlib.Core.Logic.Or
use mathlib.Core.Logic.{◌↔◌, inl, inr}
use mathlib.Core.Path.{◌≡◌, refl, sym, ap, subst}
use native.Mathlib.Omega.{arith}
use text.Mathlib.Text.{◌==◌ as str_eq}
use text.Mathlib.TextEquality.{eq_iff}
use python_smartdns.Prelude.Tests.{if◌then◌else◌, Bool-cases}

module _ {ℓ} {A : Type ℓ} where
  abbrev pub length : List A → ℕ
  length [] = 0
  length (x ∷ xs) = suc (length xs)

  abbrev pub any : (A → Bool) → List A → Bool
  any p [] = false
  any p (x ∷ xs) = p x || any p xs

  abbrev pub filterb : (A → Bool) → List A → List A
  filterb p [] = []
  filterb p (x ∷ xs) = if p x then x ∷ filterb p xs else filterb p xs

  pub length-append : (xs ys : List A) → length (xs ++ ys) ≡ length xs + length ys
  length-append [] ys = omega arith
  length-append (x ∷ xs) ys = omega (arith, length-append xs ys)

abbrev pub All {ℓ κ} : {A : Type ℓ} → (A → Type κ) → List A → Type κ
All P [] = Unit
All P (x ∷ xs) = P x × All P xs

-- `x in xs`
abbrev pub elem : String → List String → Bool
elem x [] = false
elem x (y ∷ ys) = str_eq y x || elem x ys

-- `a.intersection(b)` as a test, and `any(tag in b for tag in a)`
abbrev pub intersects : List String → List String → Bool
intersects a b = any (λ t. elem t b) a

abbrev pub is_empty {ℓ} : {A : Type ℓ} → List A → Bool
is_empty [] = true
is_empty (x ∷ xs) = false

-- `s.add(x)`, and `s.update(xs)`
abbrev pub add : String → List String → List String
add x s = if elem x s then s else x ∷ s

abbrev pub update : List String → List String → List String
update s [] = s
update s (x ∷ xs) = update (add x s) xs

-- Membership as a test is membership.
pub elem-Mem : (x : String) (ys : List String) → elem x ys ≡ true → Mem x ys
elem-Mem x [] h = cc
elem-Mem x (y ∷ ys) h = elim (Bool-cases (str_eq y x)) [
  | inl e ↦ rw (← (eq_iff y x).0 e) mem-cons_self
  | inr n ↦ mem-cons_of_mem y (elem-Mem x ys (ground arith))
]

Mem-elem : (x : String) (ys : List String) → Mem x ys → elem x ys ≡ true
Mem-elem x [] m = absurd (not-mem-nil m)
Mem-elem x (y ∷ ys) m =
    Or.elim (Bool-set (elem x (y ∷ ys)) true) (eq-or-mem_of_mem-cons m)
      (λ e. ground (arith, (eq_iff y x).1 (sym e))) (λ r. ground (arith, Mem-elem x ys r))

pub elem-Mem_iff : (x : String) (ys : List String) → (elem x ys ≡ true) ↔ Mem x ys
elem-Mem_iff x ys = (elem-Mem x ys, Mem-elem x ys)

-- `All` holds at every member, and follows from every member.
pub All-elem {κ} :
    (P : String → Type κ) (ts : List String) (t : String) → All P ts → elem t ts ≡ true → P t
All-elem P [] t all h = absurd (cc)
All-elem P (x ∷ ts) t all h = elim (Bool-cases (str_eq x t)) [
  | inl e ↦ subst P ((eq_iff x t).0 e) all.0
  | inr n ↦ All-elem P ts t all.1 (rw n at h)
]

pub All-intro {κ} :
    (P : String → Type κ) (ts : List String) → ((t : String) → elem t ts ≡ true → P t) → All P ts
All-intro P [] f = tt
All-intro P (x ∷ ts) f =
    (f x (ground (arith, eq_iff x x)), All-intro P ts (λ t h. f t (ground (arith, h))))

-- Membership as a test, of what lists and sets are made of.
pub elem-append : (x : String) (xs ys : List String) → elem x (xs ++ ys) ≡ (elem x xs || elem x ys)
elem-append x [] ys = refl
elem-append x (z ∷ xs) ys = ground (arith, elem-append x xs ys)

pub elem-same : (x y : String) (ys : List String) → str_eq y x ≡ true → elem x ys ≡ elem y ys
elem-same x y ys h = ap (λ z. elem z ys) (sym ((eq_iff y x).0 h))

pub elem-update : (x : String) (s xs : List String) → elem x (update s xs) ≡ (elem x s || elem x xs)
elem-update x s [] = ground arith
elem-update x s (y ∷ xs) = elim (Bool-cases (elem y s)) [
  | inl e ↦ elim (Bool-cases (str_eq y x)) [
    | inl f ↦ ground (arith, e, f, elem-update x (add y s) xs, elem-same x y s f)
    | inr f ↦ ground (arith, e, f, elem-update x (add y s) xs)
  ]
  | inr e ↦ ground (arith, e, elem-update x (add y s) xs)
]
