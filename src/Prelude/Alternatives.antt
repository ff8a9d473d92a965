-- ===== src/Prelude/Alternatives.antt =====
-- Statements with alternatives, taken apart in both directions.
use mathlib.Core.Logic.{◌↔◌, ◌⊎◌, inl, inr}

pub iff_trans : {A B C : Type 0} → A ↔ B → B ↔ C → A ↔ C
iff_trans a b = (λ x. b.0 (a.0 x), λ x. a.1 (b.1 x))

-- Where the first of two alternatives has two itself.
pub regroup : {M N D E F : Type 0} → M ↔ (N ⊎ D) → E ↔ (D ⊎ F) → (M ⊎ F) ↔ (N ⊎ E)
regroup {M} {N} {D} {E} {F} a b = (forth, back)
  where
    forth : M ⊎ F → N ⊎ E
    forth (inl m) = elim (a.0 m) [ inl n ↦ inl n | inr d ↦ inr (b.1 (inl d)) ]
    forth (inr f) = inr (b.1 (inr f))

    back : N ⊎ E → M ⊎ F
    back (inl n) = inl (a.1 (inl n))
    back (inr e) = elim (b.0 e) [ inl d ↦ inl (a.1 (inr d)) | inr f ↦ inr f ]

pub iff_refl : {A : Type 0} → A ↔ A
iff_refl = (λ x. x, λ x. x)
