-- ===== src/Prelude/Sorting.antt =====
-- `sorted` with a test for the order of two members.
use mathlib.Core.Bool.{Bool, true, false}
use mathlib.Core.List.{List, [], ◌∷◌, Perm, Pairwise, Pairwise-singleton, forall_mem-cons}
use mathlib.Core.List.Perm
use mathlib.Core.Logic.{inl, inr}
use mathlib.Core.Path.{◌≡◌}
use python_smartdns.Prelude.Lists.{All}
use python_smartdns.Prelude.Tests.{if◌then◌else◌, Bool-cases}

module _ {ℓ} {A : Type ℓ} (before : A → A → Bool) where
  abbrev pub insert_sorted : A → List A → List A
  insert_sorted x [] = x ∷ []
  insert_sorted x (y ∷ ys) = if before x y then x ∷ y ∷ ys else y ∷ insert_sorted x ys

  abbrev pub sort_by : List A → List A
  sort_by [] = []
  sort_by (x ∷ xs) = insert_sorted x (sort_by xs)

  abbrev pub Before : A → A → Type 0
  Before x y = before x y ≡ true

  -- Every member comes before the later ones.
  abbrev pub IsAscending : List A → Type ℓ
  IsAscending = Pairwise Before

  insert_sorted-Perm : (x : A) (l : List A) → Perm (insert_sorted x l) (x ∷ l)
  insert_sorted-Perm x [] = Perm.rfl
  insert_sorted-Perm x (y ∷ ys) = elim (Bool-cases (before x y)) [
    | inl e ↦ rw e Perm.rfl
    | inr e ↦ rw e (Perm.trans (Perm.cons y (insert_sorted-Perm x ys)) (Perm.swap x y ys))
  ]

  pub sort_by-Perm : (l : List A) → Perm (sort_by l) l
  sort_by-Perm [] = Perm.rfl
  sort_by-Perm (x ∷ xs) =
      Perm.trans (insert_sorted-Perm x (sort_by xs)) (Perm.cons x (sort_by-Perm xs))

  insert_sorted-All {κ} :
      (P : A → Type κ) (x : A) (l : List A) → P x → All P l → All P (insert_sorted x l)
  insert_sorted-All P x [] p h = (p, h)
  insert_sorted-All P x (y ∷ ys) p h = elim (Bool-cases (before x y)) [
    | inl e ↦ rw e (p, h)
    | inr e ↦ rw e (h.0, insert_sorted-All P x ys p h.1)
  ]

  pub sort_by-All {κ} : (P : A → Type κ) (l : List A) → All P l → All P (sort_by l)
  sort_by-All P [] h = h
  sort_by-All P (x ∷ xs) h = insert_sorted-All P x (sort_by xs) h.0 (sort_by-All P xs h.1)

  Before-prop : (x y : A) → IsProp (Before x y)
  Before-prop x y = hlevel

  module _ (total : (x y : A) → before x y ≡ false → Before y x)
      (transitive : (x y z : A) → Before x y → Before y z → Before x z) where
    insert_sorted-IsAscending :
        (x : A) (l : List A) → IsAscending l → IsAscending (insert_sorted x l)
    insert_sorted-IsAscending x [] s = Pairwise-singleton _ x
    insert_sorted-IsAscending x (y ∷ ys) (Pairwise.cons h s) = elim (Bool-cases (before x y)) [
      | inl e ↦ rw e (
          Pairwise.cons ((forall_mem-cons (Before-prop x)).1 (e, λ z m. transitive x y z e (h z m)))
            (Pairwise.cons h s))
      | inr e ↦ rw e (
          Pairwise.cons
            (λ z m.
              (forall_mem-cons (Before-prop y)).1 (total x y e, h) z
                ((Perm.mem_iff (insert_sorted-Perm x ys)).0 m))
            (insert_sorted-IsAscending x ys s))
    ]

    pub sort_by-IsAscending : (l : List A) → IsAscending (sort_by l)
    sort_by-IsAscending [] = Pairwise.nil
    sort_by-IsAscending (x ∷ xs) = insert_sorted-IsAscending x (sort_by xs) (sort_by-IsAscending xs)
