-- ===== src/Sets/Labels.antt =====
-- Python's `split_text` and `join` at one separator, and texts that end every label by it.
use mathlib.Core.List.{append_assoc, reverse, reverse_aux-eq, reverse-append, reverse-reverse}
use python_smartdns.Prelude.{
  ℕ, false, ◌==◌, Bool-cases, List, [], ◌∷◌, ◌++◌, All, ◌≡◌, ◌↔◌, refl, sym, ap, subst, ◌∙◌, inl,
  inr, arith, if◌then◌else◌,
}
use python_smartdns.Sets.Texts.{Text}

abbrev pub IsPrefix : {A : Type 0} → List A → List A → Type 0
IsPrefix {A} p t = (rest : List A) × (p ++ rest ≡ t)

abbrev pub IsSuffix : {A : Type 0} → List A → List A → Type 0
IsSuffix {A} p t = (front : List A) × (front ++ p ≡ t)

abbrev pub cons_head : ℕ → List Text → List Text
cons_head c [] = (c ∷ []) ∷ []
cons_head c (l ∷ ls) = (c ∷ l) ∷ ls

-- `text.split_text(sep)`
unfoldable pub split_text : ℕ → Text → List Text
split_text sep [] = [] ∷ []
split_text sep (c ∷ t) =
    let rest = split_text sep t in if c == sep then [] ∷ rest else cons_head c rest

-- `sep.join(labels)`
unfoldable pub join_texts : ℕ → List Text → Text
join_texts sep [] = []
join_texts sep (l ∷ []) = l
join_texts sep (l ∷ m ∷ ls) = l ++ sep ∷ join_texts sep (m ∷ ls)

-- Each label with the separator behind it.
abbrev pub ended : ℕ → List Text → Text
ended sep [] = []
ended sep (l ∷ ls) = l ++ sep ∷ ended sep ls

abbrev pub IsFree : ℕ → Text → Type 0
IsFree sep t = All (λ c. (c == sep) ≡ false) t

module _ (sep : ℕ) where
  pub join_texts-ended :
      (l : Text) (ls : List Text) → join_texts sep (l ∷ ls) ++ sep ∷ [] ≡ ended sep (l ∷ ls)
  unfolding join_texts
  join_texts-ended l [] = refl
  join_texts-ended l (m ∷ ls) =
      append_assoc l (sep ∷ join_texts sep (m ∷ ls)) (sep ∷ [])
      ∙ ap (λ t. l ++ sep ∷ t) (join_texts-ended m ls)

  IsFree-cons_head :
      (c : ℕ) (ls : List Text)
      → (c == sep) ≡ false
      → All (IsFree sep) ls
      → All (IsFree sep) (cons_head c ls)
  IsFree-cons_head c [] h k = ((h, tt), tt)
  IsFree-cons_head c (l ∷ ls) h k = ((h, k.0), k.1)

  pub split_text-IsFree : (t : Text) → All (IsFree sep) (split_text sep t)
  unfolding split_text
  split_text-IsFree [] = (tt, tt)
  split_text-IsFree (c ∷ t) = elim (Bool-cases (c == sep)) [
    | inl e ↦ rw e (tt, split_text-IsFree t)
    | inr e ↦ rw e (IsFree-cons_head c (split_text sep t) e (split_text-IsFree t))
  ]

  ended-append : (ls ms : List Text) → ended sep (ls ++ ms) ≡ ended sep ls ++ ended sep ms
  ended-append [] ms = refl
  ended-append (l ∷ ls) ms =
      ap (λ t. l ++ sep ∷ t) (ended-append ls ms)
      ∙ sym (append_assoc l (sep ∷ ended sep ls) (ended sep ms))

  -- Labels without the separator are told apart by the first one behind them.
  cut :
      (l m a b : Text)
      → IsFree sep l
      → IsFree sep m
      → l ++ sep ∷ a ≡ m ++ sep ∷ b
      → (l ≡ m) × (a ≡ b)
  cut [] [] a b fl fm h = (refl, cc h)
  cut [] (d ∷ m) a b fl fm h = absurd (differs d fm.0 (cc h))
    where
      differs : (d : ℕ) → (d == sep) ≡ false → sep ≡ d → ⊥
      differs d f e = ground (arith, f, e)
  cut (c ∷ l) [] a b fl fm h = absurd (differs c fl.0 (cc h))
    where
      differs : (c : ℕ) → (c == sep) ≡ false → c ≡ sep → ⊥
      differs c f e = ground (arith, f, e)
  cut (c ∷ l) (d ∷ m) a b fl fm h =
      let (e, k) = cut l m a b fl.1 fm.1 (cc h) in let head : c ≡ d = cc h in (cc (e, head), k)

  ended-not_nil : (l : Text) (ls : List Text) (r : Text) → ended sep (l ∷ ls) ++ r ≡ [] → ⊥
  ended-not_nil [] ls r h = cc h
  ended-not_nil (c ∷ l) ls r h = cc h

  labels_of_prefix :
      (ls ms : List Text) (r : Text)
      → All (IsFree sep) ls
      → All (IsFree sep) ms
      → ended sep ls ++ r ≡ ended sep ms
      → IsPrefix ls ms
  labels_of_prefix [] ms r fl fm h = (ms, refl)
  labels_of_prefix (l ∷ ls) [] r fl fm h = absurd (ended-not_nil l ls r h)
  labels_of_prefix (l ∷ ls) (m ∷ ms) r fl fm h =
      let (e, k) =
        cut l m (ended sep ls ++ r) (ended sep ms) fl.0 fm.0
          (sym (append_assoc l (sep ∷ ended sep ls) r) ∙ h) in
      let (rest, q) = labels_of_prefix ls ms r fl.1 fm.1 k in
      (rest, ap (λ xs. l ∷ xs) q ∙ ap (λ x. x ∷ ms) e)

  -- The texts begin alike exactly where the labels do: no label is cut in two.
  pub ended-IsPrefix_iff :
      (ls ms : List Text)
      → All (IsFree sep) ls
      → All (IsFree sep) ms
      → IsPrefix (ended sep ls) (ended sep ms) ↔ IsPrefix ls ms
  ended-IsPrefix_iff ls ms fl fm = (
    λ h. labels_of_prefix ls ms h.0 fl fm h.1,
    λ h. (ended sep h.0, sym (ended-append ls h.0) ∙ ap (ended sep) h.1),
  )

All-append : {A : Type 0} (P : A → Type 0) (xs ys : List A) → All P xs → All P ys → All P (xs ++ ys)
All-append P [] ys h k = k
All-append P (x ∷ xs) ys h k = (h.0, All-append P xs ys h.1 k)

pub All-reverse : {A : Type 0} (P : A → Type 0) (xs : List A) → All P xs → All P (reverse xs)
All-reverse P [] h = tt
All-reverse P (x ∷ xs) h =
    subst (All P) (sym (reverse_aux-eq xs (x ∷ [])))
      (All-append P (reverse xs) (x ∷ []) (All-reverse P xs h.1) (h.0, tt))

-- Read backwards, a beginning is an end.
pub reverse-IsPrefix_iff :
    {A : Type 0} (xs ys : List A) → IsPrefix (reverse xs) (reverse ys) ↔ IsSuffix xs ys
reverse-IsPrefix_iff xs ys = (
  λ h. (
    reverse h.0,
    ap (λ zs. reverse h.0 ++ zs) (sym (reverse-reverse xs))
        ∙ sym (reverse-append (reverse xs) h.0)
        ∙ ap reverse h.1
        ∙ reverse-reverse ys,
  ),
  λ h. (reverse h.0, sym (reverse-append h.0 xs) ∙ ap reverse h.1),
)
