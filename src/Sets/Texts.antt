-- ===== src/Sets/Texts.antt =====
-- Python's texts as lists of code points, sets of texts as lists with a membership test, and a dict
-- of such sets.
use python_smartdns.Prelude.{
  ℕ, Bool, true, false, ◌&&◌, ◌||◌, ◌==◌, Bool-cases, List, [], ◌∷◌, ◌≡◌, refl, ap, inl, inr, arith,
  if◌then◌else◌,
}

abbrev pub Text : Type 0
Text = List ℕ

abbrev pub text_eq : Text → Text → Bool
text_eq [] [] = true
text_eq [] (d ∷ t) = false
text_eq (c ∷ s) [] = false
text_eq (c ∷ s) (d ∷ t) = c == d && text_eq s t

pub text_eq_refl : (s : Text) → text_eq s s ≡ true
text_eq_refl [] = refl
text_eq_refl (c ∷ s) = ground (arith, text_eq_refl s)

pub eq_of_text_eq : (s t : Text) → text_eq s t ≡ true → s ≡ t
eq_of_text_eq [] [] h = refl
eq_of_text_eq [] (d ∷ t) h = cc
eq_of_text_eq (c ∷ s) [] h = cc
eq_of_text_eq (c ∷ s) (d ∷ t) h =
    let head : c ≡ d = ground (arith, h) in
    let tail : s ≡ t = eq_of_text_eq s t (ground (arith, h)) in cc (head, tail)

-- `t in s`
abbrev pub mem_text : Text → List Text → Bool
mem_text t [] = false
mem_text t (x ∷ xs) = text_eq x t || mem_text t xs

-- `s.add(t)`, and `s.update(ts)`
abbrev pub add_text : Text → List Text → List Text
add_text t s = if mem_text t s then s else t ∷ s

abbrev pub update_texts : List Text → List Text → List Text
update_texts s [] = s
update_texts s (t ∷ ts) = update_texts (add_text t s) ts

pub mem_text-add :
    (t x : Text) (s : List Text) → mem_text t (add_text x s) ≡ (text_eq x t || mem_text t s)
mem_text-add t x s = elim (Bool-cases (mem_text x s)) [
  | inl e ↦ rw e (elim (Bool-cases (text_eq x t)) [
    | inl h ↦ let k = eq_of_text_eq x t h in rw h (rw k at e)
    | inr h ↦ rw h refl
  ])
  | inr e ↦ rw e refl
]

pub mem_text-update :
    (t : Text) (s ts : List Text) → mem_text t (update_texts s ts) ≡ (mem_text t s || mem_text t ts)
mem_text-update t s [] = ground arith
mem_text-update t s (x ∷ ts) =
    ground (arith, mem_text-update t (add_text x s) ts, mem_text-add t x s)

-- A dict of sets, by its items.
abbrev pub Multimap : Type 0
Multimap = List (Text × List Text)

-- `m.setdefault(key, set()).add(value)`
unfoldable pub add_to : Text → Text → Multimap → Multimap
add_to key value [] = (key, value ∷ []) ∷ []
add_to key value (item ∷ m) =
    if text_eq item.0 key then (item.0, add_text value item.1) ∷ m else item ∷ add_to key value m

-- The value is in the set of the key.
unfoldable pub has : Text → Text → Multimap → Bool
has key value [] = false
has key value (item ∷ m) = (text_eq item.0 key && mem_text value item.1) || has key value m

pub has-add_to :
    (k v key value : Text) (m : Multimap)
    → has k v (add_to key value m) ≡ ((text_eq key k && text_eq value v) || has k v m)
unfolding has add_to
has-add_to k v key value [] = ground arith
has-add_to k v key value (item ∷ m) = elim (Bool-cases (text_eq item.0 key)) [
  | inl e ↦
      let same = eq_of_text_eq item.0 key e in
      let moved : text_eq item.0 k ≡ text_eq key k = ap (λ i. text_eq i k) same in
      rw (e, mem_text-add v value item.1, moved) (ground arith)
  | inr e ↦ rw (e, has-add_to k v key value m) (ground arith)
]
