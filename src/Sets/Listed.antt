-- ===== src/Sets/Listed.antt =====
-- dns_forwarder/core/tag_files.py: what the loaded files hold.
use python_smartdns.Prelude.{
  true, false, Bool-cases, List, [], ◌∷◌, ◌≡◌, ◌↔◌, ◌⊎◌, sym, ap, subst, ◌∙◌, inl, inr, iff_trans,
  iff_refl, regroup, arith,
}
use python_smartdns.Outcome.{Outcome, done, >>=-eq-done}
use python_smartdns.Sets.Texts.{
  Text, text_eq, text_eq_refl, eq_of_text_eq, Multimap, add_to, has, has-add_to,
}
use python_smartdns.Sets.Files.{
  Unicode, strip, TagFile, is_skipped, is_ignored, add_line, add_lines, add_file, add_files,
}

-- The key and the value are one that was added, or were there before.
pub has-added :
    (k v key value : Text) (m : Multimap)
    → (has k v (add_to key value m) ≡ true) ↔ ((has k v m ≡ true) ⊎ ((key ≡ k) × (value ≡ v)))
has-added k v key value m = (split_up, put_in)
  where
    split_up : has k v (add_to key value m) ≡ true → (has k v m ≡ true) ⊎ ((key ≡ k) × (value ≡ v))
    split_up h = elim (Bool-cases (has k v m)) [
      | inl e ↦ inl e
      | inr e ↦ inr (
        eq_of_text_eq key k (ground (arith, h, e, has-add_to k v key value m)),
        eq_of_text_eq value v (ground (arith, h, e, has-add_to k v key value m)),
      )
    ]

    put_in : (has k v m ≡ true) ⊎ ((key ≡ k) × (value ≡ v)) → has k v (add_to key value m) ≡ true
    put_in (inl e) = ground (arith, e, has-add_to k v key value m)
    put_in (inr (a, b)) =
        let e : text_eq key k ≡ true = subst (λ t. text_eq key t ≡ true) a (text_eq_refl key) in
        let f : text_eq value v ≡ true =
          subst (λ t. text_eq value t ≡ true) b (text_eq_refl value) in
        ground (arith, e, f, has-add_to k v key value m)

module _ (u : Unicode) (normalizer : Text → Outcome Text) where
  -- One of the lines gives the value.
  abbrev pub Gives : List Text → Text → Type 0
  Gives [] v = ⊥
  Gives (line ∷ lines) v =
      ((is_skipped (strip u line) ≡ false) × (normalizer (strip u line) ≡ done v)) ⊎ Gives lines v

  -- One of the files is of the tag and gives the value.
  abbrev pub Lists : List TagFile → Text → Text → Type 0
  Lists [] tag v = ⊥
  Lists (f ∷ fs) tag v =
      ((is_ignored f ≡ false)
        × (f.stem ≡ tag)
        × ((lines : List Text) × (f.lines ≡ done lines) × Gives lines v))
      ⊎ Lists fs tag v

  module _ (k v : Text) where
    abbrev Has : Multimap → Type 0
    Has m = has k v m ≡ true

    abbrev Reads : Text → Type 0
    Reads line = (is_skipped (strip u line) ≡ false) × (normalizer (strip u line) ≡ done v)

    add_line_iff :
        (tag line : Text) (m n : Multimap)
        → add_line u normalizer tag line m ≡ done n
        → Has n ↔ (Has m ⊎ ((tag ≡ k) × Reads line))
    unfolding add_line
    add_line_iff tag line m n h = elim (Bool-cases (is_skipped (strip u line))) [
      | inl e ↦
          let same : m ≡ n = cc (rw e at h) in
          (λ x. inl (subst Has (sym same) x), skipped_back e same)
      | inr e ↦
          let (value, made, same) = >>=-eq-done _ _ (rw e at h) in
          let same' : add_to tag value m ≡ n = cc same in
          (
            λ x. forth value made e (subst Has (sym same') x),
            λ x. subst Has same' (back value made x),
          )
    ]
      where
        skipped_back :
            is_skipped (strip u line) ≡ true → m ≡ n → Has m ⊎ ((tag ≡ k) × Reads line) → Has n
        skipped_back e same (inl x) = subst Has same x
        skipped_back e same (inr (a, (b, c))) = absurd (cc (e, b))

        forth :
            (value : Text)
            → normalizer (strip u line) ≡ done value
            → is_skipped (strip u line) ≡ false
            → Has (add_to tag value m)
            → Has m ⊎ ((tag ≡ k) × Reads line)
        forth value made e x = elim ((has-added k v tag value m).0 x) [
          | inl y ↦ inl y
          | inr (a, b) ↦ inr (a, (e, made ∙ ap done b))
        ]

        back :
            (value : Text)
            → normalizer (strip u line) ≡ done value
            → Has m ⊎ ((tag ≡ k) × Reads line)
            → Has (add_to tag value m)
        back value made (inl x) = (has-added k v tag value m).1 (inl x)
        back value made (inr (a, (b, c))) =
            let e : value ≡ v = cc (sym made ∙ c) in (has-added k v tag value m).1 (inr (a, e))

    add_lines_iff :
        (tag : Text) (lines : List Text) (m n : Multimap)
        → add_lines u normalizer tag lines m ≡ done n
        → Has n ↔ (Has m ⊎ ((tag ≡ k) × Gives lines v))
    unfolding add_lines
    add_lines_iff tag [] m n h =
        let same : m ≡ n = cc h in (λ x. inl (subst Has (sym same) x), λ x. subst Has same (only x))
      where
        only : Has m ⊎ ((tag ≡ k) × ⊥) → Has m
        only (inl x) = x
        only (inr (a, b)) = absurd b
    add_lines_iff tag (line ∷ lines) m n h =
        let (l, first, others) = >>=-eq-done (add_line u normalizer tag line m) _ h in
        let a = add_line_iff tag line m l first in
        let b = add_lines_iff tag lines l n others in
        (λ x. forth l a (b.0 x), λ x. b.1 (back l a x))
      where
        forth :
            (l : Multimap)
            → Has l ↔ (Has m ⊎ ((tag ≡ k) × Reads line))
            → Has l ⊎ ((tag ≡ k) × Gives lines v)
            → Has m ⊎ ((tag ≡ k) × (Reads line ⊎ Gives lines v))
        forth l a (inl x) = elim (a.0 x) [ inl y ↦ inl y | inr (e, g) ↦ inr (e, inl g) ]
        forth l a (inr (e, g)) = inr (e, inr g)

        back :
            (l : Multimap)
            → Has l ↔ (Has m ⊎ ((tag ≡ k) × Reads line))
            → Has m ⊎ ((tag ≡ k) × (Reads line ⊎ Gives lines v))
            → Has l ⊎ ((tag ≡ k) × Gives lines v)
        back l a (inl x) = inl (a.1 (inl x))
        back l a (inr (e, inl g)) = inl (a.1 (inr (e, g)))
        back l a (inr (e, inr g)) = inr (e, g)

    abbrev FromFile : TagFile → Type 0
    FromFile f =
        (is_ignored f ≡ false)
        × (f.stem ≡ k)
        × ((lines : List Text) × (f.lines ≡ done lines) × Gives lines v)

    add_file_iff :
        (f : TagFile) (m n : Multimap)
        → add_file u normalizer f m ≡ done n
        → Has n ↔ (Has m ⊎ FromFile f)
    unfolding add_file
    add_file_iff f m n h = elim (Bool-cases (is_ignored f)) [
      | inl e ↦
          let same : m ≡ n = cc (rw e at h) in
          (λ x. inl (subst Has (sym same) x), λ x. subst Has same (only e x))
      | inr e ↦
          let (lines, read, adds) = >>=-eq-done f.lines _ (rw e at h) in
          let a = add_lines_iff f.stem lines m n adds in
          (λ x. forth lines read e (a.0 x), λ x. a.1 (back lines read x))
    ]
      where
        only : is_ignored f ≡ true → Has m ⊎ FromFile f → Has m
        only e (inl x) = x
        only e (inr (a, b, c)) = absurd (cc (e, a))

        forth :
            (lines : List Text)
            → f.lines ≡ done lines
            → is_ignored f ≡ false
            → Has m ⊎ ((f.stem ≡ k) × Gives lines v)
            → Has m ⊎ FromFile f
        forth lines read e (inl x) = inl x
        forth lines read e (inr (a, g)) = inr (e, a, (lines, read, g))

        back :
            (lines : List Text)
            → f.lines ≡ done lines
            → Has m ⊎ FromFile f
            → Has m ⊎ ((f.stem ≡ k) × Gives lines v)
        back lines read (inl x) = inl x
        back lines read (inr (e, a, (ls, r, g))) =
            let same : ls ≡ lines = cc (sym r ∙ read) in inr (a, subst (λ t. Gives t v) same g)

    pub add_files_iff :
        (fs : List TagFile) (m n : Multimap)
        → add_files u normalizer fs m ≡ done n
        → (has k v n ≡ true) ↔ ((has k v m ≡ true) ⊎ Lists fs k v)
    unfolding add_files
    add_files_iff [] m n h =
        let same : m ≡ n = cc h in (λ x. inl (subst Has (sym same) x), λ x. subst Has same (only x))
      where
        only : Has m ⊎ ⊥ → Has m
        only (inl x) = x
        only (inr b) = absurd b
    add_files_iff (f ∷ fs) m n h =
        let (l, first, others) = >>=-eq-done (add_file u normalizer f m) _ h in
        iff_trans (add_files_iff fs l n others) (regroup (add_file_iff f m l first) iff_refl)
