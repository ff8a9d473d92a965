-- ===== src/Sets/Domains/Coding.antt =====
-- dns_forwarder/core/domainset.py: tags that are encoded and decoded again.
use python_smartdns.Prelude.{
  ℕ, true, false, not, ◌==◌, List, [], ◌∷◌, ◌++◌, All, is_empty, filterb, ◌≡◌, refl, ap, ◌∙◌, arith,
}
use python_smartdns.Sets.Texts.{Text, text_eq_refl, mem_text}
use python_smartdns.Sets.Labels.{IsFree, split_text, join_texts}
use python_smartdns.Sets.Domains.{encode_tags, decode_tags}

-- A tag that can be encoded.
abbrev pub IsTag : Text → Type 0
IsTag t = (is_empty t ≡ false) × IsFree 0 t

module _ (sep : ℕ) where
  split_text-free : (l : Text) → IsFree sep l → split_text sep l ≡ l ∷ []
  unfolding split_text
  split_text-free [] h = refl
  split_text-free (c ∷ l) h = rw (h.0, split_text-free l h.1) refl

  split_text-ended :
      (l t : Text) → IsFree sep l → split_text sep (l ++ sep ∷ t) ≡ l ∷ split_text sep t
  unfolding split_text
  split_text-ended [] t h = let same : (sep == sep) ≡ true = ground arith in rw same refl
  split_text-ended (c ∷ l) t h = rw (h.0, split_text-ended l t h.1) refl

  split_text-join_texts :
      (l : Text) (ls : List Text)
      → All (IsFree sep) (l ∷ ls)
      → split_text sep (join_texts sep (l ∷ ls)) ≡ l ∷ ls
  unfolding join_texts
  split_text-join_texts l [] h = split_text-free l h.0
  split_text-join_texts l (m ∷ ls) h =
      split_text-ended l (join_texts sep (m ∷ ls)) h.0
      ∙ ap (λ xs. l ∷ xs) (split_text-join_texts m ls h.1)

filterb-All : (ls : List Text) → All IsTag ls → filterb (λ tag. not (is_empty tag)) ls ≡ ls
filterb-All [] h = refl
filterb-All (l ∷ ls) h = rw (h.0.0, filterb-All ls h.1) refl

All-IsFree : (ls : List Text) → All IsTag ls → All (IsFree 0) ls
All-IsFree [] h = tt
All-IsFree (l ∷ ls) h = (h.0.1, All-IsFree ls h.1)

-- What is decoded is what was encoded.
pub decode_tags-encode_tags :
    (tags : List Text) → All IsTag tags → decode_tags (encode_tags tags) ≡ tags
unfolding decode_tags encode_tags join_texts split_text
decode_tags-encode_tags [] h = refl
decode_tags-encode_tags (l ∷ ls) h =
    ap (filterb (λ tag. not (is_empty tag))) (split_text-join_texts 0 l ls (All-IsFree (l ∷ ls) h))
    ∙ filterb-All (l ∷ ls) h

pub All-mem_text :
    (P : Text → Type 0) (ts : List Text) → ((t : Text) → mem_text t ts ≡ true → P t) → All P ts
All-mem_text P [] f = tt
All-mem_text P (t ∷ ts) f =
    (f t (ground (arith, text_eq_refl t)), All-mem_text P ts (λ s h. f s (ground (arith, h))))
