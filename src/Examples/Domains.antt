-- ===== src/Examples/Domains.antt =====
-- A directory of one file, and a trie that is a list.
use python_smartdns.Prelude.{
  Bool, true, false, ◌&&◌, ◌==◌, Bool-cases, some, List, [], ◌∷◌, ◌++◌, filterb, ◌≡◌, ◌↔◌, refl, ap,
  subst, inl, inr, arith,
}
use python_smartdns.Outcome.{done, raised, value_error}
use python_smartdns.Sets.Texts.{Text, text_eq, eq_of_text_eq, mem_text, add_to}
use python_smartdns.Sets.Labels.{IsPrefix, split_text, join_texts}
use python_smartdns.Sets.Files.{
  Unicode, TagFile, files, strip, add_line, add_lines, add_file, add_files, load_tag_files,
}
use python_smartdns.Sets.Domains.{
  normalize_domain, reverse_domain, encode_tags, decode_tags, BytesTrie, keys_of, values_of,
  add_domains, add_tags, build_domain_entries, domain_set, add_values, add_matches, lookup,
}
use python_smartdns.Sets.Domains.Suffixes.{Tagged, lookup-Tagged_iff}

is_prefix : Text → Text → Bool
is_prefix [] t = true
is_prefix (c ∷ p) [] = false
is_prefix (c ∷ p) (d ∷ t) = c == d && is_prefix p t

is_prefix-IsPrefix : (p t : Text) → is_prefix p t ≡ true → IsPrefix p t
unfolding is_prefix
is_prefix-IsPrefix [] t h = (t, refl)
is_prefix-IsPrefix (c ∷ p) [] h = absurd (cc h)
is_prefix-IsPrefix (c ∷ p) (d ∷ t) h =
    let (rest, e) = is_prefix-IsPrefix p t (ground (arith, h)) in
    let head : c ≡ d = ground (arith, h) in (rest, cc (e, head))

is_prefix-append : (p rest : Text) → is_prefix p (p ++ rest) ≡ true
unfolding is_prefix
is_prefix-append [] rest = refl
is_prefix-append (c ∷ p) rest = ground (arith, is_prefix-append p rest)

mem_text-filterb :
    (p : Text → Bool) (x : Text) (xs : List Text)
    → mem_text x (filterb p xs) ≡ (mem_text x xs && p x)
mem_text-filterb p x [] = refl
mem_text-filterb p x (y ∷ ys) = elim (Bool-cases (text_eq y x)) [
  | inl e ↦
      let same : p y ≡ p x = ap p (eq_of_text_eq y x e) in
      elim (Bool-cases (p x)) [
        | inl f ↦ rw (same, f, e) refl
        | inr f ↦ rw (same, f, e, mem_text-filterb p x ys, f) (ground arith)
      ]
  | inr e ↦ elim (Bool-cases (p y)) [
    | inl f ↦ rw (f, e, mem_text-filterb p x ys) refl
    | inr f ↦ rw (f, e, mem_text-filterb p x ys) refl
  ]
]

listed_prefixes_iff :
    (items : List (Text × Text)) (text key : Text)
    → (mem_text key (filterb (λ k. is_prefix k text) (keys_of items)) ≡ true)
      ↔ ((mem_text key (keys_of items) ≡ true) × IsPrefix key text)
listed_prefixes_iff items text key =
    let e = mem_text-filterb (λ k. is_prefix k text) key (keys_of items) in
    (
      λ h. (ground (arith, e, h), is_prefix-IsPrefix key text (ground (arith, e, h))),
      λ h. back e h.0 h.1.0 h.1.1,
    )
  where
    back :
        mem_text key (filterb (λ k. is_prefix k text) (keys_of items))
          ≡ (mem_text key (keys_of items) && is_prefix key text)
        → mem_text key (keys_of items) ≡ true
        → (rest : Text) → key ++ rest ≡ text
        → mem_text key (filterb (λ k. is_prefix k text) (keys_of items)) ≡ true
    back e m rest q =
        let p = subst (λ t. is_prefix key t ≡ true) q (is_prefix-append key rest) in
        ground (arith, e, m, p)

abbrev listed : BytesTrie
listed = record {
  Trie = List (Text × Text);
  build = λ items. items;
  prefixes = λ items text. filterb (λ k. is_prefix k text) (keys_of items);
  values = λ items key. values_of key items;
  prefixes_iff = λ items text key. listed_prefixes_iff items text key;
  values_iff = λ items key value. (λ h. h, λ h. h);
}

abbrev ascii : Unicode
ascii = record { is_space = λ c. c == 32; lower = λ t. t }

-- The file `ads` with "# x", "+.a.b" and an empty line.
abbrev ads : TagFile
ads = record {
  name = b'a' ∷ b'd' ∷ [];
  stem = b'a' ∷ b'd' ∷ [];
  is_file = true;
  lines = done ((b'#' ∷ b'x' ∷ []) ∷ (b'+' ∷ b'.' ∷ b'a' ∷ b'.' ∷ b'b' ∷ []) ∷ [] ∷ []);
}

abbrev entries : List (Text × Text)
entries = (b'b' ∷ b'.' ∷ b'a' ∷ b'.' ∷ [], b'a' ∷ b'd' ∷ []) ∷ []

made : domain_set ascii listed (files (ads ∷ [])) ≡ done (some entries)
unfolding domain_set build_domain_entries load_tag_files add_files add_file add_lines add_line strip
    add_to normalize_domain add_tags add_domains reverse_domain split_text join_texts encode_tags
made = refl

-- "c.a.b" is found, "ca.b" is not, and the root has no normal form.
abbrev below : Text
below = b'c' ∷ b'.' ∷ b'a' ∷ b'.' ∷ b'b' ∷ []

found : lookup ascii listed (some entries) below ≡ done ((b'a' ∷ b'd' ∷ []) ∷ [])
unfolding lookup reverse_domain normalize_domain strip split_text join_texts is_prefix add_matches
    add_values decode_tags
found = refl

not_found : lookup ascii listed (some entries) (b'c' ∷ b'a' ∷ b'.' ∷ b'b' ∷ []) ≡ done []
unfolding lookup reverse_domain normalize_domain strip split_text join_texts is_prefix add_matches
    add_values decode_tags
not_found = refl

root_refused : lookup ascii listed (some entries) [] ≡ raised value_error
unfolding lookup reverse_domain normalize_domain strip
root_refused = refl

below_normal : normalize_domain ascii below ≡ done below
unfolding normalize_domain strip
below_normal = refl

lookup-Tagged_iff_example :
    (tags : List Text) × (lookup ascii listed (some entries) below ≡ done tags)
    × ((tag : Text) → (mem_text tag tags ≡ true) ↔ Tagged ascii (ads ∷ []) tag below)
lookup-Tagged_iff_example =
    lookup-Tagged_iff ascii listed (ads ∷ []) (some entries) below below made
      ((refl, (refl, tt)), tt) below_normal
