-- ===== src/Sets/Domains.antt =====
-- dns_forwarder/core/domainset.py: `DomainSet`. The trie is marisa_trie's, an argument; a text stands
-- for its bytes in UTF-8.
pub mod Coding
pub mod Entries
pub mod Lookup
pub mod Suffixes
use mathlib.Core.List.{reverse, reverse_aux}
use python_smartdns.Prelude.{
  ℕ, Bool, true, false, not, ◌&&◌, ◌||◌, ◌==◌, Option, none, some, List, [], ◌∷◌, ◌++◌, is_empty,
  filterb, ◌≡◌, ◌↔◌, if◌then◌else◌,
}
use python_smartdns.Outcome.{Exn, value_error, Outcome, done, raised, ◌>>=◌}
use python_smartdns.Sets.Texts.{Text, text_eq, mem_text, update_texts, Multimap, add_to}
use python_smartdns.Sets.Labels.{IsPrefix, split_text, join_texts}
use python_smartdns.Sets.Files.{Unicode, rstrip, strip, Directory, load_tag_files}

-- `value[2:]` where the text starts with "+."
abbrev pub without_plus : Text → Text
without_plus (c ∷ d ∷ t) = if c == b'+' && d == b'.' then t else c ∷ d ∷ t
without_plus t = t

unfoldable pub normalize_domain : Unicode → Text → Outcome Text
normalize_domain u value =
    let normalized = without_plus (u.lower (rstrip (λ c. c == b'.') (strip u value))) in
    if is_empty normalized then raised value_error else done normalized

-- The text that `reverse_domain` makes of a normalised domain.
abbrev pub reversed : Text → Text
reversed domain = join_texts b'.' (reverse (split_text b'.' domain)) ++ b'.' ∷ []

unfoldable pub reverse_domain : Unicode → Text → Outcome Text
reverse_domain u value = normalize_domain u value >>= λ domain. done (reversed domain)

-- `_encode_tags`, for the tags in their order, and `_decode_tags`
unfoldable pub encode_tags : List Text → Text
encode_tags tags = join_texts 0 tags

unfoldable pub decode_tags : Text → List Text
decode_tags value = filterb (λ tag. not (is_empty tag)) (split_text 0 value)

-- The keys of a trie's items, and the values of a key.
abbrev pub keys_of : List (Text × Text) → List Text
keys_of [] = []
keys_of (item ∷ items) = item.0 ∷ keys_of items

abbrev pub values_of : Text → List (Text × Text) → List Text
values_of key [] = []
values_of key (item ∷ items) =
    if text_eq item.0 key then item.1 ∷ values_of key items else values_of key items

-- `marisa_trie.BytesTrie`: of the documentation, `prefixes(key)` gives the keys of the trie that the
-- key begins with, and `trie[key]` the values that were given for the key.
pub record BytesTrie : Type 1 where
  pub Trie : Type 0
  pub build : List (Text × Text) → Trie
  pub prefixes : Trie → Text → List Text
  pub values : Trie → Text → List Text
  pub prefixes_iff :
      (items : List (Text × Text)) (text key : Text)
      → (mem_text key (prefixes (build items) text) ≡ true)
        ↔ ((mem_text key (keys_of items) ≡ true) × IsPrefix key text)
  pub values_iff :
      (items : List (Text × Text)) (key value : Text)
      → (mem_text value (values (build items) key) ≡ true)
        ↔ (mem_text value (values_of key items) ≡ true)

module _ (u : Unicode) where
  -- The loops of `_build_domain_entries`
  unfoldable pub add_domains : Text → List Text → Multimap → Outcome Multimap
  add_domains tag [] m = done m
  add_domains tag (domain ∷ domains) m =
      reverse_domain u domain >>= λ key. add_domains tag domains (add_to key tag m)

  unfoldable pub add_tags : Multimap → Multimap → Outcome Multimap
  add_tags [] m = done m
  add_tags (item ∷ items) m = add_domains item.0 item.1 m >>= add_tags items

  unfoldable pub build_domain_entries : Directory → Outcome Multimap
  build_domain_entries directory =
      load_tag_files u (normalize_domain u) directory >>= λ loaded. add_tags loaded []

abbrev pub encoded : Multimap → List (Text × Text)
encoded [] = []
encoded (item ∷ m) = (item.0, encode_tags item.1) ∷ encoded m

-- The inner loop of `lookup`
unfoldable pub add_values : List Text → List Text → List Text
add_values [] tags = tags
add_values (value ∷ vs) tags = add_values vs (update_texts tags (decode_tags value))

-- The outer loop, over the values of each key
unfoldable pub add_matches : (Text → List Text) → List Text → List Text → List Text
add_matches values [] tags = tags
add_matches values (key ∷ keys) tags = add_matches values keys (add_values (values key) tags)

module _ (u : Unicode) (marisa : BytesTrie) where
  open marisa use {Trie, build, prefixes, values}

  -- `DomainSet`, made of the files of a directory
  unfoldable pub domain_set : Directory → Outcome (Option Trie)
  domain_set directory = build_domain_entries u directory >>= λ entries.
      done (if is_empty entries then none else some (build (encoded entries)))

  unfoldable pub lookup : Option Trie → Text → Outcome (List Text)
  lookup none qname = done []
  lookup (some trie) qname =
      reverse_domain u qname >>= λ key. done (add_matches (values trie) (prefixes trie key) [])
