-- ===== src/Bundled/Tag/Read.antt =====
-- plugins/tag_plugin/plugin.py: the lists that the plugin makes of an answer give what the records and
-- the names of the answer give.
use python_smartdns.Prelude.{
  String, Bool, ◌||◌, Option, none, some, List, [], ◌∷◌, ◌++◌, map, any, ◌≡◌, refl, ap, sym, ◌∙◌,
  arith,
}
use python_smartdns.Outcome.{Exn, Outcome, done, raised}
use python_smartdns.Dns.{Rdata, address, other, Answer}
use python_smartdns.Bundled.Tag.{
  TagSource, extract_address_record_ips, add_hint, add_hints, extract_https_hints, chain_domains,
  extract_cname_chain_domains,
}
use python_smartdns.Bundled.Tag.Expected.{
  gives, is_found, failure_at, failure, or_first, first_failure, chain_gives, domains_give,
  address_gives, hint_gives, hints_give, has_hint, has_hints, chain_failure, domains_failure,
  address_failure, hint_failure, hints_failure,
}

or_first_at :
    (o : Outcome (List String)) (later : Option Exn)
    → or_first (failure_at o none) later ≡ failure_at o later
or_first_at (done tags) later = refl
or_first_at (raised exc) later = refl

or_first-none : (a : Option Exn) → or_first a none ≡ a
or_first-none none = refl
or_first-none (some exc) = refl

or_first_assoc : (a b c : Option Exn) → or_first (or_first a b) c ≡ or_first a (or_first b c)
or_first_assoc none b c = refl
or_first_assoc (some exc) b c = refl

failure_at_first :
    (o : Outcome (List String)) (a b : Option Exn)
    → failure_at o (or_first a b) ≡ or_first (failure_at o a) b
failure_at_first (done tags) a b = refl
failure_at_first (raised exc) a b = refl

module _ (lookup : String → Outcome (List String)) where
  is_found-append :
      (xs ys : List String) (t : String)
      → is_found lookup (xs ++ ys) t ≡ (is_found lookup xs t || is_found lookup ys t)
  is_found-append [] ys t = refl
  is_found-append (x ∷ xs) ys t = ground (arith, is_found-append xs ys t)

  failure-append :
      (xs ys : List String)
      → failure lookup (xs ++ ys) ≡ or_first (failure lookup xs) (failure lookup ys)
  failure-append [] ys = refl
  failure-append (x ∷ xs) ys =
      ap (failure_at (lookup x)) (failure-append xs ys)
      ∙ failure_at_first (lookup x) (failure lookup xs) (failure lookup ys)

  is_found-map :
      (f : String → String) (xs : List String) (t : String)
      → is_found lookup (map f xs) t ≡ is_found (λ x. lookup (f x)) xs t
  is_found-map f [] t = refl
  is_found-map f (x ∷ xs) t = ap (λ b. gives (lookup (f x)) t || b) (is_found-map f xs t)

  failure-map :
      (f : String → String) (xs : List String)
      → failure lookup (map f xs) ≡ failure (λ x. lookup (f x)) xs
  failure-map f [] = refl
  failure-map f (x ∷ xs) = ap (failure_at (lookup (f x))) (failure-map f xs)

module _ (s : TagSource) where
  chain-gives :
      (answer : Answer) (o : Option (List String)) (t : String)
      → is_found s.domainset_lookup (chain_domains s answer o) t ≡ chain_gives s answer o t
  chain-gives answer none t = refl
  chain-gives answer (some names) t = ground (
    arith,
    is_found-append s.domainset_lookup (map s.to_text names) (s.to_text answer.canonical_name ∷ [])
        t,
    is_found-map s.domainset_lookup s.to_text names t,
  )

  chain-failure :
      (answer : Answer) (o : Option (List String))
      → failure s.domainset_lookup (chain_domains s answer o) ≡ chain_failure s answer o
  chain-failure answer none = refl
  chain-failure answer (some names) =
      failure-append s.domainset_lookup (map s.to_text names) (s.to_text answer.canonical_name ∷ [])
      ∙ ap
          (λ a. or_first a (failure_at (s.domainset_lookup (s.to_text answer.canonical_name)) none))
          (failure-map s.domainset_lookup s.to_text names)

  pub domains-give :
      (o : Option Answer) (t : String)
      → is_found s.domainset_lookup (extract_cname_chain_domains s o) t ≡ domains_give s o t
  unfolding extract_cname_chain_domains
  domains-give none t = refl
  domains-give (some answer) t = chain-gives answer (s.cnames answer) t

  pub domains-failure :
      (o : Option Answer)
      → failure s.domainset_lookup (extract_cname_chain_domains s o) ≡ domains_failure s o
  unfolding extract_cname_chain_domains
  domains-failure none = refl
  domains-failure (some answer) = chain-failure answer (s.cnames answer)

  pub addresses-give :
      (records : List Rdata) (t : String)
      → is_found s.ipset_lookup (extract_address_record_ips records) t
        ≡ any (λ r. address_gives s r t) records
  addresses-give [] t = refl
  addresses-give (address ip ∷ records) t =
      ap (λ b. gives (s.ipset_lookup ip) t || b) (addresses-give records t)
  addresses-give (other text ∷ records) t = addresses-give records t

  pub addresses-failure :
      (records : List Rdata)
      → failure s.ipset_lookup (extract_address_record_ips records)
        ≡ first_failure (address_failure s) records
  addresses-failure [] = refl
  addresses-failure (address ip ∷ records) =
      ap (failure_at (s.ipset_lookup ip)) (addresses-failure records)
      ∙ sym (or_first_at (s.ipset_lookup ip) (first_failure (address_failure s) records))
  addresses-failure (other text ∷ records) = addresses-failure records

  -- What a hint adds to the addresses found so far.
  add_hint-gives :
      (o : Option (List String)) (found : List String × Bool) (t : String)
      → is_found s.ipset_lookup (add_hint o found).0 t
        ≡ (is_found s.ipset_lookup found.0 t || hint_gives s o t)
  add_hint-gives none (ips, b) t = ground arith
  add_hint-gives (some more) (ips, b) t = is_found-append s.ipset_lookup ips more t

  add_hint-failure :
      (o : Option (List String)) (found : List String × Bool)
      → failure s.ipset_lookup (add_hint o found).0
        ≡ or_first (failure s.ipset_lookup found.0) (hint_failure s o)
  add_hint-failure none (ips, b) = sym (or_first-none (failure s.ipset_lookup ips))
  add_hint-failure (some more) (ips, b) = failure-append s.ipset_lookup ips more

  add_hint-has :
      (o : Option (List String)) (found : List String × Bool)
      → (add_hint o found).1 ≡ (found.1 || has_hint s o)
  add_hint-has none (ips, b) = ground arith
  add_hint-has (some more) (ips, b) = ground arith

  -- The same for both hints of a record.
  add_hints-gives :
      (o : Option (Option (List String) × Option (List String))) (found : List String × Bool)
      (t : String)
      → is_found s.ipset_lookup (add_hints o found).0 t
        ≡ (is_found s.ipset_lookup found.0 t || hints_give s o t)
  add_hints-gives none found t = ground arith
  add_hints-gives (some (a, b)) found t =
      ground (arith, add_hint-gives b (add_hint a found) t, add_hint-gives a found t)

  add_hints-failure :
      (o : Option (Option (List String) × Option (List String))) (found : List String × Bool)
      → failure s.ipset_lookup (add_hints o found).0
        ≡ or_first (failure s.ipset_lookup found.0) (hints_failure s o)
  add_hints-failure none found = sym (or_first-none (failure s.ipset_lookup found.0))
  add_hints-failure (some (a, b)) found =
      add_hint-failure b (add_hint a found)
      ∙ ap (λ f. or_first f (hint_failure s b)) (add_hint-failure a found)
      ∙ or_first_assoc (failure s.ipset_lookup found.0) (hint_failure s a) (hint_failure s b)

  add_hints-has :
      (o : Option (Option (List String) × Option (List String))) (found : List String × Bool)
      → (add_hints o found).1 ≡ (found.1 || has_hints s o)
  add_hints-has none found = ground arith
  add_hints-has (some (a, b)) found =
      ground (arith, add_hint-has b (add_hint a found), add_hint-has a found)

  -- The same for all records.
  pub hints-give :
      (records : List Rdata) (found : List String × Bool) (t : String)
      → is_found s.ipset_lookup (extract_https_hints s records found).0 t
        ≡ (is_found s.ipset_lookup found.0 t || any (λ r. hints_give s (s.hints r) t) records)
  unfolding extract_https_hints
  hints-give [] found t = ground arith
  hints-give (r ∷ records) found t = ground (
    arith,
    hints-give records (add_hints (s.hints r) found) t,
    add_hints-gives (s.hints r) found t,
  )

  pub hints-failure :
      (records : List Rdata) (found : List String × Bool)
      → failure s.ipset_lookup (extract_https_hints s records found).0
        ≡ or_first
            (failure s.ipset_lookup found.0)
            (first_failure (λ r. hints_failure s (s.hints r)) records)
  unfolding extract_https_hints
  hints-failure [] found = sym (or_first-none (failure s.ipset_lookup found.0))
  hints-failure (r ∷ records) found =
      let later = first_failure (λ q. hints_failure s (s.hints q)) records in
      hints-failure records (add_hints (s.hints r) found)
      ∙ ap (λ f. or_first f later) (add_hints-failure (s.hints r) found)
      ∙ or_first_assoc (failure s.ipset_lookup found.0) (hints_failure s (s.hints r)) later

  pub hints-has :
      (records : List Rdata) (found : List String × Bool)
      → (extract_https_hints s records found).1
        ≡ (found.1 || any (λ r. has_hints s (s.hints r)) records)
  unfolding extract_https_hints
  hints-has [] found = ground arith
  hints-has (r ∷ records) found =
      ground
        (arith, hints-has records (add_hints (s.hints r) found), add_hints-has (s.hints r) found)
