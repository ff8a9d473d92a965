-- ===== src/Bundled/Https.antt =====
-- plugins/https_plugin/plugin.py: HTTPS records without the protocol h3 and without address hints.
pub mod Steps
pub mod Cleaned
use python_smartdns.Prelude.{
  ℕ, zero, ◌+◌, ◌-◌, String, str_eq, Bool, true, false, not, ◌&&◌, ◌||◌, ◌==◌, Option, none, some,
  List, [], ◌∷◌, ◌++◌, length, filterb, is_empty, if◌then◌else◌,
}
use python_smartdns.Outcome.{Exn, Outcome, done, raised}
use python_smartdns.Exec.{Exec, pure, get, lift, modify, continue, ◌>>=◌, ◌>>◌}
use python_smartdns.Dns.{Rdata, RRset, Message, Answer, Dnspython, noerror}
use python_smartdns.Pipeline.Context.{RequestContext}
use python_smartdns.Pipeline.Messages.{first_question, build_answer_from_response}
use python_smartdns.Workers.{has_id}

-- The dict `rdata.params`, by the keys that the plugin names; `others` are the rest.
pub record Params : Type 0 where
  pub mandatory : Option (List ℕ)
  pub alpn : Option (List String)
  pub no_default_alpn : Bool
  pub ipv4hint : Option (List String)
  pub ipv6hint : Option (List String)
  pub others : List (ℕ × String)

-- `ParamKey`
abbrev pub key_mandatory : ℕ
key_mandatory = 0

abbrev pub key_alpn : ℕ
key_alpn = 1

abbrev pub key_no_default_alpn : ℕ
key_no_default_alpn = 2

abbrev pub key_ipv4hint : ℕ
key_ipv4hint = 4

abbrev pub key_ipv6hint : ℕ
key_ipv6hint = 6

-- The variables of `_sanitize_https_rdata`.
pub record Work : Type 0 where
  pub params : Params
  pub changed : Bool
  pub removed_keys : List ℕ
  pub removed_h3_ids : ℕ
  pub removed_hint_params : ℕ

abbrev pub is_h3 : String → Bool
is_h3 id = str_eq id "h3"

abbrev pub without_h3 : List String → List String
without_h3 ids = filterb (λ id. not (is_h3 id)) ids

abbrev pub same_texts : List String → List String → Bool
same_texts [] [] = true
same_texts [] (t ∷ ts) = false
same_texts (s ∷ ss) [] = false
same_texts (s ∷ ss) (t ∷ ts) = str_eq s t && same_texts ss ts

abbrev pub same_keys : List ℕ → List ℕ → Bool
same_keys [] [] = true
same_keys [] (k ∷ ks) = false
same_keys (j ∷ js) [] = false
same_keys (j ∷ js) (k ∷ ks) = j == k && same_keys js ks

abbrev pub start_work : Params → Work
start_work p = record {
  params = p;
  changed = false;
  removed_keys = [];
  removed_h3_ids = 0;
  removed_hint_params = 0;
}

-- What is left of the protocols is put back, or the key is taken out, and with it the one that says
-- that the default protocol is not meant.
abbrev pub put_ids : ℕ → List String → Params → Work
put_ids count (id ∷ ids) p = record (start_work (record p { alpn = some (id ∷ ids) })) {
  changed = true;
  removed_h3_ids = count;
}
put_ids count [] p = record (start_work (record p { alpn = none; no_default_alpn = false })) {
  changed = true;
  removed_keys = if p.no_default_alpn then key_no_default_alpn ∷ key_alpn ∷ [] else key_alpn ∷ [];
  removed_h3_ids = count;
}

abbrev pub strip_ids : Option (List String) → Params → Work
strip_ids none p = start_work p
strip_ids (some ids) p =
    if same_texts (without_h3 ids) ids
    then start_work p
    else put_ids (length ids - length (without_h3 ids)) (without_h3 ids) p

unfoldable pub strip_alpn : Params → Work
strip_alpn p = strip_ids p.alpn p

abbrev pub count_hint : ℕ → Work → Work
count_hint key w = record w {
  removed_keys = key ∷ w.removed_keys;
  changed = true;
  removed_hint_params = w.removed_hint_params + 1;
}

abbrev pub is_some : Option (List String) → Bool
is_some none = false
is_some (some ids) = true

-- The loop over the two keys of hints
unfoldable pub drop_ipv4hint : Work → Work
drop_ipv4hint w =
    if is_some w.params.ipv4hint
    then record (count_hint key_ipv4hint w) { params = record w.params { ipv4hint = none } }
    else w

unfoldable pub drop_ipv6hint : Work → Work
drop_ipv6hint w =
    if is_some w.params.ipv6hint
    then record (count_hint key_ipv6hint w) { params = record w.params { ipv6hint = none } }
    else w

abbrev pub remaining_keys : List ℕ → List ℕ → List ℕ
remaining_keys removed keys = filterb (λ key. not (has_id key removed)) keys

abbrev pub put_mandatory : List ℕ → Work → Work
put_mandatory [] w = record w { params = record w.params { mandatory = none }; changed = true }
put_mandatory (k ∷ ks) w = record w {
  params = record w.params { mandatory = some (k ∷ ks) };
  changed = true;
}

abbrev pub strip_mandatory : Option (List ℕ) → Work → Work
strip_mandatory none w = w
strip_mandatory (some keys) w =
    if is_empty w.removed_keys || same_keys (remaining_keys w.removed_keys keys) keys
    then w
    else put_mandatory (remaining_keys w.removed_keys keys) w

unfoldable pub fix_mandatory : Work → Work
fix_mandatory w = strip_mandatory w.params.mandatory w

-- `_sanitize_https_rdata`, on the parameters of a record
unfoldable pub sanitize_params : Params → Work
unfolding strip_alpn drop_ipv4hint drop_ipv6hint fix_mandatory
sanitize_params p = fix_mandatory (drop_ipv6hint (drop_ipv4hint (strip_alpn p)))

-- A record of type HTTPS: its parameters, and `replace(params=...)`; and the record sets that
-- dnspython makes of a list of records.
pub record HttpsRdata : Type 0 where
  pub params : Rdata → Params
  pub replace : Rdata → Params → Rdata
  pub from_rdata_list : String → ℕ → List Rdata → RRset

abbrev pub type_https : ℕ
type_https = 65

module _ (h : HttpsRdata) where
  unfoldable pub sanitize_https_rdata : Rdata → Rdata
  sanitize_https_rdata rdata =
      let w = sanitize_params (h.params rdata) in
      if w.changed then h.replace rdata w.params else rdata

  abbrev pub is_changed : Rdata → Bool
  is_changed rdata = (sanitize_params (h.params rdata)).changed

  -- The loop of `_sanitize_https_answer`: whether a record has changed, and the records
  unfoldable pub sanitize_records : List Rdata → Bool × List Rdata
  sanitize_records [] = (false, [])
  sanitize_records (r ∷ rs) =
      let (changed, records) = sanitize_records rs in
      (is_changed r || changed, sanitize_https_rdata r ∷ records)

  abbrev pub sanitized_rrset : RRset → Answer → Answer
  sanitized_rrset rrset answer =
      let (changed, records) = sanitize_records rrset.records in
      if changed
      then record answer { rrset = some (h.from_rdata_list rrset.name rrset.ttl records) }
      else answer

  unfoldable pub sanitize_https_answer : Answer → Answer
  sanitize_https_answer answer = elim answer.rrset [
    | none ↦ answer
    | some rrset ↦
        if answer.rdtype == type_https && rrset.rdtype == type_https
        then sanitized_rrset rrset answer
        else answer
  ]

  abbrev pub set_sanitized : Answer → Exec RequestContext (Unit {0})
  set_sanitized answer =
      modify (λ c. record c { final_answer = some (sanitize_https_answer answer) })

  abbrev pub sanitize_response : Dnspython → Option Message → Exec RequestContext (Unit {0})
  sanitize_response d none = pure tt
  sanitize_response d (some response) = do
    c ← get
    if response.rcode == noerror
        then (do
          answer ← lift (build_answer_from_response d c.request response)
          set_sanitized answer)
        else pure tt

  abbrev pub sanitize_final :
      Dnspython → Option Answer → Option Message → Exec RequestContext (Unit {0})
  sanitize_final d (some answer) response = set_sanitized answer
  sanitize_final d none response = sanitize_response d response

  -- `HttpsPlugin.on_response`
  unfoldable pub https_on_response : Dnspython → Exec RequestContext (Unit {0})
  https_on_response d = do
    c ← get
    question ← lift (first_question c.request)
    if question.rdtype == type_https
        then sanitize_final d c.final_answer c.final_response
        else pure tt
