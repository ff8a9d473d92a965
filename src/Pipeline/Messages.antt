-- ===== src/Pipeline/Messages.antt =====
-- dns_forwarder/pipeline/context.py: the functions on messages and answers.
pub mod Sync
use python_smartdns.Prelude.{
  ℕ, zero, suc, ◌+◌, String, Bool, true, false, not, ◌&&◌, ◌||◌, ◌==◌, Option, none, some, List, [],
  ◌∷◌, ◌++◌, if◌then◌else◌,
}
use python_smartdns.Outcome.{Exn, value_error, index_error, Outcome, done, raised, ◌>>=◌, ◌>>◌}
use python_smartdns.Dns.{Question, RRset, Message, Answer, Dnspython}

module _ (d : Dnspython) where
  unfoldable pub make_error_response : Message → ℕ → Outcome Message
  make_error_response request rcode = do
    response ← d.make_response request
    done (record response { rcode = rcode; id = request.id })

  unfoldable pub clone_response_for_request : Message → Message → Outcome Message
  clone_response_for_request response request = do
    wire ← d.to_wire response
    cloned ← d.from_wire wire
    done (record cloned { id = request.id })

-- `request.question[0]`
unfoldable pub first_question : Message → Outcome Question
first_question m = elim m.question [ [] ↦ raised index_error | q ∷ qs ↦ done q ]

-- The records of the first RRset, where the answer found none of the type asked for.
unfoldable pub adopt_first : ℕ → Answer → List RRset → Answer
adopt_first now answer [] = answer
adopt_first now answer (rrset ∷ rest) = elim answer.rrset [
  | none ↦ record answer {
    rrset = some rrset;
    canonical_name = rrset.name;
    expiration = now + rrset.ttl;
  }
  | some r ↦ answer
]

unfoldable pub build_answer_from_response : Dnspython → Message → Message → Outcome Answer
build_answer_from_response d request response = do
  question ← first_question request
  normalized ← clone_response_for_request d response request
  answer ← d.make_answer question.name question.rdtype question.rdclass normalized
  done (adopt_first d.now answer normalized.answer)

-- `item.rdtype == answer.rdtype and item.rdclass == answer.rdclass`
abbrev pub same_type : ℕ → ℕ → RRset → Bool
same_type rdtype rdclass item = item.rdtype == rdtype && item.rdclass == rdclass

-- The index that the loop over `enumerate(source_response.answer)` ends with: the last match.
unfoldable pub target_index : ℕ → ℕ → ℕ → List RRset → Option ℕ → Option ℕ
target_index rdtype rdclass i [] target = target
target_index rdtype rdclass i (item ∷ items) target =
    target_index rdtype rdclass (suc i) items
      (if same_type rdtype rdclass item then some i else target)

-- `del items[i]`, `items[i] = v`
unfoldable pub delete_at : ℕ → List RRset → List RRset
delete_at i [] = []
delete_at zero (x ∷ xs) = xs
delete_at (suc i) (x ∷ xs) = x ∷ delete_at i xs

unfoldable pub set : List RRset → ℕ → RRset → List RRset
set [] i v = []
set (x ∷ xs) zero v = v ∷ xs
set (x ∷ xs) (suc i) v = x ∷ set xs i v

unfoldable pub place : Option RRset → Option ℕ → List RRset → List RRset
place none none items = items
place none (some i) items = delete_at i items
place (some rrset) (some i) items = set items i rrset
place (some rrset) none items = items ++ rrset ∷ []

abbrev pub mismatched : Answer → Bool
mismatched answer = elim answer.rrset [
  | none ↦ false
  | some rrset ↦ not (rrset.rdtype == answer.rdtype) || not (rrset.rdclass == answer.rdclass)
]

unfoldable pub sync_answer_rrset_to_response : Answer → Outcome Answer
sync_answer_rrset_to_response answer =
    if mismatched answer
    then raised value_error
    else done (record answer {
      response = record answer.response {
        answer =
            place answer.rrset
              (target_index answer.rdtype answer.rdclass 0 answer.response.answer none)
              answer.response.answer;
      };
    })

-- The four assignments at the end of `sync_answer_response`.
abbrev pub adopt_rebuilt : Answer → Answer → Answer
adopt_rebuilt synced rebuilt = record synced {
  response = rebuilt.response;
  canonical_name = rebuilt.canonical_name;
  rrset = rebuilt.rrset;
  expiration = rebuilt.expiration;
}

unfoldable pub sync_answer_response : Dnspython → Answer → Outcome Answer
sync_answer_response d answer = do
  synced ← sync_answer_rrset_to_response answer
  wire ← d.to_wire synced.response
  response ← d.from_wire wire
  rebuilt ← d.make_answer synced.qname synced.rdtype synced.rdclass response
  done (adopt_rebuilt synced rebuilt)
