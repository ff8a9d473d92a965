-- ===== src/Workers/Relay/RoundTrip.antt =====
-- What a nested query of a worker ends with, from what it ended with in the main process.
use python_smartdns.Prelude.{
  ℕ, String, str_eq, eq_iff, true, false, Bool-cases, none, some, List, [], ◌∷◌, ◌++◌, ◌≡◌, ◌≢◌,
  refl, sym, ap, subst, ◌∙◌, inl, inr, arith, if◌then◌else◌,
}
use python_smartdns.Outcome.{
  Exn, cancelled, out_of_fuel, nxdomain, recursion_error, runtime_error, Outcome, done, raised,
  ◌>>=◌, ◌>>◌,
}
use python_smartdns.Dns.{Message, Answer, Wire, Dnspython}
use python_smartdns.Pipeline.Context.{RequestContext}
use python_smartdns.Pipeline.Nested.{Signature}
use python_smartdns.Pipeline.Messages.{build_answer_from_response}
use python_smartdns.Workers.{woken}
use python_smartdns.Workers.Relay.{
  ExnTexts, serialize_resolve_error_type, deserialize_resolve_error, ResolveResponse,
  resolve_response, Reply, NestedResolver, take_response, receive_response, read_reply,
  finish_resolve, asked_reply, with_query, ask_main, check_chain, begin_resolve,
}

-- Python's names of exceptions: never empty, and those of two classes are theirs alone.
pub record AreNames (x : ExnTexts) : Type 0 where
  pub named : (e : Exn) → x.type_name e ≢ ""
  pub other :
      (e : Exn)
      → e ≢ nxdomain
      → e ≢ recursion_error
      → (x.type_name e ≢ "NXDOMAIN") × (x.type_name e ≢ "NestedResolveRecursionError")

-- An error as it comes to the worker: two keep their class, and all others are a `RuntimeError` with
-- their text, or with the name of their class where they have none.
abbrev pub as_sent : ExnTexts → Exn → Exn
as_sent x nxdomain = nxdomain
as_sent x recursion_error = recursion_error
as_sent x e = runtime_error (if str_eq (x.str e) "" then x.type_name e else x.str e)

-- What the worker has of the outcome, for a query that was not cancelled in the main process.
abbrev pub relayed : Dnspython → ExnTexts → Message → Outcome Wire → Outcome Answer
relayed d x request (done bytes) = d.from_wire bytes >>= λ m. build_answer_from_response d request m
relayed d x request (raised e) = raised (as_sent x e)

differs : (s t : String) → s ≢ t → str_eq s t ≡ false
differs s t n = elim (Bool-cases (str_eq s t)) [ inl e ↦ absurd (n ((eq_iff s t).0 e)) | inr e ↦ e ]

module _ (x : ExnTexts) (names : AreNames x) where
  by_name :
      (e : Exn)
      → e ≢ nxdomain
      → e ≢ recursion_error
      → deserialize_resolve_error (x.type_name e) (x.str e)
        ≡ runtime_error (if str_eq (x.str e) "" then x.type_name e else x.str e)
  unfolding deserialize_resolve_error
  by_name e a b = let (n, r) = names.other e a b in rw (differs _ _ n, differs _ _ r) refl

  deserialize-serialize :
      (e : Exn)
      → deserialize_resolve_error (serialize_resolve_error_type x e) (x.str e) ≡ as_sent x e
  unfolding serialize_resolve_error_type deserialize_resolve_error
  deserialize-serialize nxdomain = refl
  deserialize-serialize recursion_error = refl
  deserialize-serialize e = by_name e (λ h. cc h) (λ h. cc h)

  serialize-named : (e : Exn) → str_eq (serialize_resolve_error_type x e) "" ≡ false
  unfolding serialize_resolve_error_type
  serialize-named nxdomain = refl
  serialize-named recursion_error = refl
  serialize-named e = differs _ _ (names.named e)

  -- The exceptions that `except Exception` catches in the main process.
  abbrev pub IsCaught : Outcome Wire → Type 0
  IsCaught (raised cancelled) = ⊥
  IsCaught (raised out_of_fuel) = ⊥
  IsCaught r = Unit

  module _ (d : Dnspython) (r : Reply) (wire : r.wire ≡ none) (error : r.error ≡ none) where
    read-taken_error :
        (id : String) (g : ℕ) (e : Exn)
        → read_reply d (
            take_response
              (record {
                resolve_id = id;
                generation = g;
                wire = none;
                error_type = some (serialize_resolve_error_type x e);
                error = x.str e;
              })
              r)
          ≡ raised (as_sent x e)
    unfolding take_response read_reply
    read-taken_error id g e = rw (serialize-named e) (ap raised (deserialize-serialize e))

    answer_of :
        (id : String) (g : ℕ) (outcome : Outcome Wire)
        → IsCaught outcome
        → (m : ResolveResponse) × (resolve_response x id g outcome ≡ done m)
          × (m.resolve_id ≡ id)
          × (read_reply d (take_response m r) ≡ relayed d x r.nested_request outcome)
    unfolding resolve_response take_response read_reply
    answer_of id g (done bytes) c = (_, refl, refl, rw error refl)
    answer_of id g (raised cancelled) c = absurd c
    answer_of id g (raised out_of_fuel) c = absurd c
    answer_of id g (raised e) c = (_, refl, refl, read-taken_error id g e)

asked-eq :
    (id : String) (sent : Outcome (Unit {0})) (made : Outcome Message) (n t : NestedResolver)
    → ask_main id sent made n ≡ (done tt, t)
    → (request : Message) × (made ≡ done request) × (t ≡ with_query id request n)
asked-eq id (done u) (done request) n t h =
    (request, refl, sym (ap (λ (p : Outcome (Unit {0}) × NestedResolver). p.1) h))
asked-eq id (raised e) (done request) n t h =
    absurd (cc (ap (λ (p : Outcome (Unit {0}) × NestedResolver). p.0) h))
asked-eq id sent (raised e) n t h =
    absurd (cc (ap (λ (p : Outcome (Unit {0}) × NestedResolver). p.0) h))

made-request :
    (checked : Outcome (Unit {0})) (made : Outcome Message) (request : Message)
    → (checked >> made) ≡ done request
    → made ≡ done request
made-request (done u) made request h = h
made-request (raised e) made request h = absurd (cc h)

take_response-is_set : (m : ResolveResponse) (r : Reply) → (take_response m r).is_set ≡ true
unfolding take_response
take_response-is_set m r = ground arith

received_own :
    (m : ResolveResponse) (request : Message) (n : NestedResolver)
    → (receive_response m (with_query m.resolve_id request n)).replies m.resolve_id
      ≡ take_response m (asked_reply request)
unfolding receive_response
received_own m request n =
    let same : str_eq m.resolve_id m.resolve_id ≡ true =
      (eq_iff m.resolve_id m.resolve_id).1 refl in
    rw (same, same) refl

received :
    (id : String) (m : ResolveResponse) (request : Message) (n t : NestedResolver)
    → m.resolve_id ≡ id
    → t ≡ with_query id request n
    → (receive_response m t).replies id ≡ take_response m (asked_reply request)
received id m request n t h e =
    subst (λ t'. (receive_response m t').replies id ≡ take_response m (asked_reply request)) (sym e)
      (subst
        (λ i.
          (receive_response m (with_query i request n)).replies i
          ≡ take_response m (asked_reply request))
        h (received_own m request n))

-- A worker's nested query that has been sent, and that ends in the main process with a rendered
-- answer or with an exception that `except Exception` catches, is answered by a message, which sets
-- the event that the query waits for. The query then returns the answer, read back for the request
-- that the worker made; or it raises what was raised there: NXDOMAIN and the recursion error are raised again as such,
-- any other exception as a `RuntimeError` with its text, or its class where the text is empty.
pub begin_resolve-finish :
    (x : ExnTexts) (names : AreNames x) (d : Dnspython) (context : RequestContext)
    (qname qtype id : String) (put : List Signature → Outcome (Unit {0})) (n t : NestedResolver)
    (g : ℕ) (outcome : Outcome Wire)
    → begin_resolve d context qname qtype id put n ≡ (done tt, t)
    → IsCaught x names outcome
    → (request : Message) × (m : ResolveResponse) × (d.make_query qname qtype ≡ done request)
      × (resolve_response x id g outcome ≡ done m)
      × ((receive_response m t).replies id).is_set ≡ true
      × ((finish_resolve d id woken (receive_response m t)).0 ≡ relayed d x request outcome)
unfolding begin_resolve finish_resolve
begin_resolve-finish x names d context qname qtype id put n t g outcome h c =
    let sent = put (context.nested_resolve_chain ++ (qname, qtype) ∷ []) in
    let (request, made, e) = asked-eq id sent _ n t h in
    let (m, sends, same, reads) =
      answer_of x names d (asked_reply request) refl refl id g outcome c in
    let got = received id m request n t same e in
    (
      request,
      m,
      made-request (check_chain context (qname, qtype)) _ request made,
      sends,
      ap (λ (r : Reply). r.is_set) got ∙ take_response-is_set m (asked_reply request),
      ap (read_reply d) got ∙ reads,
    )
