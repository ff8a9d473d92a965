-- ===== src/Examples/Relay.antt =====
-- A query that a plugin makes in a worker.
use python_smartdns.Prelude.{true, [], ◌≡◌, refl}
use python_smartdns.Outcome.{timeout_error, done, raised}
use python_smartdns.Dns.{Message}
use python_smartdns.Pipeline.Requests.{build_context}
use python_smartdns.Workers.{woken}
use python_smartdns.Workers.Relay.{
  ExnTexts, ResolveResponse, resolve_response, NestedResolver, asked_reply, check_chain,
  begin_resolve, receive_response, finish_resolve, with_query,
}
use python_smartdns.Workers.Relay.RoundTrip.{AreNames, relayed, begin_resolve-finish}
use python_smartdns.Examples.Data.{query, small_dns, context}

abbrev texts : ExnTexts
texts = record { type_name = λ e. "TimeoutError"; str = λ e. "" }

names : AreNames texts
names = record { named = λ e h. cc h; other = λ e a b. (λ h. cc h, λ h. cc h) }

abbrev resolver : NestedResolver
resolver = record { resolving = []; replies = λ id. asked_reply query }

abbrev sent : NestedResolver
sent = with_query "a1" query resolver

begins_well :
    begin_resolve small_dns context "example.net" "A" "a1" (λ chain. done tt) resolver
    ≡ (done tt, sent)
unfolding begin_resolve check_chain build_context
begins_well = refl

begin_resolve-finish_example :
    (request : Message) × (m : ResolveResponse) × (small_dns.make_query "example.net" "A"
      ≡ done request)
    × (resolve_response texts "a1" 4 (raised timeout_error) ≡ done m)
    × (((receive_response m sent).replies "a1").is_set ≡ true)
    × ((finish_resolve small_dns "a1" woken (receive_response m sent)).0
        ≡ relayed small_dns texts request (raised timeout_error))
begin_resolve-finish_example =
    begin_resolve-finish texts names small_dns context "example.net" "A" "a1" (λ chain. done tt)
      resolver sent 4 (raised timeout_error) begins_well tt
