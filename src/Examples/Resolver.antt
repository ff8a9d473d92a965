-- ===== src/Examples/Resolver.antt =====
-- An upstream that answers, and the log of queries.
use python_smartdns.Prelude.{ℕ, suc, String, ◌≡◌, refl}
use Prim.Native.Nat.{◌-◌}
use python_smartdns.Outcome.{done}
use python_smartdns.Exec.Ensures.{Post, OnlyCancelled}
use python_smartdns.Dns.{noerror}
use python_smartdns.Pipeline.Messages.{first_question}
use python_smartdns.Pipeline.Requests.{build_context}
use python_smartdns.Resolver.{UpstreamResolver, resolve_upstream}
use python_smartdns.Resolver.Checked.{Reports, resolve_upstream-Reports}
use python_smartdns.Bundled.QueryLog.{
  QueryLogStore, new_store, append, resize, last_of, list_recent, entries_after,
}
use python_smartdns.Bundled.QueryLog.Retained.{
  IsLog, Reaches, created, appended, resized, Reaches-IsLog, IsLog-reads,
}
use python_smartdns.Examples.Data.{asked, reply, answer_to, context}

abbrev answering : UpstreamResolver
answering = record {
  name = "quick";
  ask = λ q. done (answer_to (reply 9 noerror));
  duration_ms = λ q. 5;
}

first : first_question context.request ≡ done asked
unfolding first_question build_context
first = refl

resolve_upstream-Reports_example :
    Post (Reports answering asked context.tags) OnlyCancelled (resolve_upstream answering context).0
resolve_upstream-Reports_example = resolve_upstream-Reports answering context asked first tt

abbrev log : QueryLogStore String
log = resize 2 (append "c" (append "b" (append "a" (new_store 5)).1).1).1

log-Reaches : Reaches 5 log
log-Reaches = resized 2 (appended "c" (appended "b" (appended "a" created)))

Reaches-IsLog_example : IsLog log
Reaches-IsLog_example = Reaches-IsLog 5 log log-Reaches

IsLog-reads_example :
    ((n : ℕ) → list_recent n log ≡ last_of n log.entries)
    × ((seen : ℕ) → entries_after seen log ≡ last_of (log.next_id - suc seen) log.entries)
IsLog-reads_example = IsLog-reads log (Reaches-IsLog 5 log log-Reaches)
