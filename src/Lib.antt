-- ===== src/Lib.antt =====
-- The verification of python-smartdns, a forwarder for DNS that picks upstreams by rules and plugins.
--
-- A request comes from a listener into `PipelineEngine.handle_message`, which checks it, runs the
-- plugins' hooks, chooses a group of upstreams by the rules, asks the group through the dispatcher
-- and makes the reply of what came back. The configuration is checked before any of this.
--
--   Prelude       tests, lists and integers that the other modules share
--   Outcome, Exec Python's exceptions as values, and coroutines on the context of a request: each
--                 yields a value or an exception and the context as it is left; `Exec/Ensures` is the
--                 reasoning about what a coroutine ends with
--   Dns           the attributes of dnspython's messages that the program uses; dnspython's calls are
--                 a record of functions that every definition takes as an argument
--   Config        dns_forwarder/config/models.py: `validate_references` and its checks; `Cycles` is
--                 the depth-first search of `_validate_group_cycles`
--   Rules         dns_forwarder/rules/engine.py: `select` and `_matches`
--   Dispatcher    dns_forwarder/dispatcher and the lookups of dns_forwarder/resolver/manager.py: the
--                 strategies, `pick_failure_result`, and `dispatch_target`, which calls itself for the
--                 groups inside a group
--   Plugins       dns_forwarder/plugin_api/base.py: the hooks, the manager's loops over them and
--                 the registry of objects (Registrations)
--   Pipeline      dns_forwarder/pipeline/context.py (Context, Messages) and engine.py (Requests: the
--                 check, the context, the dispatch; Engine: the phases and `handle_message`)
--                 Nested: the queries that are made while a request is served
--   Resolver      dns_forwarder/resolver/upstream.py: one upstream, over dnspython's resolver
--   FrontCache    dns_forwarder/core/front_cache.py, and in Coalescing the tasks of `process_query` in
--                 dns_forwarder/core/multiprocess/manager.py that share it, as a step relation
--   Workers       dns_forwarder/core/multiprocess/pool.py: the calls that wait for a worker, what the
--                 messages of the workers do (Answers), restarts, rebuild and stop (Supervision); the
--                 steps between two awaits are a relation (Reachable). Relay is worker.py, pool.py and
--                 ipc.py for the queries that a worker asks of the main process
--   Sets          dns_forwarder/core/tag_files.py (Files) and domainset.py (Domains), over lists of
--                 code points
--   Bundled       plugins/query_log_plugin/service.py: the log of queries;
--                 plugins/ip_filter_plugin and plugins/ip_replace_plugin/service.py: the filter and
--                 the replacement of addresses; plugins/block_plugin: static answers;
--                 plugins/https_plugin: HTTPS records (Https);
--                 plugins/speedtest_plugin: the choice of addresses by their times (SpeedTest);
--                 plugins/tag_plugin: tags of results (Tag); plugins/redirect_plugin (Redirect)
--   Nameservers   dns_forwarder/resolver/nameservers/dnscrypt.py: padding, certificates and sealing,
--                 over PyNaCl's keys and boxes
--   Tags          tests on tags, by membership
--   Examples      configurations and runs at which the theorems apply
--
-- Plugins and resolvers are any coroutines on the context. Names are compared as texts; sets are
-- lists with a membership test; durations are natural numbers, since they are only compared and, where
-- the sign does not matter, subtracted; rounding is not modelled. The messages that a client or an
-- upstream sends are dnspython's objects, after parsing; names, which dnspython compares without
-- regard to case, stand in lower case.
--
-- Concurrency. The tasks of a group are run one after the other in the order in which they end, which
-- a `Schedule` gives for every context and group; for a race it also gives how many tasks end between
-- the winner and the cancellation. The task that a result starts is run where it is started; what it
-- raises is kept in the context, and comes out when the request's task group closes. In the program
-- such an exception also cancels the tasks that are still running; here they run on. Where the
-- program shares one answer between the context and the results, the model has two values. The tasks
-- that share a front cache, and the calls and messages of the worker pool, are interleaved freely
-- between their awaits. Among the steps of the front cache are completions that raise, tasks that are
-- cancelled, and a reload, after which a task may still be at the old cache. Among the steps of the
-- pool are calls that are cancelled or given up, restarts, the rebuild and the stop.
--
-- Fuel. The search for cycles is given one call more than there are groups, and `dispatch_target` two
-- calls more than there are groups. A result below says for which configurations this is enough.
--
-- Not modelled: input and output (listeners, sockets, HTTP, files, logging, the web interface), the
-- client libraries of the nameservers and the sockets of DNSCrypt, the loading of plugins, the plugins
-- for caching and for ECH, the set of addresses, the loop of a worker process, and what a reload of the
-- runtime does beside the front cache.
pub mod Prelude
pub mod Outcome
pub mod Exec
pub mod Dns
pub mod Config
pub mod Tags
pub mod Rules
pub mod Pipeline
pub mod Dispatcher
pub mod Plugins
pub mod Bundled
pub mod Resolver
pub mod FrontCache
pub mod Workers
pub mod Sets
pub mod Nameservers
pub mod Examples
