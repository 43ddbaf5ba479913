-- ===== src/Lib.antt =====
-- Verification of clash-sub-parser: the pool of probe tasks, the policy graph, its rules, the filters
-- of nodes, the resolution and pruning of groups, the health of nodes, the fetch policy, the risk of
-- addresses, and the revisions of the configuration.
--
-- The program keeps subscriptions of proxy nodes, probes the nodes, and renders policies for
-- several clients. Probes of all kinds of callers share one pool,
-- internal/probe/queue/scheduler.go. A policy is a graph of groups with rules;
-- internal/domain/policy.go decides whether it is accepted, and internal/resolver/graph.go orders
-- its rules for the compilers.
--
-- ProbeQueue models internal/probe/queue/scheduler.go. `State` has the types and NewScheduler;
-- `Nodes` the records of activeNodes with pruneActiveNodesLocked, makeNodeKey and nodeIDFromKey;
-- `Pick` has nextEligibleLocked and one round of dispatch; `Submit` and `Preempt` one round of
-- each kind of submission; `Finish` has processTask's locked sections, finishTaskExecutionLocked,
-- CancelRun, Close, completeCallback, the tests of Wait and Drain, and the views; `Snapshot` has
-- SnapshotNodePool. A locked section is a function from pool to pool, and returns what the caller
-- does next. `Pool` composes them: a world is a pool with the calls of completeCallback that have
-- not returned, a step is one locked section of any goroutine, and Reach holds the worlds that a
-- new pool comes to. `Arranged` ties the queues to the order of the runs, `Invariant` has the
-- parts of the invariant and that each operation keeps them, `Guarantees` what the operations
-- promise.
--
-- Policy models internal/domain/policy.go: `Source` has ValidateMemberSource and
-- ValidateGroupEdge, `Identifiers` the forms of internal/domain/id.go; `Rules` has IsMatchRule and
-- ValidatePolicyRules, and resolveRules of internal/resolver/graph.go; `Topology` has
-- ValidatePolicyTopology, with its search for cycles in `Cycles` over the map of `Graph`. `Positions` and
-- `Told` are about the order of resolveRules and about what its rules tell.
--
-- Compiler models internal/compiler/prune.go: `Prune` has pruneOnePass and
-- PruneUnavailableOptionalGroups on the parts of a resolved policy that they read
-- (internal/resolver/types.go).
--
-- Filters models internal/domain/node_filter.go: `Regex` has compileFilterRegex with its cache and
-- match, `Conditions` FilterCondition.Validate and NodeFilterSpec.Validate, `Matching`
-- MatchesCondition and MatchesFilter. RE2, regexp2, the store behind the cache and the letter cases
-- of Unicode are the parameters `Library` and `Store`.
--
-- Resolver models resolveGroupMemo of internal/resolver/graph.go on these filters: `Items` has the
-- items of a group with the set of those seen, `Groups` the sources that add items,
-- `Groups.Removal` those that remove them and the loop over the sources, `Groups.Resolve` the leaves,
-- the memo and the guard against cycles. The functions of one group take the call for another group
-- as an argument; `Groups.Preserved` says what they keep for any such call, and `Items.Distinct` that
-- the set of those seen agrees with the items. The nodes are given in the order in which
-- resolveGroups sorts them. `Admission` has evaluateNodeAdmission of internal/resolver/admission.go,
-- evaluateRiskAdmission of internal/resolver/risk_admission.go and
-- their composition in Resolve of internal/resolver/resolver.go, `Admission.Expressions`
-- matchesAdmissionExpression. `Snapshot` composes them the way Resolve does: admission, the global
-- filter, and the resolution of the groups.
--
-- Probing models `ProbeRun` of internal/domain/probe.go, the batches and the validation of
-- internal/domain/probe_schedule.go (`States`) and the classification of nodes by their observations
-- in internal/domain/probe_health.go (`Health`).
--
-- Fetch models internal/fetch/policy.go: `Addresses` has ValidateIP with the default networks,
-- `Hosts` isObfuscatedIP, `Targets` ValidateTarget, `Targets.Proxies` parseCanonicalProxyURL,
-- AddAllowedProxy, IsProxyHostAllowed and ValidateProxy. The parsers of `net` and `net/url` and the
-- resolver are the parameter `Net`, and an address is its number.
--
-- Risk models the risk of addresses. `Texts` and `Policies` have the checks of
-- internal/domain/iprisk.go on identifiers and risk policies; `Providers`
-- evaluateSingleProviderObservation of internal/application/iprisk/service.go, `Fusion` how
-- evaluateNodeCore joins the providers, `Nodes` evaluateNodeCore with the checks on its result, and
-- `Batches` EvaluateBatch, whose decisions evaluateRiskAdmission reads. What regular expressions and
-- net.ParseIP find in a text is the parameter `Scanner`.
--
-- Revisions models the revisions of the configuration. `Rows` has the rows and transactions of
-- internal/repository/sqlite/revisions.go and revision_snapshots.go, `Service` Create,
-- EnsureActiveRevision and Activate of internal/application/revision/service.go. `Lifecycle` is the
-- abstract life of revisions, `History` any sequence of these three calls and edits of the policy.
--
-- Bounds and fuel. The rounds of a loop that sleeps until the pool changes are separate steps. The
-- scan of one queue passes or removes a task in each round, so the queue's length is enough fuel;
-- the eviction removes a record in each round, so the number of records is enough; the search for
-- cycles turns a white group grey before each recursive call, so the number of groups is enough
-- (`Policy.Cycles.Total`); the pruning removes a group in each round that changes something; the
-- resolution of a group calls itself only for groups that are not being resolved, so one more than
-- the number of groups is enough (`Resolver.Groups.Resolve.Enough`).
-- Counters are natural numbers: the code lowers each only after it has raised it. Times are
-- numbers of nanoseconds, and a call gets the time of its clock as an argument; an unset time is
-- 0.
--
-- Go maps are association lists in `Prelude`, in the order of an iteration; what holds for all
-- lists holds for all orders. Texts are compared by their bytes.
--
-- Not modelled: contexts, mutexes and the wake-up channel, the functions Execute and OnComplete of
-- a task, and the texts of errors. `Policy.Source` takes the filters as a parameter, `Filters`, which
-- `Resolver.Groups.filters` fills. Of resolveGroups the derived groups behind filtered references,
-- the recomputation of the expanded IDs by its closure collect and the notices on empty groups are left
-- out, of fetch/policy.go the rewriting of credentials in
-- NormalizeProxyURL and ProxyEndpoint, of the revisions the audit, the rollback and
-- the rows that internal/application/policy/service.go and internal/application/inventory/filter_recovery.go
-- write themselves, and failures of
-- the database beside those of its keys. The digests are parameters, and the one over the decisions of
-- EvaluateBatch is left out. The other repositories, the HTTP interface, the renderers, the
-- parsers and the probe engines are left out: they are input and output through libraries.
pub mod Prelude
pub mod ProbeQueue
pub mod Policy
pub mod Compiler
pub mod Probing
pub mod Filters
pub mod Fetch
pub mod Resolver
pub mod Risk
pub mod Revisions
