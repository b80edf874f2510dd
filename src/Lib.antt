-- ===== src/Lib.antt =====
-- hermes_mcp_bridge: a model of the Hermes MCP bridge, the Python package src/hermes_mcp_bridge, and
-- theorems about it.
--
-- The bridge lets an MCP client drive a provider (GitHub, a Hermes API) under governance. The parts
-- that are modelled are those that decide whether an effect may happen, and what is known of it
-- afterwards:
--
-- * Mutation models the governed writes. Mutation/Kinds has the vocabulary of v2/enums.py and
--   v2/errors.py, Mutation/Grammar the grammars of v2/mutation_digest.py, Mutation/Approvals its
--   descriptor, digest and store of single-use approvals (Spec: the token that the store refines,
--   Binding: what is authorised), Mutation/Records the leases and records of
--   v2/mutation_idempotency.py, and Mutation/Idempotency its store: `begin`, `commit`, `fail_clean`,
--   `mark_ambiguous`, `reconcile` and `purge_terminal` are functions of the same names from a store to
--   a store with a result; `Call` and `apply_all` are sequences of them. The store's lock makes each
--   one step, so a sequence of calls is an interleaving of any clients. Its children are Key (the
--   derivation of the key), Invariant, Begin and Exclusion (the invariant and the lock on a target),
--   Frame and Replay (what a settled record is worth), Attempts (what a new attempt has written) and
--   Tests.
-- * Dag models the runtime of v2/dag_*.py. Dag/Contract and Dag/Plan have the vocabulary and the
--   plan of v2/dag_contract.py, Dag/Json the values that results hold, Dag/Transform the closed
--   table of v2/dag_transform.py; Dag/Validate is `validate_plan` of v2/dag_validation.py (Graph:
--   the edges, Checks: the nodes and bindings against the catalog, Sound: what an accepted plan
--   is worth) over Dag/Order, its topological order; Dag/Store is the SQLite store of
--   v2/dag_store.py, its methods each one transaction, with its children Fence (leases),
--   Approvals and Records (what is saved and loaded), over Dag/Body, the checkpoint and its body,
--   with its child Codec, the reading of a body from JSON; Dag/Engine is v2/dag_engine.py, which
--   uses the store: Args resolves arguments and checks approvals, Execute is the body of a node's
--   task cut in two at the provider's call, Batch the tasks of one batch under the semaphore and
--   the locks of resources, Rounds the loop over the batches, Whole `run` from its guards to the
--   report (Alone: how many tasks are under way), Propagate the skipping of blocked nodes and
--   what is ready, Status the plan's status and report, Compensate the undoing of effects, and
--   Resume the start of a resume. The theorems stand in the children of these.
-- * Resilience models resilience/circuit.py in Circuit and resilience/events.py in Events, each with
--   its children. The client of client.py acquires the breaker before a request and records the outcome
--   after it; the event stream and the polling both report to the tracker.
-- * Upstream models the requests of client.py: the allow-list of resilience/http_retry.py, the retry
--   loop and the breaker around it, by Resilience/Circuit. Locks models the lock registry of locks.py.
-- * Policy models the policy of version 2: Policy/Kinds has its enums and the identifiers of
--   v2/schema.py, Policy/Registry the registries of v2/capabilities.py and v2/registry.py and the
--   rules, and Policy/Engine `PolicyEngine` of v2/policy.py. Its decision is an argument of the
--   resolver.
-- * Resolver models v2/resolver.py, which chooses the execution mode of a request, with
--   v2/resolver_contract.py in Resolver/Contract: Graph has the two searches of the graph of an intent,
--   Tree the blocks of `resolve`, each a function, and Preference the conditions of each mode and their
--   order.
-- * Base has what these share: Boolean tests, lists, texts, Python's `dict` as an association list in
--   the order of insertion (Base/Dict), results of code that may raise (Base/Outcome), integers.
--
-- Times are natural numbers of a small unit, microseconds or nanoseconds. Exceptions are values of the
-- error types; a state outlives an exception, as an object does in Python.
--
-- Bounds and fuel: `propagate` runs on one pass more than the plan has nodes, and each pass that
-- changes anything leaves fewer pending nodes. The topological order takes as many rounds as there are
-- nodes, one node a round. A batch takes three steps for each task at most. The loop of `run` takes one
-- round more than the plan has nodes, and returns nothing where that does not suffice; each round
-- settles a node at least. The searches of the resolver go a level deeper than an intent has
-- operations, and each level enters another one. Everything else is structural recursion.
--
-- Parameters: the hash (SHA-256 of canonical JSON; keys are sorted in the model), `strip`, `lower` and `upper` of Python's `str`,
-- the answers of the HTTP library, and what the engine is built with (catalog, governance, executor,
-- reconciler, compensator), and which task the event loop lets go on.
--
-- Not modelled: the MCP server and its tools (server.py), the polling and streaming of client_base.py,
-- the metrics and logs (observability/), configuration and secret files, migrations and backups, the
-- GitHub providers, the batch and runbook runtimes, the policy of version 1, and the deployment
-- scripts; of the DAG runtime, the checks of the constructors of v2/dag_contract.py and the engine's
-- dry run.
pub mod Base
pub mod Dag
pub mod Locks
pub mod Mutation
pub mod Policy
pub mod Resilience
pub mod Resolver
pub mod Upstream
