-- ===== src/Lib.antt =====
-- Verification of the Capy outcome runtime (src/capy_outcome_runtime).
--
-- The runtime keeps the authority over application invocations on the server. Modelled here are:
--
-- Dispatch: the durable provider lane (semantic_dispatch.py, `SemanticDispatchStore`). Types has
-- its rows, Queue the submission and the two sweeps, Provider the claim and the answers. Due is
-- about the choice among the due jobs, Accepted about accepted answers, Valid, Sweeps, Answers and
-- Runs about the tables that operations reach, Claims and Service about the claim, Idempotency
-- about repeated submissions, Backoff about the provider's answers. Dispatcher has the rounds of
-- `SemanticDispatcher`, whose consumers and provider are a `Party` and may change the tables. Rounds
-- is about how they deliver a result.
--
-- GenericBuild: the orchestration of one build (generic_build.py, `GenericBuildOrchestrator`). The
-- parties that it calls (the Git authority, the builder, the acceptor, the publisher and the
-- retry) are the `Answers` of one run: each call returns or raises. Types has the values, the
-- parent the steps of `run`, Ends postconditions of a step, Stages, Review and Delivery its
-- stages, Order the whole run.
--
-- Invocations: the invocations and executors of the store (store.py, `begin_invocation` to
-- `invocation`). Calls has the sequences of calls, Once is about idempotency keys, Settled about
-- ended invocations.
--
-- HumanRequests: questions to a person (human_requests.py). Creation has `_create`, Delivery
-- `_dispatch` with one function for each transaction, and the triggers; Steps has them all as one
-- relation. Changes, Answered, Once and Repeated are about the rows. It reads the invocations by
-- the key of a request; guarded actors, contracts, validation and delegation are the `World` that
-- an operation finds.
--
-- Chat: conversations, turns, proposals and build requests (chat.py, `ChatStore`), with Turns,
-- Proposals and Builds for its operations; Steps has the writes as one relation, Evolution says
-- what each writes, Kept what is never written again, Recovery what a restart settles, from
-- `ChatStore.__init__`. The recovery of turns reads the jobs of Dispatch.
--
-- ContextSearch: the pages of a search over the authorized operations (context_search.py). Text
-- has the words, Rank the ranking, Codec a cursor's JSON object, the parent the cursors and pages;
-- Splits and Words are about the words, Decoding about the cursors that are accepted, Pages about
-- one page, Walk about a client that follows the cursors, with as much fuel as there are matches:
-- each page has at least one of them, so that is enough.
--
-- Prelude and Table: Boolean tests, error results and lists; tables of rows with SELECT, UPDATE
-- and row counts.
--
-- Times are whole microseconds. Texts and identifiers that are only compared or stored are
-- numbers. The SHA-256 digests are parameters: the digest of a payload, and the number that the
-- jitter of a delay is taken from. `strip`, `seal` and `consumes` of Chat are Python's
-- `str.strip`, the digest of a proposal and the match of a job's key with a turn; the JSON of
-- incidents and metadata is a number. `Python` of ContextSearch has the text functions, the base64
-- and the JSON that the module calls. A SQLite transaction is one function from the tables to the
-- tables; a raised error leaves the tables as they were. A new identifier (`uuid4`) is an
-- argument, not yet in the table where a property needs that. No other loop needs fuel: the tables
-- are finite lists.
--
-- Not modelled: of the components above, the sorted lists that only a page shows, the sessions,
-- the health and metrics of the lane, the SQLite connections, and the waiting of threads. Of the
-- rest, the HTTP surfaces, the rendered pages, the command lines, processes, sockets and files,
-- and the account and connection services, which are input and output around the components; and
-- access, releases, the application model and the bindings of the store.
pub mod Prelude
pub mod Table
pub mod Dispatch
pub mod Invocations
pub mod HumanRequests
pub mod Chat
pub mod ContextSearch
pub mod GenericBuild
