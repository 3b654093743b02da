-- ===== src/Lib.antt =====
-- The safety-grounded agent: an assistant for sales teams that passes each request through a safety
-- policy before anything else sees it, and that keeps requests, runs and idempotency claims so that a
-- request is executed once.
--
-- The parts, by their paths from the repository's root, and the files that model them:
--
--   src/conversation_agent/policy            Policy.antt and below
--     models.py, templates.py, catalogs      Policy/Models
--     rules.py                               Policy/Rules, the catalog in full
--     normalization.py                       Policy/Normalization: normalize_policy_text
--     candidates.py                          Policy/Candidates: detect, _occurrences, build_candidate_id
--     stance.py                              Policy/Stance: resolve, _clause_bounds, _quote_context
--     resolver.py                            Policy/Resolver: the decision matrix
--     engine.py                              Policy/Engine: decide, _coerce_classifier_result
--   src/conversation_agent/database          Database.antt and below
--     errors.py, records.py                  Database/Errors, Database/Records, Database/Records/Checks
--     idempotency.py                         Database/Idempotency: the validator
--     fake_execution.py                      Database/State, Database/Execution (the repository),
--                                            Database/UnitOfWork, Database/Claims (the claims repository)
--   src/conversation_agent/authorization     Authorization.antt and below, with identity/models.py
--   src/conversation_agent/runtime           Runtime: models.py
--   src/conversation_agent/orchestration     Orchestration.antt and below
--     task_router.py, models.py              Orchestration/TaskRouter, Orchestration/Models
--     coordinator.py                         Orchestration/Words (texts), Orchestration/Modules
--                                            (what it is built from), Orchestration/Reports and
--                                            Orchestration/Coordinator (the tasks),
--                                            Orchestration/Run (run and its metadata)
--   src/conversation_agent/rag               Rag: factory.py, with base.py and models.py
--   src/conversation_agent/application       Application.antt and below
--     persistence_mappers.py                 Application/Mappers, Application/Mappers/Audit
--     idempotent_durable_service.py          Application/Idempotent (claim and accept),
--                                            Application/Execute (execute and the end of a run);
--                                            Application/Transactions (the abstract transactions)
--     durable_service.py                     Application/Durable
--     execution_gateway.py                   Application/Gateway
--     idempotency_mappers.py                 Application/Replay
--     service.py, ../runtime/builder.py      Application/Chat (and the results in Application/Models)
--   src/conversation_agent/sales             Sales: scorer.py and health.py
--   src/conversation_agent/api               Api: idempotency.py, the key in a request's headers
-- A decision runs through the policy's files in the order above: the normalised text goes to detection,
-- the candidates to the stance resolver, both to the matrix; only a text without candidates goes to the
-- classifier. An exception that leaves these functions is `none`. The persistence layer is explicit
-- state passing: an action takes the tables and returns a result or an error together with the tables,
-- so that what was written before an exception stays written. A unit of work stages a copy of the tables
-- and the factory sees it only at the commit. The application services are built over that layer: a request is
-- claimed and accepted in one unit of work, the coordinator runs outside of any, and the run is stored
-- in a second one; between the two, other requests may change the tables in any way, which is the
-- argument `between` of execute. The gateway chooses the service by the presence of a key, and the
-- coordinator asks the policy before it routes and executes a task.
--
-- Conventions. Texts that are searched are lists of code points, identifiers are strings. Confidences
-- are millionths, instants microseconds with the offset that utcoffset() returns. Code outside the
-- repository is a parameter: NFKC, categories, lower, isspace and casefold (the record Unicode), SHA-256
-- and the formatting of numbers (Digests), the database clock (an argument of the calls that read it,
-- in UTC as the tokens' constructor demands), the classifier (a function to what its call does), the
-- chat service, the tools behind the coordinator and the JSON and datetime codecs. What a call of a
-- service reads from clocks and generators of identifiers is the record Readings, an argument. The
-- arithmetic of floats is a parameter of the scores.
-- Loops over find run on fuel, the text's length and one more, which is more than the places there are.
--
-- Prelude, Dict, Text, Time and Json hold what the parts share. Each component's children are named for
-- what they prove, and the tests stand in modules named Tests.
--
-- Not modelled: the cancellation of the thread that runs a request; the intent router and the two
-- retrieval clients behind the interfaces they implement; the texts that explain a score; the
-- repositories over SQLAlchemy, whose contract the in-memory ones state; HTTP, identity providers,
-- language models, files, configuration and the command line, which are input and output or wiring;
-- migrations, scripts and evaluation.
pub mod Prelude
pub mod Dict
pub mod Text
pub mod Time
pub mod Json
pub mod Policy
pub mod Database
pub mod Authorization
pub mod Runtime
pub mod Orchestration
pub mod Rag
pub mod Application
pub mod Sales
pub mod Api
