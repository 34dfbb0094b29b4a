-- ===== src/Lib.antt =====
-- The core of QuantLineage, the risk service under backend/app: its run lifecycle and worker, its
-- stored portfolios and definitions, its caches, its request caps, its token gate, its assistant, the
-- slicing of portfolios along the firm's hierarchy, and the checks and alignment of historical series.
--
-- How the parts interact. A request passes the token gate of api/auth.py, which stamps the principal
-- that api/acl.py compares with owners, the byte cap of api/workload.py, whose buffer is replayed to the
-- application, and the walk over the parsed body. A risk run is enqueued by
-- services/risk_run_service.py in a repository of persistence/memory_repos.py, claimed by
-- services/risk_run_worker.py, bound to a market snapshot, computed, and completed or failed; only the
-- service and the claim write runs. The result payload is checked by persistence/result_payloads.py. A
-- book is stored by persistence/sqlalchemy_repos.py under a version. Pricing goes through the caches. A
-- question to risk/query.py becomes one checked call of a tool of risk/tool_contracts.py on the services.
-- (Paths are relative to backend/app.)
--
-- The files, each with its children below it:
--   Prelude      shared types and lemmas: tests on numbers, lists, dictionaries as association lists
--                (Dict), stable sorting (Sort), texts (Text), calls with a state and exceptions (Call)
--   Wire         JSON values; Wire/Payload is persistence/result_payloads.py
--   RiskRun      RiskRun of domain/models.py; Repo is InMemoryRiskRunRepository, Service is
--                RiskRunService. Steps lists what a call can write, and Invariant, History, Outcomes and
--                Claiming prove what holds over all sequences of calls. Row is
--                persistence/risk_run_mapping.py, Database the writes of SqlAlchemyRiskRunRepository
--                on one row, which Stored and Agreement compare with the other repository
--   Worker       RiskRunWorker over repositories that do not fail: Execute has _execute, _schedule and poll_once, branch by branch
--   Lru          pricing/cache.py, pricing/curve_cache.py and risk/scenario_memo.py
--   Workload     api/workload.py: Walk is enforce_parsed_payload with _iter_dicts, Body the byte cap,
--                Caps the caps as counts
--   Hierarchy    risk/hierarchy_placement.py
--   Books        SqlAlchemyPortfolioRepository, each call as one step: the source's update reads and
--                writes without a row lock, so calls that overlap are not covered
--   Series       market/ingestion/normalize.py and market/quality/validate.py; Align is
--                market/quality/align.py
--   Access       api/auth.py and api/acl.py: Bearer has the configured principals and the token, Gate
--                the middleware
--   Query        risk/query.py and risk/tool_contracts.py. Marks, Extract, Plan and Route are the
--                router; Tools, Contracts and Args describe the tools, Validate and Execute check and
--                run a call; Card, Printing, Format, Calls and Sentences make an answer of a payload;
--                Safe, Response and Answer are the answering methods, Offline the offline model
--   Definitions  the scenario, limit and snapshot repositories of persistence/memory_repos.py
--   ExecutionClass  api/execution_class.py
--
-- How the code is translated. A method is a function from the state to a result and the new state, and
-- a raise is an error result that keeps what was written before it. A lock makes a method one step; the
-- theorems about sequences of calls then cover every interleaving of locked methods. A dict is a list
-- of pairs in order of insertion. Exceptions are told apart by class; their messages are kept only
-- where the code stores them. Times and dates are natural numbers, and a clock is a function from the
-- count of its readings, so it may be set back unless a
-- theorem's condition says otherwise.
--
-- Fuel. The walk over a JSON body and the scan for oversized tool arguments run on fuel: the number of
-- the value's nodes, each of which is on the stack once. Every other loop is structural.
--
-- Parameters. Pydantic's validation (but the
-- constraints of RiskRunCalculationConfig, which Row has), Python's int, float and str.upper, json.loads, the digests that
-- make cache keys, the database's order of ids, for texts Python's case mappings, number formats and the
-- regular expressions of risk/query.py, hmac.compare_digest, the environment, the language model and the
-- service object behind the assistant with search_catalog, and for the worker the market data, pricing and risk
-- engines with the portfolio loader.
--
-- Not modelled: pricing and risk mathematics (floating point and QuantLib), market data clients and
-- catalogs, HTTP handlers and schemas, the queries of the SQLAlchemy repositories, sessions and
-- migrations, the native kernel, the frontend, demo data, scripts and tests.
pub mod Prelude
pub mod Wire
pub mod RiskRun
pub mod Lru
pub mod Worker
pub mod Workload
pub mod Hierarchy
pub mod Books
pub mod Series
pub mod Definitions
pub mod ExecutionClass
pub mod Access
pub mod Query
