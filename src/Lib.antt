-- ===== src/Lib.antt =====
-- altr_stream: the AltrQL query engine of Altr Stream, from the text of a query to a bound query,
-- its classification and its SQL. All paths below stand under src/altr_stream/ of the repository.
--
-- A text runs through a chain of pure stages. The lexer (query_engine/parser/lexer.py) makes tokens
-- of it, the parser (query_engine/parser/parser.py) an intermediate representation (IR) of the
-- query, the validator (query_engine/semantic/validator.py) rejects queries that have no meaning,
-- the normalizer (query_engine/semantic/normalizer.py) brings the rest into one form. `parse_altrql`
-- is these four in a row. The binder (query_engine/binding/) resolves the names of a query in the
-- snapshot of a source's schema and checks types, the classifier
-- (query_engine/classification/) says which bound queries a user must confirm, and the lowerers
-- (query_engine/lowering/) make SQL with parameters of a bound query. The results of several sources
-- are merged (query_engine/planning/merger.py), after a query on logical names became one for each
-- source (query_engine/binding/logical_resolver.py and planning/planner.py). The registry (application/registry_service.py over
-- infrastructure/database/registry_repository.py) keeps logical models and their mappings to
-- sources. The resolver of updates (domain/semver.py), the supervisor that carries them out
-- (supervisor/supervisor.py) and the check of raw SQL (domain/query_validation.py) stand apart.
--
-- Files:
--   Base           lists, texts, integers, results, and `Python`, the interface of the interpreter
--   Ast            query_engine/domain/ast.py and operators.py: AltrQueryIR and its parts
--   BoundAst       query_engine/domain/bound_ast.py: BoundAltrQueryIR and its parts
--   Schema         domain/schema.py: SourceSchema, EntitySchema, FieldSchema, get_field, and
--                  are_datatypes_compatible
--   Tokens         TokenType, Token and RESERVED_KEYWORDS of the lexer
--   Lexer          Scan (numbers, words, dates), Strings (_scan_string), Tokenize (tokenize);
--                  Fuel and Quoting hold proofs
--   Parser         Machine (inspection and consumption of tokens, _error), Values (paths, literals,
--                  value sets), Expressions (WHERE), Clauses (projection, SORT, TOP, LIMIT),
--                  Payloads (CREATE and UPDATE), Queries (the four queries, parse); Printer is
--                  a printer to tokens; Progress, the files in End and those in RoundTrip
--                  hold proofs
--   Semantic       Validator and Normalizer; WellFormed is an independent description of the
--                  queries to accept; Checks, Operands, Accepts and Idempotent hold proofs
--   Binding        TypeValidator, Resolver, Binder; Erase, Kept, Typed and Sound hold proofs
--   Classification classify_query; Confirmation holds proofs
--   Lowering       query_engine/lowering/postgres.py, mysql.py and sqlite.py: Sql (text, markers and
--                  parameters), Dialect and Dialects (what the three share, and each of them),
--                  Strings, InLists and Postgres (lower_field_expression), Queries and Creates
--                  (lower); Markers, Numbering, Like, Groups and Raising hold
--                  proofs
--   Semver         domain/semver.py: SemVer and its order; Parse is the parser around the regular
--                  expression, Resolver is DirectUpgradeResolver, and Order, Sorting and
--                  Sound hold proofs
--   Merger         query_engine/planning/merger.py: compare_values and the comparator; Merge is
--                  normalize_row and merge_federated_results; Paging and Ordering hold proofs
--   Statements     domain/query_validation.py: split_sql_statements and validate_query; Splitting
--                  holds proofs
--   Planning       _compute_federated_plan_ir_updates of query_engine/planning/planner.py; Sorted and
--                  Pushdown hold proofs
--   Resolving      query_engine/binding/logical_resolver.py: resolve_logical_ir; Columns holds proofs
--   Mapping        domain/logical.py and domain/mapping.py: models, mappings and their lookups
--   Registry       Repository (the store), Service (models and mappings), Activate, Validation;
--                  OneActive, Demotion, Activation and Valid hold proofs
--   Supervisor     Actions (calls and files), Requests, Rollback and Process
--                  (process_pending_request), Startup (reconcile_startup_state, run_loop);
--                  Workflow is a specification, and Follows, Staged, Followed, Settled, Settles, Inactive and
--                  History hold proofs
--   Pipeline       parse_altrql; Stages holds proofs
--   Tests          an instance of `Python`, runs of the pipeline, and the theorems at examples
--
-- State and errors. The lexer's cursor, line and column are the rest of the text and a position;
-- the parser's cursor is the rest of the tokens. An exception is the error of a `Result`. An error
-- of the parser has the source's message without the parts that an f-string puts in; the errors of
-- the later stages are constructors without a message. Texts are lists of code points. What the
-- code uses of Python itself (character classes, int, float, upper, date.fromisoformat) is the
-- record `Python`, an instance argument of the definitions that use it; floats are a parameter.
-- The lowerers append to a list of parameters while an f-string is built: their code is a function
-- from the parameters so far to a text and the parameters after it, and `<>` is the order from left
-- to right. What they use of datetime and str() is the record `Host`.
--
-- The registry is a store that each call takes and returns. Its rows are nested as the repository
-- loads them, the most recently updated first, on a clock that never stands still. The supervisor is
-- a state of files, of the machine it runs on, and of a record of what was done; what the
-- container engine and the node answer is the record `Host`, over any state of that machine. An
-- exception that the supervisor does not catch ends the round (`raised`) and the loop; writes of
-- files do not fail, but removing the request may. The values of a request are texts or null, as the
-- application writes them.
--
-- Fuel. The lexer's loop has one unit for each character and one more: each round passes a
-- character. The parser has six units for each token and ten more: between two tokens that it
-- passes, its methods nest at most six deep. Both bounds are proved to be enough.
--
-- Not modelled: the rest of the planner of federated queries, the lowering to MongoDB, the registry's
-- calls on single entities and fields; the docker and HTTP clients of the
-- supervisor, connectors, storage, routes and clients, which are calls of libraries. Descriptions for people and
-- serialization are left out of what is modelled.
pub mod Base
pub mod Ast
pub mod Schema
pub mod BoundAst
pub mod Semver
pub mod Merger
pub mod Statements
pub mod Supervisor
pub mod Mapping
pub mod Planning
pub mod Resolving
pub mod Registry
pub mod Tokens
pub mod Lexer
pub mod Parser
pub mod Semantic
pub mod Binding
pub mod Lowering
pub mod Pipeline
pub mod Classification
mod Tests
