-- ===== src/Lib.antt =====
-- Verification of proofstep: the judgements that decide whether an agent run is acceptable and
-- whether a change may be merged.
--
-- The program records agent runs as traces of spans, evaluates each trace against a policy of
-- rules, aggregates scores into metrics, and turns the metrics into a merge decision. In production
-- it exports traces from the program under observation, and samples those that it evaluates. The
-- parts modelled here:
--
-- * Types models packages/shared-types/src/proofstep_types (common.py, trace.py): Types the
--   enumerations, Types.Trace spans and traces, Types.Value the values of attributes, arguments and
--   state.
-- * Trajectory models packages/trajectory-engine/src/proofstep_trajectory. Events is events.py,
--   Schema is schema.py with its validators, Normalized is the class of that name, Normalize is
--   normalize.py with one child per step (`_select`, `_dedupe`, `_fix_clock_skew`, `_sort_key`,
--   `_parallel_groups`, `_build`, `_mark_retries`, `_state`), Matchers is matchers.py with one child
--   per group of rules, and Engine is engine.py with `check_actions` of parser.py.
--   Predicates is predicates.py: Syntax what is accepted, Values the operators.
--   Evaluator is evaluator.py, which turns a result into a score.
-- * Gates models packages/evaluation-core/src/proofstep_core/gates.py: Rules the records of
--   packages/shared-types/src/proofstep_types (gates.py, score.py) that it reads, Regression the
--   checks against a baseline, Apply one rule, Calibration the state of the judges, Report
--   `evaluate_gates` with `_combine` and the exit codes.
-- * Sampling models packages/evaluation-core/src/proofstep_core/sampling.py, and in Batches the loop
--   of apps/api/src/proofstep_api/services/online_eval.py that shares one escalation budget.
-- * Exporter models packages/python-sdk/src/proofstep/exporter.py: Steps the operations of the
--   threads that submit or shut down and of the workers, in any interleaving, Sending `_send_batch`.
-- * Security models apps/api/src/proofstep_api/security: Limits is ratelimit.py, Permissions
--   permissions.py, Tokens keys.py, and Cursors cursors.py. Access and Requests are api/dependencies.py:
--   Access finds the caller and the project in the rows of the tables, Requests is get_principal,
--   which counts the request and sets the tenant.
-- * Redaction models packages/evaluation-core/src/proofstep_core/redaction.py: the redactors, Walk the
--   pipeline, Modes the capture modes of packages/shared-types/src/proofstep_types/common.py.
-- * Aggregation models packages/evaluation-core/src/proofstep_core/aggregate.py, which makes the
--   metrics that the gates read.
-- * Otlp models apps/api/src/proofstep_api/otlp/mapping.py, which makes the fields of a span from
--   OpenTelemetry attributes: Keys holds the names of the attributes, Kinds finds the type of a span,
--   Coercions reads the values.
-- * Online models apps/api/src/proofstep_api/services/online_eval.py on the tables of one project: Rows
--   the rows, Tables the queries and the inserts, Loading `load_trace`, Judging `_evaluate`, Budget
--   the monthly ceiling of budget.py. A batch takes the traces on which a rule has no decision,
--   decides by Sampling, judges by Trajectory, and writes a row for each.
-- * Retention models apps/api/src/proofstep_api/services/retention.py, which drops old partitions.
-- * Prelude holds what they share: tests, list operations, text, a stable sort, dictionaries, and
--   what a call returns or raises.
--
-- A trace is normalized to events (`normalize`), each rule is judged on them (`apply_rule`, which
-- calls `match_kind`), and the failures are gathered with the source line of their rule (`judge`).
-- The metrics of a run come with those of a baseline to `evaluate_gates`, which applies each gate
-- rule (`apply`), adds the results on calibration and on the data set, and combines them to a
-- verdict that is the exit code of the command.
--
-- Conventions. A time is a natural number of microseconds, in Retention those within a month of a
-- year. Money is a natural number of 10^-8, the scale of its column. An f-string is the constructor of its
-- template. A `TypeError` that leaves the code is `type_error` of Prelude.Result. Attribute values
-- hold no floating-point numbers. `Host` collects what the engine takes from the standard library:
-- `fnmatch`, `str` of a value that is no text, and the digest of arguments; `Python` what a predicate
-- takes from it: the parser, attributes, the identity of objects and built-in functions. The
-- matchers and `judge` take the evaluation of a predicate as a parameter, and `evaluate_policy`
-- passes them that of predicates.py. An exception in a predicate is `none`. The numbers of the gates
-- are a parameter `Number`: the floating-point operations, with no law assumed. A sample rate is an
-- exact fraction, and the first four bytes of the SHA-256 of a trace id are a parameter
-- `four_bytes`. The security modules take SHA-256, HMAC, base64, JSON, the decoding of JWTs and the
-- store of counters as parameters; an id is the text of a UUID, and a query is a function of the rows.
-- Online takes the reading of a policy from YAML, and Retention the match of its name pattern and the
-- subtraction of days, as parameters.
--
-- Fuel. `depth_of` climbs with the number of spans plus two as fuel, which is enough since a chain
-- of parents is left at the first repetition. The other loops are structural, the
-- attempts of `_send_batch` in their number.
--
-- Not modelled: YAML parsing, the printing of results, and the rest of the program, which is
-- HTTP, SQL and floating-point statistics.
pub mod Prelude
pub mod Types
pub mod Trajectory
pub mod Gates
pub mod Sampling
pub mod Exporter
pub mod Security
pub mod Redaction
pub mod Aggregation
pub mod Otlp
pub mod Online
pub mod Retention
