-- ===== src/Lib.antt =====
-- A model of the core of verify-run: a decision gate that evaluates a pinned rulebook against a
-- candidate and a frozen evidence snapshot, and returns ALLOW, BLOCK, HOLD or ERROR with reasons
-- and a trace.
--
-- The parts and how they interact. A rulebook is loaded from its source, with checks on its ids
-- (vfy/rulebook.py). A snapshot of evidence is put together for it and accepted (vfy/snapshot.py).
-- The gate (vfy/gate.py) parses the condition of every rule (vfy/expr.py), checks the evidence that
-- it names, and walks the rules: a rule first asks for its required evidence, then its condition is
-- evaluated in three values (true, false, unsettled). A condition reads operands out of the
-- candidate and the snapshot, compares them with an equality and with an exact order on decimal
-- texts, matches texts against portable globs, and asks for the age of evidence in nanoseconds. An
-- ALLOW is what an authorization rests on (vfy/authorization.py): it is signed over the digests of
-- all of these and verified by computing them and the result again. Instants come from date-time
-- texts (vfy/schema.py, vfy/rulebook.py), digests are taken of canonical texts (vfy/canon.py). A run
-- (vfy/runner.py) verifies an authorization, has the store (vfy/store.py) spend its nonce, starts the
-- process, and has the store keep the signed receipt (vfy/receipt.py), which replays from its bodies.
--
-- Which file models what:
--   Base, Base/*       helpers: tests, lists, texts as lists of code points, digits, integers
--   Value              the values of canonical JSON; Value/Equal: `_equal` of vfy/gate.py
--   Canon              `canonicalize` of vfy/canon.py with its stack of frames; Canon/Render: the
--                      same text by recursion; Canon/Sorted, Stack, Encodable: proofs
--   Decimal, Decimal/* `_DECIMAL`, `_numeric_parts`, `_compare_magnitude` and `_compare_numeric`
--   Glob, Glob/*       `_glob`, `_single`, `_class_end` and `_in_class`
--   Instant            `_DATE_TIME` and `_is_date_time` of vfy/schema.py, `_instant` and
--                      `_days_from_civil` of vfy/rulebook.py
--   Instant/Render     `_add_seconds` of vfy/authorization.py; the other files below Instant: proofs
--   Expr               the tree that vfy/expr.py builds
--   Expr/Lexer         the cursor of `_Parser`, its words and symbols, its failures
--   Expr/Literals      `_string_literal`, `_integer_literal`, `_path`, `_check_literal_comparison`
--   Expr/Members       `_operand`, `_list_literal`, `_list_member`
--   Expr/Parser        the grammar: `parse`, `_or_expression` down to `_comparison`
--   Expr/Document      the parsed tree as a document, and `_reject_excess_depth` of vfy/load.py
--   Expr/Evidence      `parse_expression`, `_collect_evidence_ids`, `validate_expression`
--   Expr/Reads, Operands, Total, Reach: proofs
--   Context            `_Context`, `_resolve` and `_descend` of vfy/gate.py
--   Evaluate           `_evaluate_node` and what it calls; Evaluate/*: what it guarantees
--   Snapshot           vfy/snapshot.py: `build_snapshot` and `verify_snapshot_value`;
--                      Snapshot/Valid: what is accepted is sound; the others: what is built is
--                      accepted
--   Walk               `_walk`, `_rule_state`, `_result` and the checks of `_prepare` on instants
--   Walk/*             which result the walk returns, and what stands behind an ALLOW
--   Schema, Schema/*   vfy/schema.py: Schema/Registry: `build_registry`; Schema/Reference: `_resolve`;
--                      Schema/Equal: `_equal`; Schema/Checks, Schema/Validate: `validate` and what
--                      it calls; the others: proofs
--   Rulebook           `load_rulebook_bytes`, `_check_load_time_semantics`, `rulebook_applies`,
--                      `check_no_version_collision`; Rulebook/Loaded: what a loaded rulebook is
--   Gate               `evaluate` and `_prepare`, with the parser; Gate/Document: the document of
--                      `_result`; Gate/Conforming: the gate with the validator; Prepared, First:
--                      proofs
--   Authorization      an authorization and what issuing and verifying share
--   Authorization/Registry, Issue, Verify: `build_key_registry`, `issue_authorization`,
--                      `verify_authorization`; the other files below Authorization: proofs
--   Store              vfy/store.py: its exceptions, `read_store_file`, `_load_canonical`,
--                      `_check_storable`; Store/Files: the entries under the root
--   Store/Consume      `consume_once`, `_stage_consumption` and `is_consumed`, one call on the file
--                      system at a time; Store/Consume/Race: many calls interleaved;
--                      Alone, Once, Decides, Again: proofs on one call and on the next
--   Store/Unrecorded   `preserve_unrecorded`; Store/Consume/Keeps: proofs
--   Receipt            vfy/receipt.py: a receipt, `issue_receipt`, `verify_receipt`
--   Receipt/Replay     `replay_receipt`, `timeline_anomalies`; Signed, Replayed, Issued,
--                      RoundTrip: proofs
--   Runner             vfy/runner.py: `executable_argv`, the checks on the arguments,
--                      `_acknowledge`, and the interface of the store; Runner/Execute:
--                      `execute_authorized_command`;
--                      Runner/Launched: `_launch`; Runner/Local: the store of vfy/store.py behind
--                      the interface; Order, Once, Output: proofs
--   Samples/*          runs at concrete inputs
--
-- How state and operations correspond. What stands under the root of a store is a list of entries
-- by name. A call of `consume_once` is a phase that moves on with each call on the file system, and
-- other calls may move in between; the host grants or refuses each. A run takes the store through
-- an interface, and the world it changes is the store and the processes that were started.
-- Starting a process and reading its output come to one of four things (`Spawned`): OSError, another
-- exception of `Popen`, an exception while a started process is read, or its end.
--
-- A Python string is the list of its code points, `str` and `list` indices are kept as the part of
-- the sequence from there on. The causes that
-- `_Context.note` appends to a list are passed through every function that may note one. The
-- mappings by id that `_Context` builds are kept as lists, in which of two entries with one id the
-- later one counts. `-1`, `0` and `1` of a comparison are `lt`, `eq` and `gt`. Integers are
-- unbounded, as in Python; the parser's `int` refuses a text of more than 4300 digits with a ValueError,
-- as CPython does by default, and the gate, which does not catch it, then has no result.
--
-- A call that may raise returns an `Attempt` (Base/Attempt), in the parser a `Parsed`, with the
-- place of the failure; the texts of exceptions are not kept. A chain of checks is a chain of
-- `>>=`, in the order of the source.
--
-- Bounds and fuel. The loop of `_glob` runs on fuel (`glob_fuel`): the product of the lengths of
-- pattern and text, with room for the restarts at a star. The loop of `canonicalize` runs on the
-- number of frames that a value comes to (`weight`), commas included. The parser runs on
-- `parse_fuel`, five calls for each character, since every five calls in a row read one. The
-- validator of schemas runs on fuel that is given, since a `$ref` may lead anywhere. The nodes of a
-- schema are checked on the weight of their document. All other loops are structural. Numbers of
-- more than 1024 digits in a decimal text and parentheses or lists nested deeper than 64 are
-- refused, as in the source. A call of `consume_once` makes at most 68 calls on the file system: 64
-- slots may be taken, and one more look, a write, a link and an unlink follow.
--
-- Not modelled: the files, processes and key stores around the gate (the records of the store and
-- their listing, custody, adapters, command lines), the handoff of custody to a run, the child
-- ledger, the service records, and all of the strict loader but its bound on depth. The readers of
-- JSON and YAML, regular expressions, UTF-8, base64, hashes, Ed25519 and processes are parameters.
-- The gate, snapshots, authorizations and receipts take the failures of their schemas as parameters
-- and their documents as records, and the document of a result is not validated against its schema.
-- The commit of a record is a parameter of a run, with what a run relies on as a hypothesis.
pub mod Base
pub mod Value
pub mod Decimal
pub mod Instant
pub mod Expr
pub mod Context
pub mod Evaluate
pub mod Walk
pub mod Canon
pub mod Snapshot
pub mod Schema
pub mod Rulebook
pub mod Gate
pub mod Authorization
pub mod Store
pub mod Receipt
pub mod Runner
pub mod Glob
mod Samples
