-- ===== src/Lib.antt =====
-- The verification library of apichain-backend, a honey traceability service: batches move through a
-- lifecycle, every change is a row of a hash-chained audit log, runs of audit rows are anchored by a
-- Merkle root, lab panels are scored against the Codex standard, and anyone may check a batch's
-- proofs.
--
-- Parts, and the code they model:
--   Base        numbers, lists, byte strings and calls that raise; no code of its own.
--   Canonical   app/services/canonical.py: `dumps` is `json.dumps(sort_keys=True)` on the values that
--               payloads hold, `isoformat` is `datetime.isoformat` on naive datetimes, and `Decimal`
--               is the part of `decimal.Decimal` that the payloads and the scorer use.
--   Merkle      app/services/merkle.py, function by function.
--   Audit       app/services/audit_log.py: the table is the list of its rows in id order with the
--               sequence's next id; `append` and `verify_chain` are the source's functions, and a
--               transaction that rolls back burns its id. Integrity is app/services/integrity.py, the
--               scheduled check of the chain.
--   Anchoring   app/services/anchoring.py (one tick of the stamping worker over the rows, the anchors
--               and the module's status, the upgrade of pending anchors and the backlog) and
--               app/services/anchor_proof.py (the derived proofs).
--   Codex       app/services/codex_scoring.py: the frozen rule sets, `evaluate` and `as_payload`.
--   Access      app/deps.py, app/services/ownership.py, app/services/password_policy.py and the roles
--               of app/enums.py. A refusal is the code of an `APIError`.
--   Lifecycle   app/services/transitions.py (States), idempotency.py (Idempotency), stage_payloads.py
--               (Payloads) and stage_writer.py (Writer), and the five transition routes (Routes) and
--               `create_batch` (Create) of app/routers/batches.py. `record_stage` takes the whole
--               store and returns the reply with the new store, or a refusal: a refusal discards the
--               session, so it returns no store.
--   Consent     app/services/consent.py: grants and withdrawals, of which the newest decides.
--   RateLimit   app/services/rate_limit.py: the rows of `rate_limit_events` and the operations on them
--               (Events), the counter of one key (Times, Window) and runs of many keys (Histories).
--   Sessions    app/services/refresh_tokens.py: the rows of `refresh_tokens` with the sequence, and
--               `issue`, `rotate`, `revoke` and `revoke_all` (Tokens). A refused rotation that rolls back
--               returns no table.
--   Verify      app/services/verification.py: the field policy and the public form of a payload
--               (Public), the check of a block and `verify_batch` (Match). The stage rows that its selects
--               find are an argument.
--   Contact     app/services/verification_codes.py and, of app/routers/verifications.py, what the two
--               routes do to the codes (Codes): `send_code` from the limit on, with whether the message
--               went out as an argument, and `confirm_code` from the lookup to the answer. Phone is
--               app/services/phone.py.
--   Workers     app/services/worker_status.py: the status row of a job, what `track` does to it and the
--               alert it sends (Status).
--   Tests       the theorems on concrete inputs.
--
-- The anchors commit to audit rows by their row hashes, the lifecycle writes the audit rows, and the
-- proofs are derived again from the rows, so the parts share the types of Audit and Merkle.
--
-- Parameters: SHA-256, Keccak, HMAC-SHA256 and the hash of a refresh token are functions on bytes or
-- texts; where a theorem needs it, digests have 32 bytes. A safety theorem about them ends in a collision
-- instead of assuming that there is none. The answers of the timestamp calendars are functions of the
-- root or of the stored proof, the clocks are arguments, and so are drawn codes and tokens, whether a
-- lock is free or a message went out, and `scrub_text` of app/services/redaction.py. The stage rows,
-- their builders and the database's refresh are parameters of `record_stage`.
--
-- Loops: the levels of a tree are folded with as much fuel as there are leaves, and a level is at least
-- one shorter than the one below it, so the loops end at one node; `decimal` has fuel for one digit
-- more than the value. All other loops are structural.
--
-- Numbers are natural: ids, counts, coefficients and the integers of a JSON payload are never negative
-- here, and Python's integers do not overflow. A NUMERIC value is a finite decimal, where PostgreSQL also
-- stores NaN, on which the scorer's comparison raises; the JSON columns `hive_ids` and `jar_ids` hold
-- lists, where an edited row may hold any JSON value, on which `list` may raise. `str.lower` and the
-- request's body as the framework dumps it are arguments too.
--
-- The database: a JSON column and an INET column give back the value that was stored. The
-- `refresh` of a new stage row is a parameter, and the metadata row of a creation is taken as inserted.
-- Of the constraints, UNIQUE(batch_id) of the stage tables is modelled; UNIQUE(batch_id) of
-- `codex_conformance`, UNIQUE of a batch's public_id and the UNIQUE, CHECK and EXCLUDE constraints of
-- `merkle_anchor` are not. An anchor's `last_error` is kept as whether there is one.
--
-- Clocks and interference: advisory and row locks are not modelled; each operation is one step on its
-- store, with one reading of each clock. For `append`, the stamping tick and one anchor of an upgrade the
-- code holds a lock over the step. `run_upgrade` opens one session per anchor, so other writers may come
-- between its anchors; here its loop is one step, and a lock held elsewhere is an argument. `take` and the
-- other limits read the clock before they take the lock of the key, so the times of their steps need not
-- rise: what depends on it assumes it.
--
-- Not modelled: the OpenTimestamps format, JWT and bcrypt, object storage,
-- mail, SMS and geocoding (other services and libraries), logging and configuration; and, for now, the
-- views of the routers and communications.
pub mod Base
pub mod Canonical
pub mod Merkle
pub mod Audit
pub mod Anchoring
pub mod Codex
pub mod Access
pub mod Lifecycle
pub mod Consent
pub mod RateLimit
pub mod Sessions
pub mod Verify
pub mod Contact
pub mod Workers
pub mod Tests
