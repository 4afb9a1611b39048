-- ===== src/Lib.antt =====
-- Nexuscone keeps an append-only audit ledger in SQLite: every entry holds the SHA-256 of the
-- entry before it and of its own fields, entries may be signed, the chain head may be anchored in
-- time, and witnesses co-sign it.
--
-- The program's parts and the files that model them:
--
-- * Canonical JSON (src/nexuscone/canonical.py, and Python's json as it is used there and in
--   chain.py) is Json and Canonical: `canonical_json` is `print` of `sort_keys`, `loads` is
--   Json/Parse, `sha256_hex` is in Canonical. Text has Python's strings as lists of code points,
--   their UTF-8 bytes, decimal and hexadecimal digits.
-- * Timestamps (`_utc_now_iso`, `datetime.fromisoformat`) are Time: `iso`, `from_iso`, `micros`.
-- * SQLite's tables (chain.py `_SCHEMA`, schema.py) are the records of Store; Store/Query has what
--   the statements do to a list of rows in the order of the primary key.
-- * src/nexuscone/chain.py, class Ledger: opening, migrating and closing is Ledger; `log`
--   and the hash of a row are Entries; `get_entry`, `get_entries` and `count` are Entries/Query;
--   `verify_chain` is Entries/Verify.
-- * Witnesses (witnesses.py and chain.py): the registry is Witnesses, `attest_with_witness` and the
--   query are Witnesses/Attest, `verify_witness_attestations` is Witnesses/Verify.
-- * src/nexuscone/anchor_schedule.py is Schedule.
-- * Anchors (anchors.py and chain.py): reading, listing and confirming is Anchors; `Ledger.anchor`
--   with its two tracks is Anchors/Submit. `now - timedelta(minutes=...)` is Time/Shift.
-- * src/nexuscone/rfc3161.py is Rfc3161, with `_submit_tsa_track` of chain.py.
-- * src/nexuscone/poller.py is Poller: the walks over a timestamp are Poller/Tree, `_upgrade_one` and
--   the run over the pending anchors are in Poller itself.
-- * src/nexuscone/verifier.py is Cli: chain and anchors are checked in Cli, the other commands and
--   `main` are Cli/Commands.
-- * src/nexuscone/signing.py is Signing.
--
-- The poller lists the unconfirmed anchors through the ledger, asks the calendars for better proofs
-- and writes what it learnt through `confirm_anchor`; the command-line program opens a ledger on a
-- file, calls it or the poller, and closes it. Entries/Spec is an abstract view of the entries, an
-- append-only log without table or text encodings, that the ledger is held against.
--
-- How they are modelled. A method is a function from the state to a result and the state after it
-- (Exec, Exec/Action); a Python exception is an `Error` with one constructor for each place that
-- raises. The ledger's asyncio lock makes every method one step, so that concurrent callers are a
-- list of calls in the order in which the lock lets them in (`log_all`). The clock is an
-- argument. SHA-256 is a parameter: a record of a digest function and what every digest is (32
-- bytes). So are signers and verifiers (both may raise), the library under signing.py
-- (`Ed25519`), the OpenTimestamps library with its calendars (`Ots`, with what is relied on of it
-- in Ots/Laws), rfc3161_client with urllib (`Tsa`) and the block explorer (`Mempool`). The last
-- three answer by the number of the request, and may raise.
--
-- Fuel. The only fuel is that of the JSON decoder: `loads` gives it two more than twice the length of
-- the text, since at most two readers in a row stand at the same character before one of them takes
-- it (Json/Fuel for what `print` wrote, Json/Enough for any text).
--
-- Bounds. A method without a limit of its own takes the default of 500 rows from its caller, as in
-- the source; a negative limit is none, as in SQLite. Python's limit of 4300 digits stands
-- where `log` prints a payload. Years below 1000 have fewer than four digits, as strftime writes them
-- on Linux, and are not read back.
--
-- Not modelled: floats in payloads; a stored payload with an int of more than 4300 digits, which
-- json.loads refuses (`log` refuses to write one); the forms of a time other than the program's
-- own, which fromisoformat also reads; surrogates in the URL of a Time-Stamp Authority and in the
-- filters of get_witness_attestations; row ids, limits, ages and anchor ids below 0 or beyond 2^63
-- - 1; writes of other processes or tasks between the statements of one method, or between the
-- steps of a run of the poller; the parsing of command-line arguments and the layout of what is
-- printed (`Line` has the values that a line names); `Ed25519Signer.generate`, whose key is the
-- library's choice; the names that src/nexuscone/__init__.py passes on.
mod Prelude
pub mod Text
pub mod Json
pub mod Time
pub mod Canonical
pub mod Exec
pub mod Schedule
pub mod Rfc3161
pub mod Store
pub mod Entries
pub mod Ledger
pub mod Witnesses
pub mod Ots
pub mod Anchors
pub mod Signing
pub mod Poller
pub mod Cli
mod Tests
