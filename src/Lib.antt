-- ===== src/Lib.antt =====
-- The core services of CryptoCampus: encrypted drops, the login and its sessions, quotas,
-- registration codes, one-time commitments, anonymous votes and credentials, the audit chain and the
-- revocation log (server/app/services), modelled and proved.
--
-- The parts, and where they are:
--   Prelude        Boolean tests, lists over the native numbers, byte strings, and database tables:
--                  a table is the list of its rows, with `select_first` for `.first()`, `get` for
--                  `session.get`, `update_where` and `rowcount` for `UPDATE .. WHERE ..`.
--   Models         the rows of server/app/models that several services share.
--   Crypto         `CryptoEngine` (server/app/crypto/engine.py) and Python's text functions, as
--                  records of operations that the definitions take as parameters.
--   Quota          server/app/services/quota.py: `reserve`, with `concurrent` for what other sessions
--                  commit between the check and the INSERT. Quota/Limit has its theorems. Quota/Reset is
--                  `get` and `reset`.
--   Drop           server/app/services/drop.py and what it is built from. Rows, State and Actions have
--                  the tables, the errors and the actions: an action takes the tables and returns a
--                  result with the tables that it leaves, since what is committed before an exception
--                  stays. Requests and Create are `_create_drop`, Create/Entry the two calls of it;
--                  Lookup is `get_drop_metadata` and the first steps of `extract_drop`, Unseal its
--                  steps 4 to 10, and Extract the whole of it; Delivery goes from a create to an
--                  extraction.
--   Drop/Cooldown  server/app/services/extract_cooldown.py. Cooldown/Machine has the state machine
--                  that it promises (counting, locked, closed), Cooldown/Refines the refinement,
--                  and Cooldown/Admission which drops it lets through.
--   Drop/Destruction  server/app/services/drop_destruction.py: burning, the sweep, single expiry.
--   Drop/Services  the injected collaborators of `DropService`, with recipient_resolver.py.
--   Action         fallible steps on a state, for the services with few tables, their laws, and in
--                  Action/Keeps the rules by which they keep an invariant.
--   Auth           accounts at work: Login is server/app/services/login.py, Sessions is sessions.py of
--                  that folder, Tokens, KeyCache and Policy are tokens.py, key_cache.py and
--                  password_policy.py of server/app/security. A session or a login takes the new
--                  token and key as arguments; what PyJWT does is a parameter of Tokens.
--   Audit          server/app/services/admin_audit.py: the chain of the administrators' audit, with
--                  Audit/Walk for the walk along it, and Audit/Append for an append.
--   Accounts       server/app/services/account_lifecycle.py: `update_status` and `update_role`, which
--                  write to the tables of Auth/Sessions, the cache of Auth/KeyCache and the chain of
--                  Audit. Accounts/Freeze has what a freeze does, Accounts/Shut what it shuts out,
--                  Accounts/Teachers and Accounts/Roles what a change of role does.
--   Votes          the anonymous ballots and their tally, over the tables of Rows: Submission is `submit`
--                  of server/app/services/vote_ballots.py, with Ballots for the checks, the tables and
--                  the running tally that it shares with Settlement, which is vote_settlement.py;
--                  Encoding is vote_results.py, and Results vote_result_verification.py. Publishing
--                  says what a written tally looks like, OneVote what no call breaks. What other
--                  processes commit between the reads and the writes of a round is an argument.
--   Credentials    server/app/services/credential_issuance.py, which consumes a commitment of Commitments
--                  and a unit of Quota: a rollback restores the tables and not the commitments, which
--                  are in memory. Credentials/Paid counts what is issued; Credentials/Verification is
--                  credential_verification.py.
--   Codes          server/app/services/verification_code_store.py.
--   Commitments    server/app/services/commitment_store.py.
--   Revocation     server/app/services/revocation_log.py: the encoding, the three loops of
--                  `order_and_verify_chain`, and the pages.
--   */Tests, Drop/Samples  concrete tables on which the theorems are run.
--
-- How the code is read. Identifiers (UUID strings, which the code only compares) are numbers; instants
-- are microseconds of UTC, so that the `_utc` normalisation is the identity; random values and `uuid4`
-- are arguments. `with self._transaction()` keeps the tables of its block when the block ends, and
-- those from before when it raises; the session and driver beneath it are not modelled. The digest
-- and the constant-time comparison of the engine are taken not to fail; each other operation of the
-- engine may. Two requests that insert the same drop at once are not modelled; two that reserve the
-- same quota are. The password columns of an account, which are null only once it has been deleted, are
-- taken to be filled.
--
-- Fuel: the loop of `order_and_verify_chain` that walks along the hashes has one round more than the
-- log has entries, and is proved not to run out. The one of `verify_chain` of the audit has no guard
-- against going round: one round more than there are entries is enough for a walk that ends, and the
-- model calls any other `endless`. `submit` and `settle` of the votes take at most three
-- rounds, as in the code. All other loops are structural.
--
-- Not modelled: the redacted step values of inspection records and the generated keys of audit rows;
-- the creation of votes, their scopes and the scheduler, the issuance of vote credentials, the key files
-- of the tally station and of the signers, and an `OperationalError` of the database in the vote
-- services; the services of the tree hole, chat, seals and administration (but its audit, the quotas, and
-- the status and the role of accounts); the deletion of accounts; the native engine, the web front end
-- and the HTTP routes.
pub mod Prelude
pub mod Text
pub mod Auth
pub mod Audit
pub mod Accounts
pub mod Votes
pub mod Action
pub mod Models
pub mod Crypto
pub mod Quota
pub mod Drop
pub mod Codes
pub mod Commitments
pub mod Credentials
pub mod Revocation
