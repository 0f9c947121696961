-- ===== src/Lib.antt =====
-- A verification library for the parts of OPA that must not lose, repeat or misreport an
-- emergency: the durable location queue of the phone and its replay, the ingestion of the fixes
-- into a hash chain, the ledger of sent notifications, the tamper-evident timeline of an incident,
-- its closing with its sessions and tracking links, the escalation of a SafeWalk, and the
-- credentials of the accounts.
--
-- The program. The phone records fixes into a SQLite queue; a replay drains one session of the
-- queue to the API, which chains the fixes of a session by hashes. The API keeps incidents, and
-- for each a chain of timeline events. Notifications of incidents, invitations and SafeWalk
-- notices are rows that workers claim, send through a provider and complete; receipts of the
-- provider arrive later and are reconciled. SafeWalk asks an owner who did not confirm arrival,
-- and tells the guardians, whom the owner paired by a code, when no answer comes. Closing an incident ends its journey session, which
-- closes the walk, revokes its tracking links and appends to its timeline, in one transaction.
-- Accounts sign in with a password, exchange refresh tokens, and carry a credential version that a
-- password reset moves on.
--
-- Which file models which code. Function names are those of the source in snake case.
--   Common (and its children): Boolean tests, lists, results, texts and tables that the others share.
--   JourneyQueue.Store, .Write, .Read, .Lease: apps/mobile-app/src/services/journey-queue-store.ts;
--     the state is the record Store, its rows in the order of queue_id.
--   JourneyQueue.Replay: apps/mobile-app/src/services/journey-replay.ts.
--   Delivery.Policy: apps/api/src/modules/notifications/delivery-policy.ts and
--     delivery-diagnostics.ts; Delivery.Ledger, .Claim, .Complete, .Receipts:
--     delivery-ledger.service.ts of the same folder; the state is the record Db of the tables of
--     apps/api/prisma/schema.prisma that the ledger writes.
--   Timeline.Json, .Chain: apps/api/src/modules/incident-timeline/incident-timeline.service.ts; the
--     state is the list of stored events.
--   SafeWalk.Policy, .Escalation: apps/api/src/modules/journey/safewalk-policy.ts and
--     safewalk-escalation.service.ts, with safeWalkRecipientData of
--     apps/api/src/modules/protected-identity/protected-snapshots.service.ts.
--   SafeWalk.Pairing, .Inbox: safewalk-guardian.service.ts of the same folder; the state is that of
--     SafeWalk.Policy with the pairing codes, and a history of calls is a list of SafeWalk.Revoked.Call.
--   SafeWalk.Dispatch: safewalk-notification.worker.ts there, with
--     apps/api/src/modules/notifications/delivery-dispatch.ts; the state joins SafeWalk.Policy.Db and
--     Delivery.Ledger.Db.
--   Ingest.Envelope: apps/api/src/modules/journey/canonical-chain.ts, and canonicalTimestamp of
--     canonical-fix.ts there; Ingest.Fixes: insertFixes and
--     recordTrackedFixes of apps/api/src/modules/journey/journey-session.service.ts; the state is one
--     session with its fixes in the order of their sequence numbers.
--   Ingest.Service: classifyJourneyFixes and ingest of journey-ingestion.service.ts of that folder.
--   System.Network: the phone's replay and the server's ingestion of one session, joined by requests
--     that are delivered or lost; the joint state is a Store and an Owned session, a run is the
--     indexed type Runs, in which captures (Captures) also fall into the time of a request.
--   Emergency.State: the incidents, tokens, events and sessions together; Emergency.Tokens:
--     apps/api/src/modules/incident-access/incident-access-token.service.ts; Emergency.Sessions:
--     resolveForActivation and endSession of journey-session.service.ts, confirm and cancel of
--     safewalk.service.ts; Emergency.Lifecycle: apps/api/src/modules/incidents/incidents.service.ts.
--   Auth.Accounts: the account tables and the interfaces Jwt, Bcrypt and Host of what is called from
--     outside; Auth.Tokens: auth.service.ts, jwt.strategy.ts and refresh-token.service.ts;
--     Auth.Credentials: password-reset.service.ts, activation.service.ts and
--     apps/api/src/shared/security/activation-code.ts.
-- The other files of each folder hold the proofs, by what they prove, and Tests the witnesses.
--
-- What the model takes for granted. A method inside a transaction is a function of the state that
-- returns a result; a transaction that throws has no new state, and the row locks and advisory
-- locks exclude interleavings inside one. Identifiers are numbers, times are milliseconds, and
-- what comes from outside is an argument: the clock, the jitter, the provider's answer, the HTTP
-- client, the digest, the payload preimage of a fix (canonicalFixPayload, which leaves out the key,
-- the source, the battery and the charging flag), the Date read from a string, the random nonces,
-- and the protected-identity service behind a recipient snapshot. A call that reads the clock more
-- than once (recoverStale, reconcileReceipts, runBatch, dispatch) reads one value. Orderings that the
-- database breaks by id are broken by the order of insertion where the ids are random. A
-- floating-point reading is an opaque code. An event key of the SafeWalk audit is a pair of an id
-- and a word.
--
-- A payload of the timeline is read back as it was written; that the database may give its members
-- in another order is what the canonical form is for. Its keys are not those that JavaScript orders or
-- treats apart (numerals, `__proto__`), and it holds no Date. The switch that turns the SafeWalk interval
-- off is left out, with the flag that keeps ticks apart. A random pairing code is an argument; the
-- reads of a notice in an inbox before and after the lock of its walk see one state.
--
-- The three clocks of a close - of the call, of the database, and of the revocation - are three
-- arguments. jsonwebtoken and bcrypt are records of their operations with the laws the code relies
-- on; a token time is in seconds. `toUpperCase` and `toLowerCase` of an account text are arguments.
-- The lookup before a credential transaction and the read inside it see one state.
--
-- Fuel. Only the chunk loop of enqueueBatch runs on fuel, the number of its items: every chunk takes
-- one item at least.
--
-- Not modelled: the user interfaces, the device and provider APIs, encryption, enrollment and single
-- sign-on, the creation of tracking links inside an activation, the reads that only join tables, and
-- the remaining services of the API.
pub mod Common
pub mod JourneyQueue
pub mod Delivery
pub mod System
pub mod Timeline
pub mod SafeWalk
pub mod Ingest
pub mod Auth
pub mod Emergency
