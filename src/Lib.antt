-- ===== src/Lib.antt =====
-- A model of the Signal workflow plugin, with the theorems that make its stores and steps correct.
--
-- The plugin keeps its state in global maps, each behind its own lock, so that each operation is one
-- function from the state before to the state after:
--   * envelope stores, an outbox and an inbox of encrypted envelopes, in memory or in a file
--     (internal/envelope_store.go, internal/envelope_steps.go): the data in Envelope, the
--     operations in Envelope/Store, `enforceRetentionLocked` in Envelope/Retention, the global map of
--     stores in Envelope/Registry, the steps in Envelope/Steps. Envelope/Store/Board is the
--     abstract outbox that a store implements;
--   * sealed custody stores, key material encrypted in one file for a reference
--     (internal/custody/sealed_store.go): Custody/Sealed; the steps over them
--     (internal/custody_steps.go): Custody/Steps; the redaction of the audit log
--     (internal/custody/audit.go): Custody/Audit;
--   * persistent custodies, a seed encrypted in a file, and the modules that configure both kinds
--     (internal/custody.go): Custody/Persistent, Custody/Stores, Custody/Modules;
--   * the registries of key custodies and accounts (internal/key_custody.go): Accounts;
--   * the identities with their sessions (internal/modules.go, internal/steps.go): Session and
--     Session/Steps. Session/Access puts the decryption into the inbox step. The steps of
--     internal/steps.go that keep no state, on fingerprints, account keys and username links: Keys;
--   * the consents that linked-device ceremonies have claimed
--     (internal/steps_service_operations.go): Service/Ceremony. The prepare steps of the same file
--     read the registries and are in Service/Prepare and Service/Steps;
--   * the service transports and the ledger of the process (internal/service_transport.go,
--     internal/service_test_steps.go): Service/Transport and Service/TestSteps, over the context of a
--     request in Service/Requests, the messages in Service/Contracts and the approval packages in
--     Service/Approval; the policy steps (internal/service_compliance.go,
--     internal/service_boundary.go and the rest of those two files): Service/Policy.
-- The types that the plugin announces, its factories and its contract registry
-- (internal/provider.go) are in Provider. References and the helpers on text are in Refs and Text,
-- and the numbers, results and dictionaries in Base. Functions keep their Go names in snake case:
-- `enqueueOutbox` is `enqueue_outbox`. A handler whose Go body checks, builds a record and changes
-- the state has a definition for each of the three (`check_enqueue`, `queued_record`, `put_outbox`).
--
-- Text is a list of bytes, an int64 is an integer (nothing is computed with one but comparisons), a
-- Go map is an association list with one entry for a key, and an error is a value that names the
-- operation and the field. The order in which Go ranges over a map is an argument, as are the clock,
-- the random bytes, the system calls that fail and how much a failed write leaves in its file, JSON,
-- base64, hexadecimal text, hashing and AES-GCM; what is assumed of them are the records RangeLaws,
-- JsonLaws, CryptoLaws and SeedLaws. A read of a file that is there does not fail. libsignal-go is
-- the argument Protocol of the sessions and KeyLibrary of the key steps, with SessionLaws, LinkLaws and SizeLaws; libsignal-service-go is
-- Policies, ServiceLibrary and TransportLibrary; its approval sets are a field of Policies.
--
-- Each handler is one atomic step. In the source two of them take a lock more than once:
-- `ExecuteSignalCustodyRotate` inspects and then rotates, and `ExecuteSignalServiceLiveSubmit` reads a
-- ledger, calls the client and writes the ledger back; calls that come in between are not modelled.
-- A custody store keeps the resolver that was set at its Init and has its directory to itself. A
-- null record in a stored map is not expressible, and a typed step is always given an input, if an
-- empty one.
-- The loop of `enforceRetentionLocked` has the length of the queue as fuel: each round deletes an
-- entry, so the loop ends by its own test.
--
-- Not modelled: the plugin's manifest and entry point, the generated messages but for those that are
-- read, the fixtures for tests, and writing the audit log, which is input and output.
pub mod Base
pub mod Text
pub mod Refs
pub mod Envelope
pub mod Custody
pub mod Accounts
pub mod Service
pub mod Session
pub mod Provider
pub mod Keys
