-- ===== src/Lib.antt =====
-- baobab-iam: the ledger that migrates identities to a new provider, the hook that decides the claims of
-- tokens, the gate that checks them at a workload, and the ledger and the use of federated trust.
--
-- A ledger row tells of one identity: where it comes from, its canonical identity, where it goes, and
-- the state of its migration. The service registers rows and moves them along a diagram of states; the
-- bridge walks a row to PROVISIONED and calls the provider on the way; the credential and verification
-- stages take it further; a batch registers what discovery finds. All of them reach the rows by the
-- store, a port, and are asked by a policy gate whether a move is allowed.
--
-- The files, and the code that each is about:
--   Base, Base/*            Go's `strings`, 64-bit integers, Boolean tests, list lemmas; Base/Members
--                           and Base/Words have lists of texts, prefixes, `Fields`, joins and splits
--   Result, Action          calls that return an error, and those that also change a store: what was
--                           written before an error stays written; Action/Along has the rules for a
--                           relation that every part of a call respects, Action/Done takes a
--                           call that succeeded apart
--   Provider/Specs          internal/provider/provider.go: requests and answers
--   Provider/Scopes         internal/provider/validate.go: NormalizeAllowedScopes
--   Provider/Validate       internal/provider/validate.go, provider.go: the checks on requests
--   Migration/Types         internal/migration/types.go: Record (here Row) and its enumerations;
--                           Migration/Texts has the texts of the constants
--   Migration/Validate      internal/migration/types.go: ValidateStructural, the scan for secrets
--   Migration/State         internal/migration/state.go: allowedTransitions, CanTransition, Transition
--   Migration/Store         internal/migration/store.go: the port with its contract (IsLawful);
--                           Store/Memory is internal/migration/memory.go
--   Migration/Service       internal/migration/service.go, policy.go: Register, ApplyTransition,
--                           SetTargetBinding, the policy gates
--   Migration/Ledger        the abstract specification: the steps of a ledger, what any number of
--                           them keeps (Ledger/History), and the service as such steps
--                           (Ledger/Refines)
--   Migration/Discovery     internal/migration/ports.go, discovery.go
--   Migration/Batch         internal/migration/batch.go: RegisterBatch
--   Migration/Bridge        internal/migration/bridge.go: Provision and all that it calls, and the
--                           construction of a bridge (Bridge/Construct)
--   Migration/Stages        internal/migration/credential.go, verification.go
--   Migration/Calls         sequences of calls of all of these but RegisterBatch on one ledger
--   Token                   internal/tokenprofile/profile.go: Config, Validate, Claims (Token/Profile), Sets,
--                           the commitment scopes (Token/Native) and the holds (Token/Hold)
--   Token/Human             internal/tokenprofile/human.go, consent_seal.go: the consent decision, its seal
--                           (Human/Seal) and the claims
--   Token/Request           internal/tokenprofile/request.go, response.go: a token request admitted, and
--                           its response
--   Resource                pkg/workloadresource/gate.go: New, Authorize (Resource/Gate), sameSet (Resource/Sets)
--   Federation/Types, Ports, Grammar, Validate   internal/federation/models.go, ports.go, validate.go
--   Federation/Ledger       internal/federation/trust_ledger.go: the transactions (Ledger/Tx), Propose,
--                           Decide, Transition, Containment; Ledger/Calls is sequences of its calls
--   Federation/Conditions, Consume   internal/federation/consume.go: the conditions, and Consume with what a
--                           decision stands on
--   Provider/Tests, Migration/Tests, Token/Tests, Resource/Tests, Federation/Tests
--                           runs on concrete inputs
--
-- How the code is read. A method with an error result is an `Action`: from a state of the world it
-- gives a result and the state after. The world `S` is a parameter, with the store, the clock and
-- whatever the provider keeps; a nil interface is `none`. A time is a number of nanoseconds. A Go
-- enumeration is its constants and `unlisted` for any other text. An attempt count is a signed 64-bit
-- integer that wraps. Nil receivers and contexts are left out, as is the text of an error: a
-- constructor of `Error` stands for each message. Go ranges over a map in no fixed order, an
-- association list in its own.
--
-- Parameters: the provider, the source of human traits, discovery and the resolver of canonical
-- identities (interfaces of which the implementations are HTTP clients), the mail address parser and
-- the `url.Parse` of Go's library, the hash in a batch row's id, the keyed hash of the consent seal, the
-- verifier, the issuer and the live authority of the resource gate, and the actors, targets, references
-- and platform that federation asks, the digest of a trust or of evidence, and random ids. Where a
-- theorem needs that such a call writes nothing to the ledger, it says so (LeavesLedger, LeavesStore);
-- the ports of the trust ledger may call it, as long as they leave its disk sound (PortsKeep).
--
-- The database of the trust ledger is the typed records that the code stores as JSON: a transaction
-- that fails leaves it as it was, and one may fail at any point (`broken`, `cancelled`). The encoding
-- and the decoding of JSON are left out, and so is an error of them.
--
-- Bounds: the loop of `advanceTo` runs on fuel 5, one more than the happy path has moves before
-- PROVISIONED. Every other loop is by recursion on a list.
--
-- Not modelled: the containment and the PostgreSQL store of internal/migration, the constructors of the
-- stages; of internal/federation the approval ledger, DecodeBundle, the broker, the transport and the
-- storage; the HTTP and OIDC adapters of pkg/workloadresource; internal/nativebff, internal/humanauth,
-- and the adapters of Kratos, Hydra and Keycloak, which are HTTP clients; cmd is the wiring of all these.
pub mod Base
pub mod Result
pub mod Action
pub mod Provider
pub mod Token
pub mod Resource
pub mod Federation
pub mod Migration
