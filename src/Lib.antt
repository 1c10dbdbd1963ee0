-- ===== src/Lib.antt =====
-- The platform is a set of services around an API gateway that issue and verify credentials for
-- organisations. This library models the parts of it that decide: which index of a revocation list a
-- credential gets, what a credential offer holds and an issuer publishes, when a proof's verdict is
-- handed out, how many offers are in flight, who may call a route, and what the marketplace is billed
-- and allowed. Paths are from the repository's root.
--
-- Status lists. StatusList is the bitmap allocator `RandomBitmapIndexAllocator` and StatusService the
-- transactions around it, both of apps/oid4vc-issuance/src/status-list-allocator.service.ts. The
-- allocator is a record of its bytes, its capacity and its count; `allocate`, `release` and
-- `isIndexAllocated` are functions that return a new allocator or an error. The service reads a row,
-- builds the allocator from it and writes it back, over a table that is the record `Prisma` of
-- StatusService/Table. A random draw is a function from the number of the call and the bound.
-- StatusList/Refinement states the allocator's contract as an abstract machine over a set of indexes.
--
-- Credential offers, apps/oid4vc-issuance/libs/helpers. Template holds the templates, and
-- Template/Payload the check of a payload (`validatePayloadAgainstTemplate`); Offer, Offer/Build,
-- Offer/Disclosure and Offer/Envelope are credential-sessions.builder.ts, from the dates and signers up
-- to `buildCredentialOfferPayload`; Metadata is issuer.metadata.ts. An offer names configurations of the
-- metadata that is built from the same templates. CredentialSchema is the builder of W3C schemas
-- (apps/ledger/libs/helpers/w3c.schema.builder.ts) and IssuanceAttributes the check of attributes
-- against a schema (apps/issuance/libs/helpers/attributes.validator.ts). Helpers holds the pages of a
-- list and the ledger of a DID (libs/common/src/common.utils.ts), and Exceptions the status and message
-- of whatever was thrown (libs/common/src/exception-normalisation.ts). Values of JSON are the data
-- type of Common/Json; an exception is a value of a result type.
--
-- Response codes. ResponseCode is `ProofResponseCodeService` of
-- apps/verification/src/response-code/proof-response-code.service.ts, with the verdicts of
-- redirect-uri.util.ts beside it and `getProofCallbackResult` of
-- apps/verification/src/verification.service.ts. The store is the record `Redis` of
-- ResponseCode/Store, in which a key expires. ResponseCode/Interleaving runs the steps of any number of
-- clients in any order, where each command or script of Redis is one step. Redirect is the decision of
-- redirect-uri.util.ts where a wallet may be sent back to, with the parser of URLs as an argument.
--
-- Issuance. Admission is `IssuanceAdmissionQueue` of apps/issuance/src/issuance-admission.queue.ts: the
-- permits of one process, as a system whose events are arrivals, timers and ends of operations.
-- Coordinator is `IssuanceWorkCoordinator` of apps/issuance/src/issuance-work.coordinator.ts: the slots
-- that all processes share (the scripts ACQUIRE, ACTIVATE and RELEASE), the guard of a row of a bulk
-- file, the completion of a batch with the expiry of its set, with `issuanceDeadline` of libs/context/src/issuanceDeadline.ts.
-- Coordinator/Permit is the loop of `acquireAndRun` around those scripts, with `releasePermit`, as the
-- steps that it takes; any call of the store may throw. A worker passes the queue of its process first and takes a shared slot next.
--
-- Access. Guards is apps/api-gateway/src/authz/guards: a guard maps the roles that a route names and the
-- request to a verdict, an exception or a TypeError; what a client sends as `orgId` in the query or the
-- body is any value of JSON. Guards/Swagger is the filter of the published
-- interface. Token is `validate` of apps/api-gateway/src/authz/jwt.strategy.ts, which builds the user
-- that the guards read.
--
-- Marketplace, apps/marketplace/src. Metering is services/metering.service.ts and the counters of
-- `getUsageSummary` in marketplace.service.ts; Entitlement is services/entitlement.service.ts;
-- Onboarding is `linkAccount` and `linkOrganization` of marketplace.service.ts over the database of
-- Onboarding/Repository; Activation is `activateSubscription` of marketplace.service.ts, in which any
-- call may throw, and services/reconciliation.service.ts, over tables; Webhook is
-- services/webhook.service.ts, as the calls that it makes, any of which may throw. What is
-- metered is the usage beyond a plan; what an organisation may use depends on the subscription that
-- the onboarding linked to it.
--
-- Ecosystems. Ecosystem is what apps/ecosystem/src/ecosystem.service.ts does with invitations and
-- memberships, over the tables of apps/ecosystem/repositories/ecosystem.repository.ts: the calls for
-- members in Ecosystem/Invitations, those for new ecosystems in Ecosystem/Creation, any sequence of them in
-- Ecosystem/Service. Ecosystem/Change is an abstract machine of what may happen to the tables. What the
-- other services answer is an argument of each call.
--
-- Parameters. A store, a database or a package is a record of operations with their documented laws,
-- and each has an instance in the library (StatusService/ListTable, ResponseCode/MapStore,
-- Coordinator/MapHash, Onboarding/TableRepository). `trim`, `toLowerCase`, the check of a UUID, the
-- parser of URLs, the codec of JSON and the random source are arguments. Common holds the names and
-- lemmas that the parts share; a part's Tests hold its runs at concrete inputs.
--
-- Bounds. Integers of the database and byte values are natural numbers; a byte is less than 256 by an
-- invariant. Loops over bytes, rounds, chunks of 2000 keys and batches of 25 events run on fuel: the
-- rounds of the source's counter, or the length of the list, which each round shortens; the theorems
-- about them hold for that fuel. The wait for a slot runs on one round for each millisecond until the
-- deadline and one more, which is enough since each round lasts a millisecond. Times are numbers in the
-- unit of their clock. A number of JSON is a natural number, which no part reads further.
--
-- Not modelled. The controllers, the messages between services, logging, mail and other pure input and
-- output; the agents, the ledgers and Keycloak, which are other systems; the seed scripts and data
-- types without logic. Of the services named above: the contexts of a request and of a bulk job,
-- `resolveSubscription`, the fixed envelope of a W3C schema, the joining of query strings, the
-- verification of tokens by packages, the intents, templates and notices of ecosystems, and single calls
-- of the database.
pub mod Common
pub mod StatusList
pub mod StatusService
pub mod ResponseCode
pub mod Admission
pub mod Coordinator
pub mod Guards
pub mod Metering
pub mod Entitlement
pub mod Onboarding
pub mod Webhook
pub mod Redirect
pub mod Template
pub mod Offer
pub mod Metadata
pub mod CredentialSchema
pub mod Activation
pub mod Token
pub mod IssuanceAttributes
pub mod Helpers
pub mod Exceptions
pub mod Ecosystem
