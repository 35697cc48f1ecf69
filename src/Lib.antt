-- ===== src/Lib.antt =====
-- The loan platform: services behind a gateway, and the packages/common that they share.
--
-- A request enters through apps/api-gateway, which routes it, finds its user, and limits its rate.
-- It reaches apps/user-service (accounts and tokens), apps/lead-service (loan applications and
-- their KYC documents) or apps/ai-orchestrator. Every change of status of a lead is an event on a
-- Kafka topic, which user-service and apps/banking-adapter-mock consume; the latter plays the
-- partner bank, answers through the routes of lead-service, and mails the applicants.
--
-- Prelude is the shared vocabulary: library names, Boolean tests and list functions over the
-- native numbers. Common is packages/common/src: roles, callers, events; Common/Filter is the
-- exception filter that the services hold in the same words, and Common/Validation what the DTO
-- classes use of class-validator, as a parameter with the documented laws of the decorators.
--
-- Config is src/config/configuration.ts of every service, one module each, on readings of single
-- variables (Env), of numbers (Numbers) and of lists (Lists). The proofs are in Required, Written,
-- Numbers and Lists.
--
-- Store is one table behind the Prisma client, a record of operations and laws that the services
-- take as a parameter; Store/ListTable is a table that is a list. Pagination is the listing that
-- LeadsService.list and UsersService.list share.
--
-- Leads is apps/lead-service. Leads itself holds the rows of prisma/schema.prisma, the state and
-- the errors; StateMachine is src/leads/state-machine, Service and Listing are
-- src/leads/leads.service.ts (create, find_accessible_or_throw, transition, mark_kyc_uploaded,
-- update_status, list), Kyc is src/kyc/kyc.service.ts, Storage is src/kyc/storage, and Api holds
-- the routes with their roles. Requests is the caller of a request (src/auth, src/common/guards)
-- and the body of an answer, Bodies the DTO classes, and Http a whole request: its token, its
-- roles, its fields and file, its handler and the status of its answer. The proofs are in
-- Transitions (the state machine), Moves and Progress (one change of status), Creation, Audit (the
-- history), Scores (the contents of the rows), Uploads, Events (the history and the topic), Topic
-- (the messages on the topic, with src/kafka/kafka-producer.service.ts), Race (two overlapping
-- changes), Terminal (leads that nobody moves any more), Interleaving (requests that overlap in
-- any way, and events that are handed over late), Keeps (what every request keeps), Refusals
-- (answers from 400 to 499) and Amounts.
--
-- Users is apps/user-service. Accounts is src/users/users.service.ts, Email its normalisation,
-- Tokens src/auth/token.service.ts, Auth src/auth/auth.service.ts with the handlers of
-- auth.controller.ts, the JWT strategy and the roles guard, Cookies the cookies of that controller
-- and a browser behind the gateway, Bodies the DTO classes, Assignable the roles of
-- src/common/enums/role.enum.ts that can be given, Api src/users/users.controller.ts, and Http a
-- whole request to either controller. The proofs are in Families and Replay (refresh tokens),
-- LockOut, Registration, Race (overlapping rotations), and Refusals and Answers (answers from 400
-- to 499).
--
-- Gateway is apps/api-gateway. Routes is src/proxy/route-table.ts, RateLimit is src/rate-limit
-- with its Lua script over an interface for the sorted sets of Redis, and Pipeline is
-- src/proxy/gateway.middleware.ts with src/auth, Answer is what the same middleware answers
-- itself, and Dashboard is src/proxy/dashboard. The proofs are in Segments, Window, Limit, Log
-- (the abstract limiter, a log of instants), RetryAfter, Admission and Retry.
--
-- Banking is apps/banking-adapter-mock. Messages is the shape guard, Funding the decision of the
-- bank, Handoff its calls of lead-service, Notifications the mails, Consumer what a message comes
-- to, here and in user-service, Projection what the messages make of an account there, Redelivery
-- the dead letters of user-service, and Services the consumer with the two services that it asks.
--
-- Ai is apps/ai-orchestrator. Underwriting is src/tier2-underwriting/graph, Queries the templates
-- of its node db-agent, Cosine and Cache are src/tier1-qa with its semantic cache, Vectors is
-- src/rag, Snapshot is the client of lead-service with that service behind it, Tracing is
-- src/telemetry, and Api holds the routes. The proofs are in Runs, Hits, Best (the winner of a
-- lookup), Nearest (the similarity search), Ingestion and Api; Sorting shows that the laws asked
-- of the search can hold.
--
-- The columns of lead-service that hold the id of a caller have the type uuid: a row with another
-- text is refused by the table, as PostgreSQL does. Of the uuids only the code units of their
-- texts are known. The pages of a listing have the size that LIMIT and OFFSET give them and rows
-- of the filter; which rows stand on which page is left open, as the order of the queries does not
-- settle it. The similarity search goes through an approximate index: that its rows are the
-- nearest is not assumed. A token is verified at the instant of its request, so that it can expire
-- between two requests.
--
-- A handler is a function from the state to a result and the new state, with the values that the
-- database, the clock and chance make up as arguments. A function that the source splits over an
-- await on another party is split here too: transition takes the lead that was read, and the
-- hand-off decides on one state and resolves on a later one. Two requests overlap where the second
-- works with a row that was read before the first wrote. A committed change of status and the
-- handing over of its event are two functions, which a request runs one after the other;
-- Interleaving lets other requests in between. All recursion is structural, but for the decimals
-- of a number, whose fuel is the number itself, as each digit makes it smaller.
--
-- Parameters are the Prisma client, Redis, argon2, the JWT library, the hash of tokens, the
-- language models, the embeddings and the text splitter, PostgreSQL with pgvector, floating-point
-- arithmetic, of which only the order has laws, class-validator, the cookies that a browser
-- chooses to send, and the SMTP server. The clocks of the gateway's replicas and of Redis are
-- taken to agree, and instants in milliseconds are natural numbers. Letters outside ASCII are not
-- folded in e-mail addresses. Not modelled: the validation of the bodies of ai-orchestrator, most
-- of the logging, the connection to Kafka with its retries (a publish of a lead event that fails
-- after all its retries loses the event), the messages of the registrations, what the partitions
-- of the topic make of the order of messages, the wording of prompts, the rounding of numbers
-- above 2^53, the wiring of modules, and requests that interleave inside one transaction or
-- between the two writes of a creation.
--
-- The modules whose names end in Examples hold small runs and the theorems at those runs.
pub mod Prelude
pub mod Common
pub mod Config
pub mod Store
pub mod Pagination
pub mod Leads
pub mod Users
pub mod Ai
pub mod Banking
pub mod Gateway
