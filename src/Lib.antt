-- ===== src/Lib.antt =====
-- A model of the services of ReasonBridge, a platform for structured discussions, and theorems about
-- it. The code is TypeScript on NestJS; state is kept in PostgreSQL through the Prisma client.
--
-- Parts, and the files that model them:
-- - Moderation.antt and below: services/moderation-service. Types has the rows of the tables
--   ModerationAction and Appeal and the state of the service; Actions has the operations of
--   services/moderation-actions.service.ts, Appeals those of services/appeal.service.ts, AiReview
--   those of services/ai-review.service.ts; Service has all of them as the requests of one history.
--   Machine states the state machines of a moderation action and of an appeal as step relations,
--   and Machine/Writes, ActionSteps, AppealSteps, AiSteps and Lifecycle relate the operations to
--   them; Bans is about bans and appeals against them.
-- - Votes.antt and below: services/discussion-service/src/votes.
-- - Alignments.antt and below: services/discussion-service/src/alignments, the stances of users on
--   propositions and the aggregates that are stored with a proposition.
-- - Resilience.antt and below: services/api-gateway/src/resilience/retry.util.ts and
--   services/discussion-service/src/utils/optimistic-lock-handler.ts.
-- - RateLimiter.antt and below: services/user-service/src/middleware/rate-limiter.middleware.ts.
-- - Trust.antt and below: services/user-service/src/services/trust-score.calculator.ts.
-- - BotDetector.antt and below: services/user-service/src/services/bot-detector.service.ts.
-- - Moderation/Queue.antt and below: the review queue of
--   services/moderation-service/src/services/moderation-queue.service.ts, without its metrics.
-- - DeadLetters.antt and below: packages/common/src/events/DeadLetterQueueHandler.ts.
-- - Subscriber.antt and below: packages/common/src/events/EventSubscriber.ts.
-- - Responses.antt and below: the responses of a discussion, of
--   services/discussion-service/src/responses/responses.service.ts. The loop over the parents of a
--   response runs on fuel, one more round than there are responses.
-- - Citations.antt and below: services/discussion-service/src/utils/ssrf-validator.ts.
-- - Slugs.antt and below: services/discussion-service/src/topics/slug-generator.service.ts. The digits of
--   a number run on fuel, 53 digits for a number of at most 53 bits.
-- - Verification.antt and below: services/user-service/src/verification/verification.service.ts, without
--   the re-verification and the video challenges.
-- - Topics.antt and below: updateTopicStatus, updateTopic, mergeTopics and rollbackTopicMerge of
--   services/discussion-service/src/topics/topics.service.ts; IdSet.antt is a Set of identifiers.
-- - TopicResponses.antt and below: createResponse and updateResponse of
--   services/discussion-service/src/responses/responses.service.ts.
-- - Discussions.antt and below: createDiscussion of
--   services/discussion-service/src/discussions/discussions.service.ts, on the tables of Responses, with
--   the runs of requests that open discussions, respond and reply; and softDelete of
--   services/discussion-service/src/prisma/extensions/soft-delete.ts.
-- - Clusters.antt and below: services/discussion-service/src/services/proposition-clusterer.service.ts.
-- - Divergence.antt and below: services/discussion-service/src/services/divergence-point.service.ts.
-- - Onboarding.antt and below: services/user-service/src/onboarding/onboarding.service.ts, with the
--   repositories of the progress and of the interests that it calls.
-- - Exec.antt: asynchronous service methods as actions on an explicit state, with the exceptions as
--   values. Database.antt: the interface of a table, with the lemmas on rows below it. Prelude.antt:
--   tests, lists, strings and integers; Totals.antt: counts and sums over lists.
--
-- A service method `fooBar` is the definition `foo_bar`, a Prisma model or a DTO a record with the
-- fields that the code reads or writes, an enum a data type. The parts share the interface of
-- tables and the exceptions, and few tables: Discussions stands on those of Responses, and
-- Onboarding on the
-- topics of Discussions.
--
-- The database client is not part of the repository. It is a parameter, the record `Table`: the
-- operations on a table with the documented effect of each on the rows it holds, where a row is
-- created with a fresh primary key and a violated unique constraint is an error; a foreign key is
-- checked
-- where a request can name a row that is not stored (Onboarding, TopicResponses). Database/Memory
-- shows that a list in memory meets it, and all examples run on that. The event queue is a parameter
-- as well, which may fail; a failure is caught where the code catches it.
--
-- Keys (UUIDs) are numbers, since the code only compares them; times are milliseconds, handed to
-- each operation as its `Date.now()`; strings are lists of UTF-16 code units, and lower case is
-- that of the ASCII letters. A service method runs alone, from its first statement to its last:
-- histories interleave whole requests.
-- Numbers that the code keeps in floating point (consensus scores, delays with jitter) are exact,
-- in units
-- that the files name; those of the trust scores are a parameter with the laws of rounding that are
-- used.
-- Recursion is structural: on a list of requests, of rows, or, for the loops of retries, on the
-- attempts that are left, whose number is that of the
-- configuration. Fuel stands for three loops: the one over the parents of a response, which
-- Responses/Depth
-- shows to end where parents are stored before replies; the merging of clusters, which Clusters/Merging
-- shows to end in as many rounds as there are propositions; and the digits of a number, where 53 are
-- enough for the 53 bits of an integer, and 17 for a wait time of less than 10^17 milliseconds.
--
-- Not modelled: the controllers and modules of the framework, the paged lists, statistics and
-- analytics of the moderation service and its screening of content by patterns, the creation and
-- the tags
-- of topics, the triggers and exports of the analysis of common ground, authentication,
-- notifications and
-- recommendations, the front end and the infrastructure. The circuit breaker of the gateway is that of a
-- library, and the rest is mostly calls of other services and reads and writes of single rows.
pub mod Prelude
pub mod Exec
pub mod Database
pub mod Totals
pub mod IdSet
pub mod Divergence
pub mod Clusters
pub mod Discussions
pub mod Onboarding
pub mod Moderation
pub mod Verification
pub mod Votes
pub mod TopicResponses
pub mod Topics
pub mod Trust
pub mod Citations
pub mod Responses
pub mod Slugs
pub mod Subscriber
pub mod DeadLetters
pub mod BotDetector
pub mod RateLimiter
pub mod Resilience
pub mod Alignments
