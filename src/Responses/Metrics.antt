-- ===== src/Responses/Metrics.antt =====
-- The counters of discussions and participants under `createResponseForDiscussion`.
pub mod Posting
pub mod Contributions
pub mod Counters
