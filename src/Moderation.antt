-- ===== src/Moderation.antt =====
-- services/moderation-service: moderation actions on responses, users and topics, also those that the AI
-- recommends, the appeals against them (Types to Bans), and the queue in which moderators review both (Queue).
pub mod Types
pub mod Actions
pub mod Appeals
pub mod AiReview
pub mod Service
pub mod Machine
pub mod Lifecycle
pub mod Bans
pub mod Queue
mod Examples
