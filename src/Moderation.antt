-- ===== src/Moderation.antt =====
-- The moderation service (app/modules/moderation/service.py).
pub mod Cases
pub mod Upsert
pub mod Content
pub mod Backfill
pub mod Queue
pub mod Coverage
pub mod Filled
pub mod Complete
pub mod Review
pub mod Decisions
pub mod Outcomes
pub mod Unmoved
