-- ===== src/Nanos.antt =====
-- The nano service (app/modules/nanos/service.py).
pub mod Access
pub mod Aggregation
pub mod Metrics
pub mod Median
pub mod Ratings
pub mod RatingCache
pub mod Sanitize
pub mod Comments
pub mod Flags
pub mod Status
pub mod Workflow
pub mod Transitions
pub mod Permitted
pub mod Removal
pub mod Download
pub mod Views
pub mod Reading
pub mod Feedback
pub mod Metadata
pub mod Ranks
pub mod Categories
