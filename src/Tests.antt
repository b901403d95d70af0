-- ===== src/Tests.antt =====
-- Tests and examples on a small market.
mod Data
mod Workflow
mod Moderated
mod Feedback
mod Metrics
mod Download
mod Throttle
mod Tokens
mod Join
mod Parcel
mod Spam
mod Talk
mod Backlog
mod Career
mod Intruder
